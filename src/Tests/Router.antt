-- ===== src/Tests/Router.antt =====
-- router/scheduler.go: the theorems at a concrete job.
use acpp.Prelude.{codes, text_eq, ◌≡◌, refl, true, false, none, some, [], ◌∷◌}
use acpp.Db.Map.{lookup}
use acpp.Types.{ConversationMeta}
use acpp.Router.Scheduler.{ScheduledJob, World, new_scheduler, is_running, submit}
use acpp.Router.Scheduler.Late.{first_closed, second_waits, late_failure_frees}

abbrev job : ScheduledJob
job = record {
  name = codes "daily";
  prompt = codes "daily.md";
  schedule = codes "@daily";
  dir = codes "/src";
  agent = [];
  sandbox = [];
  sandbox_profiles = [];
  permission = [];
  hooks = [];
  env = [];
  reuse_session = false;
}

abbrev first_meta : ConversationMeta
first_meta = record {
  project_id = codes "daily";
  process_pid = 1;
  conversation_id = codes "c1";
  session_id = codes "s1";
}

abbrev second_meta : ConversationMeta
second_meta = record {
  project_id = codes "daily";
  process_pid = 1;
  conversation_id = codes "c2";
  session_id = codes "s2";
}

-- Every call succeeds.
abbrev world : World
world = record {
  read_file = λ path. some (codes "go");
  has_router = true;
  default_agent = codes "claude";
  default_sandbox = codes "none";
  resolve_agent = λ agent. agent;
  create = λ o. some first_meta;
  active = λ id. true;
  wait_ready = λ m. some m;
  send = λ m prompt. true;
}

other_id : text_eq first_meta.conversation_id second_meta.conversation_id ≡ false
unfolding text_eq
other_id = refl

late_failure_frees_example :
    let r =
      submit world
        (second_waits new_scheduler job first_meta second_meta)
        first_meta
        job
        (codes "go")
        none in
    is_running (first_closed new_scheduler job first_meta) job.name ≡ false
    × (is_running (second_waits new_scheduler job first_meta second_meta) job.name ≡ true
        × (is_running r.0.0 job.name ≡ false
            × lookup r.0.0.inflight second_meta.conversation_id ≡ some job))
late_failure_frees_example =
    late_failure_frees world new_scheduler job first_meta second_meta (codes "go") other_id

abbrev job_with_env : ScheduledJob
job_with_env = record job { agent = codes "claude"; env = codes "A=1" ∷ codes "B=2" ∷ [] }
