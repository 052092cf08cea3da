-- ===== src/Router/Scheduler.antt =====
-- router/scheduler.go. What the scheduler calls, its `conversations` interface, the prompt file and
-- the agent path, answers from a `World`. A step is what runs under the mutex or between two locks.
pub mod Turn
pub mod Late
pub mod Upsert
use acpp.Prelude.{
  Bytes, codes, text_eq, Bool, true, false, ◌&&◌, Option, none, some, List, [], ◌∷◌, if◌then◌else◌,
}
use acpp.Types.{ConversationMeta, SessionOpts}
use acpp.Db.Map.{Map, lookup, insert, remove}

pub record ScheduledJob : Type 0 where
  pub name : Bytes
  pub prompt : Bytes
  pub schedule : Bytes
  pub dir : Bytes
  pub agent : Bytes
  pub sandbox : Bytes
  pub sandbox_profiles : Bytes
  pub permission : Bytes
  pub hooks : Bytes
  pub env : List Bytes
  pub reuse_session : Bool

pub record Scheduler : Type 0 where
  pub running : Map Bool
  pub reusable : Map ConversationMeta
  pub inflight : Map ScheduledJob

-- `none` is an error of the call.
pub record World : Type 0 where
  pub read_file : Bytes → Option Bytes
  pub has_router : Bool
  pub default_agent : Bytes
  pub default_sandbox : Bytes
  pub resolve_agent : Bytes → Bytes
  pub create : SessionOpts → Option ConversationMeta
  pub active : Bytes → Bool
  pub wait_ready : ConversationMeta → Option ConversationMeta
  pub send : ConversationMeta → Bytes → Bool

-- What a subscriber of the router is told.
pub data Message : Type 0 where
  prompt_response response_error conversation_closed other : Message

-- What became of a tick: `sent` hands the job off to `receive`.
pub data Outcome : Type 0 where
  skipped no_prompt no_router not_created : Outcome
  failed : ConversationMeta → Outcome
  sent : ConversationMeta → Outcome

unfoldable pub new_scheduler : Scheduler
new_scheduler = record { running = []; reusable = []; inflight = [] }

-- A read of the `running` map.
holds : Option Bool → Bool
holds none = false
holds (some b) = b

unfoldable pub is_running : Scheduler → Bytes → Bool
unfolding holds lookup
is_running s name = holds (lookup s.running name)

unfoldable pub mark_running : Scheduler → ScheduledJob → Scheduler
mark_running s job = record s { running = insert s.running job.name true }

unfoldable pub clear_running : Scheduler → ScheduledJob → Scheduler
clear_running s job = record s { running = remove s.running job.name }

unfoldable pub hand_off : Scheduler → ConversationMeta → ScheduledJob → Scheduler
hand_off s meta job = record s { inflight = insert s.inflight meta.conversation_id job }

-- The new state, and the conversations that are closed.
unfoldable pub finish :
    Scheduler → ConversationMeta → ScheduledJob → Scheduler × List ConversationMeta
finish s meta job = (
  record s {
    inflight = remove s.inflight meta.conversation_id;
    running = remove s.running job.name;
  },
  if job.reuse_session then [] else meta ∷ [],
)

unfoldable pub ends_turn : Message → Bool
ends_turn prompt_response = true
ends_turn response_error = true
ends_turn conversation_closed = true
ends_turn other = false

finish_found :
    Scheduler → ConversationMeta → Option ScheduledJob → Scheduler × List ConversationMeta
unfolding finish
finish_found s meta none = (s, [])
finish_found s meta (some job) = finish s meta job

unfoldable pub receive : Scheduler → ConversationMeta → Message → Scheduler × List ConversationMeta
unfolding finish_found ends_turn lookup
receive s meta msg =
    if ends_turn msg then finish_found s meta (lookup s.inflight meta.conversation_id) else (s, [])

unfoldable pub opts : ScheduledJob → Bytes → Bytes → SessionOpts
opts job agent sandbox_type = record {
  project_id = job.name;
  agent = agent;
  cwd = job.dir;
  env = job.env;
  source = codes "schedule";
  sandbox_type = sandbox_type;
  sandbox_profiles = job.sandbox_profiles;
  ro_binds = [];
  rw_binds = [];
  resume_session_id = [];
  location = [];
}

-- A new conversation is kept for a job that reuses it.
created : Scheduler → ScheduledJob → Option ConversationMeta → Scheduler × Option ConversationMeta
created s job none = (s, none)
created s job (some meta) = (
  (if job.reuse_session then record s { reusable = insert s.reusable job.name meta } else s),
  some meta,
)

-- The conversation to reuse, if it is still active.
kept_alive : World → Scheduler → ScheduledJob → Option ConversationMeta
unfolding lookup
kept_alive w s job =
    if job.reuse_session
    then elim (lookup s.reusable job.name) [
      | none ↦ none
      | some existing ↦ if w.active existing.conversation_id then some existing else none
    ]
    else none

reuse_or_create :
    World
    → Scheduler
    → ScheduledJob
    → SessionOpts
    → Option ConversationMeta
    → Scheduler × Option ConversationMeta
unfolding created
reuse_or_create w s job o (some existing) = (s, some existing)
reuse_or_create w s job o none = created s job (w.create o)

unfoldable pub acquire_conversation :
    World → Scheduler → ScheduledJob → Bytes → Bytes → Scheduler × Option ConversationMeta
unfolding reuse_or_create kept_alive opts
acquire_conversation w s job agent sandbox_type =
    reuse_or_create w s job (opts job agent sandbox_type) (kept_alive w s job)

or_default : Bytes → Bytes → Bytes
or_default x d = if text_eq x [] then d else x

-- The outcome, and the conversations that are closed.
gave_up :
    ConversationMeta
    → Scheduler × List ConversationMeta
    → (Scheduler × List ConversationMeta) × Outcome
gave_up meta r = (r, failed meta)

-- From the wait for the session on; `send` answers whether the prompt went out.
unfoldable pub submit :
    World
    → Scheduler
    → ConversationMeta
    → ScheduledJob
    → Bytes
    → Option ConversationMeta
    → (Scheduler × List ConversationMeta) × Outcome
unfolding gave_up finish
submit w s meta job prompt none = gave_up meta (finish s meta job)
submit w s meta job prompt (some ready) =
    if w.send ready prompt then ((s, []), sent meta) else gave_up meta (finish s meta job)

on_conversation :
    World
    → ScheduledJob
    → Bytes
    → Scheduler × Option ConversationMeta
    → (Scheduler × List ConversationMeta) × Outcome
unfolding submit hand_off clear_running
on_conversation w job prompt (s, none) = ((clear_running s job, []), not_created)
on_conversation w job prompt (s, some meta) =
    submit w (hand_off s meta job) meta job prompt (w.wait_ready meta)

-- The tick after its guard.
started :
    World → Scheduler → ScheduledJob → Option Bytes → (Scheduler × List ConversationMeta) × Outcome
unfolding on_conversation acquire_conversation clear_running or_default
started w s job none = ((clear_running s job, []), no_prompt)
started w s job (some prompt) =
    if w.has_router
    then on_conversation w job prompt (
        acquire_conversation w s job (w.resolve_agent (or_default job.agent w.default_agent))
          (or_default job.sandbox w.default_sandbox))
    else ((clear_running s job, []), no_router)

unfoldable pub run_job :
    World → Scheduler → ScheduledJob → (Scheduler × List ConversationMeta) × Outcome
unfolding started mark_running is_running
run_job w s job =
    if is_running s job.name
    then ((s, []), skipped)
    else started w (mark_running s job) job (w.read_file job.prompt)
