-- ===== src/Tests/Persistence.antt =====
-- persistence/: the theorems at concrete sessions.
use acpp.Prelude.{codes, text_eq, ℕ, ◌+◌, ◌-◌, ◌/◌, ◌==◌, add64, ◌≡◌, refl, none, some, []}
use acpp.Types.{SessionOpts}
use acpp.Db.Map.{lookup, insert}
use acpp.Db.MemStore.{SessionRow, new_mem_store}
use acpp.Db.MemStore.Sessions.{with_status}
use acpp.Persistence.Meta.{Floats, end, extract_usage_from_meta}
use acpp.Persistence.{
  adopt, finish, or_no_track, receive, begin_turn, end_turn, finish, begun, ended, has_tokens,
}
use acpp.Persistence.Data.{SessionTrack, Persister, PromptResponse, conversation_created}
use acpp.Persistence.Turn.{lasted, turn_lem, late_response}
use acpp.Persistence.Totals.{over, adopt-finish}

-- Costs and numbers are whole.
abbrev whole : Floats ℕ
whole = record { zero_cost = 0; plus = λ a b. a + b; is_zero = λ a. a == 0; to_int64 = λ a. a }

abbrev options : SessionOpts
options = record {
  project_id = codes "p";
  agent = codes "claude";
  cwd = codes "/src";
  env = [];
  source = codes "web";
  sandbox_type = [];
  sandbox_profiles = [];
  ro_binds = [];
  rw_binds = [];
  resume_session_id = [];
  location = [];
}

-- A response of 12 tokens in and 7 out.
abbrev answer : PromptResponse ℕ
answer = record {
  meta = end;
  usage = some (record {
    input_tokens = 12;
    output_tokens = 7;
    cached_read_tokens = none;
    cached_write_tokens = some 3;
  });
}

abbrev silent : PromptResponse ℕ
silent = record { meta = end; usage = none }

abbrev new_persister : Persister ℕ
new_persister = record { store = new_mem_store; track = [] }

abbrev open_persister : Persister ℕ
open_persister = receive whole new_persister 100 (codes "s") (conversation_created options [])

-- After one turn: 12 tokens in.
abbrev turned : Persister ℕ
turned = end_turn whole (begin_turn whole open_persister 200 (codes "s")) 5000200 (codes "s") answer

abbrev first_row : SessionRow ℕ
first_row = record {
  id = codes "s";
  acp_session_id = [];
  source_name = codes "web";
  agent = codes "claude";
  dir = codes "/src";
  sandbox = [];
  node = [];
  git_commit = [];
  project_name = codes "p";
  env = [];
  status = codes "pending";
  error_msg = [];
  model = [];
  sdk_version = [];
  pid = 0;
  input_tokens = 0;
  output_tokens = 0;
  cache_creation_input_tokens = 0;
  cache_read_input_tokens = 0;
  context_used = 0;
  context_window = 0;
  cost_usd = 0;
  prompt_count = 0;
  prompt_duration_ms = 0;
  created_at = 100;
  finished_at = none;
}

started_row : lookup open_persister.store.sessions (codes "s") ≡ some first_row
unfolding lookup receive insert text_eq new_mem_store
started_row = refl

adopt-finish_example :
    lookup (adopt whole open_persister (codes "s")).store.sessions (codes "s")
      ≡ some (record first_row { status = codes "pending"; error_msg = []; finished_at = none })
    × lookup
        (finish whole (adopt whole open_persister (codes "s")) 900 (codes "s") []).store.sessions
        (codes "s")
      ≡ some (over 900 [] first_row)
unfolding text_eq
adopt-finish_example =
    adopt-finish whole open_persister 900 (codes "s") [] first_row refl started_row

abbrev fresh : SessionTrack ℕ
fresh = or_no_track whole (lookup open_persister.track (codes "s"))

turn_lem_example :
    let q =
      end_turn whole (begin_turn whole open_persister 200 (codes "s")) 5000200 (codes "s") answer in
    let st = ended whole (begun 200 fresh) answer in
    lookup q.store.sessions (codes "s")
      ≡ some (with_status (lasted ((5000200 - 200) / 1000000) first_row) st.info)
    × (lookup q.track (codes "s") ≡ some st
        × (st.info.status ≡ codes "running"
            × st.info.usage.prompt_count ≡ add64 fresh.info.usage.prompt_count 1))
unfolding text_eq or_no_track lookup receive insert
turn_lem_example =
    turn_lem whole (codes "s") refl open_persister 200 5000200 answer first_row fresh started_row
      refl

late_response_example :
    let q =
      end_turn whole (finish whole turned 6000000 (codes "s") []) 7000000 (codes "s") silent in
    (row : SessionRow ℕ) × (lookup q.store.sessions (codes "s") ≡ some row
      × (row.status ≡ codes "running"
          × (row.finished_at ≡ some 6000000
              × (row.prompt_count ≡ 1 × (row.input_tokens ≡ 0 × row.output_tokens ≡ 0)))))
unfolding text_eq has_tokens extract_usage_from_meta
late_response_example =
    late_response whole (codes "s") refl turned 6000000 7000000 [] silent
      (with_status (lasted ((5000200 - 200) / 1000000) first_row)
        (ended whole (begun 200 fresh) answer).info)
      turn_lem_example.0 refl refl
