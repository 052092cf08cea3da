-- ===== src/Db/MemStore.antt =====
-- db/memstore.go, with the rows of db/store.go and the status of types/iface.go. `C` is the type of
-- a cost, the source's float64, which the store only keeps. Times are nanoseconds since the zero time.
-- An operation that reads the clock takes what it reads. The mutex makes each operation atomic.
pub mod Sessions
pub mod Logs
pub mod Projects
pub mod Listing
pub mod Valid
pub mod Startup
pub mod Run
pub mod LogIds
pub mod Rows
pub mod Stats
use acpp.Prelude.{Bytes, ℕ, Option, List, []}
use acpp.Db.Map.{Map}

pub record UsageInfo (C : Type 0) : Type 0 where
  pub input_tokens : ℕ
  pub output_tokens : ℕ
  pub cache_creation_input_tokens : ℕ
  pub cache_read_input_tokens : ℕ
  pub context_window : ℕ
  pub context_used : ℕ
  pub cost_usd : C
  pub prompt_count : ℕ

-- The fields of a status that the store reads.
pub record StatusInfo (C : Type 0) : Type 0 where
  pub status : Bytes
  pub sdk_version : Bytes
  pub model : Bytes
  pub pid : ℕ
  pub usage : UsageInfo C

pub record SessionRow (C : Type 0) : Type 0 where
  pub id : Bytes
  pub acp_session_id : Bytes
  pub source_name : Bytes
  pub agent : Bytes
  pub dir : Bytes
  pub sandbox : Bytes
  pub node : Bytes
  pub git_commit : Bytes
  pub project_name : Bytes
  pub env : Bytes
  pub status : Bytes
  pub error_msg : Bytes
  pub model : Bytes
  pub sdk_version : Bytes
  pub pid : ℕ
  pub input_tokens : ℕ
  pub output_tokens : ℕ
  pub cache_creation_input_tokens : ℕ
  pub cache_read_input_tokens : ℕ
  pub context_used : ℕ
  pub context_window : ℕ
  pub cost_usd : C
  pub prompt_count : ℕ
  pub prompt_duration_ms : ℕ
  pub created_at : ℕ
  pub finished_at : Option ℕ

pub record LogRow : Type 0 where
  pub id : ℕ
  pub session_id : Bytes
  pub event_type : Bytes
  pub payload : Bytes
  pub created_at : ℕ

pub record ProjectRow : Type 0 where
  pub name : Bytes
  pub agent : Bytes
  pub dir : Bytes
  pub sandbox : Bytes
  pub sandbox_profiles : Bytes
  pub sandbox_env : Bytes
  pub permission : Bytes
  pub env : List Bytes
  pub repo : Bytes
  pub hooks : Bytes
  pub location : Bytes
  pub created_at : ℕ
  pub updated_at : ℕ

pub record MemStore (C : Type 0) : Type 0 where
  pub sessions : Map (SessionRow C)
  pub logs : List LogRow
  pub projects : Map ProjectRow
  pub log_seq : ℕ

pub data Error : Type 0 where
  session_not_found invalid_project_field : Bytes → Error
  log_not_found : ℕ → Error

unfoldable pub new_mem_store : {C : Type 0} → MemStore C
new_mem_store = record { sessions = []; logs = []; projects = []; log_seq = 0 }

-- A project row with nothing set but its name.
unfoldable pub named_project : Bytes → ℕ → ℕ → ProjectRow
named_project name created updated = record {
  name = name;
  agent = [];
  dir = [];
  sandbox = [];
  sandbox_profiles = [];
  sandbox_env = [];
  permission = [];
  env = [];
  repo = [];
  hooks = [];
  location = [];
  created_at = created;
  updated_at = updated;
}
