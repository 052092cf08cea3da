-- ===== src/Types.antt =====
-- types/: the records that the components hand to one another.
use acpp.Prelude.{Bytes, ℕ, List}

pub record ConversationMeta : Type 0 where
  pub project_id : Bytes
  pub process_pid : ℕ
  pub conversation_id : Bytes
  pub session_id : Bytes

-- A pre-built sandbox, which a caller may also hand over, is left out.
pub record SessionOpts : Type 0 where
  pub project_id : Bytes
  pub agent : Bytes
  pub cwd : Bytes
  pub env : List Bytes
  pub source : Bytes
  pub sandbox_type : Bytes
  pub sandbox_profiles : Bytes
  pub ro_binds : List Bytes
  pub rw_binds : List Bytes
  pub resume_session_id : Bytes
  pub location : Bytes
