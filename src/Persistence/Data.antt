-- ===== src/Persistence/Data.antt =====
-- persistence/persister.go: what the persister keeps of a session, and the messages that it records.
use acpp.Prelude.{Bytes, ℕ, Bool, Option}
use acpp.Types.{SessionOpts}
use acpp.Db.Map.{Map}
use acpp.Db.MemStore.{MemStore, StatusInfo}
use acpp.Persistence.Meta.{Fields}

-- `sessionState`
pub record SessionTrack (C : Type 0) : Type 0 where
  pub info : StatusInfo C
  pub last_model : Bytes
  pub prompt_start : ℕ
  pub timing : Bool

pub record Persister (C : Type 0) : Type 0 where
  pub store : MemStore C
  pub track : Map (SessionTrack C)

-- The parts of a session update that are observed.
pub record UsageUpdate (C : Type 0) : Type 0 where
  pub size : ℕ
  pub used : ℕ
  pub cost : Option C

pub record SessionUpdate (C : Type 0) : Type 0 where
  pub agent_message_chunk : Option (Fields C)
  pub usage_update : Option (UsageUpdate C)

-- `Usage` of a prompt response.
pub record TurnUsage : Type 0 where
  pub input_tokens : ℕ
  pub output_tokens : ℕ
  pub cached_read_tokens : Option ℕ
  pub cached_write_tokens : Option ℕ

pub record PromptResponse (C : Type 0) : Type 0 where
  pub meta : Fields C
  pub usage : Option TurnUsage

-- The messages that are recorded, with what the caller marshalled; `conversation_created` has the
-- options that the router knows.
pub data Message (C : Type 0) : Type 0 where
  conversation_created : SessionOpts → Bytes → Message C
  new_session : Bytes → Message C
  notification : Bytes → Bytes → SessionUpdate C → Message C
  prompt_request : Bytes → Message C
  prompt_response : PromptResponse C → Message C
  conversation_replaced : Bytes → Message C
  conversation_closed : Bytes → Bytes → Message C
  conversation_adopted : Message C
