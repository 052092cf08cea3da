-- ===== src/Router/Conversations.antt =====
-- router/router.go and router/adopt.go: the conversations. A `*SessionState` is a place in `states`,
-- which only grows; `sessions` is the map from conversation ids to places. `trace` holds, in order, what
-- the subscribers are told, what is sent to the agents, and what happens to processes and hooks.
pub mod Messages
pub mod Lifecycle
pub mod Counts
pub mod Valid
pub mod Steps
pub mod Begun
pub mod Run
pub mod Failed
pub mod Closing
use acpp.Prelude.{
  Bytes, codes, text_eq, ℕ, ◌==◌, ◌+◌, Bool, true, false, ◌&&◌, Option, none, some, List, [], ◌∷◌,
  ◌++◌, if◌then◌else◌, length, get_elem?, set,
}
use acpp.Types.{ConversationMeta, SessionOpts}
use acpp.Db.Map.{Map, lookup, insert, remove}

-- What the code tells apart: the answers of the handshake, the advertised commands, a prompt with its
-- session, a chunk that the harness marks ("notice", "error"), and any other message.
pub data Message : Type 0 where
  initialize_response : Bytes → Message
  new_session_response : Bytes → Message
  load_session_response : Message
  response_error : Bytes → Message
  available_commands_update : List Bytes → Message
  prompt_request : Bytes → Bytes → Message
  harness_chunk : Bytes → Bytes → Message
  other : Bytes → Message

pub data Request : Type 0 where
  initialize : Request
  new_session : Bytes → Request
  load_session : Bytes → Bytes → Request
  cancel : Bytes → Request
  plain : Message → Request

-- A process is named by the place of its state.
pub data Event : Type 0 where
  conversation_created : ConversationMeta → Event
  conversation_adopted : ConversationMeta → Event
  conversation_replaced : ConversationMeta → ConversationMeta → Event
  conversation_closed : ConversationMeta → Bytes → Event
  received : ConversationMeta → Message → Event
  sent : ℕ → Request → Event
  process_closed : ℕ → Event
  detached : ℕ → Event
  cleaned_up : ℕ → Bool → Event

-- A hook `K`: what it answers, the prompts that it triggers, and its next state. `can_close` is empty if
-- the hook consents, as one without a guard does.
pub record Hooks (K : Type 0) : Type 0 where
  pub outgoing : K → ConversationMeta → Message → List Bytes × Option Message × K
  pub incoming : K → ConversationMeta → Message → List Bytes × Option Message × K
  pub can_close : K → Bytes

-- `cleaned` tells that the cleanups have run; `ready` is the channel that is not closed yet.
pub record SessionState (K : Type 0) : Type 0 where
  pub meta : ConversationMeta
  pub opts : SessionOpts
  pub acp_init : Option Bytes
  pub has_process : Bool
  pub remote : Bool
  pub location : Bytes
  pub base_dir : Bytes
  pub ready : Option ℕ
  pub handshake_err : Option Bytes
  pub available_commands : List Bytes
  pub hooks : List K
  pub cleaned : Bool

-- A channel is a number below `channels`.
pub record Router (K : Type 0) : Type 0 where
  pub states : List (SessionState K)
  pub sessions : Map ℕ
  pub channels : ℕ
  pub closed_channels : List ℕ
  pub trace : List Event

pub data Error : Type 0 where
  unknown_conversation : Bytes → Error
  never_finished_handshake : Error
  already_live : Error
  handshake_failed : Bytes → Error
  close_refused : Bytes → Error
  send_failed : Error
  context_done : Error
  shutting_down : Error

unfoldable pub is_there : Option ℕ → Bool
is_there none = false
is_there (some p) = true

module _ {K : Type 0} where
  abbrev pub new_router : Router K
  new_router = record { states = []; sessions = []; channels = 0; closed_channels = []; trace = [] }

  unfoldable pub happen : Router K → Event → Router K
  happen r e = record r { trace = r.trace ++ e ∷ [] }

  unfoldable pub set_state : Router K → ℕ → SessionState K → Router K
  set_state r p st = record r { states = set r.states p st }

  -- The state of a conversation that is in the map.
  unfoldable pub at_place : Router K → Option ℕ → Option (ℕ × SessionState K)
  at_place r none = none
  at_place r (some p) = elim (get_elem? r.states p) [ none ↦ none | some st ↦ some (p, st) ]

  unfoldable pub state_of : Router K → Bytes → Option (ℕ × SessionState K)
  unfolding at_place
  state_of r id = at_place r (lookup r.sessions id)

  unfoldable pub active : Router K → Bytes → Bool
  unfolding is_there
  active r id = is_there (lookup r.sessions id)

  opts_at : Option (ℕ × SessionState K) → Option SessionOpts
  opts_at none = none
  opts_at (some (p, st)) = some st.opts

  pub opts_of : Router K → Bytes → Option SessionOpts
  unfolding opts_at state_of
  opts_of r id = opts_at (state_of r id)

  unfoldable pub close_channel : Router K → Option ℕ → Router K
  close_channel r none = r
  close_channel r (some c) = record r { closed_channels = c ∷ r.closed_channels }

  -- The live conversations of a directory of a location.
  unfoldable pub counts_for : Bytes → Bytes → Option (SessionState K) → ℕ
  counts_for location dir none = 0
  counts_for location dir (some st) =
      if text_eq st.base_dir dir && text_eq st.location location then 1 else 0

  count_sessions : List (SessionState K) → Bytes → Bytes → Map ℕ → ℕ
  unfolding counts_for
  count_sessions states location dir [] = 0
  count_sessions states location dir ((id, p) ∷ ss) =
      counts_for location dir (get_elem? states p) + count_sessions states location dir ss

  pub running_sessions_for_dir : Router K → Bytes → Bytes → ℕ
  unfolding count_sessions
  running_sessions_for_dir r location dir = count_sessions r.states location dir r.sessions
