-- ===== src/Router/Conversations/Lifecycle/Ending.antt =====
-- router.go: Close of the whole router, and the close that a guard may refuse.
use acpp.Prelude.{
  Bytes, text_eq, ℕ, Bool, false, Option, none, some, List, [], ◌∷◌, ◌++◌, if◌then◌else◌, get_elem?,
  Result, ok, err,
}
use acpp.Db.Map.{Map}
use acpp.Router.Conversations.{
  detached, Hooks, SessionState, Router, Error, close_refused, happen, state_of,
}
use acpp.Router.Conversations.Lifecycle.{close_conversation}

module _ {K : Type 0} where
  unfoldable pub is_remote : Option (SessionState K) → Bool
  is_remote none = false
  is_remote (some st) = st.remote

  unfoldable pub id_at : Option (SessionState K) → List Bytes
  id_at none = []
  id_at (some st) = st.meta.conversation_id ∷ []

  unfoldable pub local_sessions : List (SessionState K) → Map ℕ → Map ℕ
  unfolding is_remote
  local_sessions states [] = []
  local_sessions states ((id, p) ∷ ss) =
      let rest = local_sessions states ss in
      if is_remote (get_elem? states p) then rest else (id, p) ∷ rest

  unfoldable pub detach_all : List (SessionState K) → Map ℕ → Router K → Router K
  unfolding is_remote happen
  detach_all states [] r = r
  detach_all states ((id, p) ∷ ss) r =
      detach_all states ss (if is_remote (get_elem? states p) then happen r (detached p) else r)

  unfoldable pub live_ids : List (SessionState K) → Map ℕ → List Bytes
  unfolding id_at
  live_ids states [] = []
  live_ids states ((id, p) ∷ ss) = id_at (get_elem? states p) ++ live_ids states ss

  unfoldable pub close_each : List Bytes → Router K → Router K
  unfolding close_conversation
  close_each [] r = r
  close_each (id ∷ ids) r = close_each ids (close_conversation r id [] false)

  -- `Close`: a conversation with a remote agent is left running, any other is closed. The end of the
  -- processes beforehand, in `CloseAll`, is the process manager's.
  unfoldable pub close_router : Router K → Router K
  unfolding local_sessions detach_all live_ids close_each
  close_router r =
      let local = local_sessions r.states r.sessions in
      close_each (live_ids r.states local)
        (detach_all r.states r.sessions (record r { sessions = local }))

module _ {K : Type 0} (hk : Hooks K) where
  -- The first veto.
  unfoldable pub refusal : List K → Option Bytes
  refusal [] = none
  refusal (k ∷ ks) =
      let rest = refusal ks in if text_eq (hk.can_close k) [] then rest else some (hk.can_close k)

  unfoldable pub try_refused : Router K → Bytes → Option Bytes → Router K × Result Error (Unit {0})
  unfolding close_conversation
  try_refused r id none = (close_conversation r id [] false, ok tt)
  try_refused r id (some reason) = (r, err (close_refused reason))

  unfoldable pub try_at :
      Router K → Bytes → Option (ℕ × SessionState K) → Router K × Result Error (Unit {0})
  unfolding try_refused refusal
  try_at r id none = (r, ok tt)
  try_at r id (some (p, st)) = try_refused r id (refusal st.hooks)

  -- `TryCloseConversation`
  unfoldable pub try_close : Router K → Bytes → Router K × Result Error (Unit {0})
  unfolding try_at state_of
  try_close r id = try_at r id (state_of r id)
