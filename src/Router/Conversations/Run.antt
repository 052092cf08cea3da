-- ===== src/Router/Conversations/Run.antt =====
-- Any sequence of the operations, in which an id that is minted is new.
use acpp.Prelude.{
  Option, none, some, Bytes, ℕ, ◌+◌, ◌≤◌, arith, ◌≡◌, refl, Bool, inl, inr, Option-cases, List, [],
  ◌∷◌, if◌then◌else◌, get_elem?,
}
use acpp.Types.{ConversationMeta, SessionOpts}
use acpp.Db.Map.{lookup, lookup-All}
use acpp.Router.Conversations.{
  SessionState, Message, Event, Hooks, Router, new_router, state_of, is_there, active,
}
use acpp.Router.Conversations.Messages.{send, on_message}
use acpp.Router.Conversations.Messages.Quiet.{send-IsQuiet, on_message-IsQuiet}
use acpp.Router.Conversations.Lifecycle.{
  Start, Descriptor, close_conversation, create_error, watch_process, finalize, Wake,
  restart_waited,
}
use acpp.Router.Conversations.Lifecycle.Ending.{close_router, try_close}
use acpp.Router.Conversations.Lifecycle.Starting.{create, adopt, restart}
use acpp.Router.Conversations.Counts.{closes}
use acpp.Router.Conversations.Valid.{IsLive, IsValid, new_router-IsValid, quiet-IsValid}
use acpp.Router.Conversations.Steps.{
  close_conversation-IsValid, close_router-IsValid, create_error-IsValid, watch_process-IsValid,
  restart_waited-IsQuiet,
}
use acpp.Router.Conversations.Begun.{
  create-IsValid, adopt-IsValid, restart_at-IsValid, finalize-IsValid, try_close-IsValid,
}

-- What happens to a router: a call of it, a message from an agent, or the end of a process. The wait of a
-- restart has looked its id up before it ends, in the states of that time.
pub data Call (K : Type 0) : Type 0 where
  creates : Bytes → Start K → Call K
  creates_error : Bytes → SessionOpts → Bytes → Call K
  gets : ℕ → Message → Call K
  sends : Bytes → Message → Call K
  restarts : Bytes → Bytes → Call K
  ends_restart : ConversationMeta → Bytes → Option ℕ → Wake → Call K
  closes_conversation : Bytes → Bool → Call K
  tries_close : Bytes → Call K
  exits : ℕ → Call K
  adopts : Descriptor → Start K → Call K
  finalizes : Descriptor → Bytes → Call K
  shuts_down : Call K

module _ {K : Type 0} where
  -- Nothing has closed the id that a call brings.
  abbrev pub IsNew : Router K → Call K → Type 0
  IsNew r (creates id s) = closes id r.trace ≡ 0
  IsNew r (creates_error id opts e) = closes id r.trace ≡ 0
  IsNew r (restarts id fresh) = closes fresh r.trace ≡ 0
  IsNew r (adopts d s) = closes d.conversation_id r.trace ≡ 0
  IsNew r (finalizes d e) = closes d.conversation_id r.trace ≡ 0
  IsNew r c = Unit {0}

-- The state that a lookup has found, as it is now.
state_at : {K : Type 0} → Router K → Option ℕ → Option (SessionState K)
state_at r none = none
state_at r (some p) = get_elem? r.states p

module _ {K : Type 0} (can_send : List Event → ℕ → Bool) (hk : Hooks K) where
  unfoldable pub call : Router K → Call K → Router K
  unfolding create create_error on_message send restart restart_waited close_conversation try_close
      watch_process adopt finalize close_router state_at
  call r (creates id s) = (create can_send r id s).0
  call r (creates_error id opts e) = create_error r id opts e
  call r (gets p msg) = on_message can_send hk r p msg
  call r (sends id msg) = (send can_send hk r id msg).0
  call r (restarts id fresh) = (restart can_send r id fresh).0
  call r (ends_restart old fresh found wake) =
      (restart_waited r old fresh (state_at r found) wake).0
  call r (closes_conversation id force) = close_conversation r id [] force
  call r (tries_close id) = (try_close hk r id).0
  call r (exits p) = watch_process r p
  call r (adopts d s) = (adopt can_send r d s).0
  call r (finalizes d e) = finalize r d e
  call r shuts_down = close_router r

  unfoldable pub run : Router K → List (Call K) → Router K
  unfolding call
  run r [] = r
  run r (c ∷ cs) = run (call r c) cs

  abbrev pub AllNew : Router K → List (Call K) → Type 0
  AllNew r [] = Unit {0}
  AllNew r (c ∷ cs) = IsNew r c × AllNew (call r c) cs

  call-IsValid : (r : Router K) (c : Call K) → IsNew r c → IsValid r → IsValid (call r c)
  unfolding call restart
  call-IsValid r (creates id s) n v = create-IsValid can_send r id s n v
  call-IsValid r (creates_error id opts e) n v = create_error-IsValid r id opts e n v
  call-IsValid r (gets p msg) n v =
      quiet-IsValid r (on_message can_send hk r p msg) (on_message-IsQuiet can_send hk r p msg) v
  call-IsValid r (sends id msg) n v =
      quiet-IsValid r (send can_send hk r id msg).0 (send-IsQuiet can_send hk r id msg) v
  call-IsValid r (restarts id fresh) n v =
      restart_at-IsValid can_send r id fresh (state_of r id) v refl n
  call-IsValid r (ends_restart old fresh found wake) n v =
      quiet-IsValid r (restart_waited r old fresh (state_at r found) wake).0
        (restart_waited-IsQuiet r old fresh (state_at r found) wake) v
  call-IsValid r (closes_conversation id force) n v = close_conversation-IsValid r id [] force v
  call-IsValid r (tries_close id) n v = try_close-IsValid hk r id v
  call-IsValid r (exits p) n v = watch_process-IsValid r p v
  call-IsValid r (adopts d s) n v = adopt-IsValid can_send r d s n v
  call-IsValid r (finalizes d e) n v = finalize-IsValid r d e n v
  call-IsValid r shuts_down n v = close_router-IsValid r v

  pub from_IsValid :
      (r : Router K) (cs : List (Call K)) → AllNew r cs → IsValid r → IsValid (run r cs)
  unfolding run
  from_IsValid r [] n v = v
  from_IsValid r (c ∷ cs) (n, ns) v = from_IsValid (call r c) cs ns (call-IsValid r c n v)

  -- However the hooks answer and whichever sends fail: if every id that is minted, adopted or finalized
  -- had no close before, then each conversation is closed at most once, and never while it is active.
  pub one_close :
      (cs : List (Call K)) (id : Bytes)
      → AllNew new_router cs
      → let r = run new_router cs in closes id r.trace + (if active r id then 1 else 0) ≤ 1
  unfolding active is_there
  one_close cs id n =
      let r = run new_router cs in
      let v = from_IsValid new_router cs n new_router-IsValid in
      elim (Option-cases (lookup r.sessions id)) [
        | inl e ↦ rw e (omega (arith, v.once id))
        | inr (p, e) ↦ rw e (omega (arith, (lookup-All (IsLive r) r.sessions id p v.live e).1.0))
      ]
