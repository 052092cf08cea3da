-- ===== src/Router/Conversations/Steps.antt =====
-- Every operation on the conversations keeps what holds of them.
use acpp.Prelude.{
  All, Bytes, codes, text_eq, text_eq_self, ℕ, ◌<◌, ◌≡◌, refl, sym, ap, ◌∙◌, Bool, false,
  Bool-cases, inl, inr, Option, none, some, Option-cases, List, [], ◌∷◌, get_elem?,
}
use mathlib.Core.Path.{subst}
use acpp.Types.{ConversationMeta, SessionOpts}
use acpp.Db.Map.{Map, lookup, remove, lookup-All}
use acpp.Router.Conversations.{
  harness_chunk, conversation_created, conversation_replaced, conversation_closed, received,
  detached, SessionState, Router, happen, at_place, state_of, active,
}
use acpp.Router.Conversations.Lifecycle.{
  register, unregister, notify, clean_up, close_process, close_at, close_conversation, create_error,
  watch_at, watch_process, waited, Wake, woken, cancelled, shut_down, restart_waited,
}
use acpp.Router.Conversations.Lifecycle.Ending.{
  local_sessions, detach_all, live_ids, close_each, close_router, is_remote,
}
use acpp.Router.Conversations.Counts.{
  ends, starts, closes, begins, IsAt, IsQuiet, IsQuiet-refl, IsQuiet-trans, happen-IsQuiet,
}
use acpp.Router.Conversations.Valid.{
  remove-All, IsLive, IsValid, quiet-IsValid, register-IsValid, unregister-IsValid, closed-IsValid,
  clean_up-IsQuiet, close_process-IsQuiet,
}

module _ {K : Type 0} where
  at_place-some :
      (r : Router K) (o : Option ℕ) (p : ℕ) (st : SessionState K)
      → at_place r o ≡ some (p, st)
      → (o ≡ some p) × (get_elem? r.states p ≡ some st)
  unfolding at_place
  at_place-some r none p st h = cc
  at_place-some r (some q) p st h = elim (Option-cases (get_elem? r.states q)) [
    | inl e ↦
        let no : ◌≡◌ {A = Option (ℕ × SessionState K)} none (some (p, st)) =
          rw (e, at_place) at h in
        cc
    | inr (s, e) ↦
        let same : ◌≡◌ {A = Option (ℕ × SessionState K)} (some (q, s)) (some (p, st)) =
          rw (e, at_place) at h in
        let place : q ≡ p = cc in
        let state : s ≡ st = cc in
        (ap some place, ap (get_elem? r.states) (sym place) ∙ e ∙ ap some state)
  ]

  -- A conversation that is found is live, and its state bears its id.
  pub found-IsLive :
      (r : Router K) (id : Bytes) (p : ℕ) (st : SessionState K)
      → IsValid r
      → state_of r id ≡ some (p, st)
      → (get_elem? r.states p ≡ some st)
        × (st.meta.conversation_id ≡ id)
        × (closes id r.trace ≡ 0)
        × (0 < begins id r.trace)
  unfolding state_of
  found-IsLive r id p st v h =
      let (l, g) = at_place-some r (lookup r.sessions id) p st h in
      let ((s, g', i), (c, b)) = lookup-All (IsLive r) r.sessions id p v.live l in
      let one : some st ≡ some s = sym g ∙ g' in
      let one' : st ≡ s = cc in (g, ap (λ x. x.meta.conversation_id) one' ∙ i, c, b)

  -- The close of a conversation that is found.
  pub close_at-IsValid :
      (r : Router K) (id error : Bytes) (force : Bool) (o : Option (ℕ × SessionState K))
      → IsValid r
      → state_of r id ≡ o
      → IsValid (close_at r id error force o)
  unfolding close_at unregister happen
  close_at-IsValid r id error force none v h = v
  close_at-IsValid r id error force (some (p, st)) v h =
      let (g, i, c, b) = found-IsLive r id p st v h in
      let a = unregister r id in
      let off =
        subst (λ x. All (λ e. IsLive r e × (text_eq e.0 x ≡ false)) (remove r.sessions id)) (sym i)
          (remove-All (IsLive r) r.sessions id v.live) in
      let fresh : closes st.meta.conversation_id r.trace ≡ 0 = ap (λ x. closes x r.trace) i ∙ c in
      let b' = happen a (conversation_closed st.meta error) in
      let closed = closed-IsValid a st.meta error off fresh (unregister-IsValid r id v) in
      let d = close_process b' p st in
      let stopped = close_process-IsQuiet b' p st in
      let at : IsAt d p st.meta.conversation_id =
        stopped.same_ids p st.meta.conversation_id (st, g, refl) in
      quiet-IsValid d (clean_up d p st force) (clean_up-IsQuiet d p st force at)
        (quiet-IsValid b' d stopped closed)

  pub close_conversation-IsValid :
      (r : Router K) (id error : Bytes) (force : Bool)
      → IsValid r
      → IsValid (close_conversation r id error force)
  unfolding close_conversation
  close_conversation-IsValid r id error force v =
      close_at-IsValid r id error force (state_of r id) v refl

  close_each-IsValid : (ids : List Bytes) (r : Router K) → IsValid r → IsValid (close_each ids r)
  unfolding close_each
  close_each-IsValid [] r v = v
  close_each-IsValid (id ∷ ids) r v =
      close_each-IsValid ids (close_conversation r id [] false)
        (close_conversation-IsValid r id [] false v)

  detach_all-IsQuiet :
      (states : List (SessionState K)) (ss : Map ℕ) (r : Router K)
      → IsQuiet r (detach_all states ss r)
  unfolding detach_all ends starts
  detach_all-IsQuiet states [] r = IsQuiet-refl r
  detach_all-IsQuiet states ((id, p) ∷ ss) r = elim (Bool-cases (is_remote (get_elem? states p))) [
    | inl e ↦ rw e (
        IsQuiet-trans r (happen r (detached p)) (detach_all states ss (happen r (detached p)))
          (happen-IsQuiet r (detached p) (λ j. (refl, refl)))
          (detach_all-IsQuiet states ss (happen r (detached p))))
    | inr e ↦ rw e (detach_all-IsQuiet states ss r)
  ]

  local_sessions-All :
      (P : Bytes × ℕ → Type 0) (states : List (SessionState K)) (ss : Map ℕ)
      → All P ss
      → All P (local_sessions states ss)
  unfolding local_sessions
  local_sessions-All P states [] h = tt
  local_sessions-All P states ((id, p) ∷ ss) (q, h) =
      elim (Bool-cases (is_remote (get_elem? states p))) [
        | inl e ↦ rw e (local_sessions-All P states ss h)
        | inr e ↦ rw e (q, local_sessions-All P states ss h)
      ]

  pub close_router-IsValid : (r : Router K) → IsValid r → IsValid (close_router r)
  unfolding close_router
  close_router-IsValid r v =
      let local = local_sessions r.states r.sessions in
      let kept = record r { sessions = local } in
      close_each-IsValid (live_ids r.states local) (detach_all r.states r.sessions kept) (
        quiet-IsValid kept (detach_all r.states r.sessions kept)
          (detach_all-IsQuiet r.states r.sessions kept)
          (record {
            live = local_sessions-All (IsLive r) r.states r.sessions v.live;
            once = v.once;
          }))

  pub notify-IsQuiet :
      (r : Router K) (meta : ConversationMeta) (texts : List Bytes)
      → IsQuiet r (notify r meta texts)
  unfolding notify ends starts
  notify-IsQuiet r meta [] = IsQuiet-refl r
  notify-IsQuiet r meta (text ∷ texts) =
      let e = received meta (harness_chunk (codes "notice") text) in
      let r' = happen r e in
      IsQuiet-trans r r' (notify r' meta texts) (happen-IsQuiet r e (λ id. (refl, refl)))
        (notify-IsQuiet r' meta texts)

  -- A conversation with no close so far begins.
  pub announced-IsValid :
      (r : Router K) (st : SessionState K)
      → closes st.meta.conversation_id r.trace ≡ 0
      → IsValid r
      → IsValid (happen (register r st) (conversation_created st.meta))
  unfolding ends starts
  announced-IsValid r st fresh v =
      register-IsValid r st (conversation_created st.meta) (λ id. refl)
        (rw (text_eq_self st.meta.conversation_id) refl) fresh v

  pub create_error-IsValid :
      (r : Router K) (id : Bytes) (opts : SessionOpts) (error : Bytes)
      → closes id r.trace ≡ 0
      → IsValid r
      → IsValid (create_error r id opts error)
  unfolding create_error ends starts
  create_error-IsValid r id opts error fresh v = close_conversation-IsValid _ id error false (
      quiet-IsValid _ _
        (happen-IsQuiet _ (received _ (harness_chunk (codes "error") error)) (λ j. (refl, refl)))
        (announced-IsValid r _ fresh v))

  pub watch_process-IsValid : (r : Router K) (p : ℕ) → IsValid r → IsValid (watch_process r p)
  unfolding watch_process watch_at
  watch_process-IsValid r p v = elim (Option-cases (get_elem? r.states p)) [
    | inl e ↦ rw e v
    | inr (st, e) ↦ rw e (elim (Bool-cases (active r st.meta.conversation_id)) [
      | inl t ↦ rw t (close_conversation-IsValid r st.meta.conversation_id _ false v)
      | inr t ↦ rw t v
    ])
  ]

  pub restart_waited-IsQuiet :
      (r : Router K) (old : ConversationMeta) (fresh : Bytes) (o : Option (SessionState K))
      (wake : Wake)
      → IsQuiet r (restart_waited r old fresh o wake).0
  unfolding restart_waited waited ends starts
  restart_waited-IsQuiet r old fresh none wake = IsQuiet-refl r
  restart_waited-IsQuiet r old fresh (some st) cancelled = IsQuiet-refl r
  restart_waited-IsQuiet r old fresh (some st) shut_down = IsQuiet-refl r
  restart_waited-IsQuiet r old fresh (some st) woken = elim (Option-cases st.handshake_err) [
    | inl e ↦ rw e (happen-IsQuiet r (conversation_replaced old st.meta) (λ id. (refl, refl)))
    | inr (x, e) ↦ rw e (IsQuiet-refl r)
  ]
