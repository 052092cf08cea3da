-- ===== src/Router/Conversations/Failed.antt =====
-- A conversation whose first message to the agent, or whose restart, cannot be sent.
use acpp.Prelude.{
  Bytes, text_eq, ℕ, ◌+◌, arith, ◌≡◌, refl, ap, ◌∙◌, Bool, true, false, Bool-cases, inl, inr,
  Option, none, some, List, [], ◌∷◌, ◌++◌, length, err, text_eq_self,
}
use acpp.Types.{ConversationMeta}
use acpp.Db.Map.{lookup, remove, lookup-insert, lookup-insert_other, lookup-remove}
use acpp.Router.Conversations.{
  Request, initialize, new_session, Event, conversation_created, process_closed, SessionState,
  Router, send_failed, happen, state_of, at_place, is_there, active,
}
use acpp.Router.Conversations.Messages.{send_to}
use acpp.Router.Conversations.Messages.Quiet.{send_to-IsQuiet}
use acpp.Router.Conversations.Lifecycle.{
  Start, started_meta, new_state, register, unregister, notify, clean_up, close_at,
  close_conversation,
}
use acpp.Router.Conversations.Lifecycle.Starting.{
  created, create, rekeyed, restart_sent, restart_at, restart,
}
use acpp.Router.Conversations.Counts.{
  ends, starts, closes, begins, total-snoc, IsAt, IsQuiet, IsQuiet-trans, happen-IsQuiet,
}
use acpp.Router.Conversations.Valid.{IsValid, get_elem?-append_end, clean_up-IsQuiet}
use acpp.Router.Conversations.Steps.{found-IsLive, notify-IsQuiet}

module _ {K : Type 0} where
  -- A conversation that is not in the map is closed by nothing.
  pub close_absent :
      (r : Router K) (id error : Bytes) (force : Bool)
      → lookup r.sessions id ≡ none
      → close_conversation r id error force ≡ r
  unfolding close_conversation close_at state_of at_place
  close_absent r id error force h = rw h refl

module _ {K : Type 0} (can_send : List Event → ℕ → Bool) where
  send_to_fails :
      (r : Router K) (p : ℕ) (req : Request)
      → (send_to can_send r p req).1 ≡ false
      → (send_to can_send r p req).0 ≡ r
  unfolding send_to
  send_to_fails r p req h = elim (Bool-cases (can_send r.trace p)) [
    | inl e ↦ let bad : true ≡ false = rw (e, send_to) at h in absurd (cc)
    | inr e ↦ rw e refl
  ]

  created_fails :
      (r : Router K) (id : Bytes) (p : ℕ) (st : SessionState K) (meta : ConversationMeta)
      (o : Router K × Bool)
      → IsAt o.0 p st.meta.conversation_id
      → (created can_send r id p st meta o).1 ≡ err send_failed
      → IsQuiet (unregister o.0 id) (created can_send r id p st meta o).0
  unfolding created ends starts unregister
  created_fails r id p st meta (r', true) at h = absurd (cc)
  created_fails r id p st meta (r', false) at h =
      let a = unregister r' id in
      let b = happen a (process_closed p) in
      IsQuiet-trans a b (clean_up b p st false)
        (happen-IsQuiet a (process_closed p) (λ j. (refl, refl))) (clean_up-IsQuiet b p st false at)

  -- When the first message to the agent cannot be sent, the conversation has been announced, and is
  -- neither active nor closed; to close it afterwards does nothing.
  pub create_fails :
      (r : Router K) (id : Bytes) (s : Start K) (error : Bytes) (force : Bool)
      → (create can_send r id s).1 ≡ err send_failed
      → let r' = (create can_send r id s).0 in
        (begins id r'.trace ≡ begins id r.trace + 1)
        × (closes id r'.trace ≡ closes id r.trace)
        × (active r' id ≡ false)
        × (close_conversation r' id error force ≡ r')
  unfolding create new_state register happen unregister active is_there starts ends
  create_fails r id s error force h =
      let meta = started_meta s id in
      let st = new_state s meta (some r.channels) in
      let p = length r.states in
      let e = conversation_created meta in
      let a = happen (register (record r { channels = r.channels + 1 }) st) e in
      let b = notify a meta s.notices in
      let c = send_to can_send b p initialize in
      let quiet =
        IsQuiet-trans a b c.0 (notify-IsQuiet a meta s.notices)
          (send_to-IsQuiet can_send b p initialize) in
      let over =
        created_fails r id p st meta c
          (quiet.same_ids p id (st, get_elem?-append_end r.states st, refl)) h in
      let r' = (created can_send r id p st meta c).0 in
      let gone : lookup r'.sessions id ≡ none =
        ap (λ m. lookup m id) over.same_sessions ∙ lookup-remove c.0.sessions id in
      let one : starts id e ≡ 1 = rw (text_eq_self id) refl in
      (
        omega (
          arith,
          over.same_begins id,
          quiet.same_begins id,
          total-snoc (starts id) r.trace e,
          one,
        ),
        omega (arith, over.same_closes id, quiet.same_closes id, total-snoc (ends id) r.trace e),
        ap is_there gone,
        close_absent r' id error force gone,
      )

  restart_sent_fails :
      (old : ConversationMeta) (o : Router K × Bool)
      → (restart_sent can_send old o).1 ≡ err send_failed
      → ((restart_sent can_send old o).0 ≡ o.0) × (o.1 ≡ false)
  unfolding restart_sent
  restart_sent_fails old (r, true) h = absurd (cc)
  restart_sent_fails old (r, false) h = (refl, refl)

  restart_at_fails :
      (r : Router K) (id fresh : Bytes) (p : ℕ) (st : SessionState K)
      (o : Option (ℕ × SessionState K))
      → o ≡ some (p, st)
      → (restart_at can_send r id fresh o).1 ≡ err send_failed
      → (restart_at can_send r id fresh o).0
        ≡ happen
            (rekeyed can_send r fresh p st)
            (conversation_created (record st.meta { conversation_id = fresh; session_id = [] }))
  unfolding restart_at
  restart_at_fails r id fresh p st none e h = absurd (cc)
  restart_at_fails r id fresh p st (some (q, s)) e h =
      let place : q ≡ p = cc in
      let state : s ≡ st = cc in
      let started = λ (x : ℕ) (y : SessionState K).
        happen (rekeyed can_send r fresh x y)
          (conversation_created (record y.meta { conversation_id = fresh; session_id = [] })) in
      let (a, b) =
        restart_sent_fails s.meta (send_to can_send (started q s) q (new_session s.opts.cwd)) h in
      a
      ∙ send_to_fails (started q s) q (new_session s.opts.cwd) b
      ∙ ap (λ x. started x s) place
      ∙ ap (started p) state

  -- When the message that starts the fresh session cannot be sent, all that the subscribers are told is
  -- that the new conversation began. It is active and the old one is not; to close the old one
  -- afterwards does nothing.
  pub restart_fails :
      (r : Router K) (id fresh : Bytes) (p : ℕ) (st : SessionState K) (error : Bytes) (force : Bool)
      → IsValid r
      → state_of r id ≡ some (p, st)
      → text_eq fresh id ≡ false
      → (restart can_send r id fresh).1 ≡ err send_failed
      → let r' = (restart can_send r id fresh).0 in
        (r'.trace
          ≡ r.trace
            ++ conversation_created (record st.meta { conversation_id = fresh; session_id = [] })
              ∷ [])
        × (active r' fresh ≡ true)
        × (active r' id ≡ false)
        × (close_conversation r' id error force ≡ r')
  unfolding restart rekeyed happen active is_there
  restart_fails r id fresh p st error force v found other h =
      let i = (found-IsLive r id p st v found).1 in
      let same = restart_at_fails r id fresh p st (state_of r id) found h in
      let r' = (restart can_send r id fresh).0 in
      let gone : lookup r'.sessions id ≡ none =
        ap (λ x. lookup x.sessions id) same
        ∙ lookup-insert_other (remove r.sessions st.meta.conversation_id) fresh id p other
        ∙ ap (λ x. lookup (remove r.sessions x) id) i
        ∙ lookup-remove r.sessions id in
      (
        ap (λ x. x.trace) same,
        ap (λ x. is_there (lookup x.sessions fresh)) same
            ∙ ap is_there (lookup-insert (remove r.sessions st.meta.conversation_id) fresh p),
        ap is_there gone,
        close_absent r' id error force gone,
      )
