-- ===== src/Router/Conversations/Begun.antt =====
-- Create, Adopt, Restart, Finalize and the close that may be refused keep what holds of the conversations.
use acpp.Prelude.{
  All-imp, Bytes, text_eq, text_eq_self, ℕ, ◌+◌, ◌==◌, ==_iff, ◌||◌, arith, ◌≡◌, refl, sym, ap, ◌∙◌,
  Bool, true, false, Bool-cases, inl, inr, Option, none, some, Option-cases, List, [], length,
  get_elem?,
}
use mathlib.Core.Path.{subst}
use acpp.Types.{ConversationMeta}
use acpp.Db.Map.{lookup, remove, insert-All, absent-All}
use acpp.Router.Conversations.{
  initialize, cancel, new_session, Event, conversation_created, conversation_adopted,
  process_closed, Hooks, SessionState, Router, happen, state_of, is_there, active,
}
use acpp.Router.Conversations.Messages.{send_to}
use acpp.Router.Conversations.Messages.Quiet.{send_to-IsQuiet}
use acpp.Router.Conversations.Lifecycle.{
  Start, Descriptor, started_meta, new_state, register, unregister, notify, clean_up, finalize,
}
use acpp.Router.Conversations.Lifecycle.Ending.{refusal, try_refused, try_at, try_close}
use acpp.Router.Conversations.Lifecycle.Starting.{
  created, create, adopted_state, adopt, rekeyed, restart_sent, restart_at,
}
use acpp.Router.Conversations.Counts.{
  ends, starts, closes, total-snoc, get_elem?-set_other, get_elem?-set_self, IsAt, IsQuiet-trans,
  happen-IsQuiet,
}
use acpp.Router.Conversations.Valid.{
  get_elem?-append_end, remove-All, IsLive, IsValid, quiet-IsValid, register-IsValid,
  unregister-IsValid, closed-IsValid, clean_up-IsQuiet,
}
use acpp.Router.Conversations.Steps.{
  found-IsLive, close_conversation-IsValid, notify-IsQuiet, announced-IsValid,
}

module _ {K : Type 0} (can_send : List Event → ℕ → Bool) where
  created-IsValid :
      (r : Router K) (id : Bytes) (p : ℕ) (st : SessionState K) (meta : ConversationMeta)
      (o : Router K × Bool)
      → IsAt o.0 p st.meta.conversation_id
      → IsValid o.0
      → IsValid (created can_send r id p st meta o).0
  unfolding created ends starts unregister
  created-IsValid r id p st meta (r', true) at v = v
  created-IsValid r id p st meta (r', false) at v =
      let a = unregister r' id in
      let b = happen a (process_closed p) in
      quiet-IsValid b (clean_up b p st false) (clean_up-IsQuiet b p st false at) (
        quiet-IsValid a b (happen-IsQuiet a (process_closed p) (λ j. (refl, refl)))
          (unregister-IsValid r' id v))

  pub create-IsValid :
      (r : Router K) (id : Bytes) (s : Start K)
      → closes id r.trace ≡ 0
      → IsValid r
      → IsValid (create can_send r id s).0
  unfolding create new_state register happen
  create-IsValid r id s fresh v =
      let meta = started_meta s id in
      let st = new_state s meta (some r.channels) in
      let p = length r.states in
      let a =
        happen (register (record r { channels = r.channels + 1 }) st) (conversation_created meta) in
      let b = notify a meta s.notices in
      let c = send_to can_send b p initialize in
      let quiet =
        IsQuiet-trans a b c.0 (notify-IsQuiet a meta s.notices)
          (send_to-IsQuiet can_send b p initialize) in
      created-IsValid r id p st meta c
        (quiet.same_ids p id (st, get_elem?-append_end r.states st, refl))
        (quiet-IsValid a c.0 quiet (
          announced-IsValid (record r { channels = r.channels + 1 }) st fresh
            (record { live = v.live; once = v.once })))

  pub adopt-IsValid :
      (r : Router K) (d : Descriptor) (s : Start K)
      → closes d.conversation_id r.trace ≡ 0
      → IsValid r
      → IsValid (adopt can_send r d s).0
  unfolding adopt ends starts adopted_state new_state
  adopt-IsValid r d s fresh v =
      elim (Bool-cases (text_eq d.conversation_id [] || text_eq d.session_id [])) [
        | inl e ↦ rw e v
        | inr e ↦ rw e (elim (Bool-cases (active r d.conversation_id)) [
          | inl t ↦ rw t v
          | inr t ↦ rw t (
              quiet-IsValid _ _ (send_to-IsQuiet can_send _ (length r.states) (cancel d.session_id))
                (register-IsValid r _ (conversation_adopted _) (λ j. refl)
                  (rw (text_eq_self d.conversation_id) refl) fresh v))
        ])
      ]

  -- The map has the state under its new id only.
  rekeyed-IsValid :
      (r : Router K) (id fresh : Bytes) (p : ℕ) (st : SessionState K)
      → IsValid r
      → state_of r id ≡ some (p, st)
      → closes fresh r.trace ≡ 0
      → IsValid (
          happen
            (rekeyed can_send r fresh p st)
            (conversation_created (record st.meta { conversation_id = fresh; session_id = [] })))
  unfolding rekeyed happen ends starts
  rekeyed-IsValid r id fresh p st v h unused =
      let (g, i, c, b) = found-IsLive r id p st v h in
      let e = conversation_created (record st.meta { conversation_id = fresh; session_id = [] }) in
      let r' = happen (rekeyed can_send r fresh p st) e in
      let st' = record st {
        meta = record st.meta { conversation_id = fresh; session_id = [] };
        ready = some r.channels;
        available_commands = [];
      } in
      let one : starts fresh e ≡ 1 = rw (text_eq_self fresh) refl in
      let kept : (x : Bytes × ℕ)
          → (IsLive r x × (text_eq x.0 st.meta.conversation_id ≡ false))
          → IsLive r' x =
        λ x (((s, a, j), (n, k)), d). elim (Bool-cases (p == x.1)) [
          | inl t ↦
              let one : some st ≡ some s =
                sym g ∙ ap (get_elem? r.states) ((==_iff p x.1).0 t) ∙ a in
              let one' : st ≡ s = cc in
              let same : text_eq x.0 st.meta.conversation_id ≡ true =
                ap (text_eq x.0) (ap (λ y. y.meta.conversation_id) one' ∙ j) ∙ text_eq_self x.0 in
              let bad : true ≡ false = sym same ∙ d in absurd (cc)
          | inr t ↦ (
            (s, get_elem?-set_other r.states p x.1 st' t ∙ a, j),
            (
              omega (arith, total-snoc (ends x.0) r.trace e),
              omega (arith, total-snoc (starts x.0) r.trace e),
            ),
          )
        ] in
      record {
        live =
            insert-All (IsLive r') (remove r.sessions st.meta.conversation_id) fresh p
              (All-imp kept _ (remove-All (IsLive r) r.sessions st.meta.conversation_id v.live))
              (
                (st', get_elem?-set_self r.states p st' st g, refl),
                (
                  omega (arith, total-snoc (ends fresh) r.trace e),
                  omega (arith, total-snoc (starts fresh) r.trace e, one),
                ),
              );
        once = λ j. omega (arith, total-snoc (ends j) r.trace e, v.once j);
      }

  restart_sent-fst :
      (old : ConversationMeta) (o : Router K × Bool) → (restart_sent can_send old o).0 ≡ o.0
  unfolding restart_sent
  restart_sent-fst old (r, true) = refl
  restart_sent-fst old (r, false) = refl

  pub restart_at-IsValid :
      (r : Router K) (id fresh : Bytes) (o : Option (ℕ × SessionState K))
      → IsValid r
      → state_of r id ≡ o
      → closes fresh r.trace ≡ 0
      → IsValid (restart_at can_send r id fresh o).0
  unfolding restart_at
  restart_at-IsValid r id fresh none v h unused = v
  restart_at-IsValid r id fresh (some (p, st)) v h unused =
      let meta = record st.meta { conversation_id = fresh; session_id = [] } in
      let a = happen (rekeyed can_send r fresh p st) (conversation_created meta) in
      let o = send_to can_send a p (new_session st.opts.cwd) in
      subst IsValid (sym (restart_sent-fst st.meta o)) (
        quiet-IsValid a o.0 (send_to-IsQuiet can_send a p (new_session st.opts.cwd))
          (rekeyed-IsValid r id fresh p st v h unused))

module _ {K : Type 0} where
  pub finalize-IsValid :
      (r : Router K) (d : Descriptor) (error : Bytes)
      → closes d.conversation_id r.trace ≡ 0
      → IsValid r
      → IsValid (finalize r d error)
  unfolding finalize active is_there
  finalize-IsValid r d error fresh v = elim (Bool-cases (text_eq d.conversation_id [])) [
    | inl e ↦ rw e v
    | inr e ↦ rw e (elim (Option-cases (lookup r.sessions d.conversation_id)) [
      | inl t ↦ rw t (
          closed-IsValid r _ error (absent-All r.sessions d.conversation_id t (IsLive r) v.live)
            fresh v)
      | inr (p, t) ↦ rw t v
    ])
  ]

  pub try_close-IsValid :
      (hk : Hooks K) (r : Router K) (id : Bytes) → IsValid r → IsValid (try_close hk r id).0
  unfolding try_close try_at try_refused
  try_close-IsValid hk r id v = elim (Option-cases (state_of r id)) [
    | inl e ↦ rw e v
    | inr ((p, st), e) ↦ rw e (elim (Option-cases (refusal hk st.hooks)) [
      | inl t ↦ rw t (close_conversation-IsValid r id [] false v)
      | inr (reason, t) ↦ rw t v
    ])
  ]
