-- ===== src/Router/Conversations/Closing.antt =====
-- What a close does, and when a close on behalf of a user is refused.
use acpp.Prelude.{
  All, Bytes, text_eq, ℕ, ◌≡◌, refl, ap, ◌∙◌, Bool, true, false, Bool-cases, ◌⊎◌, inl, inr, none,
  some, List, [], ◌∷◌, ◌++◌, append_assoc, ok, err,
}
use acpp.Db.Map.{lookup, remove, lookup-remove, lookup-remove_other}
use acpp.Router.Conversations.{
  conversation_closed, process_closed, cleaned_up, Hooks, SessionState, Router, close_refused,
  happen, set_state, state_of, is_there, active,
}
use acpp.Router.Conversations.Lifecycle.{
  unregister, clean_up, close_process, close_at, close_conversation,
}
use acpp.Router.Conversations.Lifecycle.Ending.{refusal, try_refused, try_at, try_close}
use acpp.Router.Conversations.Failed.{close_absent}

module _ {K : Type 0} where
  -- To close an active conversation takes it out of the map, tells the subscribers, ends its process and
  -- runs its cleanups, in this order; every other conversation stays where it is, and a second close
  -- does nothing.
  pub close_conversation_lem :
      (r : Router K) (id error error' : Bytes) (force force' : Bool) (p : ℕ) (st : SessionState K)
      (j : Bytes)
      → state_of r id ≡ some (p, st)
      → text_eq id j ≡ false
      → st.has_process ≡ true
      → st.cleaned ≡ false
      → let r' = close_conversation r id error force in
        (r'.trace
          ≡ r.trace
            ++ conversation_closed st.meta error ∷ process_closed p ∷ cleaned_up p force ∷ [])
        × (active r' id ≡ false)
        × (lookup r'.sessions j ≡ lookup r.sessions j)
        × (close_conversation r' id error' force' ≡ r')
  unfolding close_conversation close_at close_process clean_up unregister happen set_state active
      is_there
  close_conversation_lem r id error error' force force' p st j found other proc uncleaned =
      let r' = close_conversation r id error force in
      let same : r'
          ≡ set_state
              (record r {
                sessions = remove r.sessions id;
                trace =
                    ((r.trace ++ conversation_closed st.meta error ∷ []) ++ process_closed p ∷ [])
                    ++ cleaned_up p force ∷ [];
              })
              p (record st { cleaned = true }) =
        rw (found, proc, uncleaned) refl in
      let gone : lookup r'.sessions id ≡ none =
        ap (λ x. lookup x.sessions id) same ∙ lookup-remove r.sessions id in
      (
        ap (λ x. x.trace) same ∙ simp append_assoc,
        ap is_there gone,
        ap (λ x. lookup x.sessions j) same ∙ lookup-remove_other r.sessions id j other,
        close_absent r' id error' force' gone,
      )

module _ {K : Type 0} (hk : Hooks K) where
  abbrev pub Consents : K → Type 0
  Consents k = text_eq (hk.can_close k) [] ≡ true

  -- The first hook that does not consent.
  abbrev pub Vetoes : List K → Bytes → Type 0
  Vetoes hooks reason =
      (ks ks' : List K) × (k : K) × (hooks ≡ ks ++ k ∷ ks')
      × All Consents ks
      × (hk.can_close k ≡ reason)
      × (text_eq reason [] ≡ false)

  refusal_cases :
      (hooks : List K)
      → ((refusal hk hooks ≡ none) × All Consents hooks)
        ⊎ ((reason : Bytes) × (refusal hk hooks ≡ some reason) × Vetoes hooks reason)
  unfolding refusal
  refusal_cases [] = inl (refl, tt)
  refusal_cases (k ∷ ks) = elim (Bool-cases (text_eq (hk.can_close k) [])) [
    | inl e ↦ elim (refusal_cases ks) [
      | inl (n, h) ↦ inl (rw e n, (e, h))
      | inr (reason, s, (before, after, veto, parts, all, says, is)) ↦
          inr (reason, rw e s, (k ∷ before, after, veto, ap (λ x. k ∷ x) parts, (e, all), says, is))
    ]
    | inr e ↦ inr (hk.can_close k, rw e refl, ([], ks, k, refl, tt, refl, e))
  ]

  -- A close that a user asks for is refused with the reason of the first guard that does not consent,
  -- and then nothing at all has changed; if all consent it is a close that keeps what guards protect.
  pub try_close_lem :
      (r : Router K) (id : Bytes) (p : ℕ) (st : SessionState K)
      → state_of r id ≡ some (p, st)
      → (All Consents st.hooks × (try_close hk r id ≡ (close_conversation r id [] false, ok tt)))
        ⊎ ((reason : Bytes) × Vetoes st.hooks reason
            × (try_close hk r id ≡ (r, err (close_refused reason))))
  unfolding try_close try_at try_refused
  try_close_lem r id p st found = elim (refusal_cases st.hooks) [
    | inl (n, h) ↦ inl (h, ap (try_at hk r id) found ∙ ap (try_refused hk r id) n)
    | inr (reason, s, v) ↦ inr (reason, v, ap (try_at hk r id) found ∙ ap (try_refused hk r id) s)
  ]
