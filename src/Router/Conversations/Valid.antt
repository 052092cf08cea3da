-- ===== src/Router/Conversations/Valid.antt =====
-- What holds of the conversations at all times, and that the steps of the life cycle keep it.
use acpp.Prelude.{
  All, All-imp, Bytes, text_eq, eq_of_text_eq, text_eq_comm, ℕ, zero, suc, ◌≤◌, ◌<◌, arith, ◌≡◌,
  refl, sym, ◌∙◌, Bool, true, false, Bool-cases, inl, inr, some, List, [], ◌∷◌, ◌++◌, length,
  get_elem?,
}
use mathlib.Core.Path.{subst}
use acpp.Types.{ConversationMeta}
use acpp.Db.Map.{Map, remove, insert-All}
use acpp.Router.Conversations.{
  Event, conversation_closed, process_closed, cleaned_up, SessionState, Router, new_router, happen,
  set_state,
}
use acpp.Router.Conversations.Lifecycle.{register, unregister, clean_up, close_process}
use acpp.Router.Conversations.Counts.{
  ends, starts, total, closes, begins, total-snoc, IsAt, IsQuiet, IsQuiet-refl, IsQuiet-trans,
  happen-IsQuiet, set_state-IsQuiet,
}

module _ {ℓ κ} {V : Type ℓ} (P : Bytes × V → Type κ) where
  -- What is left after a delete has another key.
  pub remove-All :
      (m : Map V) (k : Bytes) → All P m → All (λ e. P e × (text_eq e.0 k ≡ false)) (remove m k)
  unfolding remove
  remove-All [] k h = tt
  remove-All ((k', v) ∷ m) k (p, h) = elim (Bool-cases (text_eq k' k)) [
    | inl e ↦ rw e (remove-All m k h)
    | inr e ↦ rw e ((p, e), remove-All m k h)
  ]

module _ {ℓ} {A : Type ℓ} where
  pub get_elem?-append_end : (xs : List A) (x : A) → get_elem? (xs ++ x ∷ []) (length xs) ≡ some x
  get_elem?-append_end [] x = refl
  get_elem?-append_end (y ∷ xs) x = get_elem?-append_end xs x

  get_elem?-append_some :
      (xs : List A) (x y : A) (i : ℕ)
      → get_elem? xs i ≡ some y
      → get_elem? (xs ++ x ∷ []) i ≡ some y
  get_elem?-append_some [] x y i h = cc
  get_elem?-append_some (z ∷ xs) x y zero h = h
  get_elem?-append_some (z ∷ xs) x y (suc i) h = get_elem?-append_some xs x y i h

ends_other :
    (meta : ConversationMeta) (error id : Bytes)
    → text_eq meta.conversation_id id ≡ false
    → ends id (conversation_closed meta error) ≡ 0
unfolding ends
ends_other meta error id h = rw h refl

ends-le :
    (id : Bytes) (meta : ConversationMeta) (error : Bytes)
    → ends id (conversation_closed meta error) ≤ 1
unfolding ends
ends-le id meta error = ground arith

module _ {K : Type 0} where
  -- An entry of the map leads to the state of its conversation, which was announced and not closed.
  abbrev pub IsLive : Router K → Bytes × ℕ → Type 0
  IsLive r e = IsAt r e.1 e.0 × ((closes e.0 r.trace ≡ 0) × (0 < begins e.0 r.trace))

  pub record IsValid (r : Router K) : Type 0 where
    pub live : All (IsLive r) r.sessions
    pub once : (id : Bytes) → closes id r.trace ≤ 1

  pub new_router-IsValid : IsValid (new_router {K = K})
  unfolding total
  new_router-IsValid = record { live = tt; once = λ id. omega arith }

  pub quiet-IsValid : (r r' : Router K) → IsQuiet r r' → IsValid r → IsValid r'
  quiet-IsValid r r' q v = record {
    live = subst (All (IsLive r')) (sym q.same_sessions) (
        All-imp
          (λ e (at, (c, b)).
            (q.same_ids e.1 e.0 at, (q.same_closes e.0 ∙ c, omega (arith, q.same_begins e.0))))
          r.sessions v.live);
    once = λ id. omega (arith, q.same_closes id, v.once id);
  }

  -- A conversation with no close so far is registered and announced.
  pub register-IsValid :
      (r : Router K) (st : SessionState K) (e : Event)
      → ((id : Bytes) → ends id e ≡ 0)
      → starts st.meta.conversation_id e ≡ 1
      → closes st.meta.conversation_id r.trace ≡ 0
      → IsValid r
      → IsValid (happen (register r st) e)
  unfolding register happen
  register-IsValid r st e quiet begun fresh v =
      let r' = happen (register r st) e in
      let kept : (x : Bytes × ℕ) → IsLive r x → IsLive r' x = λ x ((s, g, i), (c, b)). (
        (s, get_elem?-append_some r.states st s x.1 g, i),
        (
          omega (arith, total-snoc (ends x.0) r.trace e, quiet x.0),
          omega (arith, total-snoc (starts x.0) r.trace e),
        ),
      ) in
      let id = st.meta.conversation_id in
      record {
        live =
            insert-All (IsLive r') r.sessions id (length r.states) (All-imp kept r.sessions v.live)
              (
                (st, get_elem?-append_end r.states st, refl),
                (
                  omega (arith, total-snoc (ends id) r.trace e, quiet id),
                  omega (arith, total-snoc (starts id) r.trace e),
                ),
              );
        once = λ j. omega (arith, total-snoc (ends j) r.trace e, quiet j, v.once j);
      }

  pub unregister-IsValid : (r : Router K) (id : Bytes) → IsValid r → IsValid (unregister r id)
  unfolding unregister
  unregister-IsValid r id v = record {
    live = All-imp (λ e h. h.0) (remove r.sessions id) (remove-All (IsLive r) r.sessions id v.live);
    once = v.once;
  }

  -- The close of a conversation that is off the map, and had none so far.
  pub closed-IsValid :
      (r : Router K) (meta : ConversationMeta) (error : Bytes)
      → All (λ e. IsLive r e × (text_eq e.0 meta.conversation_id ≡ false)) r.sessions
      → closes meta.conversation_id r.trace ≡ 0
      → IsValid r
      → IsValid (happen r (conversation_closed meta error))
  unfolding happen starts
  closed-IsValid r meta error off fresh v =
      let c = conversation_closed meta error in
      record {
        live =
            All-imp
              (λ e ((at, (n, b)), d). (
                at,
                (
                  omega (
                    arith,
                    total-snoc (ends e.0) r.trace c,
                    ends_other meta error e.0 (text_eq_comm meta.conversation_id e.0 ∙ d),
                  ),
                  omega (arith, total-snoc (starts e.0) r.trace c),
                ),
              ))
              r.sessions off;
        once = λ j. elim (Bool-cases (text_eq meta.conversation_id j)) [
          | inl t ↦
              let none_yet : closes j r.trace ≡ 0 =
                subst (λ x. closes x r.trace ≡ 0) (eq_of_text_eq meta.conversation_id j t) fresh in
              omega (arith, total-snoc (ends j) r.trace c, ends-le j meta error)
          | inr t ↦
              omega (arith, total-snoc (ends j) r.trace c, ends_other meta error j t, v.once j)
        ];
      }

  pub clean_up-IsQuiet :
      (r : Router K) (p : ℕ) (st : SessionState K) (force : Bool)
      → IsAt r p st.meta.conversation_id
      → IsQuiet r (clean_up r p st force)
  unfolding clean_up ends starts
  clean_up-IsQuiet r p st force (s, g, i) = elim (Bool-cases st.cleaned) [
    | inl e ↦ rw e (IsQuiet-refl r)
    | inr e ↦ rw e (
        let r' = set_state r p (record st { cleaned = true }) in
        IsQuiet-trans r r' (happen r' (cleaned_up p force))
          (set_state-IsQuiet r p s (record st { cleaned = true }) g (sym i))
          (happen-IsQuiet r' (cleaned_up p force) (λ id. (refl, refl))))
  ]

  pub close_process-IsQuiet :
      (r : Router K) (p : ℕ) (st : SessionState K) → IsQuiet r (close_process r p st)
  unfolding close_process ends starts
  close_process-IsQuiet r p st = elim (Bool-cases st.has_process) [
    | inl e ↦ rw e (happen-IsQuiet r (process_closed p) (λ id. (refl, refl)))
    | inr e ↦ rw e (IsQuiet-refl r)
  ]
