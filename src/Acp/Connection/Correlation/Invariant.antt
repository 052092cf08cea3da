-- ===== src/Acp/Connection/Correlation/Invariant.antt =====
-- The invariant of the ids: what waits was sent, and what was answered does not wait.
use acpp.Prelude.{
  All, All-imp, Bytes, text_eq, text_eq_self, text_eq_comm, eq_of_text_eq, ℕ, suc, ◌≤◌, arith, ◌≡◌,
  refl, ◌∙◌, false, Bool-cases, inl, inr, none, some, ◌∷◌,
}
use acpp.Db.Map.{
  Map, lookup, insert, remove, lookup-insert_other, lookup-remove, lookup-remove-none, lookup-All,
  insert-All, remove-All, remove-insert-All,
}
use acpp.Acp.Connection.Distinct.{Distinct}

module _ (digits : ℕ → Bytes) where
  abbrev pub IsNumbered : ℕ → Bytes × Bytes → Type 0
  IsNumbered next e = (n : ℕ) × (n ≤ next × (e.0 ≡ digits n))

  pub record IsTracked (pending : Map Bytes) (next : ℕ) (sent delivered : Map Bytes) : Type 0 where
    pub waits : All (λ e. lookup sent e.0 ≡ some e.1) pending
    pub numbered : All (IsNumbered next) sent
    pub taken : All (λ e. (lookup sent e.0 ≡ some e.1) × (lookup pending e.0 ≡ none)) delivered
    pub once : Distinct delivered
    pub own_id : Distinct sent

  pub fewer :
      (next : ℕ) (p p' s d : Map Bytes)
      → ((Q : Bytes × Bytes → Type 0) → All Q p → All Q p')
      → ((j : Bytes) → lookup p j ≡ none → lookup p' j ≡ none)
      → IsTracked p next s d
      → IsTracked p' next s d
  fewer next p p' s d f g t = record {
    waits = f (λ e. lookup s e.0 ≡ some e.1) t.waits;
    numbered = t.numbered;
    taken = All-imp (λ e q. (q.0, g e.0 q.1)) d t.taken;
    once = t.once;
    own_id = t.own_id;
  }

  pub later :
      (next next' : ℕ) (p s d : Map Bytes)
      → next ≤ next'
      → IsTracked p next s d
      → IsTracked p next' s d
  later next next' p s d h t = record {
    waits = t.waits;
    numbered = All-imp (λ e q. (q.0, (omega (arith, q.1.0), q.1.1))) s t.numbered;
    taken = t.taken;
    once = t.once;
    own_id = t.own_id;
  }

  -- A response is taken.
  pub taken_one :
      (next : ℕ) (p s d : Map Bytes) (id method : Bytes)
      → lookup p id ≡ some method
      → IsTracked p next s d
      → IsTracked (remove p id) next s ((id, method) ∷ d)
  taken_one next p s d id method e t = record {
    waits = remove-All _ p id t.waits;
    numbered = t.numbered;
    taken = (
      (lookup-All (λ x. lookup s x.0 ≡ some x.1) p id method t.waits e, lookup-remove p id),
      All-imp (λ x q. (q.0, lookup-remove-none p id x.0 q.1)) d t.taken,
    );
    once = (All-imp (λ x q. other x.0 q.1) d t.taken, t.once);
    own_id = t.own_id;
  }
    where
      other : (j : Bytes) → lookup p j ≡ none → text_eq j id ≡ false
      other j q = elim (Bool-cases (text_eq j id)) [
        | inl h ↦ let same : lookup p j ≡ some method = rw (eq_of_text_eq j id h) e in absurd (cc)
        | inr h ↦ h
      ]

  module _ (digits_injective : (m n : ℕ) → digits m ≡ digits n → m ≡ n) where
    new_id :
        (next : ℕ) (e : Bytes × Bytes) → IsNumbered next e → text_eq (digits (suc next)) e.0 ≡ false
    new_id next e (n, (h, q)) = elim (Bool-cases (text_eq (digits (suc next)) e.0)) [
      | inl t ↦
          let same : suc next ≡ n = digits_injective (suc next) n (eq_of_text_eq _ _ t ∙ q) in
          absurd (omega (arith, same, h))
      | inr t ↦ t
    ]

    lookup_new :
        (next : ℕ) (s : Map Bytes) (j v method : Bytes)
        → All (IsNumbered next) s
        → lookup s j ≡ some v
        → (text_eq (digits (suc next)) j ≡ false)
          × (lookup ((digits (suc next), method) ∷ s) j ≡ some v)
    unfolding lookup
    lookup_new next s j v method h e =
        let f : text_eq (digits (suc next)) j ≡ false =
          new_id next (j, v) (lookup-All (IsNumbered next) s j v h e) in
        (f, rw f e)

    -- A request is sent under the next id.
    pub sent_one :
        (next : ℕ) (p s d : Map Bytes) (method : Bytes)
        → IsTracked p next s d
        → IsTracked
            (insert p (digits (suc next)) method)
            (suc next)
            ((digits (suc next), method) ∷ s)
            d
    sent_one next p s d method t = record {
      waits =
          insert-All _ p (digits (suc next)) method
            (All-imp (λ e q. (lookup_new next s e.0 e.1 method t.numbered q).1) p t.waits)
            (unfold lookup in rw (text_eq_self (digits (suc next))) refl);
      numbered = (
        (suc next, (omega arith, refl)),
        All-imp (λ e q. (q.0, (omega (arith, q.1.0), q.1.1))) s t.numbered,
      );
      taken =
          All-imp
            (λ e q.
              let l = lookup_new next s e.0 e.1 method t.numbered q.0 in
              (l.1, lookup-insert_other p (digits (suc next)) e.0 method l.0 ∙ q.1))
            d t.taken;
      once = t.once;
      own_id = (
        All-imp (λ e q. text_eq_comm e.0 (digits (suc next)) ∙ new_id next e q) s t.numbered,
        t.own_id,
      );
    }

    -- It is not, and nothing waits.
    pub undone_one :
        (next : ℕ) (p s d : Map Bytes) (method : Bytes)
        → IsTracked p next s d
        → IsTracked
            (remove (insert p (digits (suc next)) method) (digits (suc next)))
            (suc next)
            s
            d
    undone_one next p s d method t = later next (suc next) _ s d (omega arith) (record {
      waits = remove-insert-All _ p (digits (suc next)) method t.waits;
      numbered = t.numbered;
      taken =
          All-imp
            (λ e q.
              let l = lookup_new next s e.0 e.1 method t.numbered q.0 in
              (
                q.0,
                lookup-remove-none (insert p (digits (suc next)) method) (digits (suc next)) e.0
                    (lookup-insert_other p (digits (suc next)) e.0 method l.0 ∙ q.1),
              ))
            d t.taken;
      once = t.once;
      own_id = t.own_id;
    })
