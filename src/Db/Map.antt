-- ===== src/Db/Map.antt =====
-- A Go map with text keys, as an association list. A range over the map goes in the list's order.
use acpp.Prelude.{
  All, Bytes, text_eq, text_eq_self, eq_of_text_eq, Bool-cases, if◌then◌else◌, ◌≡◌, refl, ap, ◌∙◌,
  inl, inr, false, Option, none, some, List, [], ◌∷◌, ◌++◌, if_false,
}
use mathlib.Core.Path.{subst, subst₂}

abbrev pub Map {ℓ} : Type ℓ → Type ℓ
Map V = List (Bytes × V)

module _ {ℓ} {V : Type ℓ} where
  unfoldable pub lookup : Map V → Bytes → Option V
  lookup [] k = none
  lookup ((k', v) ∷ m) k = if text_eq k' k then some v else lookup m k

  unfoldable pub insert : Map V → Bytes → V → Map V
  insert [] k v = (k, v) ∷ []
  insert ((k', w) ∷ m) k v = if text_eq k' k then (k, v) ∷ m else (k', w) ∷ insert m k v

  -- `delete`
  unfoldable pub remove : Map V → Bytes → Map V
  remove [] k = []
  remove ((k', v) ∷ m) k = let rest = remove m k in if text_eq k' k then rest else (k', v) ∷ rest

  unfoldable pub values : Map V → List V
  values [] = []
  values ((k, v) ∷ m) = v ∷ values m

  pub lookup-insert : (m : Map V) (k : Bytes) (v : V) → lookup (insert m k v) k ≡ some v
  unfolding lookup insert
  lookup-insert [] k v = rw (text_eq_self k) refl
  lookup-insert ((k', w) ∷ m) k v = elim (Bool-cases (text_eq k' k)) [
    | inl e ↦ rw (e, text_eq_self k) refl
    | inr e ↦ rw (e, e) (lookup-insert m k v)
  ]

  -- Another key keeps its value.
  pub lookup-insert_other :
      (m : Map V) (k j : Bytes) (v : V) → text_eq k j ≡ false → lookup (insert m k v) j ≡ lookup m j
  unfolding lookup insert
  lookup-insert_other [] k j v h = rw h refl
  lookup-insert_other ((k', w) ∷ m) k j v h = elim (Bool-cases (text_eq k' k)) [
    | inl e ↦ rw (e, h, ap (λ x. text_eq x j) (eq_of_text_eq k' k e), h) refl
    | inr e ↦ rw (e, lookup-insert_other m k j v h) refl
  ]

  pub lookup-remove : (m : Map V) (k : Bytes) → lookup (remove m k) k ≡ none
  unfolding lookup remove
  lookup-remove [] k = refl
  lookup-remove ((k', w) ∷ m) k = elim (Bool-cases (text_eq k' k)) [
    | inl e ↦ rw e (lookup-remove m k)
    | inr e ↦ rw (e, e) (lookup-remove m k)
  ]

  pub lookup-remove_other :
      (m : Map V) (k j : Bytes) → text_eq k j ≡ false → lookup (remove m k) j ≡ lookup m j
  unfolding lookup remove
  lookup-remove_other [] k j h = refl
  lookup-remove_other ((k', w) ∷ m) k j h = elim (Bool-cases (text_eq k' k)) [
    | inl e ↦ rw (e, ap (λ x. text_eq x j) (eq_of_text_eq k' k e), h) (lookup-remove_other m k j h)
    | inr e ↦ rw (e, lookup-remove_other m k j h) refl
  ]

  -- A key that is there stays there.
  pub lookup-insert-some :
      (m : Map V) (k j : Bytes) (v u : V)
      → lookup m j ≡ some u
      → (w : V) × lookup (insert m k v) j ≡ some w
  lookup-insert-some m k j v u h = elim (Bool-cases (text_eq k j)) [
    | inl e ↦ (
      v,
      subst (λ x. lookup (insert m k v) x ≡ some v) (eq_of_text_eq k j e) (lookup-insert m k v),
    )
    | inr e ↦ (u, lookup-insert_other m k j v e ∙ h)
  ]

  -- A key that is not there stays away.
  pub lookup-remove-none :
      (m : Map V) (k j : Bytes) → lookup m j ≡ none → lookup (remove m k) j ≡ none
  lookup-remove-none m k j h = elim (Bool-cases (text_eq k j)) [
    | inl e ↦ subst (λ x. lookup (remove m k) x ≡ none) (eq_of_text_eq k j e) (lookup-remove m k)
    | inr e ↦ lookup-remove_other m k j e ∙ h
  ]

  -- A key that is not there comes at the end.
  pub insert_end :
      (m : Map V) (k : Bytes) (v : V)
      → All (λ e. text_eq e.0 k ≡ false) m
      → insert m k v ≡ m ++ (k, v) ∷ []
  unfolding insert
  insert_end [] k v h = refl
  insert_end (e ∷ m) k v (p, h) = if_false _ _ p ∙ ap (◌∷◌ e) (insert_end m k v h)

  module _ {κ} (P : Bytes × V → Type κ) where
    pub remove-All : (m : Map V) (k : Bytes) → All P m → All P (remove m k)
    unfolding remove
    remove-All [] k h = tt
    remove-All ((k', w) ∷ m) k (p, h) = elim (Bool-cases (text_eq k' k)) [
      | inl e ↦ rw e (remove-All m k h)
      | inr e ↦ rw e (p, remove-All m k h)
    ]

    -- What is put under a key and removed again leaves nothing behind.
    pub remove-insert-All :
        (m : Map V) (k : Bytes) (v : V) → All P m → All P (remove (insert m k v) k)
    unfolding remove insert
    remove-insert-All [] k v h = rw (text_eq_self k) tt
    remove-insert-All ((k', w) ∷ m) k v (p, h) = elim (Bool-cases (text_eq k' k)) [
      | inl e ↦ rw (e, text_eq_self k) (remove-All m k h)
      | inr e ↦ rw (e, e) (p, remove-insert-All m k v h)
    ]

    pub insert-All : (m : Map V) (k : Bytes) (v : V) → All P m → P (k, v) → All P (insert m k v)
    unfolding insert
    insert-All [] k v h p = (p, tt)
    insert-All ((k', w) ∷ m) k v (q, h) p = elim (Bool-cases (text_eq k' k)) [
      | inl e ↦ rw e (p, h)
      | inr e ↦ rw e (q, insert-All m k v h p)
    ]

    pub lookup-All : (m : Map V) (k : Bytes) (v : V) → All P m → lookup m k ≡ some v → P (k, v)
    unfolding lookup
    lookup-All [] k v h e = cc
    lookup-All ((k', w) ∷ m) k v (q, h) e = elim (Bool-cases (text_eq k' k)) [
      | inl t ↦
          let e' : some w ≡ some v = rw t at e in
          let same : w ≡ v = cc in subst₂ (λ a b. P (a, b)) (eq_of_text_eq k' k t) same q
      | inr t ↦ lookup-All m k v h (rw t at e)
    ]

-- A key that is not there is not that of any entry.
pub absent-All {ℓ κ} :
    {V : Type ℓ} (m : Map V) (k : Bytes)
    → lookup m k ≡ none
    → (P : Bytes × V → Type κ) → All P m
    → All (λ e. P e × (text_eq e.0 k ≡ false)) m
unfolding lookup
absent-All [] k h P t = tt
absent-All ((k', v) ∷ m) k h P (p, t) = elim (Bool-cases (text_eq k' k)) [
  | inl e ↦ let bad : some v ≡ none = rw e at h in absurd (cc)
  | inr e ↦ ((p, e), absent-All m k (rw e at h) P t)
]
