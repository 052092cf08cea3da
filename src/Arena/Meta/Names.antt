-- ===== src/Arena/Meta/Names.antt =====
-- Names that are there once, and those that are missing.
use mathlib.Core.Path.{subst}
use acpp.Prelude.{
  All, All-imp, Bytes, text_eq, text_eq_self, text_eq_comm, ℕ, suc, ◌+◌, arith, ◌≡◌, refl, ap, ◌∙◌,
  sym, true, false, Bool-cases, inl, inr, List, [], ◌∷◌, ◌++◌, if◌then◌else◌, if_true, if_false,
  eq_of_text_eq,
}
use acpp.Arena.{mem}
use acpp.Arena.Plan.{Agent}
use acpp.Arena.Plan.Checked.{Distinct}

abbrev pub count : Bytes → List Bytes → ℕ
count x [] = 0
count x (y ∷ ys) = let rest = count x ys in if text_eq y x then suc rest else rest

-- No two are the same.
abbrev pub AreOnce : List Bytes → Type 0
AreOnce [] = Unit
AreOnce (x ∷ xs) = All (λ y. text_eq x y ≡ false) xs × AreOnce xs

-- The names of the agents that are not there, in the plan's order.
abbrev pub missing : List Bytes → List Agent → List Bytes
missing present [] = []
missing present (a ∷ as_) =
    let rest = missing present as_ in if mem a.name present then rest else a.name ∷ rest

count-append : (x : Bytes) (ys zs : List Bytes) → count x (ys ++ zs) ≡ count x ys + count x zs
count-append x [] zs = omega arith
count-append x (y ∷ ys) zs = ground (arith, count-append x ys zs)

count_absent : (x : Bytes) (ys : List Bytes) → mem x ys ≡ false → count x ys ≡ 0
unfolding mem
count_absent x [] h = refl
count_absent x (y ∷ ys) h = elim (Bool-cases (text_eq y x)) [
  | inl e ↦ let bad : true ≡ false = rw e at h in absurd (cc)
  | inr e ↦ rw e (count_absent x ys (rw e at h))
]

count_other : (x : Bytes) (ys : List Bytes) → All (λ y. text_eq x y ≡ false) ys → count x ys ≡ 0
count_other x [] h = refl
count_other x (y ∷ ys) (p, h) = rw (text_eq_comm y x ∙ p) (count_other x ys h)

count_present : (x : Bytes) (ys : List Bytes) → AreOnce ys → mem x ys ≡ true → count x ys ≡ 1
unfolding mem
count_present x [] o h = absurd (cc)
count_present x (y ∷ ys) (p, o) h = elim (Bool-cases (text_eq y x)) [
  | inl e ↦ rw e (ap suc (ap (λ z. count z ys) (sym (eq_of_text_eq y x e)) ∙ count_other y ys p))
  | inr e ↦ rw e (count_present x ys o (rw e at h))
]

count-missing_other :
    (x : Bytes) (present : List Bytes) (as_ : List Agent)
    → All (λ a. text_eq x a.name ≡ false) as_
    → count x (missing present as_) ≡ 0
count-missing_other x present [] h = refl
count-missing_other x present (a ∷ as_) (p, h) = elim (Bool-cases (mem a.name present)) [
  | inl e ↦ rw e (count-missing_other x present as_ h)
  | inr e ↦ rw (e, text_eq_comm a.name x ∙ p) (count-missing_other x present as_ h)
]

count-missing :
    (present : List Bytes) (as_ : List Agent)
    → Distinct as_
    → All (λ a. count a.name (missing present as_) ≡ (if mem a.name present then 0 else 1)) as_
count-missing present [] d = tt
count-missing present (a ∷ as_) (p, d) = elim (Bool-cases (mem a.name present)) [
  | inl e ↦
      subst Counted (sym (if_true (missing present as_) (a.name ∷ missing present as_) e)) (
        count-missing_other a.name present as_ p ∙ sym (if_true 0 1 e),
        count-missing present as_ d,
      )
  | inr e ↦ subst Counted (sym (if_false (missing present as_) (a.name ∷ missing present as_) e)) (
    if_true _ _ (text_eq_self a.name)
        ∙ ap suc (count-missing_other a.name present as_ p)
        ∙ sym (if_false 0 1 e),
    others as_ p (count-missing present as_ d),
  )
]
  where
    Counted : List Bytes → Type 0
    Counted m = All (λ b. count b.name m ≡ (if mem b.name present then 0 else 1)) (a ∷ as_)

    others :
        (bs : List Agent)
        → All (λ b. text_eq a.name b.name ≡ false) bs
        → All (λ b. count b.name (missing present as_) ≡ (if mem b.name present then 0 else 1)) bs
        → All
            (λ b.
              count b.name (a.name ∷ missing present as_) ≡ (if mem b.name present then 0 else 1))
            bs
    others [] q k = tt
    others (b ∷ bs) (q, qs) (k, ks) = (if_false _ _ q ∙ k, others bs qs ks)

-- What is there, followed by what is missing, has each name once.
pub count-filled :
    (present : List Bytes) (as_ : List Agent)
    → AreOnce present
    → Distinct as_
    → All (λ a. count a.name (present ++ missing present as_) ≡ 1) as_
count-filled present as_ o d = All-imp (λ a h. one a.name h) as_ (count-missing present as_ d)
  where
    one :
        (x : Bytes)
        → count x (missing present as_) ≡ (if mem x present then 0 else 1)
        → count x (present ++ missing present as_) ≡ 1
    one x h = elim (Bool-cases (mem x present)) [
      | inl e ↦
          let h' : count x (missing present as_) ≡ 0 = h ∙ if_true 0 1 e in
          omega
            (arith, count-append x present (missing present as_), count_present x present o e, h')
      | inr e ↦
          let h' : count x (missing present as_) ≡ 1 = h ∙ if_false 0 1 e in
          omega (arith, count-append x present (missing present as_), count_absent x present e, h')
    ]
