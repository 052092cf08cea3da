-- ===== src/Helpers/Table/Trim.antt =====
-- Trimming by one byte.
use acpp.Prelude.{
  Bytes, ℕ, ◌==◌, ◌≡◌, refl, sym, ap, ◌∙◌, false, Bool-cases, inl, inr, [], ◌∷◌, ◌++◌, arith,
  if_true, if_false,
}
use acpp.Helpers.Table.{trim, trim_left, trim_right, cons_right}

trim_right-same : (c : ℕ) (s : Bytes) → trim_right c (s ++ c ∷ []) ≡ trim_right c s
unfolding trim_right cons_right
trim_right-same c [] = ground arith
trim_right-same c (d ∷ s) = ap (cons_right c d) (trim_right-same c s)

cons_right-end : (c d e : ℕ) (s : Bytes) → cons_right c d (s ++ e ∷ []) ≡ d ∷ (s ++ e ∷ [])
unfolding cons_right
cons_right-end c d e [] = refl
cons_right-end c d e (x ∷ s) = refl

trim_right-other :
    (c d : ℕ) (s : Bytes) → (d == c) ≡ false → trim_right c (s ++ d ∷ []) ≡ s ++ d ∷ []
unfolding trim_right cons_right
trim_right-other c d [] h = if_false _ _ h
trim_right-other c d (x ∷ s) h =
    ap (cons_right c x) (trim_right-other c d s h) ∙ cons_right-end c x d s

-- Two of the byte are taken off.
pub trim-same : (c : ℕ) (s : Bytes) → trim c (c ∷ (s ++ c ∷ [])) ≡ trim c s
unfolding trim
trim-same c s = ap (trim_right c) first ∙ by s
  where
    first : trim_left c (c ∷ (s ++ c ∷ [])) ≡ trim_left c (s ++ c ∷ [])
    first = unfold trim_left in ground arith

    by : (s : Bytes) → trim_right c (trim_left c (s ++ c ∷ [])) ≡ trim_right c (trim_left c s)
    by [] = unfold trim_left trim_right in ground arith
    by (d ∷ s) = elim (Bool-cases (d == c)) [
      | inl e ↦
          unfold trim_left in
          ap (trim_right c) (if_true _ _ e) ∙ by s ∙ sym (ap (trim_right c) (if_true _ _ e))
      | inr e ↦
          unfold trim_left in
          ap (trim_right c) (if_false _ _ e)
          ∙ trim_right-same c (d ∷ s)
          ∙ sym (ap (trim_right c) (if_false _ _ e))
    ]

-- Another byte at both ends stays.
pub trim-other :
    (c d : ℕ) (s : Bytes) → (d == c) ≡ false → trim c (d ∷ (s ++ d ∷ [])) ≡ d ∷ (s ++ d ∷ [])
unfolding trim
trim-other c d s h =
    ap (trim_right c) (unfold trim_left in if_false _ _ h) ∙ trim_right-other c d (d ∷ s) h
