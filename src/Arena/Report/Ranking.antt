-- ===== src/Arena/Report/Ranking.antt =====
-- The ranking is in order.
use mathlib.Core.List.{Perm}
use acpp.Prelude.{
  All, All-imp, Bytes, Bool-cases, inl, inr, ◌⊎◌, if_true, if_false, ap, sym, ◌∙◌, ◌<◌, ◌==◌, ltb,
  ◌≡◌, refl, Bool, true, false, List, [], ◌∷◌, ℤ, pos, negsuc, int_lt, arith, if◌then◌else◌,
}
use acpp.Db.Map.{Map}
use acpp.Db.Order.{IsWeakOrder, Sorted, sort_by, sort_by-Perm, sort_by-Sorted}
use acpp.Db.MemStore.Listing.{text_lt}
use acpp.Arena.Report.{total_of, ranks_before, ranked}

int_lt-asym : (a b : ℤ) → int_lt a b ≡ true → int_lt b a ≡ false
unfolding int_lt
int_lt-asym (pos m) (pos n) h = ground arith
int_lt-asym (pos m) (negsuc n) h = absurd (cc)
int_lt-asym (negsuc m) (pos n) h = refl
int_lt-asym (negsuc m) (negsuc n) h = ground arith

int_lt-trans_not : (a b c : ℤ) → int_lt b a ≡ false → int_lt c b ≡ false → int_lt c a ≡ false
unfolding int_lt
int_lt-trans_not (pos m) (pos n) (pos k) h i = ground arith
int_lt-trans_not (pos m) (pos n) (negsuc k) h i = i
int_lt-trans_not (pos m) (negsuc n) c h i = absurd (cc)
int_lt-trans_not (negsuc m) (pos n) (pos k) h i = refl
int_lt-trans_not (negsuc m) (pos n) (negsuc k) h i = absurd (cc)
int_lt-trans_not (negsuc m) (negsuc n) (pos k) h i = refl
int_lt-trans_not (negsuc m) (negsuc n) (negsuc k) h i = ground arith

text_lt-asym : (s t : Bytes) → text_lt s t ≡ true → text_lt t s ≡ false
unfolding text_lt
text_lt-asym s [] h = absurd (cc)
text_lt-asym [] (b ∷ t) h = refl
text_lt-asym (a ∷ s) (b ∷ t) h = ground (arith, text_lt-asym s t)

text_lt-trans_not :
    (s t u : Bytes) → text_lt t s ≡ false → text_lt u t ≡ false → text_lt u s ≡ false
unfolding text_lt
text_lt-trans_not [] t u h i = refl
text_lt-trans_not (a ∷ s) [] u h i = absurd (cc)
text_lt-trans_not (a ∷ s) (b ∷ t) [] h i = absurd (cc)
text_lt-trans_not (a ∷ s) (b ∷ t) (c ∷ u) h i = ground (arith, text_lt-trans_not s t u)

-- The first number is below the second.
abbrev pub Below : ℤ → ℤ → Type 0
Below (pos m) (pos n) = m < n
Below (pos m) (negsuc n) = ⊥
Below (negsuc m) (pos n) = Unit
Below (negsuc m) (negsuc n) = n < m

-- The first text is not after the second in the order of the bytes.
abbrev pub TextLe : Bytes → Bytes → Type 0
TextLe [] t = Unit
TextLe (a ∷ s) [] = ⊥
TextLe (a ∷ s) (b ∷ t) = (a < b) ⊎ ((a ≡ b) × TextLe s t)

int_lt-Below : (a b : ℤ) → int_lt a b ≡ true → Below a b
unfolding int_lt
int_lt-Below (pos m) (pos n) h = ground arith
int_lt-Below (pos m) (negsuc n) h = absurd (cc)
int_lt-Below (negsuc m) (pos n) h = tt
int_lt-Below (negsuc m) (negsuc n) h = ground arith

int_lt_cases : (a b : ℤ) → int_lt a b ≡ false → int_lt b a ≡ false → a ≡ b
unfolding int_lt
int_lt_cases (pos m) (pos n) h k = let e : m ≡ n = ground arith in ap pos e
int_lt_cases (pos m) (negsuc n) h k = absurd (cc)
int_lt_cases (negsuc m) (pos n) h k = absurd (cc)
int_lt_cases (negsuc m) (negsuc n) h k = let e : m ≡ n = ground arith in ap negsuc e

text_lt-TextLe : (s t : Bytes) → text_lt t s ≡ false → TextLe s t
unfolding text_lt
text_lt-TextLe [] t h = tt
text_lt-TextLe (a ∷ s) [] h = absurd (cc)
text_lt-TextLe (a ∷ s) (b ∷ t) h = elim (Bool-cases (b == a)) [
  | inl e ↦ inr (ground arith, text_lt-TextLe s t (sym (if_true _ _ e) ∙ h))
  | inr e ↦ let le : ltb b a ≡ false = sym (if_false _ _ e) ∙ h in inl (ground arith)
]

-- The order of the ranking, from the answers of the two orders.
abbrev lex : Bool → Bool → Bool → Bool
lex lower higher name = if lower then true else if higher then false else name

lex-asym :
    (p q n m : Bool)
    → (p ≡ true → q ≡ false)
    → (n ≡ true → m ≡ false)
    → lex p q n ≡ true
    → lex q p m ≡ false
lex-asym true q n m f g h = let e : q ≡ false = f refl in rw e refl
lex-asym false true n m f g h = absurd (cc)
lex-asym false false n m f g h = g h

module _ (totals : Map ℤ) where
  ranks_before-trans_not :
      (x y z : Bytes)
      → ranks_before totals y x ≡ false
      → ranks_before totals z y ≡ false
      → ranks_before totals z x ≡ false
  unfolding ranks_before
  ranks_before-trans_not x y z h k = ground (
    arith,
    int_lt-trans_not (total_of totals z) (total_of totals y) (total_of totals x),
    int_lt-trans_not (total_of totals x) (total_of totals z) (total_of totals y),
    int_lt-trans_not (total_of totals y) (total_of totals x) (total_of totals z),
    text_lt-trans_not x y z,
  )

  ranks_before-IsWeakOrder : IsWeakOrder (ranks_before totals)
  unfolding ranks_before
  ranks_before-IsWeakOrder = record {
    asym = λ x y.
        lex-asym (int_lt (total_of totals y) (total_of totals x))
          (int_lt (total_of totals x) (total_of totals y)) (text_lt x y) (text_lt y x)
          (int_lt-asym (total_of totals y) (total_of totals x)) (text_lt-asym x y);
    trans_not = ranks_before-trans_not;
  }

  -- The two names in the order of the report.
  abbrev pub RanksOver : Bytes → Bytes → Type 0
  RanksOver x y =
      Below (total_of totals y) (total_of totals x)
      ⊎ (total_of totals x ≡ total_of totals y × TextLe x y)

  -- Each name ranks over all that stand after it.
  abbrev pub InOrder : List Bytes → Type 0
  InOrder [] = Unit
  InOrder (x ∷ xs) = All (RanksOver x) xs × InOrder xs

  not_before : (x y : Bytes) → ranks_before totals y x ≡ false → RanksOver x y
  unfolding ranks_before
  not_before x y h = elim (Bool-cases (int_lt (total_of totals x) (total_of totals y))) [
    | inl e ↦ let t : true ≡ false = sym (if_true _ _ e) ∙ h in absurd (cc)
    | inr e ↦
        let h₁ = sym (if_false _ _ e) ∙ h in
        elim (Bool-cases (int_lt (total_of totals y) (total_of totals x))) [
          | inl f ↦ inl (int_lt-Below (total_of totals y) (total_of totals x) f)
          | inr f ↦ inr (
            int_lt_cases (total_of totals x) (total_of totals y) e f,
            text_lt-TextLe x y (sym (if_false _ _ f) ∙ h₁),
          )
        ]
  ]

  Sorted-InOrder : (xs : List Bytes) → Sorted (ranks_before totals) xs → InOrder xs
  Sorted-InOrder [] s = tt
  Sorted-InOrder (x ∷ xs) (h, s) = (All-imp (not_before x) xs h, Sorted-InOrder xs s)

  -- The ranking is a permutation of the names, and each name has, against every name after it, the higher
  -- total, or the same total and a text that is not higher, byte by byte.
  pub ranked_lem :
      (names : List Bytes) → Perm (ranked totals names) names × InOrder (ranked totals names)
  unfolding ranked
  ranked_lem names = (
    sort_by-Perm (ranks_before totals) names,
    Sorted-InOrder (sort_by (ranks_before totals) names)
        (sort_by-Sorted (ranks_before totals) ranks_before-IsWeakOrder names),
  )
