-- ===== src/Prelude/Text.antt =====
-- Text as bytes, and the calls of Go's `strings` that the components share.
use Prim.Native.Char.{code}
use Prim.Native.String.{String}
use Prim.Native.Nat.{ℕ, ◌-◌}
use mathlib.Core.Path.{◌≡◌, refl, ap, ◌∙◌}
use mathlib.Core.Logic.{◌≢◌, ◌⊎◌, inl, inr}
use mathlib.Core.Bool.{Bool, true, false}
use mathlib.Core.List.{List, [], ◌∷◌, ◌++◌}
use mathlib.Core.Option.{Option, none, some}
use native.Mathlib.Omega.{arith}
use acpp.Prelude.Tests.{◌==◌, ltb, if◌then◌else◌, if_true, if_false, Bool-cases}
use acpp.Prelude.Lists.{All, All-append, length, drop}

abbrev pub Bytes : Type 0
Bytes = List ℕ

-- '\n'
abbrev pub newline : ℕ
newline = 10

-- The code points of a literal: its bytes, as the literals of the source are ASCII.
abbrev pub codes : String → Bytes
codes String.[] = []
codes (String.◌∷◌ c s) = code c ∷ codes s

-- `strings.HasPrefix`
unfoldable pub has_prefix : Bytes → Bytes → Bool
has_prefix s [] = true
has_prefix [] (p ∷ ps) = false
has_prefix (c ∷ s) (p ∷ ps) = if c == p then has_prefix s ps else false

-- `strings.Cut` by one byte: the parts before and after its first place.
unfoldable pub cut : Bytes → ℕ → Option (Bytes × Bytes)
cut [] sep = none
cut (c ∷ s) sep =
    if c == sep
    then some ([], s)
    else elim (cut s sep) [ none ↦ none | some (a, b) ↦ some (c ∷ a, b) ]

-- `==` of two texts.
unfoldable pub text_eq : Bytes → Bytes → Bool
text_eq [] [] = true
text_eq [] (b ∷ bs) = false
text_eq (a ∷ as_) [] = false
text_eq (a ∷ as_) (b ∷ bs) = if a == b then text_eq as_ bs else false

-- `strings.HasSuffix`
unfoldable pub has_suffix : Bytes → Bytes → Bool
has_suffix s p =
    if ltb (length s) (length p) then false else text_eq (drop (length s - length p) s) p

-- What stands after the first place of `p`, which `strings.Index` finds.
unfoldable pub after_first : Bytes → Bytes → Option Bytes
after_first [] p = if has_prefix [] p then some [] else none
after_first (c ∷ s) p =
    let rest = after_first s p in
    if has_prefix (c ∷ s) p then some (drop (length p) (c ∷ s)) else rest

unfoldable pub onto_first : ℕ → List Bytes → List Bytes
onto_first c [] = (c ∷ []) ∷ []
onto_first c (p ∷ ps) = (c ∷ p) ∷ ps

-- `strings.Split` by one byte.
unfoldable pub split : Bytes → ℕ → List Bytes
unfolding onto_first
split [] sep = [] ∷ []
split (c ∷ s) sep = let rest = split s sep in if c == sep then [] ∷ rest else onto_first c rest

pub eq_of_text_eq : (a b : Bytes) → text_eq a b ≡ true → a ≡ b
unfolding text_eq
eq_of_text_eq [] [] h = refl
eq_of_text_eq [] (b ∷ bs) h = cc
eq_of_text_eq (a ∷ s) [] h = cc
eq_of_text_eq (a ∷ s) (b ∷ bs) h = ground (arith, eq_of_text_eq s bs)

pub text_eq_self : (a : Bytes) → text_eq a a ≡ true
unfolding text_eq
text_eq_self [] = refl
text_eq_self (a ∷ s) = ground (arith, text_eq_self s)

pub text_eq_comm : (a b : Bytes) → text_eq a b ≡ text_eq b a
unfolding text_eq
text_eq_comm [] [] = refl
text_eq_comm [] (b ∷ bs) = refl
text_eq_comm (a ∷ s) [] = refl
text_eq_comm (a ∷ s) (b ∷ t) = ground (arith, text_eq_comm s t)

abbrev pub Lacks : ℕ → Bytes → Type 0
Lacks c = All (λ b. b ≢ c)

-- A cut splits at the first place of the separator, and fails exactly where there is none.
pub cut_cases :
    (s : Bytes) (sep : ℕ)
    → (cut s sep ≡ none × Lacks sep s)
      ⊎ ((a b : Bytes) × cut s sep ≡ some (a, b) × s ≡ a ++ sep ∷ b × Lacks sep a)
unfolding cut
cut_cases [] sep = inl (refl, tt)
cut_cases (c ∷ s) sep = elim (Bool-cases (c == sep)) [
  | inl e ↦ inr ([], s, rw e, ap (λ x. x ∷ s) (ground arith), tt)
  | inr e ↦ elim (cut_cases s sep) [
    | inl (q, h) ↦ inl (rw (e, q), (ground arith, h))
    | inr (a, b, q, p, h) ↦ inr (c ∷ a, b, rw (e, q), ap (◌∷◌ c) p, (ground arith, h))
  ]
]

pub cut-append : (a b : Bytes) (sep : ℕ) → Lacks sep a → cut (a ++ sep ∷ b) sep ≡ some (a, b)
unfolding cut
cut-append [] b sep h = ground arith
cut-append (c ∷ a) b sep (p, h) = ground (arith, cut-append a b sep h)

-- `strings.Join`
unfoldable pub join : Bytes → List Bytes → Bytes
join sep [] = []
join sep (s ∷ []) = s
join sep (s ∷ t ∷ ss) = s ++ (sep ++ join sep (t ∷ ss))

pub split-Lacks : (s : Bytes) (sep : ℕ) → Lacks sep s → split s sep ≡ s ∷ []
unfolding split onto_first
split-Lacks [] sep h = refl
split-Lacks (c ∷ s) sep (p, h) =
    let e : (c == sep) ≡ false = ground (arith, p) in
    if_false _ _ e ∙ ap (onto_first c) (split-Lacks s sep h)

pub split-append :
    (s t : Bytes) (sep : ℕ) → Lacks sep s → split (s ++ sep ∷ t) sep ≡ s ∷ split t sep
unfolding split onto_first
split-append [] t sep h = let e : (sep == sep) ≡ true = ground arith in if_true _ _ e
split-append (c ∷ s) t sep (p, h) =
    let e : (c == sep) ≡ false = ground (arith, p) in
    if_false _ _ e ∙ ap (onto_first c) (split-append s t sep h)

-- Joined by a byte that no part has, the parts come back.
pub split-join :
    (s : Bytes) (ss : List Bytes) (sep : ℕ)
    → All (Lacks sep) (s ∷ ss)
    → split (join (sep ∷ []) (s ∷ ss)) sep ≡ s ∷ ss
unfolding join
split-join s [] sep (h, hs) = split-Lacks s sep h
split-join s (t ∷ ss) sep (h, hs) =
    split-append s (join (sep ∷ []) (t ∷ ss)) sep h ∙ ap (◌∷◌ s) (split-join t ss sep hs)

pub cut-Lacks : (s : Bytes) (sep : ℕ) → Lacks sep s → cut s sep ≡ none
unfolding cut
cut-Lacks [] sep h = refl
cut-Lacks (c ∷ s) sep (p, h) =
    let e : (c == sep) ≡ false = ground (arith, p) in rw (e, cut-Lacks s sep h) refl

-- What holds of every byte of the parts and of what joins them holds of the whole.
pub join-All {κ} :
    (P : ℕ → Type κ) (sep : Bytes)
    → All P sep
    → (ss : List Bytes) → All (All P) ss
    → All P (join sep ss)
unfolding join
join-All P sep h [] k = tt
join-All P sep h (s ∷ []) (k, ks) = k
join-All P sep h (s ∷ t ∷ ss) (k, ks) =
    All-append P s (sep ++ join sep (t ∷ ss)) k
      (All-append P sep (join sep (t ∷ ss)) h (join-All P sep h (t ∷ ss) ks))
