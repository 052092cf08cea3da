-- ===== src/Config/Glob/Segments.antt =====
-- What the match of the segments finds, and that the first place of each is enough.
use mathlib.Core.Path.{subst}
use acpp.Prelude.{
  Bytes, text_eq, text_eq_self, eq_of_text_eq, has_prefix, has_suffix, after_first, ℕ, zero, suc,
  ◌-◌, ◌==◌, ==_iff, ltb, arith, ◌≡◌, refl, sym, ap, ◌∙◌, true, false, Bool-cases, inl, inr, Option,
  none, some, Option-cases, List, [], ◌∷◌, ◌++◌, append_assoc, append-nil, length, length-append,
  drop, drop-append_le, take, take-append-drop,
}
use acpp.Config.{match_segments}

-- The segments stand in the text one after the other, with any text before each; the last ends it.
unfoldable pub Gaps : List Bytes → Bytes → Type 0
Gaps [] s = s ≡ []
Gaps (p ∷ ps) s = (a b : Bytes) × (s ≡ a ++ (p ++ b)) × Gaps ps b

-- What the code computes on the parts, for any text.
drop-Gaps : (p : Bytes) (a b : Bytes) → (x : Bytes) × (drop (length p) (a ++ (p ++ b)) ≡ x ++ b)
drop-Gaps p a b = (
  drop (length p) (a ++ p),
  ap (drop (length p)) (sym (append_assoc a p b))
      ∙ drop-append_le (length p) (a ++ p) b (omega (arith, length-append a p)),
)

pub has_prefix_sound : (s p : Bytes) → has_prefix s p ≡ true → s ≡ p ++ drop (length p) s
unfolding has_prefix
has_prefix_sound s [] h = refl
has_prefix_sound [] (c ∷ p) h = cc
has_prefix_sound (d ∷ s) (c ∷ p) h = elim (Bool-cases (d == c)) [
  | inl e ↦ λ i. (==_iff d c).0 e i ∷ has_prefix_sound s p (rw e at h) i
  | inr e ↦ let bad : false ≡ true = rw e at h in absurd (cc)
]

pub has_prefix-append : (p b : Bytes) → has_prefix (p ++ b) p ≡ true
unfolding has_prefix
has_prefix-append [] b = refl
has_prefix-append (c ∷ p) b = rw ((==_iff c c).1 refl) (has_prefix-append p b)

pub drop-append : (p b : Bytes) → drop (length p) (p ++ b) ≡ b
drop-append [] b = refl
drop-append (c ∷ p) b = drop-append p b

drop_nil : (n : ℕ) → ◌≡◌ {A = Bytes} (drop n []) []
drop_nil zero = refl
drop_nil (suc n) = refl

-- The text after the first place of a segment is found, and reaches as far back as after any place.
after_first_sound : (s p d : Bytes) → after_first s p ≡ some d → (a : Bytes) × (s ≡ a ++ (p ++ d))
unfolding after_first
after_first_sound [] p d h = elim (Bool-cases (has_prefix [] p)) [
  | inl e ↦
      let is : some [] ≡ some d = rw e at h in
      let same : [] ≡ d = cc in
      ([], has_prefix_sound [] p e ∙ ap (λ x. p ++ x) (drop_nil (length p) ∙ same))
  | inr e ↦ let bad : ◌≡◌ {A = Option Bytes} none (some d) = rw e at h in absurd (cc)
]
after_first_sound (c ∷ s) p d h = elim (Bool-cases (has_prefix (c ∷ s) p)) [
  | inl e ↦
      let is : some (drop (length p) (c ∷ s)) ≡ some d = rw e at h in
      let same : drop (length p) (c ∷ s) ≡ d = cc in
      ([], has_prefix_sound (c ∷ s) p e ∙ ap (λ x. p ++ x) same)
  | inr e ↦ let (a, q) = after_first_sound s p d (rw e at h) in (c ∷ a, ap (λ x. c ∷ x) q)
]

after_first_here : (p b : Bytes) → (d x : Bytes) × (after_first (p ++ b) p ≡ some d) × (d ≡ x ++ b)
unfolding after_first has_prefix
after_first_here [] [] = ([], [], refl, refl)
after_first_here [] (c ∷ b) = (c ∷ b, [], refl, refl)
after_first_here (c ∷ p) b = (
  drop (length (c ∷ p)) (c ∷ (p ++ b)),
  [],
  rw (has_prefix-append (c ∷ p) b) refl,
  drop-append p b,
)

after_first_complete :
    (a p b : Bytes) → (d x : Bytes) × (after_first (a ++ (p ++ b)) p ≡ some d) × (d ≡ x ++ b)
unfolding after_first
after_first_complete [] p b = after_first_here p b
after_first_complete (c ∷ a) p b = elim (Bool-cases (has_prefix (c ∷ (a ++ (p ++ b))) p)) [
  | inl e ↦
      let (x, q) = drop-Gaps p (c ∷ a) b in (drop (length p) (c ∷ (a ++ (p ++ b))), x, rw e refl, q)
  | inr e ↦ let (d, x, f, q) = after_first_complete a p b in (d, x, rw e f, q)
]

has_suffix_sound : (s p : Bytes) → has_suffix s p ≡ true → (a : Bytes) × (s ≡ a ++ (p ++ []))
unfolding has_suffix
has_suffix_sound s p h = elim (Bool-cases (ltb (length s) (length p))) [
  | inl e ↦ let bad : false ≡ true = rw e at h in absurd (cc)
  | inr e ↦
      let n = length s - length p in
      let same : drop n s ≡ p = eq_of_text_eq (drop n s) p (rw e at h) in
      (take n s, sym (take-append-drop n s) ∙ ap (λ x. take n s ++ x) (same ∙ sym (append-nil p)))
]

has_suffix-append : (a p : Bytes) → has_suffix (a ++ p) p ≡ true
unfolding has_suffix
has_suffix-append a p =
    let long : ltb (length (a ++ p)) (length p) ≡ false = ground (arith, length-append a p) in
    let at : length (a ++ p) - length p ≡ length a = omega (arith, length-append a p) in
    rw long (
      ap (λ n. text_eq (drop n (a ++ p)) p) at
      ∙ ap (λ x. text_eq x p) (drop-append a p)
      ∙ text_eq_self p)

-- Text before the first gap only makes the gap longer.
Gaps-prepend :
    (p : Bytes) (ps : List Bytes) (x s : Bytes) → Gaps (p ∷ ps) s → Gaps (p ∷ ps) (x ++ s)
unfolding Gaps
Gaps-prepend p ps x s (a, b, e, g) =
    (x ++ a, b, ap (λ t. x ++ t) e ∙ sym (append_assoc x a (p ++ b)), g)

pub match_segments_sound : (ps : List Bytes) (s : Bytes) → match_segments ps s ≡ true → Gaps ps s
unfolding match_segments Gaps
match_segments_sound [] s h = absurd (cc)
match_segments_sound (last ∷ []) s h = let (a, e) = has_suffix_sound s last h in (a, [], e, refl)
match_segments_sound (p ∷ q ∷ ps) s h = elim (Option-cases (after_first s p)) [
  | inl e ↦ let bad : false ≡ true = rw (e, match_segments) at h in absurd (cc)
  | inr (d, e) ↦
      let (a, place) = after_first_sound s p d e in
      (a, d, place, match_segments_sound (q ∷ ps) d (rw (e, match_segments) at h))
]

pub match_segments_complete :
    (p : Bytes) (ps : List Bytes) (s : Bytes) → Gaps (p ∷ ps) s → match_segments (p ∷ ps) s ≡ true
unfolding match_segments Gaps
match_segments_complete last [] s (a, b, e, g) =
    ap (λ x. has_suffix x last)
      (e ∙ ap (λ x. a ++ (last ++ x)) g ∙ ap (λ x. a ++ x) (append-nil last))
    ∙ has_suffix-append a last
match_segments_complete p (q ∷ ps) s (a, b, e, g) =
    let (d, x, f, t) = after_first_complete a p b in
    let found : after_first s p ≡ some d = ap (λ y. after_first y p) e ∙ f in
    rw (found, match_segments)
      (match_segments_complete q ps d (subst (Gaps (q ∷ ps)) (sym t) (Gaps-prepend q ps x b g)))
