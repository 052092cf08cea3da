-- ===== src/Config/Glob.antt =====
-- The wildcard match against a reading of patterns one byte at a time.
mod Segments
use mathlib.Core.Path.{subst}
use acpp.Prelude.{
  Bytes, text_eq, text_eq_self, eq_of_text_eq, has_prefix, has_suffix, split, onto_first,
  after_first, ℕ, zero, suc, ◌-◌, ◌==◌, ==_iff, ltb, arith, ◌≡◌, ◌↔◌, refl, sym, ap, ◌∙◌, true,
  false, Bool-cases, inl, inr, Option, none, some, Option-cases, List, [], ◌∷◌, ◌++◌, append_assoc,
  append-nil, length, length-append, drop, drop-append_le, take, take-append-drop,
}
use acpp.Config.Glob.Segments.{
  Gaps, has_prefix_sound, has_prefix-append, drop-append, match_segments_sound,
  match_segments_complete,
}
use acpp.Config.{star, contains_star, match_segments, match_parts, wildcard_match}

-- A star stands for any text, any other byte for itself.
pub Matches : Bytes → Bytes → Type 0
Matches [] s = s ≡ []
Matches (c ∷ p) s = elim (c == star) [
  | true ↦ (a b : Bytes) × (s ≡ a ++ b) × Matches p b
  | false ↦ (t : Bytes) × (s ≡ c ∷ t) × Matches p t
]

Parts : List Bytes → Bytes → Type 0
unfolding Gaps
Parts [] s = ⊥
Parts (p ∷ ps) s = (r : Bytes) × (s ≡ p ++ r) × Gaps ps r

-- A text without a star is the whole pattern.
plain-Matches : (p s : Bytes) → contains_star p ≡ false → Matches p s ↔ (p ≡ s)
unfolding contains_star Matches
plain-Matches [] s h = (λ e. sym e, λ e. sym e)
plain-Matches (c ∷ p) s h = elim (Bool-cases (c == star)) [
  | inl e ↦ let bad : true ≡ false = rw e at h in absurd (cc)
  | inr e ↦
      rw (e, Matches)
        (
          λ (t, q, m). sym (q ∙ ap (λ x. c ∷ x) (sym ((plain-Matches p t (rw e at h)).0 m))),
          λ q. (p, sym q, (plain-Matches p p (rw e at h)).1 refl),
        )
]

Parts-onto_first :
    (c : ℕ) (p : Bytes) (ps : List Bytes) (s : Bytes)
    → Parts (onto_first c (p ∷ ps)) s ↔ ((t : Bytes) × (s ≡ c ∷ t) × Parts (p ∷ ps) t)
unfolding Parts onto_first Gaps
Parts-onto_first c p ps s =
    (λ (r, e, g). (p ++ r, e, (r, refl, g)), λ (t, e, (r, f, g)). (r, e ∙ ap (λ x. c ∷ x) f, g))

Gaps-Parts :
    (p : Bytes) (ps : List Bytes) (s : Bytes)
    → Gaps (p ∷ ps) s ↔ ((a b : Bytes) × (s ≡ a ++ b) × Parts (p ∷ ps) b)
unfolding Parts Gaps
Gaps-Parts p ps s = (
  λ (a, b, e, g). (a, p ++ b, e, (b, refl, g)),
  λ (a, b, e, (r, f, g)). (a, r, e ∙ ap (λ x. a ++ x) f, g),
)

split_cons : (s : Bytes) (sep : ℕ) → (p : Bytes) × (ps : List Bytes) × (split s sep ≡ p ∷ ps)
unfolding split onto_first
split_cons [] sep = ([], [], refl)
split_cons (c ∷ s) sep = elim (Bool-cases (c == sep)) [
  | inl e ↦ ([], split s sep, rw e refl)
  | inr e ↦ let (p, ps, f) = split_cons s sep in (c ∷ p, ps, rw e (ap (onto_first c) f))
]

-- Reading a pattern byte by byte is reading its parts between the stars.
split-Matches : (p s : Bytes) → Matches p s ↔ Parts (split p star) s
unfolding Matches Parts Gaps split
split-Matches [] s = (λ e. (s, refl, e), λ (r, e, g). e ∙ g)
split-Matches (c ∷ p) s = elim (Bool-cases (c == star)) [
  | inl e ↦
      let (q, qs, f) = split_cons p star in
      let gaps = Gaps-Parts q qs in
      rw (e, Matches)
        (
          λ (a, b, t, m). (
            s,
            refl,
            subst (λ x. Gaps x s) (sym f)
                ((gaps s).1 (a, b, t, subst (λ x. Parts x b) f ((split-Matches p b).0 m))),
          ),
          λ (r, t, g).
              let (a, b, u, m) = (gaps r).0 (subst (λ x. Gaps x r) f g) in
              (a, b, t ∙ u, (split-Matches p b).1 (subst (λ x. Parts x b) (sym f) m)),
        )
  | inr e ↦
      let (q, qs, f) = split_cons p star in
      let onto = Parts-onto_first c q qs s in
      rw (e, Matches)
        (
          λ (t, u, m).
              subst (λ x. Parts (onto_first c x) s) (sym f)
                (onto.1 (t, u, subst (λ x. Parts x t) f ((split-Matches p t).0 m))),
          λ g.
              let (t, u, m) = onto.0 (subst (λ x. Parts (onto_first c x) s) f g) in
              (t, u, (split-Matches p t).1 (subst (λ x. Parts x t) (sym f) m)),
        )
]

split-star :
    (p : Bytes)
    → contains_star p ≡ true
    → (a b : Bytes) × (ps : List Bytes) × (split p star ≡ a ∷ b ∷ ps)
unfolding contains_star split onto_first
split-star [] h = absurd (cc)
split-star (c ∷ p) h = elim (Bool-cases (c == star)) [
  | inl e ↦ let (q, qs, f) = split_cons p star in ([], q, qs, rw e (ap (λ x. [] ∷ x) f))
  | inr e ↦
      let (a, b, ps, f) = split-star p (rw e at h) in (c ∷ a, b, ps, rw e (ap (onto_first c) f))
]

match_parts-Parts :
    (a b : Bytes) (ps : List Bytes) (s : Bytes)
    → (match_parts (a ∷ b ∷ ps) s ≡ true) ↔ Parts (a ∷ b ∷ ps) s
unfolding match_parts Parts
match_parts-Parts a b ps s = (
  λ h. elim (Bool-cases (has_prefix s a)) [
    | inl e ↦ (
      drop (length a) s,
      has_prefix_sound s a e,
      match_segments_sound (b ∷ ps) (drop (length a) s) (rw e at h),
    )
    | inr e ↦ let bad : false ≡ true = rw e at h in absurd (cc)
  ],
  λ (r, e, g).
      let start : has_prefix s a ≡ true = ap (λ x. has_prefix x a) e ∙ has_prefix-append a r in
      let rest : drop (length a) s ≡ r = ap (drop (length a)) e ∙ drop-append a r in
      rw start (ap (match_segments (b ∷ ps)) rest ∙ match_segments_complete b ps r g),
)

-- The wildcard match holds exactly for the texts that the pattern describes: a star stands for any text,
-- slashes included, and every other byte for itself.
pub wildcard_match_lem : (p s : Bytes) → (wildcard_match p s ≡ true) ↔ Matches p s
unfolding wildcard_match
wildcard_match_lem p s = elim (Bool-cases (contains_star p)) [
  | inl e ↦
      let (a, b, ps, f) = split-star p e in
      let parts = match_parts-Parts a b ps s in
      let reading = split-Matches p s in
      rw e (
        λ h.
            reading.1
              (subst (λ x. Parts x s) (sym f) (parts.0 (ap (λ x. match_parts x s) (sym f) ∙ h))),
        λ m. ap (λ x. match_parts x s) f ∙ parts.1 (subst (λ x. Parts x s) f (reading.0 m)),
      )
  | inr e ↦
      let plain = plain-Matches p s e in
      rw e
        (λ h. plain.1 (eq_of_text_eq p s h), λ m. ap (text_eq p) (sym (plain.0 m)) ∙ text_eq_self p)
]
