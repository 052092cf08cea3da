-- ===== src/Sandbox/Filter.antt =====
-- What passes the filter of the environment.
use acpp.Prelude.{
  Bytes, text_eq, text_eq_self, eq_of_text_eq, has_prefix, ℕ, ◌==◌, ==_iff, ◌≡◌, ◌≢◌, ◌↔◌, refl,
  sym, ap, ◌∙◌, true, false, Bool-cases, ◌⊎◌, inl, inr, none, some, List, [], ◌∷◌, ◌++◌,
}
use acpp.Sandbox.{put_before, cut_star, match_prefix_or_name, match_env_name, any_matches}

-- Some element has the property.
abbrev pub Some {ℓ} : {A : Type ℓ} → (A → Type 0) → List A → Type 0
Some P [] = ⊥
Some P (x ∷ xs) = P x ⊎ Some P xs

-- A pattern that ends in a star fits what begins with the rest of it, any other fits itself.
abbrev pub Fits : Bytes → Bytes → Type 0
Fits name pattern =
    ((p r : Bytes) × (pattern ≡ p ++ 42 ∷ []) × (name ≡ p ++ r))
    ⊎ (((p : Bytes) → pattern ≢ p ++ 42 ∷ []) × (pattern ≡ name))

no_end : (p : Bytes) → [] ≢ p ++ 42 ∷ []
no_end [] q = cc
no_end (x ∷ p) q = cc

one_end : (c : ℕ) (p : Bytes) → c ∷ [] ≡ p ++ 42 ∷ [] → (c == 42) ≡ false → ⊥
one_end c [] q e =
    let same : c ≡ 42 = cc in let bad : true ≡ false = sym ((==_iff c 42).1 same) ∙ e in cc
one_end c (x ∷ []) q e = cc
one_end c (x ∷ y ∷ p) q e = cc

more_end :
    (c d : ℕ) (s p : Bytes) → c ∷ d ∷ s ≡ p ++ 42 ∷ [] → ((p : Bytes) → d ∷ s ≢ p ++ 42 ∷ []) → ⊥
more_end c d s [] q h = cc
more_end c d s (x ∷ p) q h = let tail : d ∷ s ≡ p ++ 42 ∷ [] = cc in h p tail

cut_star_cases :
    (s : Bytes)
    → ((cut_star s ≡ none) × ((p : Bytes) → s ≢ p ++ 42 ∷ []))
      ⊎ ((p : Bytes) × (cut_star s ≡ some p) × (s ≡ p ++ 42 ∷ []))
unfolding cut_star
cut_star_cases [] = inl (refl, no_end)
cut_star_cases (c ∷ []) = elim (Bool-cases (c == 42)) [
  | inl e ↦ inr ([], rw e refl, λ i. (==_iff c 42).0 e i ∷ [])
  | inr e ↦ inl (rw e refl, λ p q. one_end c p q e)
]
cut_star_cases (c ∷ d ∷ s) = elim (cut_star_cases (d ∷ s)) [
  | inl (n, h) ↦ inl (ap (put_before c) n, λ p q. more_end c d s p q h)
  | inr (p, n, h) ↦ inr (c ∷ p, ap (put_before c) n, ap (λ x. c ∷ x) h)
]

cut_star-append : (p : Bytes) → cut_star (p ++ 42 ∷ []) ≡ some p
unfolding cut_star
cut_star-append [] = refl
cut_star-append (c ∷ []) = refl
cut_star-append (c ∷ d ∷ p) = ap (put_before c) (cut_star-append (d ∷ p))

has_prefix-Fits : (name p : Bytes) → (has_prefix name p ≡ true) ↔ ((r : Bytes) × (name ≡ p ++ r))
unfolding has_prefix
has_prefix-Fits name [] = (λ h. (name, refl), λ x. refl)
has_prefix-Fits [] (c ∷ p) = (λ h. cc, λ (r, e). cc)
has_prefix-Fits (d ∷ name) (c ∷ p) = elim (Bool-cases (d == c)) [
  | inl e ↦
      let (to, from) = has_prefix-Fits name p in
      rw e (
        λ h. let (r, q) = to h in (r, λ i. (==_iff d c).0 e i ∷ q i),
        λ (r, q). let tail : name ≡ p ++ r = cc in from (r, tail),
      )
  | inr e ↦ rw e (
    λ h. cc,
    λ (r, q).
        let same : d ≡ c = cc in
        let bad : true ≡ false = sym ((==_iff d c).1 same) ∙ e in absurd (cc),
  )
]

match_env_name_lem :
    (pattern name : Bytes) → (match_env_name pattern name ≡ true) ↔ Fits name pattern
unfolding match_env_name match_prefix_or_name
match_env_name_lem pattern name = elim (cut_star_cases pattern) [
  | inl (n, h) ↦ rw n (
    λ e. inr (h, eq_of_text_eq pattern name e),
    λ f. elim f [
      | inl (p, r, e, q) ↦ absurd (h p e)
      | inr (g, e) ↦ ap (text_eq pattern) (sym e) ∙ text_eq_self pattern
    ],
  )
  | inr (p, n, h) ↦
      let (to, from) = has_prefix-Fits name p in
      rw n (
        λ e. let (r, q) = to e in inl (p, r, h, q),
        λ f. elim f [
          | inl (p', r, e, q) ↦
              let cut' : cut_star pattern ≡ cut_star (p' ++ 42 ∷ []) = ap cut_star e in
              let same : some p ≡ some p' = sym n ∙ cut' ∙ cut_star-append p' in
              let same' : p ≡ p' = cc in from (r, q ∙ ap (λ x. x ++ r) (sym same'))
          | inr (g, e) ↦ absurd (g p h)
        ],
      )
]

pub any_matches_lem :
    (ps : List Bytes) (name : Bytes) → (any_matches ps name ≡ true) ↔ Some (Fits name) ps
unfolding any_matches
any_matches_lem [] name = (λ h. cc, λ f. absurd f)
any_matches_lem (p ∷ ps) name =
    let (to, from) = match_env_name_lem p name in
    let (to', from') = any_matches_lem ps name in
    elim (Bool-cases (match_env_name p name)) [
      | inl e ↦ rw e (λ h. inl (to e), λ f. refl)
      | inr e ↦ rw e (
        λ h. inr (to' h),
        λ f. elim f [
          | inl x ↦ let bad : true ≡ false = sym (from x) ∙ e in absurd (cc)
          | inr x ↦ from' x
        ],
      )
    ]

pub Some-snoc :
    (P : Bytes → Type 0) (xs : List Bytes) (x : Bytes) → Some P (xs ++ x ∷ []) ↔ (Some P xs ⊎ P x)
Some-snoc P [] x = (
  λ f. elim f [ inl p ↦ inr p | inr q ↦ absurd q ],
  λ f. elim f [ inl q ↦ absurd q | inr p ↦ inl p ],
)
Some-snoc P (y ∷ xs) x =
    let (to, from) = Some-snoc P xs x in
    (
      λ f. elim f [
        | inl p ↦ inl (inl p)
        | inr q ↦ elim (to q) [ inl s ↦ inl (inr s) | inr p ↦ inr p ]
      ],
      λ f. elim f [
        | inl g ↦ elim g [ inl p ↦ inl p | inr s ↦ inr (from (inl s)) ]
        | inr p ↦ inr (from (inr p))
      ],
    )
