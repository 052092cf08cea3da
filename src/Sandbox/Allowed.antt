-- ===== src/Sandbox/Allowed.antt =====
-- The variables that a list of entries lets through: a deny beats every allow.
use acpp.Prelude.{
  Bytes, Lacks, cut, cut_cases, cut-append, ℕ, ◌==◌, arith, ◌≡◌, ◌↔◌, refl, sym, ap, ◌∙◌, true,
  false, Bool-cases, ◌⊎◌, inl, inr, Option, none, some, List, [], ◌∷◌, ◌++◌,
}
use mathlib.Core.Path.{subst}
use acpp.Sandbox.{
  EnvMatcher, default_pass_env, any_matches, allows, passes, filter_env, add_entry, add_entries,
  new_env_matcher,
}
use acpp.Sandbox.Filter.{Some, Fits, any_matches_lem, Some-snoc}

-- A trimmed entry that denies, or allows, a variable.
abbrev pub DeniesBy : Bytes → Bytes → Type 0
DeniesBy name entry = (s : Bytes) × (entry ≡ 45 ∷ s) × Fits name s

abbrev pub GrantsBy : Bytes → Bytes → Type 0
GrantsBy name entry =
    (c : ℕ) × (s : Bytes) × (entry ≡ c ∷ s) × ((c == 45) ≡ false) × Fits name (c ∷ s)

deny-add_entry :
    (m : EnvMatcher) (entry name : Bytes)
    → Some (Fits name) (add_entry m entry).deny ↔ (Some (Fits name) m.deny ⊎ DeniesBy name entry)
unfolding add_entry
deny-add_entry m [] name = (λ f. inl f, λ f. elim f [ inl g ↦ g | inr (s, e, g) ↦ cc ])
deny-add_entry m (c ∷ s) name = elim (Bool-cases (c == 45)) [
  | inl e ↦
      let (to, from) = Some-snoc (Fits name) m.deny s in
      let is : c ≡ 45 = ground (arith, e) in
      rw e (
        λ f. elim (to f) [ inl g ↦ inl g | inr g ↦ inr (s, ap (λ x. x ∷ s) is, g) ],
        λ f. from (elim f [
          | inl g ↦ inl g
          | inr (s', q, g) ↦ let same : s ≡ s' = cc in inr (subst (Fits name) (sym same) g)
        ]),
      )
  | inr e ↦ rw e (
    λ f. inl f,
    λ f. elim f [
      | inl g ↦ g
      | inr (s', q, g) ↦ let is : c ≡ 45 = cc in absurd (ground (arith, e, is))
    ],
  )
]

allow-add_entry :
    (m : EnvMatcher) (entry name : Bytes)
    → Some (Fits name) (add_entry m entry).allow ↔ (Some (Fits name) m.allow ⊎ GrantsBy name entry)
unfolding add_entry
allow-add_entry m [] name = (λ f. inl f, λ f. elim f [ inl g ↦ g | inr (c, s, q, n, g) ↦ cc ])
allow-add_entry m (c ∷ s) name = elim (Bool-cases (c == 45)) [
  | inl e ↦ rw e (
    λ f. inl f,
    λ f. elim f [
      | inl g ↦ g
      | inr (c', s', q, n, g) ↦
          let same : c ≡ c' = cc in
          let bad : true ≡ false = sym e ∙ ap (λ x. x == 45) same ∙ n in absurd (cc)
    ],
  )
  | inr e ↦
      let (to, from) = Some-snoc (Fits name) m.allow (c ∷ s) in
      rw e (
        λ f. elim (to f) [ inl g ↦ inl g | inr g ↦ inr (c, s, refl, e, g) ],
        λ f.
            from (elim f [
              | inl g ↦ inl g
              | inr (c', s', q, n, g) ↦ inr (subst (Fits name) (sym q) g)
            ]),
      )
]

map_left : {A B D : Type 0} → (A → B) → A ⊎ D → B ⊎ D
map_left f (inl a) = inl (f a)
map_left f (inr d) = inr d

regroup : {A B D : Type 0} → (A ⊎ B) ⊎ D → A ⊎ (B ⊎ D)
regroup (inl (inl a)) = inl a
regroup (inl (inr b)) = inr (inl b)
regroup (inr d) = inr (inr d)

ungroup : {A B D : Type 0} → A ⊎ (B ⊎ D) → (A ⊎ B) ⊎ D
ungroup (inl a) = inl (inl a)
ungroup (inr (inl b)) = inl (inr b)
ungroup (inr (inr d)) = inr d

module _ (trim : Bytes → Bytes) where
  abbrev pub Denies : Bytes → Bytes → Type 0
  Denies name entry = DeniesBy name (trim entry)

  abbrev pub Grants : Bytes → Bytes → Type 0
  Grants name entry = GrantsBy name (trim entry)

  deny-add_entries :
      (es : List Bytes) (m : EnvMatcher) (name : Bytes)
      → Some (Fits name) (add_entries trim m es).deny
        ↔ (Some (Fits name) m.deny ⊎ Some (Denies name) es)
  unfolding add_entries
  deny-add_entries [] m name = (λ f. inl f, λ f. elim f [ inl g ↦ g | inr g ↦ absurd g ])
  deny-add_entries (e ∷ es) m name =
      let (to, from) = deny-add_entries es (add_entry m (trim e)) name in
      let (to', from') = deny-add_entry m (trim e) name in
      (λ f. regroup (map_left to' (to f)), λ f. from (map_left from' (ungroup f)))

  allow-add_entries :
      (es : List Bytes) (m : EnvMatcher) (name : Bytes)
      → Some (Fits name) (add_entries trim m es).allow
        ↔ (Some (Fits name) m.allow ⊎ Some (Grants name) es)
  unfolding add_entries
  allow-add_entries [] m name = (λ f. inl f, λ f. elim f [ inl g ↦ g | inr g ↦ absurd g ])
  allow-add_entries (e ∷ es) m name =
      let (to, from) = allow-add_entries es (add_entry m (trim e)) name in
      let (to', from') = allow-add_entry m (trim e) name in
      (λ f. regroup (map_left to' (to f)), λ f. from (map_left from' (ungroup f)))

  -- No entry denies the variable, and the default list or an entry allows it.
  abbrev pub Allowed : List Bytes → Bytes → Type 0
  Allowed pass_env name =
      ¬ Some (Denies name) pass_env
      × (Some (Fits name) default_pass_env ⊎ Some (Grants name) pass_env)

  allows_lem :
      (pass_env : List Bytes) (name : Bytes)
      → (allows (new_env_matcher trim pass_env) name ≡ true) ↔ Allowed pass_env name
  unfolding allows new_env_matcher
  allows_lem pass_env name =
      let start : EnvMatcher = record { allow = default_pass_env; deny = [] } in
      let m = add_entries trim start pass_env in
      let (denied, denied') = deny-add_entries pass_env start name in
      let (granted, granted') = allow-add_entries pass_env start name in
      let (to, from) = any_matches_lem m.deny name in
      let (to', from') = any_matches_lem m.allow name in
      elim (Bool-cases (any_matches m.deny name)) [
        | inl e ↦
            rw e
              (λ h. cc, λ (n, a). elim (denied (to e)) [ inl x ↦ absurd x | inr x ↦ absurd (n x) ])
        | inr e ↦ rw e (
          λ h. (
            λ d. let bad : true ≡ false = sym (from (denied' (inr d))) ∙ e in cc,
            granted (to' h),
          ),
          λ (n, a). from' (granted' a),
        )
      ]

  -- An entry of the host's environment that gets through.
  abbrev pub Passes : List Bytes → Bytes → Type 0
  Passes pass_env entry =
      (name value : Bytes) × (entry ≡ name ++ 61 ∷ value) × Lacks 61 name × Allowed pass_env name

  -- The elements that have the property, in order.
  pub IsFiltered : (Bytes → Type 0) → List Bytes → List Bytes → Type 0
  IsFiltered P [] out = out ≡ []
  IsFiltered P (x ∷ xs) out =
      (P x × ((rest : List Bytes) × (out ≡ x ∷ rest) × IsFiltered P xs rest))
      ⊎ (¬ P x × IsFiltered P xs out)

  passes_lem :
      (pass_env : List Bytes) (entry : Bytes)
      → (passes (new_env_matcher trim pass_env) (cut entry 61) ≡ true) ↔ Passes pass_env entry
  unfolding passes
  passes_lem pass_env entry = elim (cut_cases entry 61) [
    | inl (n, lacks) ↦ rw n (
      λ h. cc,
      λ (name, value, e, l, a).
          let found : ◌≡◌ {A = Option (Bytes × Bytes)} none (some (name, value)) =
            sym n ∙ ap (λ x. cut x 61) e ∙ cut-append name value 61 l in
          cc,
    )
    | inr (a, b, c, e, l) ↦
        let (to, from) = allows_lem pass_env a in
        rw c (
          λ h. (a, b, e, l, to h),
          λ (name, value, e', l', ok').
              let same : ◌≡◌ {A = Option (Bytes × Bytes)} (some (a, b)) (some (name, value)) =
                sym c ∙ ap (λ x. cut x 61) e' ∙ cut-append name value 61 l' in
              let same' : a ≡ name = cc in from (subst (Allowed pass_env) (sym same') ok'),
        )
  ]

  -- The filtered environment has exactly the entries of the host, in order, that are a name, a '=' and a
  -- value where no entry of the list denies the name, wherever it stands, and a default or an entry of
  -- the list allows it.
  pub filter_env_lem :
      (pass_env host : List Bytes)
      → IsFiltered (Passes pass_env) host (filter_env (new_env_matcher trim pass_env) host)
  unfolding filter_env IsFiltered
  filter_env_lem pass_env [] = refl
  filter_env_lem pass_env (entry ∷ host) =
      let m = new_env_matcher trim pass_env in
      let (to, from) = passes_lem pass_env entry in
      let rest = filter_env_lem pass_env host in
      elim (Bool-cases (passes m (cut entry 61))) [
        | inl e ↦ rw e (inl (to e, (filter_env m host, refl, rest)))
        | inr e ↦ rw e (inr (λ p. let bad : true ≡ false = sym (from p) ∙ e in cc, rest))
      ]
