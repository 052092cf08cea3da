-- ===== src/Config/Rules.antt =====
-- Which rule answers for a tool.
use acpp.Prelude.{
  All, Bytes, text_eq, ◌≡◌, ◌↔◌, refl, sym, ap, ◌∙◌, true, false, ◌&&◌, Bool-cases, ◌⊎◌, inl, inr,
  Option, none, some, List, [], ◌∷◌, ◌++◌, if◌then◌else◌,
}
use acpp.Db.Map.{Map, lookup}
use acpp.Config.{
  ToolPermissionRule, matches_value, match_input, is_empty, matches_title, match_rule, first_match,
  match_tool_permission, wildcard_match,
}
use acpp.Config.Glob.{Matches, wildcard_match_lem}

-- A rule names a title or a parameter.
pub HasCondition : Bytes → Map Bytes → Type 0
HasCondition [] [] = ⊥
HasCondition [] (e ∷ es) = Unit {0}
HasCondition (c ∷ s) es = Unit {0}

module _ (lower : Bytes → Bytes) where
  -- The title fits the pattern of the title; no pattern fits every title.
  pub FitsTitle : Bytes → Bytes → Type 0
  FitsTitle [] title = Unit {0}
  FitsTitle (c ∷ s) title = Matches (lower (c ∷ s)) (lower title)

  -- The parameter is there and its value fits the pattern.
  abbrev pub FitsParam : Map Bytes → Bytes × Bytes → Type 0
  FitsParam input e =
      (value : Bytes) × (lookup input e.0 ≡ some value) × Matches (lower e.1) (lower value)

  abbrev pub Applies : ToolPermissionRule → Bytes → Map Bytes → Type 0
  Applies rule title input =
      HasCondition rule.title rule.input
      × (FitsTitle rule.title title × All (FitsParam input) rule.input)

  condition :
      (title : Bytes) (es : Map Bytes)
      → ((text_eq title [] && is_empty lower es) ≡ false) ↔ HasCondition title es
  unfolding text_eq is_empty HasCondition
  condition [] [] = (λ h. cc, λ h. absurd h)
  condition [] (e ∷ es) = (λ h. tt, λ h. refl)
  condition (c ∷ s) es = (λ h. tt, λ h. refl)

  title_lem :
      (pattern title : Bytes)
      → (matches_title lower pattern (lower title) ≡ true) ↔ FitsTitle pattern title
  unfolding matches_title FitsTitle text_eq
  title_lem [] title = (λ h. tt, λ h. refl)
  title_lem (c ∷ s) title = wildcard_match_lem (lower (c ∷ s)) (lower title)

  value_lem :
      (pattern : Bytes) (o : Option Bytes)
      → (matches_value lower pattern o ≡ true)
        ↔ ((value : Bytes) × (o ≡ some value) × Matches (lower pattern) (lower value))
  unfolding matches_value
  value_lem pattern none = (λ h. cc, λ (v, e, m). cc)
  value_lem pattern (some value) = (
    λ h. (value, refl, (wildcard_match_lem (lower pattern) (lower value)).0 h),
    λ (v, e, m).
        let same : value ≡ v = cc in
        ap (λ x. wildcard_match (lower pattern) (lower x)) same
        ∙ (wildcard_match_lem (lower pattern) (lower v)).1 m,
  )

  input_lem :
      (ps input : Map Bytes) → (match_input lower ps input ≡ true) ↔ All (FitsParam input) ps
  unfolding match_input
  input_lem [] input = (λ h. tt, λ h. refl)
  input_lem ((name, pattern) ∷ ps) input =
      let one = value_lem pattern (lookup input name) in
      let more = input_lem ps input in
      (
        λ h. elim (Bool-cases (matches_value lower pattern (lookup input name))) [
          | inl e ↦ (one.0 e, more.0 (rw e at h))
          | inr e ↦ let bad : false ≡ true = rw e at h in absurd (cc)
        ],
        λ (v, vs). rw (one.1 v) (more.1 vs),
      )

  -- A rule matches exactly if it has a condition, its title pattern fits and every pattern of its input
  -- fits a parameter that is there.
  pub match_rule_lem :
      (rule : ToolPermissionRule) (title : Bytes) (input : Map Bytes)
      → (match_rule lower rule (lower title) input ≡ true) ↔ Applies rule title input
  unfolding match_rule
  match_rule_lem rule title input =
      let c = condition rule.title rule.input in
      let t = title_lem rule.title title in
      let i = input_lem rule.input input in
      (
        λ h. elim (Bool-cases (text_eq rule.title [] && is_empty lower rule.input)) [
          | inl e ↦ let bad : false ≡ true = rw e at h in absurd (cc)
          | inr e ↦
              let h' : (if matches_title lower rule.title (lower title)
                    then match_input lower rule.input input
                    else false)
                  ≡ true =
                rw e at h in
              elim (Bool-cases (matches_title lower rule.title (lower title))) [
                | inl f ↦ (c.0 e, (t.0 f, i.0 (rw f at h')))
                | inr f ↦ let bad : false ≡ true = rw f at h' in absurd (cc)
              ]
        ],
        λ (a, (b, d)). rw (c.1 a) (rw (t.1 b) (i.1 d)),
      )

  first_match_cases :
      (rules : List ToolPermissionRule) (title : Bytes) (input : Map Bytes)
      → (All (λ r. ¬ Applies r title input) rules
          × (first_match lower rules (lower title) input ≡ []))
        ⊎ ((before after : List ToolPermissionRule) × (rule : ToolPermissionRule) × (rules
              ≡ before ++ rule ∷ after)
            × All (λ r. ¬ Applies r title input) before
            × Applies rule title input
            × (first_match lower rules (lower title) input ≡ rule.action))
  unfolding first_match
  first_match_cases [] title input = inl (tt, refl)
  first_match_cases (r ∷ rules) title input =
      let here = match_rule_lem r title input in
      elim (Bool-cases (match_rule lower r (lower title) input)) [
        | inl e ↦ inr ([], rules, r, refl, tt, here.0 e, rw e refl)
        | inr e ↦
            let fails : ¬ Applies r title input =
              λ a. let bad : true ≡ false = sym (here.1 a) ∙ e in absurd (cc) in
            elim (first_match_cases rules title input) [
              | inl (none_fits, q) ↦ inl ((fails, none_fits), rw e q)
              | inr (before, after, rule, parts, all, fits, q) ↦
                  inr (r ∷ before, after, rule, ap (λ x. r ∷ x) parts, (fails, all), fits, rw e q)
            ]
      ]

  -- The answer is the action of the first rule that applies, and empty if none does.
  pub match_tool_permission_lem :
      (rules : List ToolPermissionRule) (title : Bytes) (input : Map Bytes)
      → (All (λ r. ¬ Applies r title input) rules
          × (match_tool_permission lower rules title input ≡ []))
        ⊎ ((before after : List ToolPermissionRule) × (rule : ToolPermissionRule) × (rules
              ≡ before ++ rule ∷ after)
            × All (λ r. ¬ Applies r title input) before
            × Applies rule title input
            × (match_tool_permission lower rules title input ≡ rule.action))
  unfolding match_tool_permission
  match_tool_permission_lem rules title input = first_match_cases rules title input
