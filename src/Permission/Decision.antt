-- ===== src/Permission/Decision.antt =====
-- Every answer of `decide`.
use acpp.Prelude.{
  All, Bytes, ◌≡◌, refl, ap, true, false, Bool-cases, ◌⊎◌, inl, inr, none, some, List, [], ◌∷◌,
  ◌++◌,
}
use acpp.Permission.{PermissionOption, cancelled, selected, allows_once, first_allow_once, decide}

-- The first option that allows once, with what stands before it.
pub record Chosen (os : List PermissionOption) (id : Bytes) : Type 0 where
  pub before : List PermissionOption
  pub option : PermissionOption
  pub after : List PermissionOption
  pub splits : os ≡ before ++ option ∷ after
  pub passed : All (λ o. allows_once o ≡ false) before
  pub allowed : allows_once option ≡ true
  pub its_id : option.option_id ≡ id

first_cases :
    (os : List PermissionOption)
    → (first_allow_once os ≡ none × All (λ o. allows_once o ≡ false) os)
      ⊎ ((id : Bytes) × (first_allow_once os ≡ some (selected id) × Chosen os id))
unfolding first_allow_once
first_cases [] = inl (refl, tt)
first_cases (o ∷ os) = elim (Bool-cases (allows_once o)) [
  | inl e ↦ inr (
    o.option_id,
    (
      rw e refl,
      record {
        before = [];
        option = o;
        after = os;
        splits = refl;
        passed = tt;
        allowed = e;
        its_id = refl;
      },
    ),
  )
  | inr e ↦ elim (first_cases os) [
    | inl (q, h) ↦ inl (rw (e, q) refl, (e, h))
    | inr (id, (q, c)) ↦ inr (
      id,
      (
        rw (e, q) refl,
        record {
          before = o ∷ c.before;
          option = c.option;
          after = c.after;
          splits = ap (◌∷◌ o) c.splits;
          passed = (e, c.passed);
          allowed = c.allowed;
          its_id = c.its_id;
        },
      ),
    )
  ]
]

-- No options are answered by a cancel; else the first option that allows once is selected, and there is
-- no answer exactly if there is none. An option of another kind is never selected.
pub decide_cases :
    (os : List PermissionOption)
    → (os ≡ [] × decide os ≡ some cancelled)
      ⊎ ((decide os ≡ none × All (λ o. allows_once o ≡ false) os)
          ⊎ ((id : Bytes) × (decide os ≡ some (selected id) × Chosen os id)))
unfolding decide
decide_cases [] = inl (refl, refl)
decide_cases (o ∷ os) = inr (first_cases (o ∷ os))
