-- ===== src/Arena/Meta/Stable.antt =====
-- The ids over a reconciliation with the plan.
use mathlib.Core.Path.{subst}
use acpp.Prelude.{
  Bytes, text_eq, ℕ, zero, suc, ◌≡◌, refl, ap, ◌∙◌, sym, Bool, true, false, Bool-cases, ◌⊎◌, inl,
  inr, Option, none, some, List, [], ◌∷◌, ◌++◌, append_assoc, append-nil, if◌then◌else◌, if_true,
  if_false,
}
use acpp.Arena.{mem}
use acpp.Arena.Plan.{Agent}
use acpp.Arena.Meta.{
  RunMeta, EvalMeta, Work, run_by_name, run_by_id, eval_names, set_agent, append_in, append_run,
  reconcile_run, new_evaluation, reconcile_evaluation, reconcile_agents,
}
use acpp.Arena.Meta.Names.{missing}

abbrev pub entry_names : List (Bytes × Bytes) → List Bytes
entry_names [] = []
entry_names (e ∷ es) = e.1 ∷ entry_names es

abbrev pub run_names : List RunMeta → List Bytes
run_names rs = entry_names (run_by_id rs)

pub entry_names-append :
    (xs ys : List (Bytes × Bytes)) → entry_names (xs ++ ys) ≡ entry_names xs ++ entry_names ys
entry_names-append [] ys = refl
entry_names-append (x ∷ xs) ys = ap (◌∷◌ x.1) (entry_names-append xs ys)

pub eval_names-append :
    (xs ys : List EvalMeta) → eval_names (xs ++ ys) ≡ eval_names xs ++ eval_names ys
unfolding eval_names
eval_names-append [] ys = refl
eval_names-append (x ∷ xs) ys = ap (◌∷◌ x.name) (eval_names-append xs ys)

run_by_id-append : (xs ys : List RunMeta) → run_by_id (xs ++ ys) ≡ run_by_id xs ++ run_by_id ys
unfolding run_by_id
run_by_id-append [] ys = refl
run_by_id-append (x ∷ xs) ys = ap (◌∷◌ (x.id, x.name)) (run_by_id-append xs ys)

run_by_id-set_agent :
    (rs : List RunMeta) (i : ℕ) (agent : Bytes) → run_by_id (set_agent rs i agent) ≡ run_by_id rs
unfolding run_by_id set_agent
run_by_id-set_agent [] i agent = refl
run_by_id-set_agent (r ∷ rs) zero agent = refl
run_by_id-set_agent (r ∷ rs) (suc i) agent =
    ap (◌∷◌ (r.id, r.name)) (run_by_id-set_agent rs i agent)

-- A name has a place exactly if it is there.
pub run_by_name_cases :
    (rs : List RunMeta) (name : Bytes)
    → ((run_by_name rs name ≡ none) × (mem name (run_names rs) ≡ false))
      ⊎ ((i : ℕ) × ((run_by_name rs name ≡ some i) × (mem name (run_names rs) ≡ true)))
unfolding run_by_name run_by_id mem
run_by_name_cases [] name = inl (refl, refl)
run_by_name_cases (r ∷ rs) name = elim (run_by_name_cases rs name) [
  | inr (i, (e, k)) ↦ inr (suc i, (rw e refl, either (text_eq r.name name) _ k))
  | inl (e, k) ↦ elim (Bool-cases (text_eq r.name name)) [
    | inl t ↦ inr (0, (rw (e, t) refl, rw t refl))
    | inr t ↦ inl (rw (e, t) refl, rw t k)
  ]
]
  where
    either : (a b : Bool) → b ≡ true → (if a then true else b) ≡ true
    either true b e = refl
    either false b e = e

module _ {S : Type 0} (new_id : S → Bytes × S) (grown : ℕ → ℕ) where
  -- Entries are added behind those that are there, and none of these changes.
  abbrev pub RunsGrow : Work S → Work S → List Bytes → Type 0
  RunsGrow w w' names =
      (added : List (Bytes × Bytes)) × ((run_by_id w'.runs ≡ run_by_id w.runs ++ added)
        × (entry_names added ≡ names))

  abbrev pub EvaluationsGrow : Work S → Work S → List Bytes → Type 0
  EvaluationsGrow w w' names =
      (added : List EvalMeta) × ((w'.evaluations ≡ w.evaluations ++ added)
        × (eval_names added ≡ names))

  append_run-runs :
      (w : Work S) (r : RunMeta) → (append_run new_id grown w r).runs ≡ w.runs ++ r ∷ []
  unfolding append_run
  append_run-runs w r = by w.room
    where
      by : (n : ℕ) → (append_in new_id grown n w r).runs ≡ w.runs ++ r ∷ []
      by zero = unfold append_in in refl
      by (suc n) = unfold append_in in refl

  append_run-evaluations :
      (w : Work S) (r : RunMeta)
      → ((append_run new_id grown w r).evaluations ≡ w.evaluations)
        × ((append_run new_id grown w r).evaluated ≡ w.evaluated)
  unfolding append_run
  append_run-evaluations w r = by w.room
    where
      by :
          (n : ℕ)
          → ((append_in new_id grown n w r).evaluations ≡ w.evaluations)
            × ((append_in new_id grown n w r).evaluated ≡ w.evaluated)
      by zero = unfold append_in in (refl, refl)
      by (suc n) = unfold append_in in (refl, refl)

  pub reconcile_run-evaluations :
      (o : Option ℕ) (w : Work S) (a : Agent)
      → ((reconcile_run new_id grown o w a).evaluations ≡ w.evaluations)
        × ((reconcile_run new_id grown o w a).evaluated ≡ w.evaluated)
  unfolding reconcile_run
  reconcile_run-evaluations (some i) w a = (refl, refl)
  reconcile_run-evaluations none w a =
      append_run-evaluations (record w { supply = (new_id w.supply).1 })
        (record { name = a.name; agent = a.agent; id = (new_id w.supply).0 })

  pub reconcile_evaluation-runs :
      (w : Work S) (a : Agent) → (reconcile_evaluation new_id grown w a).runs ≡ w.runs
  unfolding reconcile_evaluation new_evaluation
  reconcile_evaluation-runs w a = elim (Bool-cases (mem a.name w.evaluated)) [
    | inl e ↦ rw e refl
    | inr e ↦ rw e refl
  ]

  known-runs :
      (w : Work S) (a : Agent) (i : ℕ)
      → run_by_id (reconcile_run new_id grown (some i) w a).runs ≡ run_by_id w.runs
  unfolding reconcile_run
  known-runs w a i = by w.moved
    where
      by :
          (b : Bool)
          → run_by_id (if b then w.runs else set_agent w.runs i a.agent) ≡ run_by_id w.runs
      by true = refl
      by false = run_by_id-set_agent w.runs i a.agent

  new-runs :
      (w : Work S) (a : Agent)
      → run_by_id (reconcile_run new_id grown none w a).runs
        ≡ run_by_id w.runs ++ ((new_id w.supply).0, a.name) ∷ []
  unfolding reconcile_run run_by_id
  new-runs w a =
      ap run_by_id (
        append_run-runs (record w { supply = (new_id w.supply).1 })
          (record { name = a.name; agent = a.agent; id = (new_id w.supply).0 }))
      ∙ run_by_id-append w.runs _

  pub runs_grow :
      (rs : List RunMeta) (w : Work S) (as_ : List Agent)
      → RunsGrow w (reconcile_agents new_id grown rs w as_) (missing (run_names rs) as_)
  unfolding reconcile_agents
  runs_grow rs w [] = ([], (sym (append-nil (run_by_id w.runs)), refl))
  runs_grow rs w (a ∷ as_) = elim (run_by_name_cases rs a.name) [
    | inl (e, k) ↦
        let (added, (p, q)) = runs_grow rs (next none) as_ in
        subst Grown (sym e) (
          ((new_id w.supply).0, a.name) ∷ added,
          (
            p
                ∙ ap (λ x. x ++ added) (ap run_by_id (reconcile_evaluation-runs _ a) ∙ new-runs w a)
                ∙ append_assoc (run_by_id w.runs) (((new_id w.supply).0, a.name) ∷ []) added,
            ap (◌∷◌ a.name) q ∙ sym (if_false _ _ k),
          ),
        )
    | inr (i, (e, k)) ↦
        let (added, (p, q)) = runs_grow rs (next (some i)) as_ in
        subst Grown (sym e) (
          added,
          (
            p
                ∙ ap (λ x. x ++ added)
                    (ap run_by_id (reconcile_evaluation-runs _ a) ∙ known-runs w a i),
            q ∙ sym (if_true _ _ k),
          ),
        )
  ]
    where
      next : Option ℕ → Work S
      next o = reconcile_evaluation new_id grown (reconcile_run new_id grown o w a) a

      Grown : Option ℕ → Type 0
      Grown o =
          RunsGrow w (reconcile_agents new_id grown rs (next o) as_)
            (missing (run_names rs) (a ∷ as_))
