-- ===== src/Arena/Meta/Once.antt =====
-- Each agent of a plan has one run and one evaluation afterwards.
use mathlib.Core.Path.{subst}
use acpp.Prelude.{
  All, Bytes, text_eq, ℕ, ◌≡◌, refl, ap, ◌∙◌, sym, false, Bool-cases, inl, inr, List, [], ◌∷◌, ◌++◌,
  append_assoc, append-nil, if_true, if_false,
}
use acpp.Arena.{mem}
use acpp.Arena.Plan.{Agent, Plan}
use acpp.Arena.Plan.Checked.{Distinct}
use acpp.Arena.Meta.{
  EvalMeta, RunMeta, Meta, Work, run_by_name, run_by_id, eval_names, reconcile_run, new_evaluation,
  reconcile_evaluation, reconcile_agents, reconcile,
}
use acpp.Arena.Meta.Names.{count, AreOnce, missing, count-filled}
use acpp.Arena.Meta.Stable.{
  entry_names, entry_names-append, eval_names-append, run_names, EvaluationsGrow,
  reconcile_run-evaluations, runs_grow,
}

module _ {S : Type 0} (new_id : S → Bytes × S) (grown : ℕ → ℕ) where
  -- Of the names in the plan, those that were evaluated are those that were at first.
  abbrev AsAtFirst : List Bytes → List Bytes → List Agent → Type 0
  AsAtFirst present evaluated as_ = All (λ a. mem a.name evaluated ≡ mem a.name present) as_

  still-AsAtFirst :
      (n : Bytes) (present evaluated : List Bytes) (as_ : List Agent)
      → All (λ b. text_eq n b.name ≡ false) as_
      → AsAtFirst present evaluated as_
      → AsAtFirst present (n ∷ evaluated) as_
  unfolding mem
  still-AsAtFirst n present evaluated [] d h = tt
  still-AsAtFirst n present evaluated (b ∷ as_) (d, ds) (h, hs) =
      (if_false _ _ d ∙ h, still-AsAtFirst n present evaluated as_ ds hs)

  evaluations_grow :
      (rs : List RunMeta) (present : List Bytes) (w : Work S) (as_ : List Agent)
      → Distinct as_
      → AsAtFirst present w.evaluated as_
      → EvaluationsGrow new_id grown w
          (reconcile_agents new_id grown rs w as_)
          (missing present as_)
  unfolding reconcile_agents eval_names
  evaluations_grow rs present w [] d h = ([], (sym (append-nil w.evaluations), refl))
  evaluations_grow rs present w (a ∷ as_) (d, ds) (h, hs) = elim (Bool-cases (mem a.name present)) [
    | inl e ↦
        let still : next ≡ ran =
          unfold reconcile_evaluation in if_true _ _ (ap (mem a.name) kept.1 ∙ h ∙ e) in
        let (added, (p, q)) =
          evaluations_grow rs present next as_ ds (
            subst (λ x. AsAtFirst present x as_) (sym (ap (λ x. x.evaluated) still ∙ kept.1)) hs) in
        (
          added,
          (
            p ∙ ap (λ x. x ++ added) (ap (λ x. x.evaluations) still ∙ kept.0),
            q ∙ sym (if_true _ _ e),
          ),
        )
    | inr e ↦
        let grew : next ≡ new_evaluation new_id grown ran a =
          unfold reconcile_evaluation in if_false _ _ (ap (mem a.name) kept.1 ∙ h ∙ e) in
        let (added, (p, q)) = evaluations_grow rs present next as_ ds (
          subst (λ x. AsAtFirst present x as_)
            (sym (ap (λ x. x.evaluated) grew ∙ (unfold new_evaluation in ap (◌∷◌ a.name) kept.1)))
            (still-AsAtFirst a.name present w.evaluated as_ d hs)) in
        (
          record { name = a.name; id = (new_id ran.supply).0 } ∷ added,
          (
            p
                ∙ ap (λ x. x ++ added)
                    (ap (λ x. x.evaluations) grew
                      ∙ (unfold new_evaluation in
                          ap (λ x. x ++ record { name = a.name; id = (new_id ran.supply).0 } ∷ [])
                            kept.0))
                ∙ append_assoc w.evaluations
                    (record { name = a.name; id = (new_id ran.supply).0 } ∷ []) added,
            (unfold eval_names in ap (◌∷◌ a.name) q) ∙ sym (if_false _ _ e),
          ),
        )
  ]
    where
      ran : Work S
      ran = reconcile_run new_id grown (run_by_name rs a.name) w a

      next : Work S
      next = reconcile_evaluation new_id grown ran a

      kept : (ran.evaluations ≡ w.evaluations) × (ran.evaluated ≡ w.evaluated)
      kept = reconcile_run-evaluations new_id grown (run_by_name rs a.name) w a

-- The entries before and after, and the agents of the plan.
pub record Reconciled (m m' : Meta) (as_ : List Agent) : Type 0 where
  pub runs_kept : (added : List (Bytes × Bytes)) × (run_by_id m'.runs ≡ run_by_id m.runs ++ added)
  pub evaluations_kept : (added : List EvalMeta) × (m'.evaluations ≡ m.evaluations ++ added)
  pub one_run : All (λ a. count a.name (run_names m'.runs) ≡ 1) as_
  pub one_evaluation : All (λ a. count a.name (eval_names m'.evaluations) ≡ 1) as_

module _ {S : Type 0} (new_id : S → Bytes × S) (grown : ℕ → ℕ) where
  all-AsAtFirst : (xs : List Bytes) (as_ : List Agent) → AsAtFirst new_id grown xs xs as_
  all-AsAtFirst xs [] = tt
  all-AsAtFirst xs (a ∷ as_) = (refl, all-AsAtFirst xs as_)

  -- If the agents of a plan have names of their own, and so have the runs and the evaluations so far, then
  -- after a reconciliation each agent has one run and one evaluation, and the entries so far stand first,
  -- the runs with their ids and names and the evaluations whole.
  pub reconcile-Reconciled :
      (room : ℕ) (m : Meta) (plan : Plan) (supply : S)
      → Distinct plan.agents
      → AreOnce (run_names m.runs)
      → AreOnce (eval_names m.evaluations)
      → Reconciled m (reconcile new_id grown room m plan supply).0 plan.agents
  unfolding reconcile
  reconcile-Reconciled room m plan supply d r e =
      let w : Work S = record {
        runs = m.runs;
        room = room;
        moved = false;
        evaluations = m.evaluations;
        evaluated = eval_names m.evaluations;
        supply = supply;
      } in
      let (runs, (p, q)) = runs_grow new_id grown m.runs w plan.agents in
      let (evals, (p', q')) =
        evaluations_grow new_id grown m.runs (eval_names m.evaluations) w plan.agents d
          (all-AsAtFirst (eval_names m.evaluations) plan.agents) in
      record {
        runs_kept = (runs, p);
        evaluations_kept = (evals, p');
        one_run =
            subst (λ x. All (λ a. count a.name x ≡ 1) plan.agents)
              (sym (
                ap entry_names p
                ∙ entry_names-append (run_by_id m.runs) runs
                ∙ ap (λ x. run_names m.runs ++ x) q))
              (count-filled (run_names m.runs) plan.agents r d);
        one_evaluation =
            subst (λ x. All (λ a. count a.name x ≡ 1) plan.agents)
              (sym (
                ap eval_names p'
                ∙ eval_names-append m.evaluations evals
                ∙ ap (λ x. eval_names m.evaluations ++ x) q'))
              (count-filled (eval_names m.evaluations) plan.agents e d);
      }
