-- ===== src/Arena/Meta/Stale.antt =====
-- A new agent may keep the commands of the others from being refreshed.
use acpp.Prelude.{
  Bytes, zero, suc, ℕ, ◌≡◌, refl, ap, ◌∙◌, true, false, Bool-cases, inl, inr, Option, none, some,
  List, [], ◌∷◌, ◌++◌, append_assoc, if_true, if_false,
}
use mathlib.Core.Path.{sym, subst}
use acpp.Arena.{mem}
use acpp.Arena.Plan.{Agent, Plan}
use acpp.Arena.Meta.{
  RunMeta, Meta, Work, run_by_name, eval_names, append_in, append_run, reconcile_run,
  new_evaluation, reconcile_evaluation, reconcile_agents, reconcile,
}

module _ {S : Type 0} (new_id : S → Bytes × S) (grown : ℕ → ℕ) where
  -- The slice has moved, and what was in it is as it was.
  record Appended (runs : List RunMeta) (w : Work S) : Type 0 where
    moved : w.moved ≡ true
    added : List RunMeta
    runs_are : w.runs ≡ runs ++ added

  append_run-Appended :
      (runs : List RunMeta) (w : Work S) (r : RunMeta)
      → Appended runs w
      → Appended runs (append_run new_id grown w r)
  unfolding append_run
  append_run-Appended runs w r h = by w.room
    where
      by : (n : ℕ) → Appended runs (append_in new_id grown n w r)
      by zero =
          unfold append_in in
          record {
            moved = refl;
            added = h.added ++ r ∷ [];
            runs_are = ap (λ x. x ++ r ∷ []) h.runs_are ∙ append_assoc runs h.added (r ∷ []);
          }
      by (suc n) =
          unfold append_in in
          record {
            moved = h.moved;
            added = h.added ++ r ∷ [];
            runs_are = ap (λ x. x ++ r ∷ []) h.runs_are ∙ append_assoc runs h.added (r ∷ []);
          }

  reconcile_run-Appended :
      (runs : List RunMeta) (o : Option ℕ) (w : Work S) (a : Agent)
      → Appended runs w
      → Appended runs (reconcile_run new_id grown o w a)
  unfolding reconcile_run
  reconcile_run-Appended runs (some i) w a h = record {
    moved = h.moved;
    added = h.added;
    runs_are = if_true _ _ h.moved ∙ h.runs_are;
  }
  reconcile_run-Appended runs none w a h =
      append_run-Appended runs (record w { supply = (new_id w.supply).1 })
        (record { name = a.name; agent = a.agent; id = (new_id w.supply).0 })
        (record { moved = h.moved; added = h.added; runs_are = h.runs_are })

  reconcile_evaluation-Appended :
      (runs : List RunMeta) (w : Work S) (a : Agent)
      → Appended runs w
      → Appended runs (reconcile_evaluation new_id grown w a)
  unfolding reconcile_evaluation new_evaluation
  reconcile_evaluation-Appended runs w a h = elim (Bool-cases (mem a.name w.evaluated)) [
    | inl e ↦ subst (Appended runs) (sym (if_true _ _ e)) h
    | inr e ↦
        subst (Appended runs) (sym (if_false _ _ e))
          (record { moved = h.moved; added = h.added; runs_are = h.runs_are })
  ]

  reconcile_agents-Appended :
      (runs orig : List RunMeta) (w : Work S) (as_ : List Agent)
      → Appended runs w
      → Appended runs (reconcile_agents new_id grown orig w as_)
  unfolding reconcile_agents
  reconcile_agents-Appended runs orig w [] h = h
  reconcile_agents-Appended runs orig w (a ∷ as_) h =
      reconcile_agents-Appended runs orig
        (reconcile_evaluation new_id grown
          (reconcile_run new_id grown (run_by_name orig a.name) w a) a)
        as_
        (reconcile_evaluation-Appended runs _ a
          (reconcile_run-Appended runs (run_by_name orig a.name) w a h))

  -- If the slice has no free room and the first agent of the plan has no run yet, then every run so far
  -- stands first with the command that it had, whatever the plan says.
  pub reconcile_stale :
      (m : Meta) (plan : Plan) (a : Agent) (as_ : List Agent) (supply : S)
      → plan.agents ≡ a ∷ as_
      → run_by_name m.runs a.name ≡ none
      → (added : List RunMeta) × ((reconcile new_id grown 0 m plan supply).0.runs ≡ m.runs ++ added)
  unfolding reconcile
  reconcile_stale m plan a as_ supply e n =
      let h = agents_appended in
      (h.added, ap (λ x. (reconcile_agents new_id grown m.runs start x).runs) e ∙ h.runs_are)
    where
      start : Work S
      start = record {
        runs = m.runs;
        room = 0;
        moved = false;
        evaluations = m.evaluations;
        evaluated = eval_names m.evaluations;
        supply = supply;
      }

      first : Appended m.runs (reconcile_run new_id grown none start a)
      first =
          unfold reconcile_run append_run append_in in
          record {
            moved = refl;
            added = record { name = a.name; agent = a.agent; id = (new_id supply).0 } ∷ [];
            runs_are = refl;
          }

      agents_appended : Appended m.runs (reconcile_agents new_id grown m.runs start (a ∷ as_))
      agents_appended =
          unfold reconcile_agents in
          reconcile_agents-Appended m.runs m.runs _ as_ (
            reconcile_evaluation-Appended m.runs _ a
              (subst (λ o. Appended m.runs (reconcile_run new_id grown o start a)) (sym n) first))
