-- ===== src/Arena/Meta.antt =====
-- arena/meta.go: the blind ids of the contestants and evaluators, which stay the same over re-runs.
-- `Reconcile` keeps pointers into the array of `m.Runs`, and an append that finds no room moves the slice
-- to another array: a write through such a pointer is then lost.
pub mod Names
pub mod Stable
pub mod Once
pub mod Stale
use acpp.Prelude.{
  Bytes, text_eq, ℕ, zero, suc, ◌+◌, Bool, true, false, Option, none, some, List, [], ◌∷◌, ◌++◌,
  if◌then◌else◌, length,
}
use acpp.Arena.{mem}
use acpp.Arena.Plan.{Agent, Plan}

pub record RunMeta : Type 0 where
  pub name : Bytes
  pub agent : Bytes
  pub id : Bytes

pub record EvalMeta : Type 0 where
  pub name : Bytes
  pub id : Bytes

pub record Meta : Type 0 where
  pub name : Bytes
  pub runs : List RunMeta
  pub evaluations : List EvalMeta

-- `runByName`: the last place of the name.
unfoldable pub run_by_name : List RunMeta → Bytes → Option ℕ
run_by_name [] name = none
run_by_name (r ∷ rs) name = elim (run_by_name rs name) [
  | some i ↦ some (suc i)
  | none ↦ if text_eq r.name name then some 0 else none
]

unfoldable pub eval_names : List EvalMeta → List Bytes
eval_names [] = []
eval_names (e ∷ es) = e.name ∷ eval_names es

-- `RunByID` as the entries that it writes, in this order, and `RunIDs`.
unfoldable pub run_by_id : List RunMeta → List (Bytes × Bytes)
run_by_id [] = []
run_by_id (r ∷ rs) = (r.id, r.name) ∷ run_by_id rs

unfoldable pub run_ids : List RunMeta → List Bytes
run_ids [] = []
run_ids (r ∷ rs) = r.id ∷ run_ids rs

-- The slice and its free room, whether it has left the array that the pointers are into, and the state of
-- the source of ids.
pub record Work (S : Type 0) : Type 0 where
  pub runs : List RunMeta
  pub room : ℕ
  pub moved : Bool
  pub evaluations : List EvalMeta
  pub evaluated : List Bytes
  pub supply : S

unfoldable pub set_agent : List RunMeta → ℕ → Bytes → List RunMeta
set_agent [] i agent = []
set_agent (r ∷ rs) zero agent = record r { agent = agent } ∷ rs
set_agent (r ∷ rs) (suc i) agent = r ∷ set_agent rs i agent

-- `newID`, and the room that a slice of a length has after an append has moved it.
module _ {S : Type 0} (new_id : S → Bytes × S) (grown : ℕ → ℕ) where
  append_in : ℕ → Work S → RunMeta → Work S
  append_in zero w r = record w {
    runs = w.runs ++ r ∷ [];
    room = grown (suc (length w.runs));
    moved = true;
  }
  append_in (suc n) w r = record w { runs = w.runs ++ r ∷ []; room = n }

  unfoldable pub append_run : Work S → RunMeta → Work S
  unfolding append_in
  append_run w r = append_in w.room w r

  unfoldable pub reconcile_run : Option ℕ → Work S → Agent → Work S
  unfolding set_agent append_run
  reconcile_run (some i) w a = record w {
    runs = if w.moved then w.runs else set_agent w.runs i a.agent;
  }
  reconcile_run none w a =
      let (id, s) = new_id w.supply in
      append_run (record w { supply = s }) (record { name = a.name; agent = a.agent; id = id })

  new_evaluation : Work S → Agent → Work S
  new_evaluation w a =
      let (id, s) = new_id w.supply in
      record w {
        evaluations = w.evaluations ++ record { name = a.name; id = id } ∷ [];
        evaluated = a.name ∷ w.evaluated;
        supply = s;
      }

  unfoldable pub reconcile_evaluation : Work S → Agent → Work S
  unfolding new_evaluation mem
  reconcile_evaluation w a = if mem a.name w.evaluated then w else new_evaluation w a

  unfoldable pub reconcile_agents : List RunMeta → Work S → List Agent → Work S
  unfolding reconcile_run reconcile_evaluation run_by_name
  reconcile_agents runs w [] = w
  reconcile_agents runs w (a ∷ as_) =
      reconcile_agents runs (reconcile_evaluation (reconcile_run (run_by_name runs a.name) w a) a)
        as_

  -- `room` is the free room of the slice `m.Runs`.
  unfoldable pub reconcile : ℕ → Meta → Plan → S → Meta × S
  unfolding reconcile_agents eval_names
  reconcile room m plan supply =
      let w =
        reconcile_agents m.runs
          (record {
            runs = m.runs;
            room = room;
            moved = false;
            evaluations = m.evaluations;
            evaluated = eval_names m.evaluations;
            supply = supply;
          })
          plan.agents in
      (record { name = plan.name; runs = w.runs; evaluations = w.evaluations }, w.supply)
