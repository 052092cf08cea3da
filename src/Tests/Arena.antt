-- ===== src/Tests/Arena.antt =====
-- arena/: the theorems at a concrete plan and concrete scores.
use acpp.Prelude.{
  ℤ, int_add, wrap, ℕ, suc, ◌++◌, Bytes, codes, text_eq, ◌≡◌, refl, Option, none, some, pos, List,
  [], ◌∷◌,
}
use mathlib.Core.List.{Perm}
use acpp.Db.Map.{Map, lookup, insert}
use acpp.Arena.Report.{or_zero, total_of, add_scores, tally, ranked}
use acpp.Arena.Report.Columns.{column, total_of-tally}
use acpp.Arena.Report.Ranking.{InOrder, ranked_lem}
use acpp.Arena.{mem}
use acpp.Arena.Scores.{Score}
use acpp.Arena.Scores.Accepted.{Accepted}
use acpp.Arena.Plan.{Agent, Plan, validate}
use acpp.Arena.Meta.{RunMeta, Meta, run_by_name, run_by_id, eval_names, reconcile}
use acpp.Arena.Meta.Once.{Reconciled, reconcile-Reconciled}
use acpp.Arena.Meta.Stale.{reconcile_stale}
use acpp.Arena.Plan.Checked.{Checked, validate-Checked}

abbrev scores : List Score
scores =
    record { id = codes "b"; score = pos 10; rationale = [] }
    ∷ record { id = codes "a"; score = pos 1; rationale = [] }
    ∷ []

abbrev want : List Bytes
want = codes "a" ∷ codes "b" ∷ []

abbrev unmarshal : Bytes → Option (List Score)
unmarshal text = some scores

abbrev plan : Plan
plan = record {
  name = codes "p";
  resources = record { src = codes "git"; dest = [] } ∷ [];
  prompt = codes "do";
  agents =
      record { name = codes "a"; agent = codes "claude" }
      ∷ record { name = codes "b"; agent = codes "codex" }
      ∷ [];
  artifacts = [];
  evaluation = record { prompt = []; sandbox = []; profiles = [] };
}

passes : validate plan ≡ none
unfolding validate mem text_eq
passes = refl

validate-Checked_example : Checked plan
validate-Checked_example = validate-Checked plan passes

-- Each id is the number of those before.
abbrev new_id : ℕ → Bytes × ℕ
new_id n = (n ∷ [], suc n)

abbrev before : Meta
before = record {
  name = codes "p";
  runs = record { name = codes "b"; agent = codes "old"; id = codes "x" } ∷ [];
  evaluations = record { name = codes "b"; id = codes "y" } ∷ [];
}

reconcile-Reconciled_example :
    Reconciled before (reconcile new_id (λ n. n) 0 before plan 0).0 plan.agents
unfolding text_eq run_by_id eval_names
reconcile-Reconciled_example =
    reconcile-Reconciled new_id (λ n. n) 0 before plan 0 ((refl, tt), (tt, tt)) (tt, tt) (tt, tt)

abbrev others : List Agent
others = record { name = codes "b"; agent = codes "codex" } ∷ []

reconcile_stale_example :
    (added : List RunMeta) × ((reconcile new_id (λ n. n) 0 before plan 0).0.runs
      ≡ before.runs ++ added)
unfolding run_by_name text_eq
reconcile_stale_example =
    reconcile_stale new_id (λ n. n) before plan
      (record { name = codes "a"; agent = codes "claude" }) others 0 refl refl

abbrev names : Map Bytes
names = (codes "x", codes "a") ∷ (codes "y", codes "b") ∷ []

abbrev score_of : Bytes → ℕ → Score
score_of id n = record { id = id; score = pos n; rationale = [] }

abbrev results : Map (List Score)
results =
    (codes "a", score_of (codes "y") 7 ∷ [])
    ∷ (codes "b", score_of (codes "x") 3 ∷ score_of (codes "y") 2 ∷ [])
    ∷ []

total_of-tally_example :
    total_of (tally names results ([], [])).1 (codes "b")
    ≡ wrap (column (pos 0) (codes "b") (tally names results ([], [])).0)
unfolding text_eq lookup
total_of-tally_example =
    total_of-tally names (codes "b") results ((tt, tt), (((refl, tt), (tt, tt)), tt))
      ((refl, tt), (tt, tt))

nine : total_of (tally names results ([], [])).1 (codes "b") ≡ pos 9
unfolding total_of or_zero tally add_scores lookup insert text_eq int_add
nine = refl

abbrev totals : Map ℤ
totals = (codes "b", pos 9) ∷ (codes "a", pos 3) ∷ []

ranked_lem_example :
    Perm (ranked totals (codes "a" ∷ codes "b" ∷ [])) (codes "a" ∷ codes "b" ∷ [])
    × InOrder totals (ranked totals (codes "a" ∷ codes "b" ∷ []))
ranked_lem_example = ranked_lem totals (codes "a" ∷ codes "b" ∷ [])
