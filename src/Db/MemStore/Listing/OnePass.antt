-- ===== src/Db/MemStore/Listing/OnePass.antt =====
-- The one pass over the sessions against what a project's own sessions say.
use Prim.Native.Nat.{max}
use acpp.Prelude.{
  Bytes, text_eq, eq_of_text_eq, ℕ, ltb, ◌≡◌, refl, ap, ◌∙◌, arith, Bool, true, false, ◌||◌, ◌&&◌,
  Bool-cases, inl, inr, some, List, [], ◌∷◌, if◌then◌else◌,
}
use acpp.Db.Map.{lookup, insert, values, lookup-insert, lookup-insert_other}
use acpp.Db.Order.{sort_by}
use acpp.Db.MemStore.{SessionRow, ProjectRow, MemStore}
use acpp.Db.MemStore.Sessions.{is_live}
use acpp.Db.MemStore.Listing.{
  Activity, ProjectListRow, or_zero, used, note, activity, project_row, project_rows, project_less,
  list_projects,
}
use mathlib.Core.Path.{subst}

or_assoc : (a b c : Bool) → (a || b) || c ≡ a || (b || c)
or_assoc true b c = refl
or_assoc false b c = refl

or_true : (b : Bool) → true ≡ b || true
or_true true = refl
or_true false = refl

or_false : (b : Bool) → b ≡ b || false
or_false true = refl
or_false false = refl

and_false : (b c : Bool) → b ≡ b || (c && false)
and_false true c = refl
and_false false true = refl
and_false false false = refl

module _ {C : Type 0} (key : SessionRow C → Bytes) where
  -- Some session of the key is live.
  pub any_live : Bytes → List (SessionRow C) → Bool
  any_live k [] = false
  any_live k (s ∷ ss) = (text_eq (key s) k && is_live s) || any_live k ss

  -- The last use of the sessions of the key.
  pub latest : Bytes → List (SessionRow C) → ℕ
  latest k [] = 0
  latest k (s ∷ ss) = max (if text_eq (key s) k then used s else 0) (latest k ss)

  note_running :
      (k : Bytes) (s : SessionRow C) (a : Activity)
      → or_zero false (lookup (note (key s) s a).running k)
        ≡ or_zero false (lookup a.running k) || (text_eq (key s) k && is_live s)
  unfolding note or_zero
  note_running k s a = elim (Bool-cases (is_live s)) [
    | inl l ↦ elim (Bool-cases (text_eq (key s) k)) [
      | inl e ↦
          let here =
            subst (λ x. lookup (insert a.running (key s) true) x ≡ some true)
              (eq_of_text_eq (key s) k e) (lookup-insert a.running (key s) true) in
          rw (l, e, here) (or_true _)
      | inr e ↦ rw (l, e, lookup-insert_other a.running (key s) k true e) (or_false _)
    ]
    | inr l ↦ rw l (and_false _ _)
  ]

  note_last_used :
      (k : Bytes) (s : SessionRow C) (a : Activity)
      → or_zero 0 (lookup (note (key s) s a).last_used k)
        ≡ max (or_zero 0 (lookup a.last_used k)) (if text_eq (key s) k then used s else 0)
  unfolding note or_zero
  note_last_used k s a = elim (Bool-cases (ltb (or_zero 0 (lookup a.last_used (key s))) (used s))) [
    | inl l ↦ elim (Bool-cases (text_eq (key s) k)) [
      | inl e ↦
          let same = eq_of_text_eq (key s) k e in
          let here =
            subst (λ x. lookup (insert a.last_used (key s) (used s)) x ≡ some (used s)) same
              (lookup-insert a.last_used (key s) (used s)) in
          let l' : ltb (or_zero 0 (lookup a.last_used k)) (used s) ≡ true =
            subst (λ x. ltb (or_zero 0 (lookup a.last_used x)) (used s) ≡ true) same l in
          rw (l, e, here) (ground (arith, l'))
      | inr e ↦ rw (l, e, lookup-insert_other a.last_used (key s) k (used s) e) (omega arith)
    ]
    | inr l ↦ elim (Bool-cases (text_eq (key s) k)) [
      | inl e ↦
          let same = eq_of_text_eq (key s) k e in
          let l' : ltb (or_zero 0 (lookup a.last_used k)) (used s) ≡ false =
            subst (λ x. ltb (or_zero 0 (lookup a.last_used x)) (used s) ≡ false) same l in
          rw (l, e) (ground (arith, l'))
      | inr e ↦ rw (l, e) (omega arith)
    ]
  ]

  activity_running :
      (k : Bytes) (ss : List (SessionRow C)) (a : Activity)
      → or_zero false (lookup (activity key ss a).running k)
        ≡ or_zero false (lookup a.running k) || any_live k ss
  unfolding activity any_live
  activity_running k [] a = or_false _
  activity_running k (s ∷ ss) a =
      activity_running k ss (note (key s) s a)
      ∙ ap (λ x. x || any_live k ss) (note_running k s a)
      ∙ or_assoc (or_zero false (lookup a.running k)) (text_eq (key s) k && is_live s)
          (any_live k ss)

  activity_last_used :
      (k : Bytes) (ss : List (SessionRow C)) (a : Activity)
      → or_zero 0 (lookup (activity key ss a).last_used k)
        ≡ max (or_zero 0 (lookup a.last_used k)) (latest k ss)
  unfolding activity latest
  activity_last_used k [] a = omega arith
  activity_last_used k (s ∷ ss) a =
      activity_last_used k ss (note (key s) s a)
      ∙ ap (λ x. max x (latest k ss)) (note_last_used k s a)
      ∙ omega arith

project_rows_ext :
    (f g : ProjectRow → ProjectListRow)
    → ((p : ProjectRow) → f p ≡ g p)
    → (ps : List ProjectRow) → project_rows f ps ≡ project_rows g ps
unfolding project_rows
project_rows_ext f g h [] = refl
project_rows_ext f g h (p ∷ ps) = rw (h p, project_rows_ext f g h ps) refl

module _ {C : Type 0} where
  -- What the sessions of a project say of it, read for this project alone.
  pub summary : List (SessionRow C) → ProjectRow → ProjectListRow
  unfolding any_live latest
  summary ss p = record {
    name = p.name;
    dir = p.dir;
    agent = p.agent;
    location = p.location;
    has_running = any_live (λ s. s.project_name) p.name ss;
    last_used = latest (λ s. s.project_name) p.name ss;
  }

  project_row-summary :
      (ss : List (SessionRow C)) (p : ProjectRow)
      → project_row (activity (λ s. s.project_name) ss (record { running = []; last_used = [] })) p
        ≡ summary ss p
  unfolding project_row summary lookup
  project_row-summary ss p =
      let zero_first : max 0 (latest (λ s. s.project_name) p.name ss)
          ≡ latest (λ s. s.project_name) p.name ss =
        omega arith in
      rw
        (
          activity_running (λ s. s.project_name) p.name ss
              (record { running = []; last_used = [] }),
          activity_last_used (λ s. s.project_name) p.name ss
              (record { running = []; last_used = [] }),
          zero_first,
        )
        refl

  -- The one pass gives each project the row that its own sessions give it: it has a running session
  -- exactly if one of them is live, and was last used when the last of them was.
  pub list_projects_lem :
      (m : MemStore C)
      → list_projects m
        ≡ sort_by project_less (project_rows (summary (values m.sessions)) (values m.projects))
  unfolding list_projects
  list_projects_lem m =
      ap (sort_by project_less)
        (project_rows_ext _ _ (project_row-summary (values m.sessions)) (values m.projects))
