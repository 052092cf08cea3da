-- ===== src/Router/Scheduler/Upsert.antt =====
-- router/scheduler.go, `upsertProject`, over the in-memory store. The fields go in the order of the
-- source's list, which is one of the orders of its map.
use acpp.Db.MemStore.Projects as Projects
use acpp.Prelude.{
  All, Bytes, codes, text_eq, ℕ, ◌≡◌, refl, sym, ap, ◌∙◌, Bool-cases, inl, inr, some, List, [], ◌∷◌,
  ◌++◌, append_assoc, append-nil, if◌then◌else◌, Result, ok, err,
}
use acpp.Db.Map.{lookup, lookup-insert}
use acpp.Db.MemStore.{MemStore, ProjectRow, Error}
use acpp.Db.MemStore.Projects.{
  set_project_field, set_field, append_project_env, clear_project_env, cleared, put, or_new,
  field_named, Field, with_field,
}
use acpp.Router.Scheduler.{ScheduledJob}

-- A field that the job leaves empty is not set.
given : Bytes → Bytes → List (Bytes × Bytes) → List (Bytes × Bytes)
given field value rest = if text_eq value [] then rest else (field, value) ∷ rest

job_fields : ScheduledJob → List (Bytes × Bytes)
unfolding given
job_fields job =
    (codes "dir", job.dir)
    ∷ given (codes "agent") job.agent (
        given (codes "sandbox") job.sandbox (
          given (codes "sandbox_profiles") job.sandbox_profiles
            (given (codes "permission") job.permission (given (codes "hooks") job.hooks []))))

-- The field is one that may be set.
IsKnown : Bytes × Bytes → Type 0
IsKnown e = (f : Field) × field_named e.0 ≡ some f

given-IsKnown :
    (field value : Bytes) (rest : List (Bytes × Bytes)) (f : Field)
    → field_named field ≡ some f
    → All IsKnown rest
    → All IsKnown (given field value rest)
unfolding given IsKnown
given-IsKnown field value rest f e h = elim (Bool-cases (text_eq value [])) [
  | inl t ↦ rw t h
  | inr t ↦ rw t ((f, e), h)
]

job_fields-IsKnown : (job : ScheduledJob) → All IsKnown (job_fields job)
unfolding job_fields IsKnown field_named text_eq
job_fields-IsKnown job = (
  (Projects.dir, refl),
  given-IsKnown (codes "agent") job.agent _ Projects.agent refl (
      given-IsKnown (codes "sandbox") job.sandbox _ Projects.sandbox refl (
        given-IsKnown (codes "sandbox_profiles") job.sandbox_profiles _ Projects.sandbox_profiles
          refl
          (given-IsKnown (codes "permission") job.permission _ Projects.permission refl
            (given-IsKnown (codes "hooks") job.hooks [] Projects.hooks refl tt)))),
)

module _ {C : Type 0} where
  -- After one field: an error returns.
  next_field :
      (MemStore C → MemStore C × Result Error (Unit {0}))
      → MemStore C × Result Error (Unit {0})
      → MemStore C × Result Error (Unit {0})
  next_field go (m, ok u) = go m
  next_field go (m, err e) = (m, err e)

  pub set_fields :
      Bytes → ℕ → List (Bytes × Bytes) → MemStore C → MemStore C × Result Error (Unit {0})
  unfolding next_field set_project_field
  set_fields name now [] m = (m, ok tt)
  set_fields name now ((field, value) ∷ fs) m =
      next_field (set_fields name now fs) (set_project_field m name field value now)

  append_all : Bytes → ℕ → List Bytes → MemStore C → MemStore C
  unfolding append_project_env
  append_all name now [] m = m
  append_all name now (e ∷ es) m = append_all name now es (append_project_env m name e now)

  set_env : Bytes → ℕ → List Bytes → MemStore C → MemStore C
  unfolding append_all clear_project_env
  set_env name now [] m = m
  set_env name now (e ∷ es) m = append_all name now (e ∷ es) (clear_project_env m name now)

  with_env :
      ScheduledJob → ℕ → MemStore C × Result Error (Unit {0}) → MemStore C × Result Error (Unit {0})
  unfolding set_env
  with_env job now (m, ok u) = (set_env job.name now job.env m, ok tt)
  with_env job now (m, err e) = (m, err e)

  unfoldable pub upsert_project :
      MemStore C → ScheduledJob → ℕ → MemStore C × Result Error (Unit {0})
  unfolding with_env set_fields job_fields
  upsert_project m job now = with_env job now (set_fields job.name now (job_fields job) m)

  -- The environment of a project after entries were appended to it.
  append_all-env :
      (name : Bytes) (now : ℕ) (es : List Bytes) (m : MemStore C) (p : ProjectRow)
      → lookup m.projects name ≡ some p
      → (q : ProjectRow) × (lookup (append_all name now es m).projects name ≡ some q
          × q.env ≡ p.env ++ es)
  unfolding append_all append_project_env put or_new
  append_all-env name now [] m p h = (p, (h, sym (append-nil p.env)))
  append_all-env name now (e ∷ es) m p h =
      let row : ProjectRow = record p { env = p.env ++ e ∷ []; updated_at = now } in
      let here : lookup (append_project_env m name e now).projects name ≡ some row =
        lookup-insert m.projects name _
        ∙ ap
            (λ o. some (record (or_new name now o) {
              env = (or_new name now o).env ++ e ∷ [];
              updated_at = now;
            }))
            h in
      let (q, (x, y)) = append_all-env name now es (append_project_env m name e now) row here in
      (q, (x, y ∙ append_assoc p.env (e ∷ []) es))

  set_env_lem :
      (name : Bytes) (now : ℕ) (e : Bytes) (es : List Bytes) (m : MemStore C) (p : ProjectRow)
      → lookup m.projects name ≡ some p
      → (q : ProjectRow) × (lookup (set_env name now (e ∷ es) m).projects name ≡ some q
          × q.env ≡ e ∷ es)
  unfolding set_env clear_project_env cleared put
  set_env_lem name now e es m p h =
      append_all-env name now (e ∷ es) (clear_project_env m name now)
        (record p { env = []; updated_at = now })
        (ap (λ o. lookup (cleared m name now o).projects name) h ∙ lookup-insert m.projects name _)

  put_found :
      (m : MemStore C) (name : Bytes) (now : ℕ) (p : ProjectRow)
      → lookup (put m name now p).projects name ≡ some (record p { updated_at = now })
  unfolding put
  put_found m name now p = lookup-insert m.projects name _

  one_field :
      (m : MemStore C) (name field value : Bytes) (now : ℕ) (f : Field)
      → field_named field ≡ some f
      → set_project_field m name field value now
        ≡ (put m name now (with_field f value (or_new name now (lookup m.projects name))), ok tt)
  unfolding set_project_field set_field
  one_field m name field value now f e = ap (set_field m name field value now) e

  -- Known fields are all set, and the project is there then.
  set_fields_lem :
      (name : Bytes) (now : ℕ) (fs : List (Bytes × Bytes)) (m : MemStore C) (p : ProjectRow)
      → All IsKnown fs
      → lookup m.projects name ≡ some p
      → (m' : MemStore C) × (set_fields name now fs m ≡ (m', ok tt)
          × ((q : ProjectRow) × lookup m'.projects name ≡ some q))
  unfolding set_fields IsKnown
  set_fields_lem name now [] m p h k = (m, (refl, (p, k)))
  set_fields_lem name now ((field, value) ∷ fs) m p ((f, e), h) k =
      let row = with_field f value (or_new name now (lookup m.projects name)) in
      let (m', (x, y)) =
        set_fields_lem name now fs (put m name now row) (record row { updated_at = now }) h
          (put_found m name now row) in
      (m', (ap (next_field (set_fields name now fs)) (one_field m name field value now f e) ∙ x, y))

  -- A job that brings an environment: the upsert succeeds, and its project has exactly that environment
  -- then, whatever was there.
  pub upsert_project_lem :
      (m : MemStore C) (job : ScheduledJob) (now : ℕ) (e : Bytes) (es : List Bytes)
      → job.env ≡ e ∷ es
      → (m' : MemStore C) × (upsert_project m job now ≡ (m', ok tt)
          × ((q : ProjectRow) × (lookup m'.projects job.name ≡ some q × q.env ≡ job.env)))
  unfolding upsert_project with_env job_fields set_fields IsKnown
  upsert_project_lem m job now e es h =
      let ((f, d), ks) = job_fields-IsKnown job in
      let row = with_field f job.dir (or_new job.name now (lookup m.projects job.name)) in
      let (m₁, (x, (p, y))) =
        set_fields_lem job.name now _ (put m job.name now row) (record row { updated_at = now }) ks
          (put_found m job.name now row) in
      let (q, (z, w)) = set_env_lem job.name now e es m₁ p y in
      (
        set_env job.name now job.env m₁,
        (
          ap (with_env job now) (
              ap (next_field (set_fields job.name now _))
                (one_field m job.name (codes "dir") job.dir now f d)
              ∙ x),
          (q, (ap (λ v. lookup (set_env job.name now v m₁).projects job.name) h ∙ z, w ∙ sym h)),
        ),
      )
