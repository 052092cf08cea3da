-- ===== src/Db/MemStore/Valid.antt =====
-- What holds of a store after any operations that write it.
use acpp.Prelude.{
  All, Bytes, ℕ, suc, ◌+◌, ◌≡◌, refl, ap, ◌∙◌, some, List, [], ◌∷◌, ◌++◌, length, arith, inl, inr,
  Option-cases,
}
use acpp.Db.Map.{Map, lookup, insert, insert-All, lookup-All, lookup-insert-some}
use acpp.Db.MemStore.{SessionRow, ProjectRow, LogRow, MemStore, named_project}
use acpp.Db.MemStore.Sessions.{changed}
use acpp.Db.MemStore.Projects.{or_new}

abbrev pub IsNamed : Bytes × ProjectRow → Type 0
IsNamed e = e.1.name ≡ e.0

-- The log entries have the ids from 1 on, in order.
abbrev pub Numbered : ℕ → List LogRow → Type 0
Numbered n [] = Unit
Numbered n (l ∷ ls) = l.id ≡ n × Numbered (suc n) ls

pub Numbered-append :
    (n : ℕ) (ls : List LogRow) (l : LogRow)
    → Numbered n ls
    → l.id ≡ n + length ls
    → Numbered n (ls ++ l ∷ [])
Numbered-append n [] l h e = (omega (arith, e), tt)
Numbered-append n (k ∷ ls) l (p, h) e = (p, Numbered-append (suc n) ls l h (omega (arith, e)))

-- A change of the projects that keeps every name that was there.
Keeps : Map ProjectRow → Map ProjectRow → Type 0
Keeps ps qs =
    (k : Bytes) (p : ProjectRow) → lookup ps k ≡ some p → (q : ProjectRow) × lookup qs k ≡ some q

module _ {C : Type 0} where
  -- A session stands under its id, and its project is there.
  pub record SessionIsKept (ps : Map ProjectRow) (e : Bytes × SessionRow C) : Type 0 where
    pub id_is_key : e.1.id ≡ e.0
    pub project : (p : ProjectRow) × lookup ps e.1.project_name ≡ some p

  pub record IsValid (m : MemStore C) : Type 0 where
    pub sessions_kept : All (SessionIsKept m.projects) m.sessions
    pub projects_named : All IsNamed m.projects
    pub logs_numbered : Numbered 1 m.logs
    pub next_number : m.log_seq ≡ length m.logs

  still_kept :
      (ps qs : Map ProjectRow)
      → Keeps ps qs
      → (ss : Map (SessionRow C)) → All (SessionIsKept ps) ss
      → All (SessionIsKept qs) ss
  unfolding Keeps
  still_kept ps qs k [] h = tt
  still_kept ps qs k (e ∷ ss) (p, h) = (
    record { id_is_key = p.id_is_key; project = k e.1.project_name p.project.0 p.project.1 },
    still_kept ps qs k ss h,
  )

  -- A row changed in place keeps its id and its project's name.
  pub changed-IsValid :
      (m : MemStore C) (id : Bytes) (f : SessionRow C → SessionRow C)
      → ((s : SessionRow C) → (f s).id ≡ s.id × (f s).project_name ≡ s.project_name)
      → IsValid m
      → IsValid (changed m id (lookup m.sessions id) f).0
  unfolding changed
  changed-IsValid m id f keeps v = elim (Option-cases (lookup m.sessions id)) [
    | inl e ↦ rw e v
    | inr (s, e) ↦
        let k = lookup-All (SessionIsKept m.projects) m.sessions id s v.sessions_kept e in
        rw e (record {
          sessions_kept =
              insert-All (SessionIsKept m.projects) m.sessions id (f s) v.sessions_kept (record {
                id_is_key = (keeps s).0 ∙ k.id_is_key;
                project = (k.project.0, ap (lookup m.projects) (keeps s).1 ∙ k.project.1);
              });
          projects_named = v.projects_named;
          logs_numbered = v.logs_numbered;
          next_number = v.next_number;
        })
  ]

  -- A row put under its name.
  pub insert_project-IsValid :
      (m : MemStore C) (name : Bytes) (p : ProjectRow)
      → p.name ≡ name
      → IsValid m
      → IsValid (record m { projects = insert m.projects name p })
  unfolding Keeps
  insert_project-IsValid m name p e v = record {
    sessions_kept =
        still_kept m.projects (insert m.projects name p)
          (λ k q h. lookup-insert-some m.projects name k p q h) m.sessions v.sessions_kept;
    projects_named = insert-All IsNamed m.projects name p v.projects_named e;
    logs_numbered = v.logs_numbered;
    next_number = v.next_number;
  }

  pub or_new_name :
      (m : MemStore C) (name : Bytes) (now : ℕ)
      → IsValid m
      → (or_new name now (lookup m.projects name)).name ≡ name
  unfolding or_new named_project
  or_new_name m name now v = elim (Option-cases (lookup m.projects name)) [
    | inl e ↦ rw e refl
    | inr (p, e) ↦ rw e (lookup-All IsNamed m.projects name p v.projects_named e)
  ]
