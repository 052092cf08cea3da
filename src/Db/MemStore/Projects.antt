-- ===== src/Db/MemStore/Projects.antt =====
-- db/memstore.go: the projects, with the field names of db/store.go.
use acpp.Prelude.{
  Bytes, codes, text_eq, ℕ, Option, none, some, List, [], ◌∷◌, ◌++◌, if◌then◌else◌, Result, ok, err,
}
use acpp.Db.Map.{lookup, insert}
use acpp.Db.MemStore.{ProjectRow, MemStore, Error, invalid_project_field, named_project}

-- The fields that may be set, and their columns of the row.
pub data Field : Type 0 where
  agent dir sandbox sandbox_profiles sandbox_env permission repo hooks location : Field

pick : List (Bytes × Field) → Bytes → Option Field
pick [] name = none
pick ((n, f) ∷ fs) name = if text_eq n name then some f else pick fs name

abbrev project_fields : List (Bytes × Field)
project_fields =
    (codes "agent", agent)
    ∷ (codes "dir", dir)
    ∷ (codes "sandbox", sandbox)
    ∷ (codes "sandbox_profiles", sandbox_profiles)
    ∷ (codes "sandbox_env", sandbox_env)
    ∷ (codes "permission", permission)
    ∷ (codes "repo", repo)
    ∷ (codes "hooks", hooks)
    ∷ (codes "location", location)
    ∷ []

unfoldable pub field_named : Bytes → Option Field
unfolding pick
field_named name = pick project_fields name

unfoldable pub with_field : Field → Bytes → ProjectRow → ProjectRow
with_field agent v p = record p { agent = v }
with_field dir v p = record p { dir = v }
with_field sandbox v p = record p { sandbox = v }
with_field sandbox_profiles v p = record p { sandbox_profiles = v }
with_field sandbox_env v p = record p { sandbox_env = v }
with_field permission v p = record p { permission = v }
with_field repo v p = record p { repo = v }
with_field hooks v p = record p { hooks = v }
with_field location v p = record p { location = v }

unfoldable pub read_field : Field → ProjectRow → Bytes
read_field agent p = p.agent
read_field dir p = p.dir
read_field sandbox p = p.sandbox
read_field sandbox_profiles p = p.sandbox_profiles
read_field sandbox_env p = p.sandbox_env
read_field permission p = p.permission
read_field repo p = p.repo
read_field hooks p = p.hooks
read_field location p = p.location

-- The project that is there, or a new one whose update time is still the zero time.
unfoldable pub or_new : Bytes → ℕ → Option ProjectRow → ProjectRow
unfolding named_project
or_new name now none = named_project name now 0
or_new name now (some p) = p

module _ {C : Type 0} where
  unfoldable pub got : MemStore C → Bytes → ℕ → Option ProjectRow → MemStore C × ProjectRow
  unfolding named_project
  got m name now none =
      let p = named_project name now now in (record m { projects = insert m.projects name p }, p)
  got m name now (some p) = (m, p)

  -- Reading a project that is missing makes it.
  unfoldable pub get_project : MemStore C → Bytes → ℕ → MemStore C × ProjectRow
  unfolding got
  get_project m name now = got m name now (lookup m.projects name)

  -- The end of the writers: the row with its new update time is put back.
  unfoldable pub put : MemStore C → Bytes → ℕ → ProjectRow → MemStore C
  put m name now p = record m { projects = insert m.projects name (record p { updated_at = now }) }

  unfoldable pub set_field :
      MemStore C → Bytes → Bytes → Bytes → ℕ → Option Field → MemStore C × Result Error (Unit {0})
  unfolding put or_new with_field
  set_field m name field value now none = (m, err (invalid_project_field field))
  set_field m name field value now (some f) =
      (put m name now (with_field f value (or_new name now (lookup m.projects name))), ok tt)

  unfoldable pub set_project_field :
      MemStore C → Bytes → Bytes → Bytes → ℕ → MemStore C × Result Error (Unit {0})
  unfolding set_field field_named
  set_project_field m name field value now = set_field m name field value now (field_named field)

  unfoldable pub append_project_env : MemStore C → Bytes → Bytes → ℕ → MemStore C
  unfolding put or_new
  append_project_env m name entry now =
      let p = or_new name now (lookup m.projects name) in
      put m name now (record p { env = p.env ++ entry ∷ [] })

  unfoldable pub cleared : MemStore C → Bytes → ℕ → Option ProjectRow → MemStore C
  unfolding put
  cleared m name now none = m
  cleared m name now (some p) = put m name now (record p { env = [] })

  unfoldable pub clear_project_env : MemStore C → Bytes → ℕ → MemStore C
  unfolding cleared
  clear_project_env m name now = cleared m name now (lookup m.projects name)

  unfoldable pub set_project_env : MemStore C → Bytes → List Bytes → ℕ → MemStore C
  unfolding put or_new
  set_project_env m name entries now =
      put m name now (record (or_new name now (lookup m.projects name)) { env = entries })
