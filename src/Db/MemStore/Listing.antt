-- ===== src/Db/MemStore/Listing.antt =====
-- db/memstore.go: the lists of sessions and projects.
pub mod Pages
pub mod OnePass
use Prim.Native.Nat.{min, max}
use acpp.Prelude.{
  Bytes, text_eq, has_prefix, ℕ, ◌+◌, ◌-◌, i64_sign, leb, ltb, ◌==◌, Bool, true, false, ◌||◌, not,
  Option, none, some, List, [], ◌∷◌, if◌then◌else◌, take, drop, length,
}
use acpp.Db.Map.{Map, lookup, insert, values}
use acpp.Db.Order.{sort_by}
use acpp.Db.MemStore.{SessionRow, ProjectRow, MemStore}
use acpp.Db.MemStore.Sessions.{is_live}

pub record ProjectListRow : Type 0 where
  pub name : Bytes
  pub dir : Bytes
  pub agent : Bytes
  pub location : Bytes
  pub has_running : Bool
  pub last_used : ℕ

pub record ProjectDirRow : Type 0 where
  pub dir : Bytes
  pub has_running : Bool

-- What one pass over the sessions notes of their projects, or of their directories.
pub record Activity : Type 0 where
  pub running : Map Bool
  pub last_used : Map ℕ

-- A read of a missing key gives the zero value.
unfoldable pub or_zero {ℓ} : {V : Type ℓ} → V → Option V → V
or_zero z none = z
or_zero z (some v) = v

-- `<` of two texts.
unfoldable pub text_lt : Bytes → Bytes → Bool
text_lt s [] = false
text_lt [] (b ∷ t) = true
text_lt (a ∷ s) (b ∷ t) = if a == b then text_lt s t else ltb a b

keys {ℓ} : {V : Type ℓ} → Map V → List Bytes
keys [] = []
keys ((k, v) ∷ m) = k ∷ keys m

unfoldable pub project_row : Activity → ProjectRow → ProjectListRow
unfolding or_zero
project_row a p = record {
  name = p.name;
  dir = p.dir;
  agent = p.agent;
  location = p.location;
  has_running = or_zero false (lookup a.running p.name);
  last_used = or_zero 0 (lookup a.last_used p.name);
}

unfoldable pub project_less : ProjectListRow → ProjectListRow → Bool
unfolding text_lt
project_less x y =
    if x.last_used == y.last_used then text_lt x.name y.name else ltb y.last_used x.last_used

unfoldable pub project_rows : (ProjectRow → ProjectListRow) → List ProjectRow → List ProjectListRow
project_rows f [] = []
project_rows f (p ∷ ps) = f p ∷ project_rows f ps

dir_rows : Activity → List Bytes → List ProjectDirRow
unfolding or_zero
dir_rows a [] = []
dir_rows a (d ∷ ds) =
    record { dir = d; has_running = or_zero false (lookup a.running d) } ∷ dir_rows a ds

dir_less : Activity → ProjectDirRow → ProjectDirRow → Bool
unfolding or_zero text_lt
dir_less a x y =
    let u = or_zero 0 (lookup a.last_used x.dir) in
    let v = or_zero 0 (lookup a.last_used y.dir) in if u == v then text_lt x.dir y.dir else ltb v u

module _ {C : Type 0} where
  -- `CreatedAt.After`
  unfoldable pub newer : SessionRow C → SessionRow C → Bool
  newer x y = ltb y.created_at x.created_at

  unfoldable pub keep_sessions : (SessionRow C → Bool) → List (SessionRow C) → List (SessionRow C)
  keep_sessions p [] = []
  keep_sessions p (s ∷ ss) = let rest = keep_sessions p ss in if p s then s ∷ rest else rest

  -- `order` is the order in which this call's range over the map gives the sessions; with it the sort
  -- gives any order of sessions created at one time.
  unfoldable pub list_sessions :
      (List (SessionRow C) → List (SessionRow C)) → MemStore C → List (SessionRow C)
  unfolding sort_by newer values
  list_sessions order m = sort_by newer (order (values m.sessions))

  -- A slice with these bounds; `none` is the panic when their sum passes the largest int.
  unfoldable pub page_of : List (SessionRow C) → ℕ → ℕ → Option (List (SessionRow C) × ℕ)
  page_of all limit offset =
      let total = length all in
      let start = if ltb total offset then total else offset in
      if leb i64_sign (start + limit)
      then none
      else some (take (min (start + limit) total - start) (drop start all), total)

  -- `limit` and `offset` are ints that are not negative.
  unfoldable pub list_sessions_page :
      (List (SessionRow C) → List (SessionRow C))
      → MemStore C
      → ℕ
      → ℕ
      → Option (List (SessionRow C) × ℕ)
  unfolding page_of list_sessions
  list_sessions_page order m limit offset = page_of (list_sessions order m) limit offset

  unfoldable pub get_sessions_by_commit : MemStore C → Bytes → List (SessionRow C)
  unfolding sort_by newer values keep_sessions
  get_sessions_by_commit m commit =
      sort_by newer (keep_sessions (λ s. has_prefix s.git_commit commit) (values m.sessions))

  unfoldable pub list_sessions_by_dir : MemStore C → Bytes → List (SessionRow C)
  unfolding sort_by newer values keep_sessions
  list_sessions_by_dir m dir =
      sort_by newer (keep_sessions (λ s. text_eq s.dir dir) (values m.sessions))

  unfoldable pub list_sessions_by_project : MemStore C → Bytes → List (SessionRow C)
  unfolding sort_by newer values keep_sessions
  list_sessions_by_project m project_name =
      sort_by newer (keep_sessions (λ s. text_eq s.project_name project_name) (values m.sessions))

  agents_of : List (SessionRow C) → Map Bool → Map Bool
  agents_of [] seen = seen
  agents_of (s ∷ ss) seen = agents_of ss (insert seen s.agent true)

  unfoldable pub get_distinct_agents : MemStore C → List Bytes
  unfolding agents_of keys sort_by text_lt insert
  get_distinct_agents m = sort_by text_lt (keys (agents_of (values m.sessions) []))

  -- The later of the creation and the end.
  unfoldable pub used : SessionRow C → ℕ
  used s = elim s.finished_at [
    | none ↦ s.created_at
    | some f ↦ if ltb s.created_at f then f else s.created_at
  ]

  unfoldable pub note : Bytes → SessionRow C → Activity → Activity
  unfolding used is_live or_zero
  note key s a = record {
    running = if is_live s then insert a.running key true else a.running;
    last_used =
        if ltb (or_zero 0 (lookup a.last_used key)) (used s)
        then insert a.last_used key (used s)
        else a.last_used;
  }

  unfoldable pub activity : (SessionRow C → Bytes) → List (SessionRow C) → Activity → Activity
  unfolding note
  activity key [] a = a
  activity key (s ∷ ss) a = activity key ss (note (key s) s a)

  unfoldable pub list_projects : MemStore C → List ProjectListRow
  unfolding activity project_row project_rows project_less sort_by values
  list_projects m =
      let a =
        activity (λ s. s.project_name) (values m.sessions)
          (record { running = []; last_used = [] }) in
      sort_by project_less (project_rows (project_row a) (values m.projects))

  has_dir : SessionRow C → Bool
  has_dir s = not (text_eq s.dir [])

  dirs_of : List (SessionRow C) → Map Bool → Map Bool
  dirs_of [] dirs = dirs
  dirs_of (s ∷ ss) dirs = dirs_of ss (insert dirs s.dir true)

  unfoldable pub list_project_dirs : MemStore C → List ProjectDirRow
  unfolding activity dirs_of dir_rows dir_less sort_by values keep_sessions has_dir insert keys
  list_project_dirs m =
      let ss = keep_sessions has_dir (values m.sessions) in
      let a = activity (λ s. s.dir) ss (record { running = []; last_used = [] }) in
      sort_by (dir_less a) (dir_rows a (keys (dirs_of ss [])))
