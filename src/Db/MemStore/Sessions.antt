-- ===== src/Db/MemStore/Sessions.antt =====
-- db/memstore.go: the operations that write sessions, and `GetSession`.
use acpp.Prelude.{
  Bytes, codes, text_eq, ℕ, suc, add64, Bool, ◌||◌, Option, none, some, [], ◌∷◌, if◌then◌else◌,
  ◌==◌, Result, ok, err,
}
use acpp.Db.Map.{Map, lookup, insert}
use acpp.Db.MemStore.{
  StatusInfo, SessionRow, ProjectRow, MemStore, Error, session_not_found, named_project,
}

abbrev slash : ℕ
slash = 47

-- The part after the last slash.
after_slash : Bytes → Bytes → Bytes
after_slash acc [] = acc
after_slash acc (c ∷ s) = if c == slash then after_slash s s else after_slash acc s

-- The text without the slashes at its end.
trim_slashes : Bytes → Bytes
trim_slashes [] = []
trim_slashes (c ∷ s) = elim (trim_slashes s) [
  | [] ↦ if c == slash then [] else c ∷ []
  | d ∷ t ↦ c ∷ d ∷ t
]

base_of : Bytes → Bytes
base_of [] = slash ∷ []
base_of (c ∷ s) = c ∷ s

-- `filepath.Base`
pub base : Bytes → Bytes
unfolding after_slash trim_slashes base_of
base [] = codes "."
base (c ∷ path) = let p = trim_slashes (c ∷ path) in base_of (after_slash p p)

-- The project of a new session: made, or given the directory if it has none.
unfoldable pub ensured_project : Option ProjectRow → Bytes → Bytes → ℕ → Option ProjectRow
unfolding named_project
ensured_project none name dir created_at =
    some (record (named_project name created_at created_at) { dir = dir })
ensured_project (some p) name dir created_at =
    if text_eq p.dir [] then some (record p { dir = dir }) else none

unfoldable pub put_project : Map ProjectRow → Bytes → Option ProjectRow → Map ProjectRow
put_project m name none = m
put_project m name (some p) = insert m name p

module _ {C : Type 0} where
  -- `s.Status == "running" || s.Status == "pending"`
  unfoldable pub is_live : SessionRow C → Bool
  is_live s = text_eq s.status (codes "running") || text_eq s.status (codes "pending")

  unfoldable pub completed : ℕ → SessionRow C → SessionRow C
  completed now s = record s { status = codes "complete"; finished_at = some now }

  unfoldable pub complete_all : ℕ → Map (SessionRow C) → Map (SessionRow C) × ℕ
  unfolding is_live completed
  complete_all now [] = ([], 0)
  complete_all now ((id, s) ∷ m) =
      let (m', count) = complete_all now m in
      if is_live s then ((id, completed now s) ∷ m', suc count) else ((id, s) ∷ m', count)

  unfoldable pub complete_running_sessions : MemStore C → ℕ → MemStore C × ℕ
  unfolding complete_all
  complete_running_sessions m now =
      let (sessions, count) = complete_all now m.sessions in
      (record m { sessions = sessions }, count)

  unfoldable pub new_session :
      Bytes → Bytes → Bytes → Bytes → Bytes → Bytes → Bytes → Bytes → Bytes → C → ℕ → SessionRow C
  unfolding base
  new_session id source_name agent dir sandbox node git_commit project_name env zero_cost
        created_at =
      record {
        id = id;
        acp_session_id = [];
        source_name = source_name;
        agent = base agent;
        dir = dir;
        sandbox = sandbox;
        node = node;
        git_commit = git_commit;
        project_name = project_name;
        env = env;
        status = codes "pending";
        error_msg = [];
        model = [];
        sdk_version = [];
        pid = 0;
        input_tokens = 0;
        output_tokens = 0;
        cache_creation_input_tokens = 0;
        cache_read_input_tokens = 0;
        context_used = 0;
        context_window = 0;
        cost_usd = zero_cost;
        prompt_count = 0;
        prompt_duration_ms = 0;
        created_at = created_at;
        finished_at = none;
      }

  -- `env` is the marshalled environment, and `zero_cost` the zero of the cost.
  unfoldable pub insert_session :
      MemStore C
      → Bytes
      → Bytes
      → Bytes
      → Bytes
      → Bytes
      → Bytes
      → Bytes
      → Bytes
      → Bytes
      → C
      → ℕ
      → MemStore C
  unfolding ensured_project put_project new_session
  insert_session m id source_name agent dir sandbox node git_commit project_name env zero_cost
        created_at =
      record m {
        projects =
            put_project m.projects project_name
              (ensured_project (lookup m.projects project_name) project_name dir created_at);
        sessions = insert m.sessions id (
            new_session id source_name agent dir sandbox node git_commit project_name env zero_cost
              created_at);
      }

  -- A session that is there is read, changed and put back; another is an error.
  unfoldable pub changed :
      MemStore C
      → Bytes
      → Option (SessionRow C)
      → (SessionRow C → SessionRow C)
      → MemStore C × Result Error (Unit {0})
  changed m id none f = (m, err (session_not_found id))
  changed m id (some s) f = (record m { sessions = insert m.sessions id (f s) }, ok tt)

  unfoldable pub reopen_session : MemStore C → Bytes → MemStore C × Result Error (Unit {0})
  unfolding changed
  reopen_session m id =
      changed m id (lookup m.sessions id)
        (λ s. record s { status = codes "pending"; error_msg = []; finished_at = none })

  unfoldable pub with_status : SessionRow C → StatusInfo C → SessionRow C
  with_status s info = record s {
    status = info.status;
    model = info.model;
    sdk_version = info.sdk_version;
    pid = info.pid;
    input_tokens = info.usage.input_tokens;
    output_tokens = info.usage.output_tokens;
    cache_creation_input_tokens = info.usage.cache_creation_input_tokens;
    cache_read_input_tokens = info.usage.cache_read_input_tokens;
    context_used = info.usage.context_used;
    context_window = info.usage.context_window;
    cost_usd = info.usage.cost_usd;
    prompt_count = info.usage.prompt_count;
  }

  unfoldable pub update_session :
      MemStore C → Bytes → StatusInfo C → MemStore C × Result Error (Unit {0})
  unfolding changed with_status
  update_session m id info = changed m id (lookup m.sessions id) (λ s. with_status s info)

  unfoldable pub finish_session :
      MemStore C → Bytes → StatusInfo C → Bytes → ℕ → MemStore C × Result Error (Unit {0})
  unfolding changed with_status
  finish_session m id info session_error now =
      changed m id (lookup m.sessions id)
        (λ s. record (with_status s info) { error_msg = session_error; finished_at = some now })

  unfoldable pub set_acp_session_id :
      MemStore C → Bytes → Bytes → MemStore C × Result Error (Unit {0})
  unfolding changed
  set_acp_session_id m id acp_session_id =
      changed m id (lookup m.sessions id) (λ s. record s { acp_session_id = acp_session_id })

  -- The sum is an int64, kept as its 64 bits.
  unfoldable pub add_prompt_duration : MemStore C → Bytes → ℕ → MemStore C × Result Error (Unit {0})
  unfolding changed
  add_prompt_duration m id duration_ms =
      changed m id (lookup m.sessions id)
        (λ s. record s { prompt_duration_ms = add64 s.prompt_duration_ms duration_ms })

  unfoldable pub found : Bytes → Option (SessionRow C) → Result Error (SessionRow C)
  found id none = err (session_not_found id)
  found id (some s) = ok s

  unfoldable pub get_session : MemStore C → Bytes → Result Error (SessionRow C)
  unfolding found
  get_session m id = found id (lookup m.sessions id)
