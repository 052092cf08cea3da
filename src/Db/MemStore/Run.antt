-- ===== src/Db/MemStore/Run.antt =====
-- Any sequence of the operations that write the store.
mod Steps
pub mod Growth
pub mod Always
use acpp.Prelude.{
  ◌≤◌, All, Bytes, ℕ, ◌+◌, ◌<◌, add64, i64_sign, ◌≡◌, refl, ap, ◌∙◌, Option, none, some, List, [],
  ◌∷◌, ◌++◌, length, length-append, arith, text_eq, Bool-cases, inl, inr, Option-cases,
}
use acpp.Db.Map.{Map, lookup, insert-All, lookup-All, lookup-insert}
use acpp.Db.MemStore.{StatusInfo, SessionRow, ProjectRow, MemStore, new_mem_store, named_project}
use acpp.Db.MemStore.Sessions.{
  complete_running_sessions, complete_all, is_live, completed, insert_session, ensured_project,
  put_project, new_session, reopen_session, changed, with_status, update_session, finish_session,
  set_acp_session_id, add_prompt_duration,
}
use acpp.Db.MemStore.Logs.{insert_log}
use acpp.Db.MemStore.Projects.{
  get_project, got, put, set_field, set_project_field, append_project_env, clear_project_env,
  cleared, set_project_env, or_new, with_field, field_named, Field, agent, dir, sandbox,
  sandbox_profiles, sandbox_env, permission, repo, hooks, location,
}
use acpp.Db.MemStore.Valid.{
  SessionIsKept, IsNamed, Numbered-append, IsValid, changed-IsValid, insert_project-IsValid,
  or_new_name,
}

-- A call, with what it reads from the clock.
pub data Call (C : Type 0) : Type 0 where
  completes_running : ℕ → Call C
  inserts_session :
      Bytes → Bytes → Bytes → Bytes → Bytes → Bytes → Bytes → Bytes → Bytes → C → ℕ → Call C
  reopens : Bytes → Call C
  updates : Bytes → StatusInfo C → Call C
  finishes : Bytes → StatusInfo C → Bytes → ℕ → Call C
  sets_acp_session_id : Bytes → Bytes → Call C
  adds_prompt_duration : Bytes → ℕ → Call C
  inserts_log : Bytes → Bytes → Bytes → ℕ → Call C
  gets_project : Bytes → ℕ → Call C
  sets_project_field : Bytes → Bytes → Bytes → ℕ → Call C
  appends_project_env : Bytes → Bytes → ℕ → Call C
  clears_project_env : Bytes → ℕ → Call C
  sets_project_env : Bytes → List Bytes → ℕ → Call C

module _ {C : Type 0} where
  unfoldable pub call : MemStore C → Call C → MemStore C
  unfolding complete_running_sessions insert_session reopen_session update_session finish_session
      set_acp_session_id add_prompt_duration insert_log get_project set_project_field
      append_project_env clear_project_env set_project_env
  call m (completes_running now) = (complete_running_sessions m now).0
  call m (inserts_session id source a d s node commit project env zero_cost created) =
      insert_session m id source a d s node commit project env zero_cost created
  call m (reopens id) = (reopen_session m id).0
  call m (updates id info) = (update_session m id info).0
  call m (finishes id info error now) = (finish_session m id info error now).0
  call m (sets_acp_session_id id a) = (set_acp_session_id m id a).0
  call m (adds_prompt_duration id d) = (add_prompt_duration m id d).0
  call m (inserts_log id event payload now) = insert_log m id event payload now
  call m (gets_project name now) = (get_project m name now).0
  call m (sets_project_field name field value now) = (set_project_field m name field value now).0
  call m (appends_project_env name entry now) = append_project_env m name entry now
  call m (clears_project_env name now) = clear_project_env m name now
  call m (sets_project_env name entries now) = set_project_env m name entries now

  unfoldable pub run : MemStore C → List (Call C) → MemStore C
  unfolding call
  run m [] = m
  run m (c ∷ cs) = run (call m c) cs
