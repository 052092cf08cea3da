-- ===== src/Db/MemStore/Run/Growth.antt =====
-- An operation adds one entry to the log at most.
use acpp.Prelude.{
  ◌≤◌, Bytes, ℕ, ◌+◌, add64, ◌≡◌, refl, ap, Option, none, some, [], ◌∷◌, length, length-append,
  arith,
}
use acpp.Db.Map.{lookup}
use acpp.Db.MemStore.{SessionRow, ProjectRow, MemStore}
use acpp.Db.MemStore.Sessions.{
  complete_running_sessions, insert_session, reopen_session, changed, update_session,
  finish_session, set_acp_session_id, add_prompt_duration,
}
use acpp.Db.MemStore.Logs.{insert_log}
use acpp.Db.MemStore.Projects.{
  get_project, got, put, set_field, set_project_field, append_project_env, clear_project_env,
  cleared, set_project_env, field_named, Field,
}
use acpp.Db.MemStore.Run.{
  Call, call, completes_running, inserts_session, reopens, updates, finishes, sets_acp_session_id,
  adds_prompt_duration, inserts_log, gets_project, sets_project_field, appends_project_env,
  clears_project_env, sets_project_env,
}

module _ {C : Type 0} where
  changed-logs :
      (m : MemStore C) (id : Bytes) (o : Option (SessionRow C)) (f : SessionRow C → SessionRow C)
      → (changed m id o f).0.logs ≡ m.logs
  unfolding changed
  changed-logs m id none f = refl
  changed-logs m id (some s) f = refl

  got-logs :
      (m : MemStore C) (name : Bytes) (now : ℕ) (o : Option ProjectRow)
      → (got m name now o).0.logs ≡ m.logs
  unfolding got
  got-logs m name now none = refl
  got-logs m name now (some p) = refl

  cleared-logs :
      (m : MemStore C) (name : Bytes) (now : ℕ) (o : Option ProjectRow)
      → (cleared m name now o).logs ≡ m.logs
  unfolding cleared put
  cleared-logs m name now none = refl
  cleared-logs m name now (some p) = refl

  set_field-logs :
      (m : MemStore C) (name field value : Bytes) (now : ℕ) (o : Option Field)
      → (set_field m name field value now o).0.logs ≡ m.logs
  unfolding set_field put
  set_field-logs m name field value now none = refl
  set_field-logs m name field value now (some f) = refl

  pub call-logs : (m : MemStore C) (c : Call C) → length (call m c).logs ≤ length m.logs + 1
  unfolding call complete_running_sessions insert_session reopen_session update_session
      finish_session set_acp_session_id add_prompt_duration insert_log append_project_env
      set_project_env get_project clear_project_env set_project_field put
  call-logs m (completes_running now) = omega arith
  call-logs m (inserts_session id source a d s node commit project env z created) = omega arith
  call-logs m (reopens id) = omega (arith, ap length (changed-logs m id (lookup m.sessions id) _))
  call-logs m (updates id info) =
      omega (arith, ap length (changed-logs m id (lookup m.sessions id) _))
  call-logs m (finishes id info error now) =
      omega (arith, ap length (changed-logs m id (lookup m.sessions id) _))
  call-logs m (sets_acp_session_id id a) =
      omega (arith, ap length (changed-logs m id (lookup m.sessions id) _))
  call-logs m (adds_prompt_duration id d) =
      omega (arith, ap length (changed-logs m id (lookup m.sessions id) _))
  call-logs m (inserts_log id event payload now) = omega (
    arith,
    length-append m.logs (
        record {
          id = add64 m.log_seq 1;
          session_id = id;
          event_type = event;
          payload = payload;
          created_at = now;
        }
        ∷ []),
  )
  call-logs m (gets_project name now) =
      omega (arith, ap length (got-logs m name now (lookup m.projects name)))
  call-logs m (sets_project_field name field value now) =
      omega (arith, ap length (set_field-logs m name field value now (field_named field)))
  call-logs m (appends_project_env name entry now) = omega arith
  call-logs m (clears_project_env name now) =
      omega (arith, ap length (cleared-logs m name now (lookup m.projects name)))
  call-logs m (sets_project_env name entries now) = omega arith
