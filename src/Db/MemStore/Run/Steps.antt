-- ===== src/Db/MemStore/Run/Steps.antt =====
-- Each operation keeps what holds of the store.
use acpp.Prelude.{
  All, Bytes, ℕ, ◌+◌, ◌<◌, add64, i64_sign, ◌≡◌, refl, ◌∙◌, some, [], ◌∷◌, ◌++◌, length,
  length-append, arith, text_eq, Bool-cases, inl, inr, Option-cases,
}
use acpp.Db.Map.{Map, lookup, insert-All, lookup-All, lookup-insert}
use acpp.Db.MemStore.{SessionRow, ProjectRow, MemStore, named_project}
use acpp.Db.MemStore.Sessions.{
  complete_running_sessions, complete_all, is_live, completed, insert_session, ensured_project,
  put_project, new_session, reopen_session, with_status, update_session, finish_session,
  set_acp_session_id, add_prompt_duration,
}
use acpp.Db.MemStore.Logs.{insert_log}
use acpp.Db.MemStore.Projects.{
  get_project, got, put, set_field, set_project_field, append_project_env, clear_project_env,
  cleared, set_project_env, or_new, with_field, field_named, Field, agent, dir, sandbox,
  sandbox_profiles, sandbox_env, permission, repo, hooks, location,
}
use acpp.Db.MemStore.Valid.{
  SessionIsKept, IsNamed, Numbered-append, IsValid, changed-IsValid, insert_project-IsValid,
  or_new_name,
}
use acpp.Db.MemStore.Run.{
  Call, call, completes_running, inserts_session, reopens, updates, finishes, sets_acp_session_id,
  adds_prompt_duration, inserts_log, gets_project, sets_project_field, appends_project_env,
  clears_project_env, sets_project_env,
}

with_field_name :
    (f : Field) (value : Bytes) (p : ProjectRow) → (with_field f value p).name ≡ p.name
unfolding with_field
with_field_name agent value p = refl
with_field_name dir value p = refl
with_field_name sandbox value p = refl
with_field_name sandbox_profiles value p = refl
with_field_name sandbox_env value p = refl
with_field_name permission value p = refl
with_field_name repo value p = refl
with_field_name hooks value p = refl
with_field_name location value p = refl

module _ {C : Type 0} where
  complete_all-kept :
      (ps : Map ProjectRow) (now : ℕ) (ss : Map (SessionRow C))
      → All (SessionIsKept ps) ss
      → All (SessionIsKept ps) (complete_all now ss).0
  unfolding complete_all completed
  complete_all-kept ps now [] h = tt
  complete_all-kept ps now ((id, s) ∷ ss) (k, h) = elim (Bool-cases (is_live s)) [
    | inl e ↦
        rw e
          (record { id_is_key = k.id_is_key; project = k.project }, complete_all-kept ps now ss h)
    | inr e ↦ rw e (k, complete_all-kept ps now ss h)
  ]

  -- The rows of a session's project are there before the session is.
  ensured :
      (m : MemStore C) (name d : Bytes) (created : ℕ)
      → IsValid m
      → IsValid (record m {
        projects =
            put_project m.projects name (ensured_project (lookup m.projects name) name d created);
      })
        × ((p : ProjectRow) × lookup
                (put_project m.projects name
                  (ensured_project (lookup m.projects name) name d created))
                name
              ≡ some p)
  unfolding put_project ensured_project named_project
  ensured m name d created v = elim (Option-cases (lookup m.projects name)) [
    | inl e ↦ rw e (insert_project-IsValid m name _ refl v, (_, lookup-insert m.projects name _))
    | inr (p, e) ↦ elim (Bool-cases (text_eq p.dir [])) [
      | inl t ↦
          rw (e, t)
            (
              insert_project-IsValid m name _
                  (lookup-All IsNamed m.projects name p v.projects_named e) v,
              (_, lookup-insert m.projects name _),
            )
      | inr t ↦ rw (e, t) (v, (p, e))
    ]
  ]

  insert_session-IsValid :
      (m : MemStore C) (id source a d s node commit project env : Bytes) (zero_cost : C)
      (created : ℕ)
      → IsValid m
      → IsValid (insert_session m id source a d s node commit project env zero_cost created)
  unfolding insert_session new_session
  insert_session-IsValid m id source a d s node commit project env zero_cost created v =
      let (w, p) = ensured m project d created v in
      record {
        sessions_kept =
            insert-All (SessionIsKept _) m.sessions id _ w.sessions_kept
              (record { id_is_key = refl; project = p });
        projects_named = w.projects_named;
        logs_numbered = w.logs_numbered;
        next_number = w.next_number;
      }

  put-IsValid :
      (m : MemStore C) (name : Bytes) (now : ℕ) (p : ProjectRow)
      → p.name ≡ name
      → IsValid m
      → IsValid (put m name now p)
  unfolding put
  put-IsValid m name now p e v = insert_project-IsValid m name _ e v

  named_put :
      (m : MemStore C) (name : Bytes) (now : ℕ) (f : ProjectRow → ProjectRow)
      → ((p : ProjectRow) → (f p).name ≡ p.name)
      → IsValid m
      → IsValid (put m name now (f (or_new name now (lookup m.projects name))))
  named_put m name now f keeps v = put-IsValid m name now _ (keeps _ ∙ or_new_name m name now v) v

  get_project-IsValid :
      (m : MemStore C) (name : Bytes) (now : ℕ) → IsValid m → IsValid (get_project m name now).0
  unfolding get_project got named_project
  get_project-IsValid m name now v = elim (Option-cases (lookup m.projects name)) [
    | inl e ↦ rw e (insert_project-IsValid m name _ refl v)
    | inr (p, e) ↦ rw e v
  ]

  clear_project_env-IsValid :
      (m : MemStore C) (name : Bytes) (now : ℕ) → IsValid m → IsValid (clear_project_env m name now)
  unfolding clear_project_env cleared
  clear_project_env-IsValid m name now v = elim (Option-cases (lookup m.projects name)) [
    | inl e ↦ rw e v
    | inr (p, e) ↦ rw e (
        put-IsValid m name now (record p { env = [] })
          (lookup-All IsNamed m.projects name p v.projects_named e) v)
  ]

  set_project_field-IsValid :
      (m : MemStore C) (name field value : Bytes) (now : ℕ)
      → IsValid m
      → IsValid (set_project_field m name field value now).0
  unfolding set_project_field set_field
  set_project_field-IsValid m name field value now v = elim (Option-cases (field_named field)) [
    | inl e ↦ rw e v
    | inr (f, e) ↦ rw e (named_put m name now (with_field f value) (with_field_name f value) v)
  ]

  log_IsValid :
      (m : MemStore C) (id event payload : Bytes) (now : ℕ)
      → length m.logs + 1 < i64_sign
      → IsValid m
      → IsValid (insert_log m id event payload now)
  unfolding insert_log
  log_IsValid m id event payload now b v =
      let seq : add64 m.log_seq 1 ≡ 1 + length m.logs = omega (arith, v.next_number, b) in
      record {
        sessions_kept = v.sessions_kept;
        projects_named = v.projects_named;
        logs_numbered = Numbered-append 1 m.logs _ v.logs_numbered seq;
        next_number = omega (
          arith,
          seq,
          length-append m.logs (
              record {
                id = add64 m.log_seq 1;
                session_id = id;
                event_type = event;
                payload = payload;
                created_at = now;
              }
              ∷ []),
        );
      }

  pub call-IsValid :
      (m : MemStore C) (c : Call C) → length m.logs + 1 < i64_sign → IsValid m → IsValid (call m c)
  unfolding call complete_running_sessions reopen_session update_session finish_session with_status
      set_acp_session_id add_prompt_duration insert_log append_project_env set_project_env
  call-IsValid m (completes_running now) b v = record {
    sessions_kept = complete_all-kept m.projects now m.sessions v.sessions_kept;
    projects_named = v.projects_named;
    logs_numbered = v.logs_numbered;
    next_number = v.next_number;
  }
  call-IsValid m (inserts_session id source a d s node commit project env z created) b v =
      insert_session-IsValid m id source a d s node commit project env z created v
  call-IsValid m (reopens id) b v = changed-IsValid m id _ (λ s. (refl, refl)) v
  call-IsValid m (updates id info) b v = changed-IsValid m id _ (λ s. (refl, refl)) v
  call-IsValid m (finishes id info error now) b v = changed-IsValid m id _ (λ s. (refl, refl)) v
  call-IsValid m (sets_acp_session_id id a) b v = changed-IsValid m id _ (λ s. (refl, refl)) v
  call-IsValid m (adds_prompt_duration id d) b v = changed-IsValid m id _ (λ s. (refl, refl)) v
  call-IsValid m (inserts_log id event payload now) b v = log_IsValid m id event payload now b v
  call-IsValid m (gets_project name now) b v = get_project-IsValid m name now v
  call-IsValid m (sets_project_field name field value now) b v =
      set_project_field-IsValid m name field value now v
  call-IsValid m (appends_project_env name entry now) b v =
      named_put m name now (λ p. record p { env = p.env ++ entry ∷ [] }) (λ p. refl) v
  call-IsValid m (clears_project_env name now) b v = clear_project_env-IsValid m name now v
  call-IsValid m (sets_project_env name entries now) b v =
      named_put m name now (λ p. record p { env = entries }) (λ p. refl) v
