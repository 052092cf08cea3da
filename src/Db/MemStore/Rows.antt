-- ===== src/Db/MemStore/Rows.antt =====
-- The row of a session after a change of it.
use acpp.Prelude.{Bytes, ℕ, add64, ◌≡◌, ap, ◌∙◌, some}
use acpp.Db.Map.{lookup, lookup-insert}
use acpp.Db.MemStore.{StatusInfo, SessionRow, MemStore}
use acpp.Db.MemStore.Sessions.{
  changed, with_status, update_session, finish_session, reopen_session, add_prompt_duration,
}
use acpp.Prelude.{codes, [], none}

module _ {C : Type 0} (m : MemStore C) (id : Bytes) {s : SessionRow C}
    (here : lookup m.sessions id ≡ some s) where
  changed-lookup :
      (f : SessionRow C → SessionRow C)
      → lookup (changed m id (lookup m.sessions id) f).0.sessions id ≡ some (f s)
  unfolding changed
  changed-lookup f =
      ap (λ o. lookup (changed m id o f).0.sessions id) here ∙ lookup-insert m.sessions id (f s)

  pub update_session-lookup :
      (info : StatusInfo C)
      → lookup (update_session m id info).0.sessions id ≡ some (with_status s info)
  unfolding update_session
  update_session-lookup info = changed-lookup (λ r. with_status r info)

  pub finish_session-lookup :
      (info : StatusInfo C) (error : Bytes) (now : ℕ)
      → lookup (finish_session m id info error now).0.sessions id
        ≡ some (record (with_status s info) { error_msg = error; finished_at = some now })
  unfolding finish_session
  finish_session-lookup info error now =
      changed-lookup
        (λ r. record (with_status r info) { error_msg = error; finished_at = some now })

  pub reopen_session-lookup :
      lookup (reopen_session m id).0.sessions id
      ≡ some (record s { status = codes "pending"; error_msg = []; finished_at = none })
  unfolding reopen_session
  reopen_session-lookup =
      changed-lookup
        (λ r. record r { status = codes "pending"; error_msg = []; finished_at = none })

  pub add_prompt_duration-lookup :
      (ms : ℕ)
      → lookup (add_prompt_duration m id ms).0.sessions id
        ≡ some (record s { prompt_duration_ms = add64 s.prompt_duration_ms ms })
  unfolding add_prompt_duration
  add_prompt_duration-lookup ms =
      changed-lookup (λ r. record r { prompt_duration_ms = add64 r.prompt_duration_ms ms })
