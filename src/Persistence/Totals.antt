-- ===== src/Persistence/Totals.antt =====
-- What the end of a session and its adoption do to its totals.
use acpp.Prelude.{Bytes, codes, text_eq, ℕ, ◌≡◌, ap, ◌∙◌, false, none, some, [], if◌then◌else◌}
use acpp.Db.Map.{lookup, lookup-insert, lookup-remove}
use acpp.Db.MemStore.{SessionRow}
use acpp.Db.MemStore.Sessions.{with_status, get_session, found}
use acpp.Db.MemStore.Rows.{finish_session-lookup, reopen_session-lookup}
use acpp.Persistence.Meta.{Floats}
use acpp.Persistence.{stored, stored_info, info_of, final_info, final_status, finish, adopt}
use acpp.Persistence.Data.{Persister}

module _ {C : Type 0} where
  -- The row when the session has ended, with or without an error, its totals untouched.
  unfoldable pub over : ℕ → Bytes → SessionRow C → SessionRow C
  over now error row = record row {
    status = if text_eq error [] then codes "complete" else codes "error";
    error_msg = error;
    finished_at = some now;
  }

module _ {C : Type 0} (f : Floats C) where
  stored_row :
      (p : Persister C) (sid : Bytes) (row : SessionRow C)
      → lookup p.store.sessions sid ≡ some row
      → stored f p sid ≡ info_of row
  unfolding stored stored_info get_session found
  stored_row p sid row h = ap (λ o. stored_info f (found sid o)) h

  -- The row that a finish leaves.
  unfoldable pub final_row : Persister C → ℕ → Bytes → Bytes → SessionRow C → SessionRow C
  unfolding over with_status final_info
  final_row p now sid error row =
      over now error (with_status row (final_info f p sid (lookup p.track sid)))

  -- The row after a finish takes the totals of `info`.
  pub finish_row :
      (p : Persister C) (now : ℕ) (sid error : Bytes) (row : SessionRow C)
      → text_eq sid [] ≡ false
      → lookup p.store.sessions sid ≡ some row
      → lookup (finish f p now sid error).store.sessions sid ≡ some (final_row p now sid error row)
  unfolding finish over final_row final_status
  finish_row p now sid error row e h = rw e (
      finish_session-lookup p.store sid h
        (record (final_info f p sid (lookup p.track sid)) { status = final_status error }) error
        now)

  pub finish_track :
      (p : Persister C) (now : ℕ) (sid error : Bytes)
      → text_eq sid [] ≡ false
      → lookup (finish f p now sid error).track sid ≡ none
  unfolding finish
  finish_track p now sid error e = rw e (lookup-remove p.track sid)

  -- The end of a session that is not tracked keeps every total of its row.
  pub finish_untracked :
      (p : Persister C) (now : ℕ) (sid error : Bytes) (row : SessionRow C)
      → text_eq sid [] ≡ false
      → lookup p.track sid ≡ none
      → lookup p.store.sessions sid ≡ some row
      → lookup (finish f p now sid error).store.sessions sid ≡ some (over now error row)
  unfolding over final_info final_row with_status info_of
  finish_untracked p now sid error row e t h =
      finish_row p now sid error row e h
      ∙ ap (λ o. some (over now error (with_status row (final_info f p sid o)))) t
      ∙ ap (λ i. some (over now error (with_status row i))) (stored_row p sid row h)

  -- A session that is adopted is pending again with its row unchanged otherwise, and if it ends right after,
  -- its row is complete, or has the error, at that time, with every total that it had.
  pub adopt-finish :
      (p : Persister C) (now : ℕ) (sid error : Bytes) (row : SessionRow C)
      → text_eq sid [] ≡ false
      → lookup p.store.sessions sid ≡ some row
      → let q = adopt f p sid in
        lookup q.store.sessions sid
          ≡ some (record row { status = codes "pending"; error_msg = []; finished_at = none })
        × lookup (finish f q now sid error).store.sessions sid ≡ some (over now error row)
  unfolding adopt over final_info with_status info_of final_row
  adopt-finish p now sid error row e h = (
    reopen_session-lookup p.store sid h,
    finish_row (adopt f p sid) now sid error _ e (reopen_session-lookup p.store sid h)
        ∙ ap
            (λ o. some (
              over now error (
                with_status
                  (record row { status = codes "pending"; error_msg = []; finished_at = none })
                  (final_info f (adopt f p sid) sid o))))
            (lookup-insert p.track sid _)
        ∙ ap
            (λ i. some (
              over now error (
                with_status
                  (record row { status = codes "pending"; error_msg = []; finished_at = none })
                  (record i { status = codes "pending" }))))
            (stored_row p sid row h),
  )
