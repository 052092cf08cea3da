-- ===== src/Db/MemStore/Logs.antt =====
-- db/memstore.go: the log of events.
use acpp.Prelude.{
  Bytes, codes, text_eq, ℕ, ◌==◌, add64, Bool, ◌&&◌, ◌||◌, false, Option, none, some, List, [], ◌∷◌,
  ◌++◌, if◌then◌else◌, Result, ok, err,
}
use acpp.Db.MemStore.{LogRow, MemStore, Error, log_not_found}

keep_logs : (LogRow → Bool) → List LogRow → List LogRow
keep_logs p [] = []
keep_logs p (l ∷ ls) = let rest = keep_logs p ls in if p l then l ∷ rest else rest

unfoldable pub find_log : ℕ → List LogRow → Option LogRow
find_log id [] = none
find_log id (l ∷ ls) = if l.id == id then some l else find_log id ls

unfoldable pub found_log : ℕ → Option LogRow → Result Error LogRow
found_log id none = err (log_not_found id)
found_log id (some l) = ok l

collect : (LogRow → Option Bytes) → List LogRow → List Bytes
collect f [] = []
collect f (l ∷ ls) = elim (f l) [ none ↦ collect f ls | some t ↦ t ∷ collect f ls ]

module _ {C : Type 0} where
  unfoldable pub insert_log : MemStore C → Bytes → Bytes → Bytes → ℕ → MemStore C
  insert_log m session_id event_type payload now =
      let seq = add64 m.log_seq 1 in
      record m {
        log_seq = seq;
        logs =
            m.logs
            ++ record {
              id = seq;
              session_id = session_id;
              event_type = event_type;
              payload = payload;
              created_at = now;
            }
              ∷ [];
      }

  unfoldable pub get_session_logs : MemStore C → Bytes → List LogRow
  unfolding keep_logs
  get_session_logs m session_id = keep_logs (λ l. text_eq l.session_id session_id) m.logs

  unfoldable pub get_log : MemStore C → ℕ → Result Error LogRow
  unfolding find_log found_log
  get_log m id = found_log id (find_log id m.logs)

  -- `field` reads a text field of a JSON object, and is `none` where the payload is no object, or has no
  -- such field, or one that is no text.
  unfoldable pub get_logs_by_tool_call_id :
      (Bytes → Bytes → Option Bytes) → MemStore C → Bytes → Bytes → List LogRow
  unfolding keep_logs
  get_logs_by_tool_call_id field m session_id tool_call_id =
      keep_logs
        (λ l.
          text_eq l.session_id session_id
          && ((text_eq l.event_type (codes "tool_call")
                || text_eq l.event_type (codes "tool_call_update"))
              && elim (field l.payload (codes "toolCallId")) [
                | none ↦ false
                | some t ↦ text_eq t tool_call_id
              ]))
        m.logs

  unfoldable pub get_prompt_texts : (Bytes → Bytes → Option Bytes) → MemStore C → Bytes → List Bytes
  unfolding collect
  get_prompt_texts field m session_id =
      collect
        (λ l.
          if text_eq l.session_id session_id && text_eq l.event_type (codes "prompt")
          then field l.payload (codes "prompt")
          else none)
        m.logs
