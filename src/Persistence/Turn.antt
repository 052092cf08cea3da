-- ===== src/Persistence/Turn.antt =====
-- A turn of a session, and a response that comes when the session has ended.
use acpp.Prelude.{
  Bytes, codes, text_eq, ℕ, ◌-◌, ◌/◌, ltb, add64, ◌≡◌, refl, ap, ◌∙◌, false, Bool-cases, inl, inr,
  Option, none, some, [], if◌then◌else◌,
}
use acpp.Db.Map.{lookup, lookup-insert}
use acpp.Db.MemStore.{SessionRow, UsageInfo}
use acpp.Db.MemStore.Sessions.{with_status}
use acpp.Db.MemStore.Rows.{update_session-lookup, add_prompt_duration-lookup}
use acpp.Persistence.Meta.{Floats, extract_usage_from_meta, no_usage}
use acpp.Persistence.{
  or_no_track, no_track, no_info, begun, begin_turn, end_turn, has_tokens, flush, ended, turn_usage,
  typed_usage, duration_ms, add_duration, finish,
}
use acpp.Persistence.Data.{TurnUsage, Persister, SessionTrack, PromptResponse}
use acpp.Persistence.Totals.{finish_track, finish_row, over, final_row}

module _ {C : Type 0} where
  -- A flush leaves the row with the totals of the tracked state, and the state itself.
  flush_lem :
      (p : Persister C) (sid : Bytes) (st : SessionTrack C) (row : SessionRow C)
      → lookup p.store.sessions sid ≡ some row
      → lookup (flush p sid st).store.sessions sid ≡ some (with_status row st.info)
        × lookup (flush p sid st).track sid ≡ some st
  unfolding flush
  flush_lem p sid st row h =
      (update_session-lookup p.store sid h st.info, lookup-insert p.track sid st)

  -- The row with a turn's duration added.
  pub lasted : ℕ → SessionRow C → SessionRow C
  lasted ms row = record row {
    prompt_duration_ms =
        if ltb 0 ms then add64 row.prompt_duration_ms ms else row.prompt_duration_ms;
  }

  add_duration_lem :
      (p : Persister C) (sid : Bytes) (ms : ℕ) (row : SessionRow C)
      → lookup p.store.sessions sid ≡ some row
      → lookup (add_duration p sid ms).store.sessions sid ≡ some (lasted ms row)
  unfolding add_duration lasted
  add_duration_lem p sid ms row h = elim (Bool-cases (ltb 0 ms)) [
    | inl e ↦ rw e (add_prompt_duration-lookup p.store sid h ms)
    | inr e ↦ rw e h
  ]

  typed_count :
      (u : UsageInfo C) (o : Option TurnUsage) → (typed_usage u o).prompt_count ≡ u.prompt_count
  unfolding typed_usage
  typed_count u none = refl
  typed_count u (some t) = refl

module _ {C : Type 0} (f : Floats C) (sid : Bytes) (named : text_eq sid [] ≡ false) where
  turn_count :
      (u : UsageInfo C) (resp : PromptResponse C)
      → (turn_usage f u resp).prompt_count ≡ u.prompt_count
  unfolding turn_usage
  turn_count u resp = elim (Bool-cases (has_tokens (extract_usage_from_meta f resp.meta))) [
    | inl e ↦ rw e refl
    | inr e ↦ rw e (typed_count u resp.usage)
  ]

  quiet_usage :
      (u : UsageInfo C) (resp : PromptResponse C)
      → has_tokens (extract_usage_from_meta f resp.meta) ≡ false
      → resp.usage ≡ none
      → turn_usage f u resp ≡ u
  unfolding turn_usage typed_usage
  quiet_usage u resp t h = rw t (ap (typed_usage u) h)

  begin_turn_lem :
      (p : Persister C) (now : ℕ) (row : SessionRow C)
      → lookup p.store.sessions sid ≡ some row
      → let st = begun now (or_no_track f (lookup p.track sid)) in
        lookup (begin_turn f p now sid).store.sessions sid ≡ some (with_status row st.info)
        × lookup (begin_turn f p now sid).track sid ≡ some st
  unfolding begin_turn
  begin_turn_lem p now row h =
      rw named (flush_lem p sid (begun now (or_no_track f (lookup p.track sid))) row h)

  end_turn_lem :
      (p : Persister C) (now : ℕ) (resp : PromptResponse C) (row : SessionRow C)
      → lookup p.store.sessions sid ≡ some row
      → let st = or_no_track f (lookup p.track sid) in
        lookup (end_turn f p now sid resp).store.sessions sid
          ≡ some (with_status (lasted (duration_ms now st) row) (ended f st resp).info)
        × lookup (end_turn f p now sid resp).track sid ≡ some (ended f st resp)
  unfolding end_turn
  end_turn_lem p now resp row h =
      let st = or_no_track f (lookup p.track sid) in
      rw named (
        flush_lem (add_duration p sid (duration_ms now st)) sid (ended f st resp)
          (lasted (duration_ms now st) row) (add_duration_lem p sid (duration_ms now st) row h))

  -- A whole turn of a session with a row: the row is running, with one prompt more than the session
  -- had, the usage of the turn, and the time between request and response, in milliseconds, added.
  pub turn_lem :
      (p : Persister C) (now later : ℕ) (resp : PromptResponse C) (row : SessionRow C)
      (st : SessionTrack C)
      → lookup p.store.sessions sid ≡ some row
      → lookup p.track sid ≡ some st
      → let q = end_turn f (begin_turn f p now sid) later sid resp in
        let st' = ended f (begun now st) resp in
        lookup q.store.sessions sid
          ≡ some (with_status (lasted ((later - now) / 1000000) row) st'.info)
        × (lookup q.track sid ≡ some st'
            × (st'.info.status ≡ codes "running"
                × st'.info.usage.prompt_count ≡ add64 st.info.usage.prompt_count 1))
  unfolding ended begun with_status lasted duration_ms or_no_track
  turn_lem p now later resp row st h t =
      let (b, c) = begin_turn_lem p now row h in
      let tracked : lookup (begin_turn f p now sid).track sid ≡ some (begun now st) =
        c ∙ ap (λ o. some (begun now (or_no_track f o))) t in
      let (d, e) = end_turn_lem (begin_turn f p now sid) later resp _ b in
      (
        d
            ∙ ap
                (λ o. some (
                  with_status (lasted (duration_ms later (or_no_track f o)) row)
                    (ended f (or_no_track f o) resp).info))
                tracked,
        (
          e ∙ ap (λ o. some (ended f (or_no_track f o) resp)) tracked,
          (
            refl,
            turn_count (record st.info.usage { prompt_count = add64 st.info.usage.prompt_count 1 })
                resp,
          ),
        ),
      )

  -- When the response to a prompt comes after the session has ended, the ended row runs again, and its
  -- totals are those of this response alone: one prompt, and no tokens if the response tells none.
  pub late_response :
      (p : Persister C) (now later : ℕ) (error : Bytes) (resp : PromptResponse C)
      (row : SessionRow C)
      → lookup p.store.sessions sid ≡ some row
      → has_tokens (extract_usage_from_meta f resp.meta) ≡ false
      → resp.usage ≡ none
      → let q = end_turn f (finish f p now sid error) later sid resp in
        (row' : SessionRow C) × (lookup q.store.sessions sid ≡ some row'
          × (row'.status ≡ codes "running"
              × (row'.finished_at ≡ some now
                  × (row'.prompt_count ≡ 1 × (row'.input_tokens ≡ 0 × row'.output_tokens ≡ 0)))))
  unfolding ended no_track no_info no_usage or_no_track lasted duration_ms with_status over
      final_row
  late_response p now later error resp row h t u =
      let (d, e) =
        end_turn_lem (finish f p now sid error) later resp (final_row f p now sid error row)
          (finish_row f p now sid error row named h) in
      let last = ended f (no_track f) resp in
      let quiet = quiet_usage (record (no_usage f) { prompt_count = 1 }) resp t u in
      (
        with_status (lasted 0 (final_row f p now sid error row)) last.info,
        (
          d
              ∙ ap
                  (λ o. some (
                    with_status
                      (lasted (duration_ms later (or_no_track f o))
                        (final_row f p now sid error row))
                      (ended f (or_no_track f o) resp).info))
                  (finish_track f p now sid error named),
          (
            refl,
            (
              refl,
              (
                ap (λ x. x.prompt_count) quiet,
                (ap (λ x. x.input_tokens) quiet, ap (λ x. x.output_tokens) quiet),
              ),
            ),
          ),
        ),
      )
