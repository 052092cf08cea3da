-- ===== src/Persistence.antt =====
-- persistence/persister.go over the in-memory store. The lock makes each change of the tracked states one
-- step; a call of the store follows it, and its error is only logged. A time is what the clock gave.
pub mod Meta
pub mod Data
pub mod Totals
pub mod Turn
pub mod Costs
use acpp.Prelude.{
  Bytes, codes, text_eq, ℕ, ◌-◌, ◌/◌, ltb, i64_sign, add64, Bool, true, false, ◌&&◌, ◌||◌, Option,
  none, some, List, [], ◌∷◌, if◌then◌else◌, Result, ok, err,
}
use acpp.Types.{SessionOpts}
use acpp.Db.Map.{Map, lookup, insert, remove}
use acpp.Db.MemStore.{MemStore, SessionRow, StatusInfo, UsageInfo, Error}
use acpp.Db.MemStore.Sessions.{
  insert_session, reopen_session, update_session, finish_session, set_acp_session_id,
  add_prompt_duration, get_session,
}
use acpp.Db.MemStore.Logs.{insert_log}
use acpp.Persistence.Meta.{
  Floats, Fields, no_usage, model_from_meta, extract_usage_from_meta, carry_context,
}
use acpp.Persistence.Data.{
  SessionTrack, Persister, UsageUpdate, SessionUpdate, TurnUsage, PromptResponse, Message,
  conversation_created, new_session, notification, prompt_request, prompt_response,
  conversation_replaced, conversation_closed, conversation_adopted,
}

-- A positive int64.
unfoldable pub is_pos : ℕ → Bool
is_pos n = ltb 0 n && ltb n i64_sign

or_kept : ℕ → Option ℕ → ℕ
or_kept n none = n
or_kept n (some m) = m

turn_model : Bytes → Bytes → Bytes
turn_model last model = if text_eq model [] then last else (if text_eq last [] then model else last)

unfoldable pub final_status : Bytes → Bytes
final_status session_error = if text_eq session_error [] then codes "complete" else codes "error"

module _ {C : Type 0} where
  unfoldable pub info_of : SessionRow C → StatusInfo C
  info_of row = record {
    status = [];
    sdk_version = row.sdk_version;
    model = row.model;
    pid = row.pid;
    usage = record {
      input_tokens = row.input_tokens;
      output_tokens = row.output_tokens;
      cache_creation_input_tokens = row.cache_creation_input_tokens;
      cache_read_input_tokens = row.cache_read_input_tokens;
      context_window = row.context_window;
      context_used = row.context_used;
      cost_usd = row.cost_usd;
      prompt_count = row.prompt_count;
    };
  }

  unfoldable pub log : Persister C → ℕ → Bytes → Bytes → Bytes → Persister C
  unfolding insert_log
  log p now sid event_type payload =
      if text_eq sid []
      then p
      else record p { store = insert_log p.store sid event_type payload now }

  -- `u.InputTokens > 0 || u.OutputTokens > 0`
  unfoldable pub has_tokens : UsageInfo C → Bool
  unfolding is_pos
  has_tokens u = is_pos u.input_tokens || is_pos u.output_tokens

  with_usage : SessionTrack C → UsageInfo C → SessionTrack C
  with_usage st u = record st { info = record st.info { usage = u } }

  observe_usage : SessionTrack C → Option (UsageUpdate C) → SessionTrack C
  unfolding with_usage
  observe_usage st none = st
  observe_usage st (some u) = with_usage st (record st.info.usage {
    context_window = u.size;
    context_used = u.used;
    cost_usd = elim u.cost [ none ↦ st.info.usage.cost_usd | some c ↦ c ];
  })

  -- The state is kept, and the row of the store is updated with it.
  unfoldable pub flush : Persister C → Bytes → SessionTrack C → Persister C
  unfolding update_session
  flush p sid st = record {
    store = (update_session p.store sid st.info).0;
    track = insert p.track sid st;
  }

  unfoldable pub begun : ℕ → SessionTrack C → SessionTrack C
  begun now st = record st {
    info = record st.info { status = codes "running"; model = st.last_model };
    prompt_start = now;
    timing = true;
  }

  typed_usage : UsageInfo C → Option TurnUsage → UsageInfo C
  unfolding or_kept
  typed_usage u none = u
  typed_usage u (some t) = record u {
    input_tokens = t.input_tokens;
    output_tokens = t.output_tokens;
    cache_read_input_tokens = or_kept u.cache_read_input_tokens t.cached_read_tokens;
    cache_creation_input_tokens = or_kept u.cache_creation_input_tokens t.cached_write_tokens;
  }

  -- The duration in milliseconds; a clock that went back gives none.
  unfoldable pub duration_ms : ℕ → SessionTrack C → ℕ
  duration_ms now st = if st.timing then (now - st.prompt_start) / 1000000 else 0

  add_duration : Persister C → Bytes → ℕ → Persister C
  unfolding add_prompt_duration
  add_duration p sid ms =
      if ltb 0 ms then record p { store = (add_prompt_duration p.store sid ms).0 } else p

module _ {C : Type 0} (f : Floats C) where
  unfoldable pub no_info : StatusInfo C
  unfolding no_usage
  no_info = record { status = []; sdk_version = []; model = []; pid = 0; usage = no_usage f }

  unfoldable pub no_track : SessionTrack C
  unfolding no_info
  no_track = record { info = no_info; last_model = []; prompt_start = 0; timing = false }

  stored_info : Result Error (SessionRow C) → StatusInfo C
  unfolding info_of no_info
  stored_info (ok row) = info_of row
  stored_info (err e) = no_info

  unfoldable pub stored : Persister C → Bytes → StatusInfo C
  unfolding stored_info get_session
  stored p sid = stored_info (get_session p.store sid)

  unfoldable pub adopt : Persister C → Bytes → Persister C
  unfolding stored reopen_session
  adopt p sid =
      let info = record (stored p sid) { status = codes "pending" } in
      record {
        store = (reopen_session p.store sid).0;
        track =
            insert p.track sid
              (record { info = info; last_model = info.model; prompt_start = 0; timing = false });
      }

  -- `env` is the marshalled environment. The in-memory store returns no error here.
  unfoldable pub insert_row : Persister C → ℕ → Bytes → SessionOpts → Bytes → Persister C
  unfolding no_track insert_session
  insert_row p now cid opts env = record {
    store =
        insert_session p.store cid opts.source opts.agent opts.cwd opts.sandbox_type opts.location
          [] opts.project_id env f.zero_cost now;
    track =
        insert p.track cid (record no_track { info = record no_info { status = codes "pending" } });
  }

  observe_chunk : SessionTrack C → Option (Fields C) → SessionTrack C
  unfolding with_usage has_tokens carry_context model_from_meta extract_usage_from_meta
  observe_chunk st none = st
  observe_chunk st (some meta) =
      let model = model_from_meta meta in
      let u = extract_usage_from_meta f meta in
      let st' = record st { last_model = if text_eq model [] then st.last_model else model } in
      if has_tokens u
      then with_usage st'
          (carry_context st.info.usage (record u { prompt_count = st.info.usage.prompt_count }))
      else st'

  observed : Persister C → Bytes → SessionUpdate C → Option (SessionTrack C) → Persister C
  unfolding observe_chunk observe_usage
  observed p sid u none = p
  observed p sid u (some st) = record p {
    track =
        insert p.track sid (observe_usage (observe_chunk st u.agent_message_chunk) u.usage_update);
  }

  unfoldable pub observe_update : Persister C → Bytes → SessionUpdate C → Persister C
  unfolding observed
  observe_update p sid u = observed p sid u (lookup p.track sid)

  -- The tracked state, or a new one.
  unfoldable pub or_no_track : Option (SessionTrack C) → SessionTrack C
  unfolding no_track
  or_no_track none = no_track
  or_no_track (some st) = st

  unfoldable pub begin_turn : Persister C → ℕ → Bytes → Persister C
  unfolding flush begun or_no_track
  begin_turn p now sid =
      if text_eq sid [] then p else flush p sid (begun now (or_no_track (lookup p.track sid)))

  -- The usage after a turn: the one of `_meta` if it has tokens, else the typed one.
  turn_usage : UsageInfo C → PromptResponse C → UsageInfo C
  unfolding has_tokens carry_context typed_usage extract_usage_from_meta
  turn_usage u resp =
      let m = extract_usage_from_meta f resp.meta in
      if has_tokens m
      then record (carry_context u m) { prompt_count = u.prompt_count }
      else typed_usage u resp.usage

  unfoldable pub ended : SessionTrack C → PromptResponse C → SessionTrack C
  unfolding turn_usage turn_model model_from_meta
  ended st resp =
      let u = record st.info.usage { prompt_count = add64 st.info.usage.prompt_count 1 } in
      let model = turn_model st.last_model (model_from_meta resp.meta) in
      record st {
        info = record st.info {
          status = codes "running";
          model = model;
          usage = turn_usage u resp;
        };
        last_model = model;
        timing = false;
      }

  unfoldable pub end_turn : Persister C → ℕ → Bytes → PromptResponse C → Persister C
  unfolding flush ended or_no_track duration_ms add_duration
  end_turn p now sid resp =
      let st = or_no_track (lookup p.track sid) in
      if text_eq sid []
      then p
      else flush (add_duration p sid (duration_ms now st)) sid (ended st resp)

  -- The totals at the end: the tracked ones, or those of the store.
  final_info : Persister C → Bytes → Option (SessionTrack C) → StatusInfo C
  unfolding stored
  final_info p sid none = stored p sid
  final_info p sid (some st) = st.info

  unfoldable pub finish : Persister C → ℕ → Bytes → Bytes → Persister C
  unfolding final_info final_status finish_session
  finish p now sid session_error =
      let info = record (final_info p sid (lookup p.track sid)) {
        status = final_status session_error;
      } in
      if text_eq sid [] then p else (record {
        store = (finish_session p.store sid info session_error now).0;
        track = remove p.track sid;
      })

  unfoldable pub receive : Persister C → ℕ → Bytes → Message C → Persister C
  unfolding insert_row log observe_update begin_turn end_turn finish adopt set_acp_session_id
  receive p now cid (conversation_created opts env) = insert_row p now cid opts env
  receive p now cid (new_session sid) = record p { store = (set_acp_session_id p.store cid sid).0 }
  receive p now cid (notification event_type raw u) =
      observe_update (log p now cid event_type raw) cid u
  receive p now cid (prompt_request payload) =
      begin_turn (log p now cid (codes "prompt") payload) now cid
  receive p now cid (prompt_response resp) =
      end_turn (log p now cid (codes "prompt_finished") (codes "{}")) now cid resp
  receive p now cid (conversation_replaced old) = finish p now old []
  receive p now cid (conversation_closed id error) = finish p now id error
  receive p now cid conversation_adopted = adopt p cid
