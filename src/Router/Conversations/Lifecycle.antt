-- ===== src/Router/Conversations/Lifecycle.antt =====
-- router.go and adopt.go: how a conversation starts, goes on in a fresh session, and ends. An id that the
-- source mints, the hooks as the setup left them and the started process are arguments.
pub mod Starting
pub mod Ending
use acpp.Prelude.{
  Bytes, codes, text_eq, ℕ, ◌+◌, ◌||◌, Bool, true, false, Option, none, some, List, [], ◌∷◌, ◌++◌,
  if◌then◌else◌, length, get_elem?, set, Result, ok, err,
}
use acpp.Types.{ConversationMeta, SessionOpts}
use acpp.Db.Map.{Map, insert, remove}
use acpp.Router.Conversations.{
  context_done, shutting_down, harness_chunk, initialize, new_session, cancel, Event,
  conversation_created, conversation_adopted, conversation_replaced, conversation_closed, received,
  process_closed, detached, cleaned_up, Hooks, SessionState, Router, Error, unknown_conversation,
  never_finished_handshake, already_live, handshake_failed, close_refused, send_failed, happen,
  set_state, state_of, active,
}
use acpp.Router.Conversations.Messages.{send_to}

-- What `Create` knows of the started agent.
pub record Start (K : Type 0) : Type 0 where
  pub opts : SessionOpts
  pub pid : ℕ
  pub remote : Bool
  pub location : Bytes
  pub base_dir : Bytes
  pub hooks : List K
  pub notices : List Bytes

-- What `Adopt` reads from a descriptor.
pub record Descriptor : Type 0 where
  pub conversation_id : Bytes
  pub session_id : Bytes
  pub project_id : Bytes

-- What a conversation gets when the router closes it.
abbrev pub exited : Bytes
exited = codes "agent subprocess exited before completing the turn"

-- `WaitReady` after the wait.
-- How the `select` of `WaitReady` ends: the channel is closed (or there is none), the caller's context is
-- done, or the router's is.
pub data Wake : Type 0 where
  woken cancelled shut_down : Wake

unfoldable pub waited : Option Bytes → ConversationMeta → Result Error ConversationMeta
waited none meta = ok meta
waited (some e) meta = err (handshake_failed e)

module _ {K : Type 0} where
  abbrev pub started_meta : Start K → Bytes → ConversationMeta
  started_meta s id = record {
    project_id = s.opts.project_id;
    process_pid = s.pid;
    conversation_id = id;
    session_id = [];
  }

  unfoldable pub new_state : Start K → ConversationMeta → Option ℕ → SessionState K
  new_state s meta ready = record {
    meta = meta;
    opts = s.opts;
    acp_init = none;
    has_process = true;
    remote = s.remote;
    location = s.location;
    base_dir = s.base_dir;
    ready = ready;
    handshake_err = none;
    available_commands = [];
    hooks = s.hooks;
    cleaned = false;
  }

  -- A new state, in the map under its conversation.
  unfoldable pub register : Router K → SessionState K → Router K
  register r st = record r {
    states = r.states ++ st ∷ [];
    sessions = insert r.sessions st.meta.conversation_id (length r.states);
  }

  unfoldable pub unregister : Router K → Bytes → Router K
  unregister r id = record r { sessions = remove r.sessions id }

  unfoldable pub notify : Router K → ConversationMeta → List Bytes → Router K
  unfolding happen
  notify r meta [] = r
  notify r meta (text ∷ texts) =
      notify (happen r (received meta (harness_chunk (codes "notice") text))) meta texts

  -- `runCleanups`, which a `sync.Once` guards.
  unfoldable pub clean_up : Router K → ℕ → SessionState K → Bool → Router K
  unfolding happen set_state
  clean_up r p st force =
      if st.cleaned
      then r
      else happen (set_state r p (record st { cleaned = true })) (cleaned_up p force)

  unfoldable pub close_process : Router K → ℕ → SessionState K → Router K
  unfolding happen
  close_process r p st = if st.has_process then happen r (process_closed p) else r

  unfoldable pub close_at : Router K → Bytes → Bytes → Bool → Option (ℕ × SessionState K) → Router K
  unfolding unregister happen close_process clean_up
  close_at r id error force none = r
  close_at r id error force (some (p, st)) =
      clean_up (close_process (happen (unregister r id) (conversation_closed st.meta error)) p st) p
        st force

  unfoldable pub close_conversation : Router K → Bytes → Bytes → Bool → Router K
  unfolding close_at state_of
  close_conversation r id error force = close_at r id error force (state_of r id)

  -- `CreateError`: a conversation that never starts.
  unfoldable pub create_error : Router K → Bytes → SessionOpts → Bytes → Router K
  unfolding register happen close_conversation
  create_error r id opts error =
      let meta : ConversationMeta = record {
        project_id = opts.project_id;
        process_pid = 0;
        conversation_id = id;
        session_id = [];
      } in
      let st : SessionState K = record {
        meta = meta;
        opts = opts;
        acp_init = none;
        has_process = false;
        remote = false;
        location = codes "localhost";
        base_dir = [];
        ready = none;
        handshake_err = none;
        available_commands = [];
        hooks = [];
        cleaned = false;
      } in
      close_conversation
        (happen (happen (register r st) (conversation_created meta))
          (received meta (harness_chunk (codes "error") error)))
        id error false

  -- The subprocess is gone.
  unfoldable pub watch_at : Router K → Option (SessionState K) → Router K
  unfolding active close_conversation
  watch_at r none = r
  watch_at r (some st) =
      if active r st.meta.conversation_id
      then close_conversation r st.meta.conversation_id exited false
      else r

  unfoldable pub watch_process : Router K → ℕ → Router K
  unfolding watch_at
  watch_process r p = watch_at r (get_elem? r.states p)

  -- A process that expired while no server was connected.
  unfoldable pub finalize : Router K → Descriptor → Bytes → Router K
  unfolding active happen
  finalize r d error =
      if text_eq d.conversation_id []
      then r
      else (if active r d.conversation_id
          then r
          else happen r (
              conversation_closed
                (record {
                  project_id = d.project_id;
                  process_pid = 0;
                  conversation_id = d.conversation_id;
                  session_id = d.session_id;
                })
                error))

  -- The second half of a restart: `WaitReady` of the fresh id and what follows. The wait looks the id up
  -- first; then it is over in one of three ways, and the state that it found is read.
  unfoldable pub restart_waited :
      Router K
      → ConversationMeta
      → Bytes
      → Option (SessionState K)
      → Wake
      → Router K × Result Error ConversationMeta
  unfolding waited happen
  restart_waited r old fresh none wake = (r, err (unknown_conversation fresh))
  restart_waited r old fresh (some st) cancelled = (r, err context_done)
  restart_waited r old fresh (some st) shut_down = (r, err shutting_down)
  restart_waited r old fresh (some st) woken = elim (waited st.handshake_err st.meta) [
    | ok meta ↦ (happen r (conversation_replaced old meta), ok meta)
    | err e ↦ (r, err e)
  ]
