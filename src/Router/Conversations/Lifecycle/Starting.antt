-- ===== src/Router/Conversations/Lifecycle/Starting.antt =====
-- router.go and adopt.go: Create from the started process on, Adopt, and Restart up to its wait.
use acpp.Prelude.{
  Bytes, text_eq, ℕ, ◌+◌, ◌||◌, Bool, true, false, Option, none, some, List, [], if◌then◌else◌,
  length, set, Result, ok, err,
}
use acpp.Types.{ConversationMeta}
use acpp.Db.Map.{insert, remove}
use acpp.Router.Conversations.{
  initialize, new_session, cancel, Event, conversation_created, conversation_adopted,
  process_closed, SessionState, Router, Error, unknown_conversation, never_finished_handshake,
  already_live, send_failed, happen, set_state, state_of, active,
}
use acpp.Router.Conversations.Messages.{send_to}
use acpp.Router.Conversations.Lifecycle.{
  started_meta, new_state, register, unregister, notify, clean_up, Start, Descriptor,
}

module _ {K : Type 0} (can_send : List Event → ℕ → Bool) where
  unfoldable pub created :
      Router K
      → Bytes
      → ℕ
      → SessionState K
      → ConversationMeta
      → Router K × Bool
      → Router K × Result Error ConversationMeta
  unfolding unregister happen clean_up
  created r id p st meta (r', true) = (r', ok meta)
  created r id p st meta (r', false) =
      (clean_up (happen (unregister r' id) (process_closed p)) p st false, err send_failed)

  -- `Create`, from the started process on; `id` is the minted id.
  unfoldable pub create : Router K → Bytes → Start K → Router K × Result Error ConversationMeta
  unfolding register happen notify send_to created new_state
  create r id s =
      let meta = started_meta s id in
      let st = new_state s meta (some r.channels) in
      let r' = register (record r { channels = r.channels + 1 }) st in
      created r id (length r.states) st meta (
        send_to can_send (notify (happen r' (conversation_created meta)) meta s.notices)
          (length r.states) initialize)

  unfoldable pub adopted_state : Start K → ConversationMeta → SessionState K
  unfolding new_state
  adopted_state s meta = new_state s meta none

  -- `Adopt`, with the hooks resumed.
  unfoldable pub adopt : Router K → Descriptor → Start K → Router K × Result Error ConversationMeta
  unfolding active register happen send_to adopted_state
  adopt r d s =
      let meta : ConversationMeta = record {
        project_id = d.project_id;
        process_pid = s.pid;
        conversation_id = d.conversation_id;
        session_id = d.session_id;
      } in
      if text_eq d.conversation_id [] || text_eq d.session_id []
      then (r, err never_finished_handshake)
      else (if active r d.conversation_id then (r, err already_live) else (
        (send_to can_send (happen (register r (adopted_state s meta)) (conversation_adopted meta))
            (length r.states) (cancel d.session_id)).0,
        ok meta,
      ))

  unfoldable pub rekeyed : Router K → Bytes → ℕ → SessionState K → Router K
  unfolding set_state
  rekeyed r fresh p st = record r {
    states = set r.states p (record st {
      meta = record st.meta { conversation_id = fresh; session_id = [] };
      ready = some r.channels;
      available_commands = [];
    });
    sessions = insert (remove r.sessions st.meta.conversation_id) fresh p;
    channels = r.channels + 1;
  }

  unfoldable pub restart_sent :
      ConversationMeta → Router K × Bool → Router K × Result Error ConversationMeta
  restart_sent old (r, true) = (r, ok old)
  restart_sent old (r, false) = (r, err send_failed)

  unfoldable pub restart_at :
      Router K
      → Bytes
      → Bytes
      → Option (ℕ × SessionState K)
      → Router K × Result Error ConversationMeta
  unfolding rekeyed happen send_to restart_sent
  restart_at r id fresh none = (r, err (unknown_conversation id))
  restart_at r id fresh (some (p, st)) = restart_sent st.meta (
      send_to can_send
        (happen (rekeyed r fresh p st)
          (conversation_created (record st.meta { conversation_id = fresh; session_id = [] })))
        p (new_session st.opts.cwd))

  -- `Restart` up to its wait: the result is the old meta. `fresh` is the minted id.
  unfoldable pub restart : Router K → Bytes → Bytes → Router K × Result Error ConversationMeta
  unfolding restart_at state_of
  restart r id fresh = restart_at r id fresh (state_of r id)
