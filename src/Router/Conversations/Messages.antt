-- ===== src/Router/Conversations/Messages.antt =====
-- router.go: `dispatch`, `triggerPrompt`, `deliver`, `onMessage` and `Send`. Whether a send to an agent
-- works is up to `can_send`, which knows all that has happened. A hook does not see a trigger's error.
pub mod Order
pub mod Quiet
use acpp.Prelude.{
  Bytes, text_eq, ℕ, Bool, true, false, Option, none, some, List, [], ◌∷◌, ◌++◌, if◌then◌else◌,
  get_elem?, Result, ok, err,
}
use acpp.Types.{ConversationMeta}
use acpp.Router.Conversations.{
  Message, initialize_response, new_session_response, load_session_response, response_error,
  available_commands_update, prompt_request, harness_chunk, other, Request, new_session,
  load_session, plain, Event, received, sent, Hooks, SessionState, Router, Error,
  unknown_conversation, send_failed, happen, set_state, state_of, close_channel,
}

module _ {K : Type 0} where
  unfoldable pub set_hooks_of : Router K → ℕ → List K → Option (SessionState K) → Router K
  unfolding set_state
  set_hooks_of r p ks none = r
  set_hooks_of r p ks (some st) = set_state r p (record st { hooks = ks })

  unfoldable pub set_hooks : Router K → ℕ → List K → Router K
  unfolding set_hooks_of
  set_hooks r p ks = set_hooks_of r p ks (get_elem? r.states p)

  unfoldable pub tell : Router K → ConversationMeta → Option Message → Router K
  unfolding happen
  tell r meta none = r
  tell r meta (some msg) = happen r (received meta msg)

module _ {K : Type 0} (can_send : List Event → ℕ → Bool) where
  -- `connection.Send`
  unfoldable pub send_to : Router K → ℕ → Request → Router K × Bool
  unfolding happen
  send_to r p req = if can_send r.trace p then (happen r (sent p req), true) else (r, false)

  -- The subscribers see the message before the agent gets it.
  unfoldable pub submit : Router K → ℕ → ConversationMeta → Message → Router K × Bool
  unfolding happen send_to
  submit r p meta msg = send_to (happen r (received meta msg)) p (plain msg)

  unfoldable pub trigger_in : Router K → ℕ → Bytes → Option (SessionState K) → Router K
  unfolding submit
  trigger_in r p prompt none = r
  trigger_in r p prompt (some st) =
      (submit r p st.meta (prompt_request st.meta.session_id prompt)).0

  unfoldable pub trigger_prompt : Router K → ℕ → Bytes → Router K
  unfolding trigger_in
  trigger_prompt r p prompt = trigger_in r p prompt (get_elem? r.states p)

  unfoldable pub trigger_all : Router K → ℕ → List Bytes → Router K
  unfolding trigger_prompt
  trigger_all r p [] = r
  trigger_all r p (prompt ∷ prompts) = trigger_all (trigger_prompt r p prompt) p prompts

module _ {K : Type 0} (hk : Hooks K) where
  -- Each hook gets what the one before it returned; what they trigger waits. A dropped message ends
  -- the loop.
  unfoldable pub run_incoming :
      ConversationMeta → List K → Message → List Bytes × Option Message × List K
  run_incoming meta [] msg = ([], some msg, [])
  run_incoming meta (k ∷ ks) msg =
      let (prompts, out, k') = hk.incoming k meta msg in
      elim out [
        | none ↦ (prompts, none, k' ∷ ks)
        | some msg' ↦
            let (more, out', ks') = run_incoming meta ks msg' in (prompts ++ more, out', k' ∷ ks')
      ]

module _ {K : Type 0} (can_send : List Event → ℕ → Bool) (hk : Hooks K) where
  -- A trigger of an outgoing hook is submitted at once.
  unfoldable pub run_outgoing :
      Router K → ℕ → ConversationMeta → List K → Message → Router K × Option Message × List K
  unfolding trigger_all
  run_outgoing r p meta [] msg = (r, some msg, [])
  run_outgoing r p meta (k ∷ ks) msg =
      let (prompts, out, k') = hk.outgoing k meta msg in
      let r' = trigger_all can_send r p prompts in
      elim out [
        | none ↦ (r', none, k' ∷ ks)
        | some msg' ↦ let (r'', out', ks') = run_outgoing r' p meta ks msg' in (r'', out', k' ∷ ks')
      ]

  unfoldable pub submit_or_drop : Router K → ℕ → ConversationMeta → Option Message → Router K × Bool
  unfolding submit
  submit_or_drop r p meta none = (r, true)
  submit_or_drop r p meta (some msg) = submit can_send r p meta msg

  -- `dispatch` with the outgoing hooks; without them it is `submit`.
  unfoldable pub dispatch : Router K → ℕ → SessionState K → Message → Router K × Bool
  unfolding run_outgoing set_hooks submit_or_drop
  dispatch r p st msg =
      let (r', out, ks) = run_outgoing r p st.meta st.hooks msg in
      submit_or_drop (set_hooks r' p ks) p st.meta out

  unfoldable pub answer : Bool → Result Error (Unit {0})
  answer true = ok tt
  answer false = err send_failed

  unfoldable pub send_at :
      Router K → Bytes → Message → Option (ℕ × SessionState K) → Router K × Result Error (Unit {0})
  unfolding dispatch answer
  send_at r id msg none = (r, err (unknown_conversation id))
  send_at r id msg (some (p, st)) = let (r', done) = dispatch r p st msg in (r', answer done)

  unfoldable pub send : Router K → Bytes → Message → Router K × Result Error (Unit {0})
  unfolding send_at state_of
  send r id msg = send_at r id msg (state_of r id)

  unfoldable pub deliver : Router K → ℕ → ConversationMeta → List K → Message → Router K
  unfolding run_incoming set_hooks tell trigger_all
  deliver r p meta hooks msg =
      let (prompts, out, ks) = run_incoming hk meta hooks msg in
      trigger_all can_send (tell (set_hooks r p ks) meta out) p prompts

  -- The session is there: its meta has the id, the message is delivered, then the waiters go on.
  unfoldable pub session_ready : Router K → ℕ → SessionState K → Bytes → Message → Router K
  unfolding set_state deliver close_channel
  session_ready r p st session msg =
      let st' = record st { meta = record st.meta { session_id = session }; ready = none } in
      close_channel (deliver (set_state r p st') p st'.meta st.hooks msg) st.ready

  unfoldable pub failed_handshake : SessionState K → Bytes → SessionState K
  failed_handshake st e = record st {
    handshake_err = elim st.ready [ none ↦ st.handshake_err | some c ↦ some e ];
    ready = none;
  }

  unfoldable pub session_request : SessionState K → Request
  session_request st =
      if text_eq st.opts.resume_session_id []
      then new_session st.opts.cwd
      else load_session st.opts.resume_session_id st.opts.cwd

  unfoldable pub on_message_at : Router K → ℕ → Message → Option (SessionState K) → Router K
  unfolding send_to set_state deliver session_ready failed_handshake session_request close_channel
  on_message_at r p msg none = r
  on_message_at r p (initialize_response m) (some st) =
      (send_to can_send (set_state r p (record st { acp_init = some m })) p (session_request st)).0
  on_message_at r p (new_session_response session) (some st) =
      session_ready r p st session (new_session_response session)
  on_message_at r p load_session_response (some st) =
      session_ready r p st st.opts.resume_session_id load_session_response
  on_message_at r p (response_error e) (some st) =
      deliver (close_channel (set_state r p (failed_handshake st e)) st.ready) p st.meta st.hooks
        (response_error e)
  on_message_at r p (available_commands_update commands) (some st) =
      deliver (set_state r p (record st { available_commands = commands })) p st.meta st.hooks
        (available_commands_update commands)
  on_message_at r p (prompt_request session text) (some st) =
      deliver r p st.meta st.hooks (prompt_request session text)
  on_message_at r p (harness_chunk kind text) (some st) =
      deliver r p st.meta st.hooks (harness_chunk kind text)
  on_message_at r p (other text) (some st) = deliver r p st.meta st.hooks (other text)

  unfoldable pub on_message : Router K → ℕ → Message → Router K
  unfolding on_message_at
  on_message r p msg = on_message_at r p msg (get_elem? r.states p)
