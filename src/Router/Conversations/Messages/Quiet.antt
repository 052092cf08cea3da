-- ===== src/Router/Conversations/Messages/Quiet.antt =====
-- A message, whatever the hooks do with it, begins and ends no conversation.
use acpp.Prelude.{
  Bytes, ℕ, ◌≡◌, refl, Bool, Bool-cases, inl, inr, Option, none, some, Option-cases, List, [], ◌∷◌,
  get_elem?,
}
use acpp.Types.{ConversationMeta}
use acpp.Router.Conversations.{
  Message, initialize_response, new_session_response, load_session_response, response_error,
  available_commands_update, prompt_request, harness_chunk, other, Request, plain, Event, received,
  sent, Hooks, SessionState, Router, happen, set_state, state_of, close_channel,
}
use acpp.Router.Conversations.Messages.{
  set_hooks, set_hooks_of, tell, send_to, submit, trigger_in, trigger_prompt, trigger_all,
  run_outgoing, submit_or_drop, dispatch, send_at, send, deliver, run_incoming, session_ready,
  failed_handshake, session_request, on_message, on_message_at,
}
use acpp.Router.Conversations.Counts.{
  ends, starts, IsQuiet, IsQuiet-refl, IsQuiet-trans, happen-IsQuiet, set_state-IsQuiet,
  close_channel-IsQuiet,
}

module _ {K : Type 0} where
  received-IsQuiet :
      (r : Router K) (meta : ConversationMeta) (msg : Message)
      → IsQuiet r (happen r (received meta msg))
  unfolding ends starts
  received-IsQuiet r meta msg = happen-IsQuiet r (received meta msg) (λ id. (refl, refl))

  set_hooks-IsQuiet : (r : Router K) (p : ℕ) (ks : List K) → IsQuiet r (set_hooks r p ks)
  unfolding set_hooks set_hooks_of
  set_hooks-IsQuiet r p ks = elim (Option-cases (get_elem? r.states p)) [
    | inl e ↦ rw e (IsQuiet-refl r)
    | inr (st, e) ↦ rw e (set_state-IsQuiet r p st (record st { hooks = ks }) e refl)
  ]

  tell-IsQuiet :
      (r : Router K) (meta : ConversationMeta) (o : Option Message) → IsQuiet r (tell r meta o)
  unfolding tell
  tell-IsQuiet r meta none = IsQuiet-refl r
  tell-IsQuiet r meta (some msg) = received-IsQuiet r meta msg

module _ {K : Type 0} (can_send : List Event → ℕ → Bool) where
  pub send_to-IsQuiet :
      (r : Router K) (p : ℕ) (req : Request) → IsQuiet r (send_to can_send r p req).0
  unfolding send_to ends starts
  send_to-IsQuiet r p req = elim (Bool-cases (can_send r.trace p)) [
    | inl e ↦ rw e (happen-IsQuiet r (sent p req) (λ id. (refl, refl)))
    | inr e ↦ rw e (IsQuiet-refl r)
  ]

  submit-IsQuiet :
      (r : Router K) (p : ℕ) (meta : ConversationMeta) (msg : Message)
      → IsQuiet r (submit can_send r p meta msg).0
  unfolding submit
  submit-IsQuiet r p meta msg =
      let r' = happen r (received meta msg) in
      IsQuiet-trans r r' (send_to can_send r' p (plain msg)).0 (received-IsQuiet r meta msg)
        (send_to-IsQuiet r' p (plain msg))

  trigger_prompt-IsQuiet :
      (r : Router K) (p : ℕ) (prompt : Bytes) → IsQuiet r (trigger_prompt can_send r p prompt)
  unfolding trigger_prompt trigger_in
  trigger_prompt-IsQuiet r p prompt = elim (Option-cases (get_elem? r.states p)) [
    | inl e ↦ rw e (IsQuiet-refl r)
    | inr (st, e) ↦ rw e (submit-IsQuiet r p st.meta (prompt_request st.meta.session_id prompt))
  ]

  trigger_all-IsQuiet :
      (r : Router K) (p : ℕ) (prompts : List Bytes) → IsQuiet r (trigger_all can_send r p prompts)
  unfolding trigger_all
  trigger_all-IsQuiet r p [] = IsQuiet-refl r
  trigger_all-IsQuiet r p (prompt ∷ prompts) =
      let r' = trigger_prompt can_send r p prompt in
      IsQuiet-trans r r' (trigger_all can_send r' p prompts) (trigger_prompt-IsQuiet r p prompt)
        (trigger_all-IsQuiet r' p prompts)

module _ {K : Type 0} (can_send : List Event → ℕ → Bool) (hk : Hooks K) where
  run_outgoing-IsQuiet :
      (r : Router K) (p : ℕ) (meta : ConversationMeta) (ks : List K) (msg : Message)
      → IsQuiet r (run_outgoing can_send hk r p meta ks msg).0
  unfolding run_outgoing
  run_outgoing-IsQuiet r p meta [] msg = IsQuiet-refl r
  run_outgoing-IsQuiet r p meta (k ∷ ks) msg =
      let prompts = (hk.outgoing k meta msg).0 in
      let r' = trigger_all can_send r p prompts in
      let q = trigger_all-IsQuiet can_send r p prompts in
      elim (Option-cases (hk.outgoing k meta msg).1) [
        | inl e ↦ rw (e, run_outgoing) q
        | inr (m, e) ↦
            rw (e, run_outgoing)
              (IsQuiet-trans r r' (run_outgoing can_send hk r' p meta ks m).0 q
                (run_outgoing-IsQuiet r' p meta ks m))
      ]

  submit_or_drop-IsQuiet :
      (r : Router K) (p : ℕ) (meta : ConversationMeta) (o : Option Message)
      → IsQuiet r (submit_or_drop can_send hk r p meta o).0
  unfolding submit_or_drop
  submit_or_drop-IsQuiet r p meta none = IsQuiet-refl r
  submit_or_drop-IsQuiet r p meta (some msg) = submit-IsQuiet can_send r p meta msg

  dispatch-IsQuiet :
      (r : Router K) (p : ℕ) (st : SessionState K) (msg : Message)
      → IsQuiet r (dispatch can_send hk r p st msg).0
  unfolding dispatch
  dispatch-IsQuiet r p st msg =
      let o = run_outgoing can_send hk r p st.meta st.hooks msg in
      let r' = set_hooks o.0 p o.2 in
      IsQuiet-trans r o.0 (submit_or_drop can_send hk r' p st.meta o.1).0
        (run_outgoing-IsQuiet r p st.meta st.hooks msg)
        (IsQuiet-trans o.0 r' (submit_or_drop can_send hk r' p st.meta o.1).0
          (set_hooks-IsQuiet o.0 p o.2) (submit_or_drop-IsQuiet r' p st.meta o.1))

  send_at-IsQuiet :
      (r : Router K) (id : Bytes) (msg : Message) (o : Option (ℕ × SessionState K))
      → IsQuiet r (send_at can_send hk r id msg o).0
  unfolding send_at
  send_at-IsQuiet r id msg none = IsQuiet-refl r
  send_at-IsQuiet r id msg (some (p, st)) = dispatch-IsQuiet r p st msg

  pub send-IsQuiet :
      (r : Router K) (id : Bytes) (msg : Message) → IsQuiet r (send can_send hk r id msg).0
  unfolding send
  send-IsQuiet r id msg = send_at-IsQuiet r id msg (state_of r id)

  deliver-IsQuiet :
      (r : Router K) (p : ℕ) (meta : ConversationMeta) (hooks : List K) (msg : Message)
      → IsQuiet r (deliver can_send hk r p meta hooks msg)
  unfolding deliver
  deliver-IsQuiet r p meta hooks msg =
      let o = run_incoming hk meta hooks msg in
      let a = set_hooks r p o.2 in
      let b = tell a meta o.1 in
      let c = trigger_all can_send b p o.0 in
      IsQuiet-trans r a c (set_hooks-IsQuiet r p o.2)
        (IsQuiet-trans a b c (tell-IsQuiet a meta o.1) (trigger_all-IsQuiet can_send b p o.0))

  -- A change of the state, and then the delivery.
  changed-IsQuiet :
      (r : Router K) (p : ℕ) (st st' : SessionState K) (meta : ConversationMeta) (msg : Message)
      → get_elem? r.states p ≡ some st
      → st'.meta.conversation_id ≡ st.meta.conversation_id
      → IsQuiet r (deliver can_send hk (set_state r p st') p meta st.hooks msg)
  changed-IsQuiet r p st st' meta msg h e =
      IsQuiet-trans r (set_state r p st')
        (deliver can_send hk (set_state r p st') p meta st.hooks msg)
        (set_state-IsQuiet r p st st' h e) (deliver-IsQuiet (set_state r p st') p meta st.hooks msg)

  session_ready-IsQuiet :
      (r : Router K) (p : ℕ) (st : SessionState K) (session : Bytes) (msg : Message)
      → get_elem? r.states p ≡ some st
      → IsQuiet r (session_ready can_send hk r p st session msg)
  unfolding session_ready
  session_ready-IsQuiet r p st session msg h =
      let st' = record st { meta = record st.meta { session_id = session }; ready = none } in
      let r' = deliver can_send hk (set_state r p st') p st'.meta st.hooks msg in
      IsQuiet-trans r r' (close_channel r' st.ready)
        (changed-IsQuiet r p st st' st'.meta msg h refl) (close_channel-IsQuiet r' st.ready)

  on_message_at-IsQuiet :
      (r : Router K) (p : ℕ) (msg : Message) (o : Option (SessionState K))
      → get_elem? r.states p ≡ o
      → IsQuiet r (on_message_at can_send hk r p msg o)
  unfolding on_message_at failed_handshake
  on_message_at-IsQuiet r p msg none h = IsQuiet-refl r
  on_message_at-IsQuiet r p (initialize_response m) (some st) h =
      let r' = set_state r p (record st { acp_init = some m }) in
      IsQuiet-trans r r' (send_to can_send r' p (session_request can_send hk st)).0
        (set_state-IsQuiet r p st (record st { acp_init = some m }) h refl)
        (send_to-IsQuiet can_send r' p (session_request can_send hk st))
  on_message_at-IsQuiet r p (new_session_response s) (some st) h =
      session_ready-IsQuiet r p st s (new_session_response s) h
  on_message_at-IsQuiet r p load_session_response (some st) h =
      session_ready-IsQuiet r p st st.opts.resume_session_id load_session_response h
  on_message_at-IsQuiet r p (response_error e) (some st) h =
      let a = set_state r p (failed_handshake can_send hk st e) in
      let b = close_channel a st.ready in
      let c = deliver can_send hk b p st.meta st.hooks (response_error e) in
      IsQuiet-trans r a c (set_state-IsQuiet r p st (failed_handshake can_send hk st e) h refl) (
        IsQuiet-trans a b c (close_channel-IsQuiet a st.ready)
          (deliver-IsQuiet b p st.meta st.hooks (response_error e)))
  on_message_at-IsQuiet r p (available_commands_update cs) (some st) h =
      changed-IsQuiet r p st (record st { available_commands = cs }) st.meta
        (available_commands_update cs) h refl
  on_message_at-IsQuiet r p (prompt_request s t) (some st) h =
      deliver-IsQuiet r p st.meta st.hooks (prompt_request s t)
  on_message_at-IsQuiet r p (harness_chunk s t) (some st) h =
      deliver-IsQuiet r p st.meta st.hooks (harness_chunk s t)
  on_message_at-IsQuiet r p (other t) (some st) h = deliver-IsQuiet r p st.meta st.hooks (other t)

  pub on_message-IsQuiet :
      (r : Router K) (p : ℕ) (msg : Message) → IsQuiet r (on_message can_send hk r p msg)
  unfolding on_message
  on_message-IsQuiet r p msg = on_message_at-IsQuiet r p msg (get_elem? r.states p) refl
