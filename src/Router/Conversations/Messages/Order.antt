-- ===== src/Router/Conversations/Messages/Order.antt =====
-- What the subscribers see of a message from the agent, and in which order.
use acpp.Prelude.{
  Bytes, ℕ, ◌≡◌, refl, sym, ap, ◌∙◌, Bool, Bool-cases, Option-cases, inl, inr, Option, none, some,
  List, [], ◌∷◌, ◌++◌, append_assoc, append-nil, get_elem?,
}
use acpp.Types.{ConversationMeta}
use acpp.Router.Conversations.{
  Message, prompt_request, Request, plain, Event, conversation_created, conversation_adopted,
  conversation_replaced, conversation_closed, received, sent, process_closed, detached, cleaned_up,
  Hooks, SessionState, Router, happen, set_state,
}
use acpp.Router.Conversations.Messages.{
  set_hooks, set_hooks_of, tell, send_to, submit, trigger_in, trigger_prompt, trigger_all, deliver,
  run_incoming,
}
use acpp.Router.Conversations.Counts.{get_elem?-set_self}

-- The messages that the subscribers were told, each with its conversation.
unfoldable pub told : List Event → List (ConversationMeta × Message)
told [] = []
told (received meta msg ∷ es) = (meta, msg) ∷ told es
told (conversation_created meta ∷ es) = told es
told (conversation_adopted meta ∷ es) = told es
told (conversation_replaced old new ∷ es) = told es
told (conversation_closed meta e ∷ es) = told es
told (sent p req ∷ es) = told es
told (process_closed p ∷ es) = told es
told (detached p ∷ es) = told es
told (cleaned_up p force ∷ es) = told es

pub shown : ConversationMeta → Option Message → List (ConversationMeta × Message)
shown meta none = []
shown meta (some msg) = (meta, msg) ∷ []

-- Each prompt, in the session of the conversation.
pub follow_ups : ConversationMeta → List Bytes → List (ConversationMeta × Message)
follow_ups meta [] = []
follow_ups meta (prompt ∷ prompts) =
    (meta, prompt_request meta.session_id prompt) ∷ follow_ups meta prompts

told-append : (es fs : List Event) → told (es ++ fs) ≡ told es ++ told fs
unfolding told
told-append [] fs = refl
told-append (received meta msg ∷ es) fs = ap (λ x. (meta, msg) ∷ x) (told-append es fs)
told-append (conversation_created meta ∷ es) fs = told-append es fs
told-append (conversation_adopted meta ∷ es) fs = told-append es fs
told-append (conversation_replaced old new ∷ es) fs = told-append es fs
told-append (conversation_closed meta e ∷ es) fs = told-append es fs
told-append (sent p req ∷ es) fs = told-append es fs
told-append (process_closed p ∷ es) fs = told-append es fs
told-append (detached p ∷ es) fs = told-append es fs
told-append (cleaned_up p force ∷ es) fs = told-append es fs

-- What becomes of a message that the hooks get in turn, each one what the one before it returned: the
-- prompts that they trigger, in order, the message that is left, and the hooks after it. No hook after
-- one that drops the message is asked.
pub data Passes {K : Type 0} (hk : Hooks K) (meta : ConversationMeta)
    : List K → Message → List Bytes → Option Message → List K → Type 0 where
  done : {msg : Message} → Passes hk meta [] msg [] (some msg) []
  dropped :
      {k k' : K} {ks : List K} {msg : Message} {prompts : List Bytes}
      → hk.incoming k meta msg ≡ (prompts, none, k')
      → Passes hk meta (k ∷ ks) msg prompts none (k' ∷ ks)
  passed :
      {k k' : K} {ks ks' : List K} {msg msg' : Message} {prompts more : List Bytes}
      {out : Option Message}
      → hk.incoming k meta msg ≡ (prompts, some msg', k')
      → Passes hk meta ks msg' more out ks'
      → Passes hk meta (k ∷ ks) msg (prompts ++ more) out (k' ∷ ks')

run_incoming-Passes :
    {K : Type 0} (hk : Hooks K) (meta : ConversationMeta) (ks : List K) (msg : Message)
    → let (prompts, out, ks') = run_incoming hk meta ks msg in Passes hk meta ks msg prompts out ks'
unfolding run_incoming
run_incoming-Passes hk meta [] msg = done
run_incoming-Passes hk meta (k ∷ ks) msg =
    let o = hk.incoming k meta msg in
    elim (Option-cases o.1) [
      | inl e ↦ rw (e, run_incoming) (dropped (ap (λ x. (o.0, x, o.2)) e))
      | inr (msg', e) ↦
          rw (e, run_incoming)
            (passed (ap (λ x. (o.0, x, o.2)) e) (run_incoming-Passes hk meta ks msg'))
    ]

module _ {K : Type 0} where
  told-tell :
      (r : Router K) (meta : ConversationMeta) (o : Option Message)
      → told (tell r meta o).trace ≡ told r.trace ++ shown meta o
  unfolding tell happen shown told
  told-tell r meta none = sym (append-nil (told r.trace))
  told-tell r meta (some msg) = told-append r.trace (received meta msg ∷ [])

  states-tell :
      (r : Router K) (meta : ConversationMeta) (o : Option Message)
      → (tell r meta o).states ≡ r.states
  unfolding tell happen
  states-tell r meta none = refl
  states-tell r meta (some msg) = refl

module _ {K : Type 0} (can_send : List Event → ℕ → Bool) where
  told-send_to :
      (r : Router K) (p : ℕ) (req : Request)
      → told (send_to can_send r p req).0.trace ≡ told r.trace
  unfolding send_to happen told
  told-send_to r p req = elim (Bool-cases (can_send r.trace p)) [
    | inl e ↦ rw e (told-append r.trace (sent p req ∷ []) ∙ append-nil (told r.trace))
    | inr e ↦ rw e refl
  ]

  states-send_to :
      (r : Router K) (p : ℕ) (req : Request) → (send_to can_send r p req).0.states ≡ r.states
  unfolding send_to happen
  states-send_to r p req = elim (Bool-cases (can_send r.trace p)) [
    | inl e ↦ rw e refl
    | inr e ↦ rw e refl
  ]

  -- The prompts come in order, whether the agent gets them or not.
  told-trigger_all :
      (r : Router K) (p : ℕ) (st : SessionState K) (prompts : List Bytes)
      → get_elem? r.states p ≡ some st
      → told (trigger_all can_send r p prompts).trace ≡ told r.trace ++ follow_ups st.meta prompts
  unfolding trigger_all trigger_prompt trigger_in submit follow_ups happen told
  told-trigger_all r p st [] h = sym (append-nil (told r.trace))
  told-trigger_all r p st (prompt ∷ prompts) h =
      let msg = prompt_request st.meta.session_id prompt in
      let a = happen r (received st.meta msg) in
      let b = (send_to can_send a p (plain msg)).0 in
      let same : trigger_prompt can_send r p prompt ≡ b = ap (trigger_in can_send r p prompt) h in
      let there : get_elem? b.states p ≡ some st =
        ap (λ x. get_elem? x p) (states-send_to a p (plain msg)) ∙ h in
      ap (λ x. told (trigger_all can_send x p prompts).trace) same
      ∙ told-trigger_all b p st prompts there
      ∙ ap (λ x. x ++ follow_ups st.meta prompts)
          (told-send_to a p (plain msg) ∙ told-append r.trace (received st.meta msg ∷ []))
      ∙ append_assoc (told r.trace) ((st.meta, msg) ∷ []) (follow_ups st.meta prompts)

  -- The hooks get the message in turn, each one what the one before it returned, up to one that drops it.
  -- The subscribers are told the message as they left it, if none dropped it, and after it the prompts
  -- that they triggered, in order and untouched by any hook, whichever sends fail.
  pub told-deliver :
      (hk : Hooks K) (r : Router K) (p : ℕ) (st : SessionState K) (meta : ConversationMeta)
      (msg : Message)
      → get_elem? r.states p ≡ some st
      → (prompts : List Bytes) × (out : Option Message) × (ks : List K) × (Passes hk meta st.hooks
            msg prompts out ks
          × (told (deliver can_send hk r p meta st.hooks msg).trace
              ≡ (told r.trace ++ shown meta out) ++ follow_ups st.meta prompts))
  unfolding deliver set_hooks set_hooks_of set_state
  told-deliver hk r p st meta msg h =
      let o = run_incoming hk meta st.hooks msg in
      let st' = record st { hooks = o.2 } in
      let a = set_hooks r p o.2 in
      let b = tell a meta o.1 in
      let same : a ≡ set_state r p st' = ap (set_hooks_of r p o.2) h in
      let there : get_elem? b.states p ≡ some st' =
        ap (λ x. get_elem? x p) (states-tell a meta o.1)
        ∙ ap (λ x. get_elem? x.states p) same
        ∙ get_elem?-set_self r.states p st' st h in
      (
        o.0,
        o.1,
        o.2,
        (
          run_incoming-Passes hk meta st.hooks msg,
          told-trigger_all b p st' o.0 there
              ∙ ap (λ x. x ++ follow_ups st.meta o.0)
                  (told-tell a meta o.1 ∙ ap (λ x. told x.trace ++ shown meta o.1) same),
        ),
      )
