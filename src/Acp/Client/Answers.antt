-- ===== src/Acp/Client/Answers.antt =====
-- A request of the client gets its answer.
use acpp.Prelude.{
  All, Bytes, codes, text_eq, ℕ, suc, ◌+◌, ◌<◌, arith, length, ◌≡◌, refl, ap, ◌∙◌, sym, false,
  Option, none, some, List, [], ◌∷◌, ◌++◌, u64_mod, Result, ok, err,
}
use mathlib.Core.Path.{subst}
use acpp.Acp.Messages.{RequestError, AnyMessage, Wire}
use acpp.Acp.Connection.{
  Call, Connection, response_call, receive_line, send_request, Event, request, step, run,
}
use acpp.Acp.Connection.Handler.{step-handler, run-handler}
use acpp.Acp.Connection.Responses.{IsResponse, receive_line-calls}
use acpp.Acp.Connection.Waits.{IsOther, WaitsFor, run-WaitsFor, send_request-WaitsFor}
use acpp.Acp.Client.{
  Kind, initialize_response, new_session_response, load_session_response, prompt_response,
  set_session_mode_response, Message, typed, response_error, kind_of, client_calls, Request,
  initialize, new_session, load_session, prompt, set_session_mode, cancel_session, other,
  send_typed,
}
use acpp.Acp.Client.Calls.{
  handler, client_calls-append, Handles, peer_failed, is_typed, undecoded, unknown, handle-Handles,
}

-- The method of a request, and the type that its response is decoded into.
abbrev pub awaits : {P : Type 0} → Request P → Option (Bytes × Kind)
awaits (initialize v) = some (codes "initialize", initialize_response)
awaits (new_session v) = some (codes "session/new", new_session_response)
awaits (load_session v) = some (codes "session/load", load_session_response)
awaits (prompt v) = some (codes "session/prompt", prompt_response)
awaits (set_session_mode v) = some (codes "session/set_mode", set_session_mode_response)
awaits (cancel_session v) = none
awaits (other v) = none

module _ {M : Type 0} (unmarshal : Kind → Bytes → Result Bytes M) where
  -- What the client is handed for a response: the peer's error, the decoded result, or nothing if the
  -- result does not decode.
  pub data Answers (method : Bytes) (t : Kind) (msg : AnyMessage)
      (xs : List (Option Bytes × Message M)) : Type 0 where
    failed :
        (e : RequestError)
        → msg.error ≡ some e
        → xs ≡ (none, response_error method e) ∷ []
        → Answers method t msg xs
    given :
        (m : M)
        → msg.error ≡ none
        → unmarshal t msg.result ≡ ok m
        → xs ≡ (none, typed t m) ∷ []
        → Answers method t msg xs
    lost :
        (e : Bytes)
        → msg.error ≡ none
        → unmarshal t msg.result ≡ err e
        → xs ≡ []
        → Answers method t msg xs

  -- The handler's call for a response that is an error, and for one that is a result.
  abbrev failure_call : Bytes → RequestError → Call
  failure_call method e = record { id = none; method = method; params = []; resp_err = some e }

  abbrev result_call : Bytes → Bytes → Call
  result_call method raw = record { id = none; method = method; params = raw; resp_err = none }

  failure-Answers :
      (method : Bytes) (t : Kind) (msg : AnyMessage) (e : RequestError)
      → msg.error ≡ some e
      → Handles unmarshal (failure_call method e)
      → Answers method t msg (client_calls unmarshal (failure_call method e ∷ []))
  failure-Answers method t msg e p (peer_failed e' r x n) =
      let same : e' ≡ e = cc in failed e p (x ∙ ap (λ z. (none, response_error method z) ∷ []) same)
  failure-Answers method t msg e p (is_typed t' m r x y z n) = absurd (cc)
  failure-Answers method t msg e p (undecoded t' m r x y z n) = absurd (cc)
  failure-Answers method t msg e p (unknown r x y n) = absurd (cc)

  result-Answers :
      (method : Bytes) (t : Kind) (msg : AnyMessage)
      → kind_of method ≡ some t
      → msg.error ≡ none
      → Handles unmarshal (result_call method msg.result)
      → Answers method t msg (client_calls unmarshal (result_call method msg.result ∷ []))
  result-Answers method t msg q p (peer_failed e r x n) = absurd (cc)
  result-Answers method t msg q p (is_typed t' m r x y z n) =
      let same : t' ≡ t = cc in
      given m p (ap (λ k. unmarshal k msg.result) (sym same) ∙ y)
        (z ∙ ap (λ k. (none, typed k m) ∷ []) same)
  result-Answers method t msg q p (undecoded t' e r x y z n) =
      let same : t' ≡ t = cc in lost e p (ap (λ k. unmarshal k msg.result) (sym same) ∙ y) z
  result-Answers method t msg q p (unknown r x y n) = absurd (cc)

  response-Answers :
      (method : Bytes) (t : Kind) (msg : AnyMessage)
      → kind_of method ≡ some t
      → Answers method t msg (client_calls unmarshal (response_call method msg msg.error ∷ []))
  response-Answers method t msg q = by msg.error refl
    where
      by :
          (o : Option RequestError)
          → msg.error ≡ o
          → Answers method t msg (client_calls unmarshal (response_call method msg o ∷ []))
      by (some e) p =
          unfold response_call in
          failure-Answers method t msg e p (handle-Handles unmarshal (failure_call method e))
      by none p =
          unfold response_call in
          result-Answers method t msg q p (handle-Handles unmarshal (result_call method msg.result))

module _ {P W : Type 0} (E : Wire P W) where
  abbrev Sends : Option Bytes → Connection W → Request P → Option (Bytes × Kind) → Type 0
  Sends ctx c req none = Unit
  Sends ctx c req (some (method, t)) =
      (params : Option P) × ((send_typed E ctx c req ≡ send_request E ctx c method params)
        × ((kind_of method ≡ some t) × (text_eq method [] ≡ false)))

  sends : (ctx : Option Bytes) (c : Connection W) (req : Request P) → Sends ctx c req (awaits req)
  unfolding send_typed kind_of text_eq
  sends ctx c (initialize v) = (some v, (refl, (refl, refl)))
  sends ctx c (new_session v) = (some v, (refl, (refl, refl)))
  sends ctx c (load_session v) = (some v, (refl, (refl, refl)))
  sends ctx c (prompt v) = (some v, (refl, (refl, refl)))
  sends ctx c (set_session_mode v) = (some v, (refl, (refl, refl)))
  sends ctx c (cancel_session v) = tt
  sends ctx c (other v) = tt

  module _ {M : Type 0} (unmarshal : Kind → Bytes → Result Bytes M) where
    answers_waiting :
        (c : Connection W) (id l method : Bytes) (t : Kind) (msg : AnyMessage)
        → IsResponse E c id l msg
        → c.handler ≡ some (handler unmarshal)
        → WaitsFor E c id method
        → kind_of method ≡ some t
        → text_eq method [] ≡ false
        → (xs : List (Option Bytes × Message M)) × ((client_calls unmarshal
                (receive_line E c l).calls
              ≡ client_calls unmarshal c.calls ++ xs)
            × Answers unmarshal method t msg xs)
    answers_waiting c id l method t msg r h k q n = (
      client_calls unmarshal (response_call method msg msg.error ∷ []),
      (
        ap (client_calls unmarshal)
              (receive_line-calls E c id l method msg (handler unmarshal) r h k n)
            ∙ client_calls-append unmarshal c.calls (response_call method msg msg.error ∷ []),
        response-Answers unmarshal method t msg q,
      ),
    )

    -- If the numbers have texts of their own and a request of the client is sent, then over every history
    -- without a response with its id, while the ids do not wrap around, the first response with its id, if
    -- the connection still reads, hands the client one message: the peer's error under the request's
    -- method, or the result as the request's response type; and no message if the result does not decode.
    pub answered :
        (digits_injective : (m n : ℕ) → E.digits m ≡ E.digits n → m ≡ n) (ctx : Option Bytes)
        (c : Connection W) (req : Request P) (method : Bytes) (t : Kind) (evs : List (Event P))
        (l : Bytes) (msg : AnyMessage)
        → awaits req ≡ some (method, t)
        → c.handler ≡ some (handler unmarshal)
        → suc c.next_id + length evs < u64_mod
        → (send_typed E ctx c req).1 ≡ none
        → All (IsOther E (E.digits (suc c.next_id))) evs
        → IsResponse E (run E (send_typed E ctx c req).0 evs) (E.digits (suc c.next_id)) l msg
        → (xs : List (Option Bytes × Message M)) × ((client_calls unmarshal
                (receive_line E (run E (send_typed E ctx c req).0 evs) l).calls
              ≡ client_calls unmarshal (run E (send_typed E ctx c req).0 evs).calls ++ xs)
            × Answers unmarshal method t msg xs)
    unfolding step
    answered digits_injective ctx c req method t evs l msg a h b ok_ os r =
        let (params, (e, (q, n))) = subst (Sends ctx c req) a (sends ctx c req) in
        let c1 : Connection W = (send_typed E ctx c req).0 in
        let (w, next) = send_request-WaitsFor E ctx c method params (sym (ap (λ x. x.1) e) ∙ ok_) in
        let next_id : c1.next_id ≡ suc c.next_id =
          ap (λ x. x.0.next_id) e ∙ next ∙ omega (arith, b) in
        let waits : WaitsFor E c1 (E.digits c1.next_id) method =
          subst (λ x. WaitsFor E x (E.digits x.next_id) method) (sym (ap (λ x. x.0) e)) w in
        answers_waiting (run E c1 evs) (E.digits (suc c.next_id)) l method t msg r
          (run-handler E c1 evs
            ∙ ap (λ x. x.0.handler) e
            ∙ step-handler E c (request ctx method params)
            ∙ h)
          (run-WaitsFor E digits_injective (suc c.next_id) c1 evs method (omega (arith, next_id, b))
            (omega (arith, next_id)) os
            (subst (λ i. WaitsFor E c1 (E.digits i) method) next_id waits))
          q n
