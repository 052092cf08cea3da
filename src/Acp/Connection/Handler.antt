-- ===== src/Acp/Connection/Handler.antt =====
-- The handler of a connection never changes.
use acpp.Prelude.{
  Bytes, text_eq, ◌≡◌, refl, ap, ◌∙◌, Bool-cases, inl, inr, Option, none, some, List, [], ◌∷◌,
  Result, ok, err, add64,
}
use acpp.Db.Map.{lookup, remove, insert}
use acpp.Acp.Messages.{RequestError, AnyMessage, Wire, blank}
use acpp.Acp.Connection.{
  Call, Connection, method_or_empty, respond, response_call, take_pending, dispatch_taken,
  dispatch_response, dispatch_id, reply_error, inbound_by, handle_inbound, received, send,
  send_done, send_registered, send_request, encoded_params, notify_encoded, send_notification,
  result_encoded, send_result, cancel, Event, request, notification, reply, line, finish, step, run,
}
use acpp.Acp.Connection.Numbers.{receive_line_cases}

module _ {W : Type 0} where
  respond-handler :
      (h : Option (Call → Option RequestError)) (c : Connection W) (k : Call)
      → (respond h c k).handler ≡ c.handler
  unfolding respond
  respond-handler none c k = refl
  respond-handler (some h) c k = refl

  dispatch_taken-handler :
      (method : Bytes) (c : Connection W) (msg : AnyMessage)
      → (dispatch_taken (method, c) msg).handler ≡ c.handler
  unfolding dispatch_taken
  dispatch_taken-handler method c msg = elim (Bool-cases (text_eq method [])) [
    | inl e ↦ rw e refl
    | inr e ↦ rw e (respond-handler c.handler c (response_call method msg msg.error))
  ]

  send_done-handler :
      (c : Connection W) (id : Bytes) (r : W × Option Bytes)
      → (send_done c id r).0.handler ≡ c.handler
  unfolding send_done take_pending
  send_done-handler c id (w, none) = refl
  send_done-handler c id (w, some e) = refl

module _ {P W : Type 0} (E : Wire P W) where
  reply_error-handler :
      (c : Connection W) (id : Option Bytes) (e : Option RequestError)
      → (reply_error E c id e).handler ≡ c.handler
  unfolding reply_error
  reply_error-handler c none e = refl
  reply_error-handler c (some id) none = refl
  reply_error-handler c (some id) (some e) = refl

  inbound_by-handler :
      (h : Option (Call → Option RequestError)) (c : Connection W) (msg : AnyMessage)
      → (inbound_by E h c msg).handler ≡ c.handler
  unfolding inbound_by
  inbound_by-handler none c msg = reply_error-handler c msg.id _
  inbound_by-handler (some h) c msg = reply_error-handler _ msg.id _

  received-handler :
      (c : Connection W) (r : Result Bytes AnyMessage) → (received E c r).handler ≡ c.handler
  unfolding received handle_inbound
  received-handler c (err e) = refl
  received-handler c (ok msg) = elim (Bool-cases (text_eq msg.method [])) [
    | inl e ↦ rw e (by msg.id)
    | inr e ↦ rw e (inbound_by-handler c.handler c msg)
  ]
    where
      by : (o : Option Bytes) → (dispatch_id o c msg).handler ≡ c.handler
      by none = unfold dispatch_id in refl
      by (some id) =
          unfold dispatch_id dispatch_response take_pending in
          dispatch_taken-handler (method_or_empty (lookup c.pending id))
            (record c { pending = remove c.pending id }) msg

  registered-handler :
      (c : Connection W) (id method : Bytes) (p : Result Bytes Bytes)
      → (send_registered E c id method p).0.handler ≡ c.handler
  unfolding send_registered
  registered-handler c id method (err e) = refl
  registered-handler c id method (ok b) =
      send_done-handler (record c { pending = insert c.pending id method }) id
        (send E c.w (record blank { id = some id; method = method; params = b }))

  notify_encoded-handler :
      (c : Connection W) (method : Bytes) (p : Result Bytes Bytes)
      → (notify_encoded E c method p).0.handler ≡ c.handler
  unfolding notify_encoded
  notify_encoded-handler c method (err e) = refl
  notify_encoded-handler c method (ok b) = refl

  result_encoded-handler :
      (c : Connection W) (id : Option Bytes) (p : Result Bytes Bytes)
      → (result_encoded E c id p).0.handler ≡ c.handler
  unfolding result_encoded
  result_encoded-handler c id (err e) = refl
  result_encoded-handler c id (ok b) = refl

  pub step-handler : (c : Connection W) (ev : Event P) → (step E c ev).handler ≡ c.handler
  unfolding step send_request send_notification send_result cancel
  step-handler c (request none method params) =
      registered-handler (record c { next_id = add64 c.next_id 1 }) (E.digits (add64 c.next_id 1))
        method (encoded_params E params)
  step-handler c (request (some e) method params) = refl
  step-handler c (notification none method params) =
      notify_encoded-handler c method (encoded_params E params)
  step-handler c (notification (some e) method params) = refl
  step-handler c (reply id v) = result_encoded-handler c id (encoded_params E v)
  step-handler c (line l) = elim (receive_line_cases E c l) [
    | inl e ↦ ap (λ x. x.handler) e
    | inr e ↦ ap (λ x. x.handler) e ∙ received-handler c (E.decode l)
  ]
  step-handler c finish = refl

  pub run-handler : (c : Connection W) (evs : List (Event P)) → (run E c evs).handler ≡ c.handler
  unfolding run
  run-handler c [] = refl
  run-handler c (ev ∷ evs) = run-handler (step E c ev) evs ∙ step-handler c ev
