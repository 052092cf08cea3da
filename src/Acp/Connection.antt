-- ===== src/Acp/Connection.antt =====
-- acp/connection.go: requests out, and what the peer sends in. A call of the handler is recorded; what the
-- handler itself sends stands in a history after the call.
pub mod Steps
pub mod Distinct
pub mod Numbers
pub mod Correlation
pub mod Waits
pub mod Handler
pub mod Responses
use acpp.Prelude.{
  Bytes, codes, text_eq, newline, ℕ, Bool, true, false, Option, none, some, List, [], ◌∷◌, ◌++◌,
  if◌then◌else◌, add64, Result, ok, err,
}
use acpp.Db.Map.{Map, lookup, insert, remove}
use acpp.Acp.Messages.{
  RequestError, method_not_found, invalid_params, internal_error, AnyMessage, blank, Wire,
}

-- The arguments of a `MethodHandler`.
pub record Call : Type 0 where
  pub id : Option Bytes
  pub method : Bytes
  pub params : Bytes
  pub resp_err : Option RequestError

pub record Connection (W : Type 0) : Type 0 where
  pub handler : Option (Call → Option RequestError)
  pub w : W
  pub next_id : ℕ
  pub pending : Map Bytes
  pub calls : List Call
  pub done : Bool

-- A missing key reads as the empty text.
method_or_empty : Option Bytes → Bytes
method_or_empty none = []
method_or_empty (some method) = method

unfoldable pub response_call : Bytes → AnyMessage → Option RequestError → Call
response_call method msg none = record {
  id = none;
  method = method;
  params = msg.result;
  resp_err = none;
}
response_call method msg (some e) = record {
  id = none;
  method = method;
  params = [];
  resp_err = some e;
}

unfoldable pub inbound_call : AnyMessage → Call
inbound_call msg = record { id = msg.id; method = msg.method; params = msg.params; resp_err = none }

failed_write : Option Bytes → Option RequestError
failed_write none = none
failed_write (some e) = some (internal_error e)

module _ {W : Type 0} where
  unfoldable pub new_connection : Option (Call → Option RequestError) → W → Connection W
  new_connection handler w = record {
    handler = handler;
    w = w;
    next_id = 0;
    pending = [];
    calls = [];
    done = false;
  }

  unfoldable pub take_pending : Connection W → Bytes → Bytes × Connection W
  unfolding method_or_empty
  take_pending c id =
      (method_or_empty (lookup c.pending id), record c { pending = remove c.pending id })

  abbrev called : Connection W → Call → Connection W
  called c k = record c { calls = c.calls ++ k ∷ [] }

  -- The handler's error for a response is only logged.
  unfoldable pub respond : Option (Call → Option RequestError) → Connection W → Call → Connection W
  respond none c k = c
  respond (some h) c k = called c k

  unfoldable pub dispatch_taken : Bytes × Connection W → AnyMessage → Connection W
  unfolding respond response_call
  dispatch_taken (method, c) msg =
      if text_eq method [] then c else respond c.handler c (response_call method msg msg.error)

  unfoldable pub dispatch_response : Connection W → AnyMessage → Bytes → Connection W
  unfolding take_pending dispatch_taken
  dispatch_response c msg id = dispatch_taken (take_pending c id) msg

  unfoldable pub dispatch_id : Option Bytes → Connection W → AnyMessage → Connection W
  dispatch_id none c msg = c
  dispatch_id (some id) c msg = dispatch_response c msg id

  -- The stream ends, or a line is above the scanner's 10 MiB.
  unfoldable pub cancel : Connection W → Connection W
  cancel c = record c { done = true }

  unfoldable pub send_done :
      Connection W → Bytes → W × Option Bytes → Connection W × Option RequestError
  unfolding take_pending
  send_done c id (w, none) = (record c { w = w }, none)
  send_done c id (w, some e) = (record (take_pending c id).1 { w = w }, some (internal_error e))

module _ {P W : Type 0} (E : Wire P W) where
  written : W → Result Bytes Bytes → W × Option Bytes
  written w (err e) = (w, some e)
  written w (ok b) = E.write w (b ++ newline ∷ [])

  unfoldable pub send : W → AnyMessage → W × Option Bytes
  unfolding written
  send w msg = written w (E.encode (record msg { jsonrpc = codes "2.0" }))

  -- The error reply, which only a request gets.
  unfoldable pub reply_error : Connection W → Option Bytes → Option RequestError → Connection W
  unfolding send
  reply_error c none e = c
  reply_error c (some id) none = c
  reply_error c (some id) (some e) = record c {
    w = (send c.w (record blank { id = some id; error = some e })).0;
  }

  unfoldable pub inbound_by :
      Option (Call → Option RequestError) → Connection W → AnyMessage → Connection W
  unfolding reply_error inbound_call
  inbound_by none c msg = reply_error c msg.id (some (method_not_found msg.method))
  inbound_by (some h) c msg =
      reply_error (called c (inbound_call msg)) msg.id (h (inbound_call msg))

  unfoldable pub handle_inbound : Connection W → AnyMessage → Connection W
  unfolding inbound_by
  handle_inbound c msg = inbound_by c.handler c msg

  unfoldable pub received : Connection W → Result Bytes AnyMessage → Connection W
  unfolding handle_inbound dispatch_id
  received c (err e) = c
  received c (ok msg) =
      if text_eq msg.method [] then dispatch_id msg.id c msg else handle_inbound c msg

  -- One round of the receive loop; after its end there is none.
  unfoldable pub receive_line : Connection W → Bytes → Connection W
  unfolding received
  receive_line c line =
      if c.done then c else if text_eq (E.trim_space line) [] then c else received c (E.decode line)

  encoded_params : Option P → Result Bytes Bytes
  encoded_params none = ok []
  encoded_params (some v) = E.marshal v

  unfoldable pub send_registered :
      Connection W → Bytes → Bytes → Result Bytes Bytes → Connection W × Option RequestError
  unfolding send_done send
  send_registered c id method (err e) = (c, some (invalid_params e))
  send_registered c id method (ok params) =
      send_done (record c { pending = insert c.pending id method }) id
        (send c.w (record blank { id = some id; method = method; params = params }))

  -- The first argument is the context's error.
  unfoldable pub send_request :
      Option Bytes → Connection W → Bytes → Option P → Connection W × Option RequestError
  unfolding send_registered encoded_params
  send_request (some e) c method params = (c, some (internal_error e))
  send_request none c method params =
      let id : ℕ = add64 c.next_id 1 in
      send_registered (record c { next_id = id }) (E.digits id) method (encoded_params params)

  notify_encoded : Connection W → Bytes → Result Bytes Bytes → Connection W × Option RequestError
  unfolding send failed_write
  notify_encoded c method (err e) = (c, some (invalid_params e))
  notify_encoded c method (ok params) =
      let r : W × Option Bytes = send c.w (record blank { method = method; params = params }) in
      (record c { w = r.0 }, failed_write r.1)

  unfoldable pub send_notification :
      Option Bytes → Connection W → Bytes → Option P → Connection W × Option RequestError
  unfolding notify_encoded encoded_params
  send_notification (some e) c method params = (c, some (internal_error e))
  send_notification none c method params = notify_encoded c method (encoded_params params)

  -- The second part is the writer's or the encoder's error.
  result_encoded : Connection W → Option Bytes → Result Bytes Bytes → Connection W × Option Bytes
  unfolding send
  result_encoded c id (err e) = (c, some e)
  result_encoded c id (ok b) =
      let r : W × Option Bytes = send c.w (record blank { id = id; result = b }) in
      (record c { w = r.0 }, r.1)

  unfoldable pub send_result : Connection W → Option Bytes → Option P → Connection W × Option Bytes
  unfolding result_encoded encoded_params
  send_result c id result = result_encoded c id (encoded_params result)

-- What happens at a connection: its calls by the client, a line of the peer, and the end of the stream.
pub data Event (P : Type 0) : Type 0 where
  request notification : Option Bytes → Bytes → Option P → Event P
  reply : Option Bytes → Option P → Event P
  line : Bytes → Event P
  finish : Event P

module _ {P W : Type 0} (E : Wire P W) where
  unfoldable pub step : Connection W → Event P → Connection W
  unfolding send_result
  step c (request ctx method params) = (send_request E ctx c method params).0
  step c (notification ctx method params) = (send_notification E ctx c method params).0
  step c (reply id result) = (send_result E c id result).0
  step c (line l) = receive_line E c l
  step c finish = cancel c

  unfoldable pub run : Connection W → List (Event P) → Connection W
  unfolding step
  run c [] = c
  run c (ev ∷ evs) = run (step c ev) evs
