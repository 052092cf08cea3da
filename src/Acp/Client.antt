-- ===== src/Acp/Client.antt =====
-- acp/client.go: the messages that the client is handed, and those that it sends.
pub mod Calls
pub mod Answers
pub mod Inbound
use acpp.Prelude.{
  Bytes, codes, text_eq, Option, none, some, List, [], ◌∷◌, if◌then◌else◌, Result, ok, err,
}
use acpp.Acp.Messages.{RequestError, invalid_params, internal_error, blank, Wire}
use acpp.Acp.Connection.{Call, Connection, send, send_request, send_notification}

-- The Go types that an inbound message is decoded into.
pub data Kind : Type 0 where
  initialize_response new_session_response load_session_response prompt_response : Kind
  set_session_mode_response read_text_file_request write_text_file_request : Kind
  request_permission_request session_notification create_terminal_request : Kind
  kill_terminal_command_request terminal_output_request release_terminal_request : Kind
  wait_for_terminal_exit_request : Kind

pub data Message (M : Type 0) : Type 0 where
  typed : Kind → M → Message M
  response_error : Bytes → RequestError → Message M

-- The `switch method`.
unfoldable pub kind_of : Bytes → Option Kind
kind_of method =
    if text_eq method (codes "initialize")
    then some initialize_response
    else if text_eq method (codes "session/new")
    then some new_session_response
    else if text_eq method (codes "session/load")
    then some load_session_response
    else if text_eq method (codes "session/prompt")
    then some prompt_response
    else if text_eq method (codes "session/set_mode")
    then some set_session_mode_response
    else if text_eq method (codes "fs/read_text_file")
    then some read_text_file_request
    else if text_eq method (codes "fs/write_text_file")
    then some write_text_file_request
    else if text_eq method (codes "session/request_permission")
    then some request_permission_request
    else if text_eq method (codes "session/update")
    then some session_notification
    else if text_eq method (codes "terminal/create")
    then some create_terminal_request
    else if text_eq method (codes "terminal/kill")
    then some kill_terminal_command_request
    else if text_eq method (codes "terminal/output")
    then some terminal_output_request
    else if text_eq method (codes "terminal/release")
    then some release_terminal_request
    else if text_eq method (codes "terminal/wait_for_exit")
    then some wait_for_terminal_exit_request
    else none

unfoldable pub with_call {ℓ} : {A : Type ℓ} → Option A → List A → List A
with_call none rest = rest
with_call (some m) rest = m ∷ rest

-- `handle` with the JSON decoder of each type: the call of the client, if there is one, and the error.
module _ {M : Type 0} (unmarshal : Kind → Bytes → Result Bytes M) where
  decoded : Call → Kind → Result Bytes M → Option (Option Bytes × Message M) × Option RequestError
  decoded k t (ok m) = (some (k.id, typed t m), none)
  decoded k t (err e) = (none, some (invalid_params e))

  handle_as : Call → Option Kind → Option (Option Bytes × Message M) × Option RequestError
  unfolding decoded
  handle_as k none = (none, none)
  handle_as k (some t) = decoded k t (unmarshal t k.params)

  handle_checked :
      Call → Option RequestError → Option (Option Bytes × Message M) × Option RequestError
  unfolding handle_as
  handle_checked k (some e) = (some (k.id, response_error k.method e), none)
  handle_checked k none = handle_as k (kind_of k.method)

  unfoldable pub handle : Call → Option (Option Bytes × Message M) × Option RequestError
  unfolding handle_checked
  handle k = handle_checked k k.resp_err

  -- What the client is called with, over the calls of its connection.
  unfoldable pub client_calls : List Call → List (Option Bytes × Message M)
  unfolding handle with_call
  client_calls [] = []
  client_calls (k ∷ ks) = with_call (handle k).0 (client_calls ks)

-- The requests that `Send` takes.
pub data Request (P : Type 0) : Type 0 where
  initialize new_session load_session prompt set_session_mode cancel_session other : P → Request P

module _ {P W : Type 0} (E : Wire P W) where
  unfoldable pub send_typed :
      Option Bytes → Connection W → Request P → Connection W × Option RequestError
  send_typed ctx c (initialize v) = send_request E ctx c (codes "initialize") (some v)
  send_typed ctx c (new_session v) = send_request E ctx c (codes "session/new") (some v)
  send_typed ctx c (load_session v) = send_request E ctx c (codes "session/load") (some v)
  send_typed ctx c (prompt v) = send_request E ctx c (codes "session/prompt") (some v)
  send_typed ctx c (set_session_mode v) = send_request E ctx c (codes "session/set_mode") (some v)
  send_typed ctx c (cancel_session v) = send_notification E ctx c (codes "session/cancel") (some v)
  send_typed ctx c (other v) =
      (c, some (internal_error (codes "acp: unsupported outbound request type")))

  response_written : Connection W → W × Option Bytes → Connection W × Option RequestError
  response_written c (w, none) = (record c { w = w }, none)
  response_written c (w, some e) = (record c { w = w }, some (internal_error e))

  -- A result that cannot be encoded is no error here.
  respond_encoded :
      Connection W → Option Bytes → Result Bytes Bytes → Connection W × Option RequestError
  unfolding response_written
  respond_encoded c id (err e) = (c, none)
  respond_encoded c id (ok b) =
      response_written c (send E c.w (record blank { id = id; result = b }))

  unfoldable pub send_response :
      Connection W → Option Bytes → Option P → Connection W × Option RequestError
  unfolding respond_encoded
  send_response c id none = respond_encoded c id (ok [])
  send_response c id (some v) = respond_encoded c id (E.marshal v)
