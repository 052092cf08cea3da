-- ===== src/Acp/Messages.antt =====
-- acp/errors.go and the wire form of acp/connection.go. Text that is raw JSON is bytes, and a missing
-- `json.RawMessage` is the empty text.
use acpp.Prelude.{Bytes, codes, ℕ, [], Option, none, ℤ, negsuc, Result}

-- The `Data` of an error: the two maps that acp/ makes, or what the peer sent.
pub data Details : Type 0 where
  absent : Details
  of_method of_error of_peer : Bytes → Details

pub record RequestError : Type 0 where
  pub code : ℤ
  pub message : Bytes
  pub details : Details

unfoldable pub method_not_found : Bytes → RequestError
method_not_found method = record {
  code = negsuc 32600;
  message = codes "Method not found";
  details = of_method method;
}

unfoldable pub invalid_params : Bytes → RequestError
invalid_params text = record {
  code = negsuc 32601;
  message = codes "Invalid params";
  details = of_error text;
}

unfoldable pub internal_error : Bytes → RequestError
internal_error text = record {
  code = negsuc 32602;
  message = codes "Internal error";
  details = of_error text;
}

-- A request, a response or a notification.
pub record AnyMessage : Type 0 where
  pub jsonrpc : Bytes
  pub id : Option Bytes
  pub method : Bytes
  pub params : Bytes
  pub result : Bytes
  pub error : Option RequestError

abbrev pub blank : AnyMessage
blank = record { jsonrpc = []; id = none; method = []; params = []; result = []; error = none }

-- What the connection is built on: the JSON codec (a failure is its text), the writer of the agent's
-- input with its own state `W`, `bytes.TrimSpace`, and the JSON text of a number. A value of the code's
-- `any` is a `P`.
pub record Wire (P W : Type 0) : Type 0 where
  pub marshal : P → Result Bytes Bytes
  pub encode : AnyMessage → Result Bytes Bytes
  pub decode : Bytes → Result Bytes AnyMessage
  pub write : W → Bytes → W × Option Bytes
  pub trim_space : Bytes → Bytes
  pub digits : ℕ → Bytes
