-- ===== src/Tests/Acp.antt =====
-- acp/: the theorems at concrete connections.
use acpp.Prelude.{
  All, Bytes, codes, text_eq, ℕ, zero, suc, arith, length, ◌≡◌, refl, false, Option, none, some,
  List, [], ◌∷◌, ◌++◌, Result, ok, err,
}
use acpp.Db.Map.{lookup, insert, remove}
use acpp.Acp.Messages.{AnyMessage, blank, Wire}
use acpp.Acp.Connection.{
  Connection, new_connection, receive_line, send_done, send_registered, send_request,
  send_notification, respond, dispatch_response, dispatch_taken, take_pending, dispatch_id,
  received, handle_inbound, inbound_by, inbound_call, reply_error, Event, request, notification,
  line, step, run,
}
use acpp.Acp.Connection.Correlation.{AnsweredOnce, observe_all, opened, response_id}
use acpp.Acp.Connection.Correlation.Once.{answered_once}
use acpp.Acp.Connection.Waits.{IsOther}
use acpp.Acp.Connection.Responses.{IsResponse}
use acpp.Acp.Client.{Kind, Message, prompt_response, prompt, send_typed, handle, client_calls}
use acpp.Acp.Client.Calls.{handler}
use acpp.Acp.Client.Answers.{Answers, answered}
use acpp.Acp.Client.Inbound.{Inbound, receive_line-Inbound}

-- A line that starts with 0 is the response to the id that follows, another one an update.
abbrev decode_line : Bytes → Result Bytes AnyMessage
decode_line [] = err []
decode_line (zero ∷ id) = ok (record blank { id = some id; result = codes "{}" })
decode_line (suc n ∷ rest) = ok (record blank { method = codes "session/update"; params = rest })

abbrev wire : Wire ℕ (List Bytes)
wire = record {
  marshal = λ v. ok (v ∷ []);
  encode = λ msg. ok msg.method;
  decode = decode_line;
  write = λ w b. (w ++ b ∷ [], none);
  trim_space = λ s. s;
  digits = λ n. n ∷ [];
}

abbrev unmarshal : Kind → Bytes → Result Bytes ℕ
unmarshal t raw = ok (length raw)

injective : (m n : ℕ) → ◌≡◌ {A = Bytes} (m ∷ []) (n ∷ []) → m ≡ n
injective m n e = cc

abbrev history : List (Event ℕ)
history =
    notification none (codes "session/cancel") (some 3)
    ∷ line (1 ∷ 5 ∷ [])
    ∷ request none (codes "initialize") (some 4)
    ∷ line (0 ∷ 2 ∷ [])
    ∷ []

answered_once_example :
    AnsweredOnce (observe_all wire (opened (some (handler unmarshal)) []) history)
answered_once_example =
    answered_once wire injective (some (handler unmarshal)) [] history (omega arith)

abbrev start : Connection (List Bytes)
start = new_connection (some (handler unmarshal)) []

abbrev sent_to : Connection (List Bytes)
sent_to = (send_typed wire none start (prompt 5)).0

abbrev waiting : Connection (List Bytes)
waiting = run wire sent_to history

abbrev response : AnyMessage
response = record blank { id = some (1 ∷ []); result = codes "{}" }

still_reads : waiting.done ≡ false
unfolding new_connection send_typed send_request send_registered send_done run step
    send_notification receive_line received handle_inbound inbound_by inbound_call reply_error
    dispatch_id dispatch_response take_pending dispatch_taken respond text_eq handle lookup insert
    remove
still_reads = refl

is_response : IsResponse wire waiting (1 ∷ []) (0 ∷ 1 ∷ []) response
unfolding text_eq
is_response = record {
  running = still_reads;
  not_blank = refl;
  decodes = refl;
  no_method = refl;
  its_id = refl;
}

others : All (IsOther wire (1 ∷ [])) history
unfolding response_id text_eq
others = (tt, ((λ e. cc), (tt, ((λ e. cc), tt))))

answered_example :
    (xs : List (Option Bytes × Message ℕ)) × ((client_calls unmarshal
          (receive_line wire waiting (0 ∷ 1 ∷ [])).calls
        ≡ client_calls unmarshal waiting.calls ++ xs)
      × Answers unmarshal (codes "session/prompt") prompt_response response xs)
unfolding response_id text_eq new_connection send_typed send_request send_registered send_done
answered_example =
    answered wire unmarshal injective none start (prompt 5) (codes "session/prompt") prompt_response
      history (0 ∷ 1 ∷ []) response refl refl (omega arith) refl others is_response

abbrev update : AnyMessage
update = record blank { method = codes "session/update"; params = codes "x" }

receive_line-Inbound_example :
    Inbound wire unmarshal start update (receive_line wire start (1 ∷ codes "x"))
unfolding new_connection text_eq
receive_line-Inbound_example =
    receive_line-Inbound wire unmarshal start (1 ∷ codes "x") update
      (record { running = refl; not_blank = refl; decodes = refl; named = refl }) refl
