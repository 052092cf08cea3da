-- ===== src/Acp/Connection/Correlation.antt =====
-- Which responses reach the handler, over a history.
mod Invariant
mod Lines
pub mod Once
use acpp.Prelude.{
  All, All-imp, Bytes, text_eq, text_eq_self, eq_of_text_eq, ℕ, suc, ◌+◌, ◌≤◌, ◌<◌, arith, length,
  drop, drop_all, ◌≡◌, ◌≢◌, refl, sym, ap, ◌∙◌, Bool, true, false, Bool-cases, Option-cases, ◌⊎◌,
  inl, inr, Option, none, some, List, [], ◌∷◌, ◌++◌, if◌then◌else◌, add64, u64_mod, Result, ok, err,
}
use mathlib.Core.Path.{subst, subst₂}
use acpp.Db.Map.{Map, lookup, remove, lookup-remove-none, remove-All}
use acpp.Acp.Messages.{RequestError, AnyMessage, Wire}
use acpp.Acp.Connection.{
  Call, Connection, response_call, handle_inbound, new_connection, dispatch_response, dispatch_id,
  received, receive_line, send_request, cancel, Event, request, notification, reply, line, finish,
  step,
}
use acpp.Acp.Connection.Correlation.Invariant.{
  IsTracked, fewer, later, taken_one, sent_one, undone_one,
}
use acpp.Acp.Connection.Distinct.{Distinct}
use acpp.Acp.Connection.Steps.{
  Brings, dispatch_response-Brings, dispatch_response_keeps, Keeps, handle_inbound-Keeps,
  send_notification-Keeps, send_result-Keeps, Requests, sent, unused, used, undone,
  send_request-Requests,
}

-- A connection with the requests that were sent, by id and method, and the calls that responses
-- brought, by the response's id and the call's method, the latest first.
pub record Trace (W : Type 0) : Type 0 where
  pub connection : Connection W
  pub sent : Map Bytes
  pub delivered : Map Bytes

abbrev methods_under : Bytes → List Call → Map Bytes
methods_under id [] = []
methods_under id (k ∷ ks) = (id, k.method) ∷ methods_under id ks

if_sent : Option RequestError → Bytes → Bytes → Map Bytes → Map Bytes
if_sent none id method before = (id, method) ∷ before
if_sent (some e) id method before = before

-- The id of a line that is a response.
unfoldable pub response_id : Result Bytes AnyMessage → Option Bytes
response_id (err e) = none
response_id (ok msg) = if text_eq msg.method [] then msg.id else none

pub if_response : Option Bytes → List Call → Map Bytes → Map Bytes
if_response none ks delivered = delivered
if_response (some id) ks delivered = methods_under id ks ++ delivered

module _ {P W : Type 0} (E : Wire P W) where
  sent_after : Trace W → Event P → Map Bytes
  unfolding if_sent
  sent_after t (request ctx method params) =
      if_sent (send_request E ctx t.connection method params).1
        (E.digits (add64 t.connection.next_id 1)) method t.sent
  sent_after t _ = t.sent

  delivered_after : Trace W → Event P → Map Bytes
  unfolding if_response response_id
  delivered_after t (line l) =
      if_response (response_id (E.decode l))
        (drop (length t.connection.calls) (receive_line E t.connection l).calls) t.delivered
  delivered_after t _ = t.delivered

  unfoldable pub observe : Trace W → Event P → Trace W
  unfolding sent_after delivered_after
  observe t ev = record {
    connection = step E t.connection ev;
    sent = sent_after t ev;
    delivered = delivered_after t ev;
  }

  unfoldable pub observe_all : Trace W → List (Event P) → Trace W
  unfolding observe
  observe_all t [] = t
  observe_all t (ev ∷ evs) = observe_all (observe t ev) evs

abbrev pub opened : {W : Type 0} → Option (Call → Option RequestError) → W → Trace W
opened h w = record { connection = new_connection h w; sent = []; delivered = [] }

-- Each call that a response brings is of the method that was sent under the response's id, and each id is
-- used and answered once at most.
pub record AnsweredOnce {W : Type 0} (t : Trace W) : Type 0 where
  pub of_sent : All (λ e. lookup t.sent e.0 ≡ some e.1) t.delivered
  pub once : Distinct t.delivered
  pub own_id : Distinct t.sent
