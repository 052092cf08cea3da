-- ===== src/Acp/Connection/Correlation/Once.antt =====
-- Over a history, no request is answered twice, and none as another.
use acpp.Prelude.{
  All-imp, Bytes, ℕ, suc, ◌+◌, ◌<◌, arith, length, ◌≡◌, sym, Option, none, some, List, [], ◌∷◌,
  add64, u64_mod,
}
use mathlib.Core.Path.{subst, subst₂}
use acpp.Db.Map.{Map}
use acpp.Acp.Messages.{RequestError, Wire}
use acpp.Acp.Connection.{
  Call, Connection, new_connection, send_request, cancel, Event, request, notification, reply, line,
  finish, step,
}
use acpp.Acp.Connection.Correlation.Invariant.{IsTracked, later, sent_one, undone_one}
use acpp.Acp.Connection.Steps.{
  send_notification-Keeps, send_result-Keeps, Requests, sent, unused, used, undone,
  send_request-Requests,
}
use acpp.Acp.Connection.Correlation.{
  Trace, sent_after, delivered_after, if_sent, observe, observe_all, opened, AnsweredOnce,
}
use acpp.Acp.Connection.Numbers.{step-next_id}
use acpp.Acp.Connection.Correlation.Lines.{Tracks, Keeps-Tracks, line-Tracks}

module _ {P W : Type 0} (E : Wire P W) where
  module _ (digits_injective : (m n : ℕ) → E.digits m ≡ E.digits n → m ≡ n) where
    request-Tracks :
        (c : Connection W) (method : Bytes) (r : Connection W × Option RequestError)
        (s d : Map Bytes)
        → Requests E c (suc c.next_id) method r
        → Tracks E c s d
        → Tracks E r.0 (if_sent r.1 (E.digits (suc c.next_id)) method s) d
    unfolding if_sent
    request-Tracks c method (c', none) s d (sent p q) t =
        subst₂ (λ x n. IsTracked E.digits x n ((E.digits (suc c.next_id), method) ∷ s) d) (sym p)
          (sym q) (sent_one E.digits digits_injective c.next_id c.pending s d method t)
    request-Tracks c method (c', some e) s d unused t = t
    request-Tracks c method (c', some e) s d (used p q) t =
        subst₂ (λ x n. IsTracked E.digits x n s d) (sym p) (sym q)
          (later E.digits c.next_id (suc c.next_id) c.pending s d (omega arith) t)
    request-Tracks c method (c', some e) s d (undone p q) t =
        subst₂ (λ x n. IsTracked E.digits x n s d) (sym p) (sym q)
          (undone_one E.digits digits_injective c.next_id c.pending s d method t)

    observe-Tracks :
        (t : Trace W) (ev : Event P)
        → suc t.connection.next_id < u64_mod
        → Tracks E t.connection t.sent t.delivered
        → Tracks E (observe E t ev).connection (observe E t ev).sent (observe E t ev).delivered
    unfolding observe step sent_after delivered_after cancel
    observe-Tracks t (request ctx method params) h k =
        let id : add64 t.connection.next_id 1 ≡ suc t.connection.next_id = omega (arith, h) in
        let r : Connection W × Option RequestError =
          send_request E ctx t.connection method params in
        subst
          (λ i.
            Requests E t.connection i method r
            → Tracks E r.0 (if_sent r.1 (E.digits i) method t.sent) t.delivered)
          (sym id) (λ q. request-Tracks t.connection method r t.sent t.delivered q k)
          (send_request-Requests E ctx t.connection method params)
    observe-Tracks t (notification ctx method params) h k =
        Keeps-Tracks E t.connection _ t.sent t.delivered
          (send_notification-Keeps E ctx t.connection method params) k
    observe-Tracks t (reply id v) h k =
        Keeps-Tracks E t.connection _ t.sent t.delivered (send_result-Keeps E t.connection id v) k
    observe-Tracks t (line l) h k = line-Tracks E t.connection l t.sent t.delivered k
    observe-Tracks t finish h k = k

    observe_all-Tracks :
        (t : Trace W) (evs : List (Event P))
        → t.connection.next_id + length evs < u64_mod
        → Tracks E t.connection t.sent t.delivered
        → AnsweredOnce (observe_all E t evs)
    unfolding observe_all
    observe_all-Tracks t [] h k = record {
      of_sent = All-imp (λ e q. q.0) t.delivered k.taken;
      once = k.once;
      own_id = k.own_id;
    }
    observe_all-Tracks t (ev ∷ evs) h k =
        observe_all-Tracks (observe E t ev) evs
          (unfold observe in
            omega (arith, (step-next_id E t.connection ev (omega (arith, h))).1, h))
          (observe-Tracks t ev (omega (arith, h)) k)

    -- If the numbers have texts of their own, then over every history of fewer than 2^64 events from a new
    -- connection each call that a response brings is of the method that was sent under the response's id, no
    -- id is answered by two calls and no two requests that were sent have one id.
    pub answered_once :
        (handler : Option (Call → Option RequestError)) (w : W) (evs : List (Event P))
        → length evs < u64_mod
        → AnsweredOnce (observe_all E (opened handler w) evs)
    unfolding new_connection
    answered_once handler w evs h =
        observe_all-Tracks (opened handler w) evs (omega (arith, h))
          (record { waits = tt; numbered = tt; taken = tt; once = tt; own_id = tt })
