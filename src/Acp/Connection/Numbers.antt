-- ===== src/Acp/Connection/Numbers.antt =====
-- The ids of requests go up by one at most.
use acpp.Prelude.{
  Bytes, text_eq, ℕ, suc, ◌≤◌, ◌<◌, arith, ◌≡◌, refl, ap, ◌∙◌, Bool, true, false, Bool-cases, ◌⊎◌,
  inl, inr, Option, none, some, [], if◌then◌else◌, add64, u64_mod, Result, ok, err,
}
use acpp.Acp.Messages.{RequestError, AnyMessage, Wire}
use acpp.Acp.Connection.{
  Connection, dispatch_id, received, receive_line, cancel, Event, request, notification, reply,
  line, finish, step,
}
use acpp.Acp.Connection.Steps.{
  dispatch_response_keeps, handle_inbound-Keeps, send_notification-Keeps, send_result-Keeps,
  Requests, sent, unused, used, undone, send_request-Requests,
}

either {ℓ} :
    {A : Type ℓ} (a b : Bool) (x y : A)
    → ((if a then x else if b then x else y) ≡ x) ⊎ ((if a then x else if b then x else y) ≡ y)
either true b x y = inl refl
either false true x y = inl refl
either false false x y = inr refl

same : (m n : ℕ) → n ≡ m → (m ≤ n) × (n ≤ suc m)
same m n e = (omega (arith, e), omega (arith, e))

module _ {P W : Type 0} (E : Wire P W) where
  pub receive_line_cases :
      (c : Connection W) (l : Bytes)
      → (receive_line E c l ≡ c) ⊎ (receive_line E c l ≡ received E c (E.decode l))
  unfolding receive_line
  receive_line_cases c l = either c.done (text_eq (E.trim_space l) []) c (received E c (E.decode l))

  received-next_id :
      (c : Connection W) (r : Result Bytes AnyMessage) → (received E c r).next_id ≡ c.next_id
  unfolding received
  received-next_id c (err e) = refl
  received-next_id c (ok msg) = elim (Bool-cases (text_eq msg.method [])) [
    | inl e ↦ rw e (by msg.id)
    | inr e ↦ rw e (handle_inbound-Keeps E c msg).next_id
  ]
    where
      by : (o : Option Bytes) → (dispatch_id o c msg).next_id ≡ c.next_id
      by none = unfold dispatch_id in refl
      by (some id) = unfold dispatch_id in (dispatch_response_keeps c msg id).1

  requests-next_id :
      (c : Connection W) (id : ℕ) (method : Bytes) (r : Connection W × Option RequestError)
      → id ≡ suc c.next_id
      → Requests E c id method r
      → (c.next_id ≤ r.0.next_id) × (r.0.next_id ≤ suc c.next_id)
  requests-next_id c id method (c', none) e (sent p q) = (omega (arith, q, e), omega (arith, q, e))
  requests-next_id c id method (c', some x) e unused = (omega arith, omega arith)
  requests-next_id c id method (c', some x) e (used p q) =
      (omega (arith, q, e), omega (arith, q, e))
  requests-next_id c id method (c', some x) e (undone p q) =
      (omega (arith, q, e), omega (arith, q, e))

  pub step-next_id :
      (c : Connection W) (ev : Event P)
      → suc c.next_id < u64_mod
      → (c.next_id ≤ (step E c ev).next_id) × ((step E c ev).next_id ≤ suc c.next_id)
  unfolding step cancel
  step-next_id c (request ctx method params) h =
      requests-next_id c (add64 c.next_id 1) method _ (omega (arith, h))
        (send_request-Requests E ctx c method params)
  step-next_id c (notification ctx method params) h =
      same c.next_id _ (send_notification-Keeps E ctx c method params).next_id
  step-next_id c (reply id v) h = same c.next_id _ (send_result-Keeps E c id v).next_id
  step-next_id c (line l) h = elim (receive_line_cases c l) [
    | inl e ↦ same c.next_id _ (ap (λ x. x.next_id) e)
    | inr e ↦ same c.next_id _ (ap (λ x. x.next_id) e ∙ received-next_id c (E.decode l))
  ]
  step-next_id c finish h = same c.next_id c.next_id refl
