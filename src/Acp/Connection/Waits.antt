-- ===== src/Acp/Connection/Waits.antt =====
-- A request that was sent waits until a response with its id comes.
use acpp.Prelude.{
  All, Bytes, text_eq, eq_of_text_eq, ℕ, suc, ◌+◌, ◌≤◌, ◌<◌, arith, length, ◌≡◌, ap, ◌∙◌, false,
  Bool-cases, inl, inr, Option, none, some, List, [], ◌∷◌, add64, u64_mod, Result, ok, err,
}
use acpp.Db.Map.{lookup, insert, lookup-insert, lookup-insert_other, lookup-remove_other}
use acpp.Acp.Messages.{RequestError, AnyMessage, Wire}
use acpp.Acp.Connection.{
  Connection, dispatch_id, received, send_request, cancel, Event, request, notification, reply,
  line, finish, step, run,
}
use acpp.Acp.Connection.Correlation.{response_id}
use acpp.Acp.Connection.Numbers.{receive_line_cases, step-next_id}
use acpp.Acp.Connection.Steps.{
  dispatch_response_keeps, handle_inbound-Keeps, send_notification-Keeps, send_result-Keeps,
  Requests, sent, unused, used, undone, send_request-Requests,
}

module _ {P W : Type 0} (E : Wire P W) where
  -- The event is no response with this id.
  abbrev pub IsOther : Bytes → Event P → Type 0
  IsOther id (line l) = ¬ (response_id (E.decode l) ≡ some id)
  IsOther id _ = Unit

  abbrev pub WaitsFor : Connection W → Bytes → Bytes → Type 0
  WaitsFor c id method = lookup c.pending id ≡ some method

  received-WaitsFor :
      (c : Connection W) (r : Result Bytes AnyMessage) (id method : Bytes)
      → ¬ (response_id r ≡ some id)
      → WaitsFor c id method
      → WaitsFor (received E c r) id method
  unfolding received response_id
  received-WaitsFor c (err e) id method h k = k
  received-WaitsFor c (ok msg) id method h k = elim (Bool-cases (text_eq msg.method [])) [
    | inl e ↦ rw e (by msg.id (rw e at h))
    | inr e ↦ rw e (ap (λ m. lookup m id) (handle_inbound-Keeps E c msg).pending ∙ k)
  ]
    where
      other : (j : Bytes) → ¬ (some j ≡ some id) → text_eq j id ≡ false
      other j n = elim (Bool-cases (text_eq j id)) [
        | inl t ↦ absurd (n (ap some (eq_of_text_eq j id t)))
        | inr t ↦ t
      ]

      by : (o : Option Bytes) → ¬ (o ≡ some id) → WaitsFor (dispatch_id o c msg) id method
      by none n = unfold dispatch_id in k
      by (some j) n =
          unfold dispatch_id in
          ap (λ m. lookup m id) (dispatch_response_keeps c msg j).0
          ∙ lookup-remove_other c.pending j id (other j n)
          ∙ k

  module _ (digits_injective : (m n : ℕ) → E.digits m ≡ E.digits n → m ≡ n) (n : ℕ) where
    request-WaitsFor :
        (c : Connection W) (i : ℕ) (method' method : Bytes) (r : Connection W × Option RequestError)
        → i ≡ suc c.next_id
        → n ≤ c.next_id
        → Requests E c i method' r
        → WaitsFor c (E.digits n) method
        → WaitsFor r.0 (E.digits n) method
    request-WaitsFor c i method' method r q h s k = by r s
      where
        other : text_eq (E.digits i) (E.digits n) ≡ false
        other = elim (Bool-cases (text_eq (E.digits i) (E.digits n))) [
          | inl t ↦ absurd (omega (arith, digits_injective i n (eq_of_text_eq _ _ t), q, h))
          | inr t ↦ t
        ]

        by :
            (r : Connection W × Option RequestError)
            → Requests E c i method' r
            → WaitsFor r.0 (E.digits n) method
        by (c', none) (sent p x) =
            ap (λ m. lookup m (E.digits n)) p
            ∙ lookup-insert_other c.pending (E.digits i) (E.digits n) method' other
            ∙ k
        by (c', some e) unused = k
        by (c', some e) (used p x) = ap (λ m. lookup m (E.digits n)) p ∙ k
        by (c', some e) (undone p x) =
            ap (λ m. lookup m (E.digits n)) p
            ∙ lookup-remove_other (insert c.pending (E.digits i) method') (E.digits i) (E.digits n)
                other
            ∙ lookup-insert_other c.pending (E.digits i) (E.digits n) method' other
            ∙ k

    step-WaitsFor :
        (c : Connection W) (ev : Event P) (method : Bytes)
        → suc c.next_id < u64_mod
        → n ≤ c.next_id
        → IsOther (E.digits n) ev
        → WaitsFor c (E.digits n) method
        → WaitsFor (step E c ev) (E.digits n) method
    unfolding step cancel
    step-WaitsFor c (request ctx method' params) method b h o k =
        request-WaitsFor c (add64 c.next_id 1) method' method (send_request E ctx c method' params)
          (omega (arith, b)) h (send_request-Requests E ctx c method' params) k
    step-WaitsFor c (notification ctx method' params) method b h o k =
        ap (λ m. lookup m (E.digits n)) (send_notification-Keeps E ctx c method' params).pending ∙ k
    step-WaitsFor c (reply id v) method b h o k =
        ap (λ m. lookup m (E.digits n)) (send_result-Keeps E c id v).pending ∙ k
    step-WaitsFor c (line l) method b h o k = elim (receive_line_cases E c l) [
      | inl e ↦ ap (λ x. lookup x.pending (E.digits n)) e ∙ k
      | inr e ↦
          ap (λ x. lookup x.pending (E.digits n)) e
          ∙ received-WaitsFor c (E.decode l) (E.digits n) method o k
    ]
    step-WaitsFor c finish method b h o k = k

    pub run-WaitsFor :
        (c : Connection W) (evs : List (Event P)) (method : Bytes)
        → c.next_id + length evs < u64_mod
        → n ≤ c.next_id
        → All (IsOther (E.digits n)) evs
        → WaitsFor c (E.digits n) method
        → WaitsFor (run E c evs) (E.digits n) method
    unfolding run
    run-WaitsFor c [] method b h o k = k
    run-WaitsFor c (ev ∷ evs) method b h (o, os) k =
        let s = step-next_id E c ev (omega (arith, b)) in
        run-WaitsFor (step E c ev) evs method (omega (arith, s.1, b)) (omega (arith, s.0, h)) os
          (step-WaitsFor c ev method (omega (arith, b)) h o k)

  sent-WaitsFor :
      (c : Connection W) (i : ℕ) (method : Bytes) (r : Connection W × Option RequestError)
      → Requests E c i method r
      → r.1 ≡ none
      → WaitsFor r.0 (E.digits r.0.next_id) method × (r.0.next_id ≡ i)
  sent-WaitsFor c i method (c', none) (sent p q) e = (
    ap (λ m. lookup m (E.digits c'.next_id)) p
        ∙ ap (λ j. lookup (insert c.pending (E.digits i) method) (E.digits j)) q
        ∙ lookup-insert c.pending (E.digits i) method,
    q,
  )
  sent-WaitsFor c i method (c', some x) r e = absurd (cc)

  -- What a request that is sent waits under.
  pub send_request-WaitsFor :
      (ctx : Option Bytes) (c : Connection W) (method : Bytes) (params : Option P)
      → (send_request E ctx c method params).1 ≡ none
      → WaitsFor
          (send_request E ctx c method params).0
          (E.digits (send_request E ctx c method params).0.next_id)
          method
        × ((send_request E ctx c method params).0.next_id ≡ add64 c.next_id 1)
  send_request-WaitsFor ctx c method params e =
      sent-WaitsFor c (add64 c.next_id 1) method (send_request E ctx c method params)
        (send_request-Requests E ctx c method params) e
