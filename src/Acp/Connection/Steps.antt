-- ===== src/Acp/Connection/Steps.antt =====
-- What each step leaves of the requests that wait for a response.
use acpp.Prelude.{
  Bytes, text_eq, ℕ, ◌≡◌, refl, ap, Bool-cases, ◌⊎◌, inl, inr, Option, none, some, [], ◌∷◌, ◌++◌,
  add64, Result, ok, err,
}
use acpp.Db.Map.{lookup, insert, remove}
use acpp.Acp.Messages.{RequestError, AnyMessage, Wire, blank}
use acpp.Acp.Connection.{
  Call, Connection, method_or_empty, take_pending, respond, response_call, dispatch_taken,
  dispatch_response, reply_error, inbound_by, handle_inbound, send_done, send_registered,
  send_request, encoded_params, send_notification, notify_encoded, send, send_result,
  result_encoded,
}

abbrev pub Brings : {W : Type 0} → Connection W → Bytes → AnyMessage → Connection W → Type 0
Brings c id msg c' =
    (c'.calls ≡ c.calls)
    ⊎ ((method : Bytes) × (lookup c.pending id ≡ some method
          × (c'.calls ≡ c.calls ++ response_call method msg msg.error ∷ [])))

module _ {W : Type 0} where
  respond-Brings :
      (h : Option (Call → Option RequestError)) (c c' : Connection W) (id method : Bytes)
      (msg : AnyMessage)
      → c'.calls ≡ c.calls
      → lookup c.pending id ≡ some method
      → Brings c id msg (respond h c' (response_call method msg msg.error))
  unfolding respond
  respond-Brings none c c' id method msg e p = inl e
  respond-Brings (some h) c c' id method msg e p =
      inr (method, (p, ap (λ x. x ++ response_call method msg msg.error ∷ []) e))

  respond_keeps :
      (h : Option (Call → Option RequestError)) (c : Connection W) (k : Call)
      → (respond h c k).pending ≡ c.pending × ((respond h c k).next_id ≡ c.next_id)
  unfolding respond
  respond_keeps none c k = (refl, refl)
  respond_keeps (some h) c k = (refl, refl)

  pub dispatch_response-Brings :
      (c : Connection W) (msg : AnyMessage) (id : Bytes)
      → Brings c id msg (dispatch_response c msg id)
  unfolding dispatch_response take_pending dispatch_taken method_or_empty text_eq
  dispatch_response-Brings c msg id = by (lookup c.pending id) refl
    where
      named :
          (method : Bytes)
          → lookup c.pending id ≡ some method
          → Brings c id msg
              (dispatch_taken (method, record c { pending = remove c.pending id }) msg)
      named method e = elim (Bool-cases (text_eq method [])) [
        | inl t ↦ rw t (inl refl)
        | inr t ↦ rw t (
            respond-Brings c.handler c (record c { pending = remove c.pending id }) id method msg
              refl e)
      ]

      by :
          (o : Option Bytes)
          → lookup c.pending id ≡ o
          → Brings c id msg
              (dispatch_taken (method_or_empty o, record c { pending = remove c.pending id }) msg)
      by none e = inl refl
      by (some method) e = named method e

  pub dispatch_response_keeps :
      (c : Connection W) (msg : AnyMessage) (id : Bytes)
      → (dispatch_response c msg id).pending ≡ remove c.pending id
        × ((dispatch_response c msg id).next_id ≡ c.next_id)
  unfolding dispatch_response take_pending dispatch_taken
  dispatch_response_keeps c msg id = taken (method_or_empty (lookup c.pending id))
    where
      taken :
          (method : Bytes)
          → (dispatch_taken (method, record c { pending = remove c.pending id }) msg).pending
              ≡ remove c.pending id
            × ((dispatch_taken (method, record c { pending = remove c.pending id }) msg).next_id
                ≡ c.next_id)
      taken method = elim (Bool-cases (text_eq method [])) [
        | inl t ↦ rw t (refl, refl)
        | inr t ↦ rw t (
            respond_keeps c.handler (record c { pending = remove c.pending id })
              (response_call method msg msg.error))
      ]

-- What a step other than a request or a response leaves as it was.
pub record Keeps {W : Type 0} (c c' : Connection W) : Type 0 where
  pub pending : c'.pending ≡ c.pending
  pub next_id : c'.next_id ≡ c.next_id

module _ {P W : Type 0} (E : Wire P W) where
  reply_error-Keeps :
      (c c' : Connection W) (id : Option Bytes) (e : Option RequestError)
      → Keeps c c'
      → Keeps c (reply_error E c' id e)
  unfolding reply_error
  reply_error-Keeps c c' none e k = k
  reply_error-Keeps c c' (some id) none k = k
  reply_error-Keeps c c' (some id) (some e) k = record { pending = k.pending; next_id = k.next_id }

  pub handle_inbound-Keeps :
      (c : Connection W) (msg : AnyMessage) → Keeps c (handle_inbound E c msg)
  unfolding handle_inbound
  handle_inbound-Keeps c msg = by c.handler
    where
      by : (h : Option (Call → Option RequestError)) → Keeps c (inbound_by E h c msg)
      by none =
          unfold inbound_by in
          reply_error-Keeps c c msg.id _ (record { pending = refl; next_id = refl })
      by (some h) =
          unfold inbound_by in
          reply_error-Keeps c _ msg.id _ (record { pending = refl; next_id = refl })

  pub send_notification-Keeps :
      (ctx : Option Bytes) (c : Connection W) (method : Bytes) (params : Option P)
      → Keeps c (send_notification E ctx c method params).0
  unfolding send_notification
  send_notification-Keeps (some e) c method params = record { pending = refl; next_id = refl }
  send_notification-Keeps none c method params = by (encoded_params E params)
    where
      by : (p : Result Bytes Bytes) → Keeps c (notify_encoded E c method p).0
      by (ok b) = unfold notify_encoded in record { pending = refl; next_id = refl }
      by (err e) = unfold notify_encoded in record { pending = refl; next_id = refl }

  pub send_result-Keeps :
      (c : Connection W) (id : Option Bytes) (v : Option P) → Keeps c (send_result E c id v).0
  unfolding send_result
  send_result-Keeps c id v = by (encoded_params E v)
    where
      by : (p : Result Bytes Bytes) → Keeps c (result_encoded E c id p).0
      by (ok b) = unfold result_encoded in record { pending = refl; next_id = refl }
      by (err e) = unfold result_encoded in record { pending = refl; next_id = refl }

  -- A request that is sent waits under its new id; one that is not leaves nothing that waits under it,
  -- and may have used the id.
  pub data Requests (c : Connection W) (id : ℕ) (method : Bytes)
      : Connection W × Option RequestError → Type 0 where
    sent :
        {c' : Connection W}
        → c'.pending ≡ insert c.pending (E.digits id) method
        → c'.next_id ≡ id
        → Requests c id method (c', none)
    unused : {e : RequestError} → Requests c id method (c, some e)
    used :
        {c' : Connection W} {e : RequestError}
        → c'.pending ≡ c.pending
        → c'.next_id ≡ id
        → Requests c id method (c', some e)
    undone :
        {c' : Connection W} {e : RequestError}
        → c'.pending ≡ remove (insert c.pending (E.digits id) method) (E.digits id)
        → c'.next_id ≡ id
        → Requests c id method (c', some e)

  pub send_request-Requests :
      (ctx : Option Bytes) (c : Connection W) (method : Bytes) (params : Option P)
      → Requests c (add64 c.next_id 1) method (send_request E ctx c method params)
  unfolding send_request
  send_request-Requests (some e) c method params = unused
  send_request-Requests none c method params = registered (encoded_params E params)
    where
      done :
          (c1 : Connection W)
          → c1.pending ≡ insert c.pending (E.digits (add64 c.next_id 1)) method
          → c1.next_id ≡ add64 c.next_id 1
          → (r : W × Option Bytes)
          → Requests c (add64 c.next_id 1) method (send_done c1 (E.digits (add64 c.next_id 1)) r)
      done c1 p q (w, none) = unfold send_done in sent p q
      done c1 p q (w, some e) =
          unfold send_done take_pending in
          undone (ap (λ m. remove m (E.digits (add64 c.next_id 1))) p) q

      registered :
          (p : Result Bytes Bytes)
          → Requests c (add64 c.next_id 1) method (
              send_registered E
                (record c { next_id = add64 c.next_id 1 })
                (E.digits (add64 c.next_id 1))
                method
                p)
      registered (err e) = unfold send_registered in used refl refl
      registered (ok b) =
          unfold send_registered in
          done
            (record c {
              next_id = add64 c.next_id 1;
              pending = insert c.pending (E.digits (add64 c.next_id 1)) method;
            })
            refl refl
            (send E c.w (record blank {
              id = some (E.digits (add64 c.next_id 1));
              method = method;
              params = b;
            }))
