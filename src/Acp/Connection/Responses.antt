-- ===== src/Acp/Connection/Responses.antt =====
-- The response to a request that waits.
use acpp.Prelude.{
  Bytes, text_eq, text_eq_self, ◌≡◌, ap, ◌∙◌, false, if_true, if_false, Option, some, [], ◌∷◌, ◌++◌,
  ok,
}
use acpp.Db.Map.{lookup, remove}
use acpp.Acp.Messages.{RequestError, AnyMessage, Wire}
use acpp.Acp.Connection.{
  Call, Connection, method_or_empty, response_call, respond, dispatch_taken, take_pending,
  dispatch_response, dispatch_id, received, receive_line,
}

-- The line is a response with this id, and the connection still reads.
pub record IsResponse {P W : Type 0} (E : Wire P W) (c : Connection W) (id l : Bytes)
    (msg : AnyMessage) : Type 0 where
  pub running : c.done ≡ false
  pub not_blank : text_eq (E.trim_space l) [] ≡ false
  pub decodes : E.decode l ≡ ok msg
  pub no_method : msg.method ≡ []
  pub its_id : msg.id ≡ some id

module _ {P W : Type 0} (E : Wire P W) where
  receive_line-response :
      (c : Connection W) (id l : Bytes) (msg : AnyMessage)
      → IsResponse E c id l msg
      → receive_line E c l ≡ dispatch_response c msg id
  unfolding receive_line received dispatch_id
  receive_line-response c id l msg r =
      if_false _ _ r.running
      ∙ if_false _ _ r.not_blank
      ∙ ap (received E c) r.decodes
      ∙ if_true _ _ (ap (λ x. text_eq x []) r.no_method ∙ text_eq_self [])
      ∙ ap (λ o. dispatch_id o c msg) r.its_id

  pub receive_line-calls :
      (c : Connection W) (id l method : Bytes) (msg : AnyMessage) (h : Call → Option RequestError)
      → IsResponse E c id l msg
      → c.handler ≡ some h
      → lookup c.pending id ≡ some method
      → text_eq method [] ≡ false
      → (receive_line E c l).calls ≡ c.calls ++ response_call method msg msg.error ∷ []
  unfolding dispatch_response dispatch_taken take_pending method_or_empty respond
  receive_line-calls c id l method msg h r s k n =
      ap (λ x. x.calls) (receive_line-response c id l msg r)
      ∙ ap
          (λ o.
            (dispatch_taken (method_or_empty o, record c { pending = remove c.pending id })
              msg).calls)
          k
      ∙ ap (λ x. x.calls) (if_false (record c { pending = remove c.pending id }) _ n)
      ∙ ap
          (λ x.
            (respond x (record c { pending = remove c.pending id })
              (response_call method msg msg.error)).calls)
          s
