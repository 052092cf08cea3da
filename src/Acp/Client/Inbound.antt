-- ===== src/Acp/Client/Inbound.antt =====
-- What the peer's own requests and notifications bring, and what is sent back.
use acpp.Prelude.{
  Bytes, text_eq, ◌≡◌, refl, sym, append-nil, ap, ◌∙◌, false, if_false, Option, none, some, List,
  [], ◌∷◌, ◌++◌, Result, ok, err,
}
use mathlib.Core.Path.{subst}
use acpp.Acp.Messages.{RequestError, AnyMessage, Wire, blank, invalid_params}
use acpp.Acp.Connection.{
  Connection, send, reply_error, inbound_call, inbound_by, handle_inbound, received, receive_line,
}
use acpp.Acp.Client.{Kind, Message, typed, kind_of, client_calls}
use acpp.Acp.Client.Calls.{
  handler, client_calls-append, Handles, peer_failed, is_typed, undecoded, unknown, handle-Handles,
}

module _ {P W M : Type 0} (E : Wire P W) (unmarshal : Kind → Bytes → Result Bytes M) where
  -- The writer after an error reply.
  abbrev after_error : W → Option Bytes → RequestError → W
  after_error w none e = w
  after_error w (some id) e = (send E w (record blank { id = some id; error = some e })).0

  -- Of the connections before and after: the client's new message and the writer.
  pub data Inbound (c : Connection W) (msg : AnyMessage) (c' : Connection W) : Type 0 where
    handed :
        (t : Kind) (m : M)
        → kind_of msg.method ≡ some t
        → unmarshal t msg.params ≡ ok m
        → client_calls unmarshal c'.calls
          ≡ client_calls unmarshal c.calls ++ (msg.id, typed t m) ∷ []
        → c'.w ≡ c.w
        → Inbound c msg c'
    refused :
        (t : Kind) (e : Bytes)
        → kind_of msg.method ≡ some t
        → unmarshal t msg.params ≡ err e
        → client_calls unmarshal c'.calls ≡ client_calls unmarshal c.calls
        → c'.w ≡ after_error c.w msg.id (invalid_params e)
        → Inbound c msg c'
    dropped :
        kind_of msg.method ≡ none
        → client_calls unmarshal c'.calls ≡ client_calls unmarshal c.calls
        → c'.w ≡ c.w
        → Inbound c msg c'

  reply_error-w :
      (c : Connection W) (id : Option Bytes) (e : RequestError)
      → (reply_error E c id (some e)).w ≡ after_error c.w id e
  unfolding reply_error
  reply_error-w c none e = refl
  reply_error-w c (some id) e = refl

  reply_error-none : (c : Connection W) (id : Option Bytes) → reply_error E c id none ≡ c
  unfolding reply_error
  reply_error-none c none = refl
  reply_error-none c (some id) = refl

  reply_error-calls :
      (c : Connection W) (id : Option Bytes) (e : Option RequestError)
      → (reply_error E c id e).calls ≡ c.calls
  unfolding reply_error
  reply_error-calls c none e = refl
  reply_error-calls c (some id) none = refl
  reply_error-calls c (some id) (some e) = refl

  -- The line is a request or a notification, and the connection still reads.
  pub record IsInbound (c : Connection W) (l : Bytes) (msg : AnyMessage) : Type 0 where
    pub running : c.done ≡ false
    pub not_blank : text_eq (E.trim_space l) [] ≡ false
    pub decodes : E.decode l ≡ ok msg
    pub named : text_eq msg.method [] ≡ false

  received_inbound :
      (c : Connection W) (l : Bytes) (msg : AnyMessage)
      → IsInbound c l msg
      → c.handler ≡ some (handler unmarshal)
      → receive_line E c l
        ≡ reply_error E
            (record c { calls = c.calls ++ inbound_call msg ∷ [] })
            msg.id
            (handler unmarshal (inbound_call msg))
  unfolding receive_line received handle_inbound inbound_by
  received_inbound c l msg r h =
      if_false _ _ r.running
      ∙ if_false _ _ r.not_blank
      ∙ ap (received E c) r.decodes
      ∙ if_false _ _ r.named
      ∙ ap (λ x. inbound_by E x c msg) h

  -- A request or a notification of a method that the client knows hands the client one message under its id
  -- and writes nothing; if its parameters do not decode, the client gets nothing and a request is answered
  -- by an error. One of an unknown method changes neither: such a request gets no answer.
  pub receive_line-Inbound :
      (c : Connection W) (l : Bytes) (msg : AnyMessage)
      → IsInbound c l msg
      → c.handler ≡ some (handler unmarshal)
      → Inbound c msg (receive_line E c l)
  unfolding inbound_call
  receive_line-Inbound c l msg r h =
      subst (Inbound c msg) (sym (received_inbound c l msg r h))
        (by (handle-Handles unmarshal (inbound_call msg)))
    where
      after : (e : Option RequestError) → Connection W
      after e = reply_error E (record c { calls = c.calls ++ inbound_call msg ∷ [] }) msg.id e

      told :
          (xs : List (Option Bytes × Message M)) (e : Option RequestError)
          → client_calls unmarshal (inbound_call msg ∷ []) ≡ xs
          → client_calls unmarshal (after e).calls ≡ client_calls unmarshal c.calls ++ xs
      told xs e x =
          ap (client_calls unmarshal)
            (reply_error-calls (record c { calls = c.calls ++ inbound_call msg ∷ [] }) msg.id e)
          ∙ client_calls-append unmarshal c.calls (inbound_call msg ∷ [])
          ∙ ap (λ y. client_calls unmarshal c.calls ++ y) x

      silent :
          (e : Option RequestError)
          → client_calls unmarshal (inbound_call msg ∷ []) ≡ []
          → client_calls unmarshal (after e).calls ≡ client_calls unmarshal c.calls
      silent e x = told [] e x ∙ append-nil (client_calls unmarshal c.calls)

      quiet : (e : Option RequestError) → e ≡ none → (after e).w ≡ c.w
      quiet e n =
          ap (λ y. (after y).w) n
          ∙ ap (λ y. y.w)
              (reply_error-none (record c { calls = c.calls ++ inbound_call msg ∷ [] }) msg.id)

      by :
          Handles unmarshal (inbound_call msg)
          → Inbound c msg (after (handler unmarshal (inbound_call msg)))
      by (peer_failed e q x n) = absurd (cc)
      by (is_typed t m q k d x n) =
          handed t m k d (told _ (handler unmarshal (inbound_call msg)) x) (quiet _ n)
      by (undecoded t e q k d x n) =
          refused t e k d (silent (handler unmarshal (inbound_call msg)) x) (
            ap (λ y. (after y).w) n
            ∙ reply_error-w (record c { calls = c.calls ++ inbound_call msg ∷ [] }) msg.id
                (invalid_params e))
      by (unknown q k x n) = dropped k (silent (handler unmarshal (inbound_call msg)) x) (quiet _ n)
