-- ===== src/Acp/Client/Calls.antt =====
-- What a call of the connection's handler brings the client.
use acpp.Prelude.{
  Bytes, ◌≡◌, refl, ap, ◌∙◌, Option, none, some, List, [], ◌∷◌, ◌++◌, Result, ok, err,
}
use acpp.Acp.Messages.{RequestError, invalid_params}
use acpp.Acp.Connection.{Call}
use acpp.Acp.Client.{
  Kind, Message, typed, response_error, kind_of, decoded, handle_as, handle_checked, handle,
  with_call, client_calls,
}

with_call-append {ℓ} :
    {A : Type ℓ} (o : Option A) (xs ys : List A) → with_call o (xs ++ ys) ≡ with_call o xs ++ ys
unfolding with_call
with_call-append none xs ys = refl
with_call-append (some m) xs ys = refl

module _ {M : Type 0} (unmarshal : Kind → Bytes → Result Bytes M) where
  abbrev pub handler : Call → Option RequestError
  handler k = (handle unmarshal k).1

  pub client_calls-append :
      (ks ls : List Call)
      → client_calls unmarshal (ks ++ ls) ≡ client_calls unmarshal ks ++ client_calls unmarshal ls
  unfolding client_calls
  client_calls-append [] ls = refl
  client_calls-append (k ∷ ks) ls =
      ap (with_call (handle unmarshal k).0) (client_calls-append ks ls)
      ∙ with_call-append (handle unmarshal k).0 (client_calls unmarshal ks)
          (client_calls unmarshal ls)

  -- The end of a call: a message for the client, a message that does not decode, or no such method.
  pub data Handles (k : Call) : Type 0 where
    peer_failed :
        (e : RequestError)
        → k.resp_err ≡ some e
        → client_calls unmarshal (k ∷ []) ≡ (k.id, response_error k.method e) ∷ []
        → handler k ≡ none
        → Handles k
    is_typed :
        (t : Kind) (m : M)
        → k.resp_err ≡ none
        → kind_of k.method ≡ some t
        → unmarshal t k.params ≡ ok m
        → client_calls unmarshal (k ∷ []) ≡ (k.id, typed t m) ∷ []
        → handler k ≡ none
        → Handles k
    undecoded :
        (t : Kind) (e : Bytes)
        → k.resp_err ≡ none
        → kind_of k.method ≡ some t
        → unmarshal t k.params ≡ err e
        → client_calls unmarshal (k ∷ []) ≡ []
        → handler k ≡ some (invalid_params e)
        → Handles k
    unknown :
        k.resp_err ≡ none
        → kind_of k.method ≡ none
        → client_calls unmarshal (k ∷ []) ≡ []
        → handler k ≡ none
        → Handles k

  client_calls_one :
      (k : Call) (o : Option (Option Bytes × Message M)) (e : Option RequestError)
      → handle unmarshal k ≡ (o, e)
      → client_calls unmarshal (k ∷ []) ≡ with_call o []
  unfolding client_calls
  client_calls_one k o e h = ap (λ r. with_call r.0 []) h

  pub handle-Handles : (k : Call) → Handles k
  handle-Handles k = failed k.resp_err refl
    where
      decodes :
          (t : Kind) (r : Result Bytes M)
          → k.resp_err ≡ none
          → kind_of k.method ≡ some t
          → unmarshal t k.params ≡ r
          → Handles k
      decodes t r q p e = by r e (
          unfold handle handle_checked handle_as in
          ap (handle_checked unmarshal k) q
          ∙ ap (handle_as unmarshal k) p
          ∙ ap (decoded unmarshal k t) e)
        where
          by :
              (r : Result Bytes M)
              → unmarshal t k.params ≡ r
              → handle unmarshal k ≡ decoded unmarshal k t r
              → Handles k
          by (ok m) e h =
              unfold decoded with_call in
              is_typed t m q p e (client_calls_one k _ _ h) (ap (λ x. x.1) h)
          by (err b) e h =
              unfold decoded with_call in
              undecoded t b q p e (client_calls_one k _ _ h) (ap (λ x. x.1) h)

      method : (o : Option Kind) → k.resp_err ≡ none → kind_of k.method ≡ o → Handles k
      method (some t) q p = decodes t (unmarshal t k.params) q p refl
      method none q p =
          let h : handle unmarshal k ≡ (none, none) =
            unfold handle handle_checked handle_as in
            ap (handle_checked unmarshal k) q ∙ ap (handle_as unmarshal k) p in
          unknown q p (unfold with_call in client_calls_one k none none h) (ap (λ x. x.1) h)

      failed : (o : Option RequestError) → k.resp_err ≡ o → Handles k
      failed none q = method (kind_of k.method) q refl
      failed (some e) q =
          let h : handle unmarshal k ≡ (some (k.id, response_error k.method e), none) =
            unfold handle handle_checked in ap (handle_checked unmarshal k) q in
          peer_failed e q (unfold with_call in client_calls_one k _ none h) (ap (λ x. x.1) h)
