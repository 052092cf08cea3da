-- ===== src/Acp/Connection/Correlation/Lines.antt =====
-- What a line of the peer does to the requests that wait.
use acpp.Prelude.{
  Bytes, text_eq, arith, length, drop, drop_all, ◌≡◌, refl, sym, ap, ◌∙◌, Bool-cases, inl, inr,
  Option, none, some, List, [], ◌∷◌, ◌++◌, Result, ok, err,
}
use mathlib.Core.Path.{subst, subst₂}
use acpp.Db.Map.{Map, remove, lookup-remove-none, remove-All}
use acpp.Acp.Messages.{RequestError, AnyMessage, Wire}
use acpp.Acp.Connection.{
  Call, Connection, response_call, handle_inbound, dispatch_response, dispatch_id, received,
  receive_line,
}
use acpp.Acp.Connection.Correlation.Invariant.{IsTracked, fewer, taken_one}
use acpp.Acp.Connection.Numbers.{receive_line_cases}
use acpp.Acp.Connection.Steps.{
  Brings, dispatch_response-Brings, dispatch_response_keeps, Keeps, handle_inbound-Keeps,
}
use acpp.Acp.Connection.Correlation.{methods_under, response_id, if_response}

response_call-method :
    (method : Bytes) (msg : AnyMessage) (e : Option RequestError)
    → (response_call method msg e).method ≡ method
unfolding response_call
response_call-method method msg none = refl
response_call-method method msg (some e) = refl

if_response-nil : (o : Option Bytes) (d : Map Bytes) → if_response o [] d ≡ d
unfolding if_response
if_response-nil none d = refl
if_response-nil (some id) d = refl

last_call : (xs : List Call) (k : Call) → drop (length xs) (xs ++ k ∷ []) ≡ k ∷ []
last_call [] k = refl
last_call (x ∷ xs) k = last_call xs k

module _ {P W : Type 0} (E : Wire P W) where
  abbrev pub Tracks : Connection W → Map Bytes → Map Bytes → Type 0
  Tracks c s d = IsTracked E.digits c.pending c.next_id s d

  pub Keeps-Tracks :
      (c c' : Connection W) (s d : Map Bytes) → Keeps c c' → Tracks c s d → Tracks c' s d
  Keeps-Tracks c c' s d k t =
      subst₂ (λ p n. IsTracked E.digits p n s d) (sym k.pending) (sym k.next_id) t

  no_calls :
      (c : Connection W) (o : Option Bytes) (s d : Map Bytes)
      → Tracks c s d
      → Tracks c s (if_response o (drop (length c.calls) c.calls) d)
  no_calls c o s d t =
      let e : drop (length c.calls) c.calls ≡ [] =
        drop_all (length c.calls) c.calls (omega arith) in
      subst (Tracks c s) (sym (ap (λ x. if_response o x d) e ∙ if_response-nil o d)) t

  response-Tracks :
      (c : Connection W) (msg : AnyMessage) (id : Bytes) (s d : Map Bytes)
      → Tracks c s d
      → Tracks
          (dispatch_response c msg id)
          s
          (methods_under id (drop (length c.calls) (dispatch_response c msg id).calls) ++ d)
  response-Tracks c msg id s d t = brings (dispatch_response-Brings c msg id)
    where
      moved :
          (d' : Map Bytes)
          → IsTracked E.digits (remove c.pending id) c.next_id s d'
          → Tracks (dispatch_response c msg id) s d'
      moved d' r =
          let k = dispatch_response_keeps c msg id in
          subst₂ (λ p n. IsTracked E.digits p n s d') (sym k.0) (sym k.1) r

      brings :
          Brings c id msg (dispatch_response c msg id)
          → Tracks
              (dispatch_response c msg id)
              s
              (methods_under id (drop (length c.calls) (dispatch_response c msg id).calls) ++ d)
      brings (inl e) =
          let e' : drop (length c.calls) (dispatch_response c msg id).calls ≡ [] =
            ap (drop (length c.calls)) e ∙ drop_all (length c.calls) c.calls (omega arith) in
          subst (Tracks (dispatch_response c msg id) s) (sym (ap (λ x. methods_under id x ++ d) e'))
            (moved d (
              fewer E.digits c.next_id c.pending (remove c.pending id) s d
                (λ Q h. remove-All Q c.pending id h) (lookup-remove-none c.pending id) t))
      brings (inr (method, (p, e))) =
          let e' : drop (length c.calls) (dispatch_response c msg id).calls
              ≡ response_call method msg msg.error ∷ [] =
            ap (drop (length c.calls)) e ∙ last_call c.calls (response_call method msg msg.error) in
          subst (Tracks (dispatch_response c msg id) s)
            (sym (
              ap (λ x. methods_under id x ++ d) e'
              ∙ ap (λ x. (id, x) ∷ d) (response_call-method method msg msg.error)))
            (moved ((id, method) ∷ d) (taken_one E.digits c.next_id c.pending s d id method p t))

  received-Tracks :
      (c : Connection W) (r : Result Bytes AnyMessage) (s d : Map Bytes)
      → Tracks c s d
      → Tracks
          (received E c r)
          s
          (if_response (response_id r) (drop (length c.calls) (received E c r).calls) d)
  unfolding received response_id if_response
  received-Tracks c (err e) s d t = no_calls c none s d t
  received-Tracks c (ok msg) s d t = elim (Bool-cases (text_eq msg.method [])) [
    | inl e ↦ rw e (by msg.id)
    | inr e ↦ rw e (Keeps-Tracks c (handle_inbound E c msg) s d (handle_inbound-Keeps E c msg) t)
  ]
    where
      by :
          (o : Option Bytes)
          → Tracks
              (dispatch_id o c msg)
              s
              (if_response o (drop (length c.calls) (dispatch_id o c msg).calls) d)
      by none = no_calls c none s d t
      by (some id) = unfold if_response dispatch_id in response-Tracks c msg id s d t

  pub line-Tracks :
      (c : Connection W) (l : Bytes) (s d : Map Bytes)
      → Tracks c s d
      → Tracks (receive_line E c l) s (
          if_response
            (response_id (E.decode l))
            (drop (length c.calls) (receive_line E c l).calls)
            d)
  line-Tracks c l s d t = elim (receive_line_cases E c l) [
    | inl e ↦ subst After (sym e) (no_calls c (response_id (E.decode l)) s d t)
    | inr e ↦ subst After (sym e) (received-Tracks c (E.decode l) s d t)
  ]
    where
      After : Connection W → Type 0
      After c' =
          Tracks c' s (if_response (response_id (E.decode l)) (drop (length c.calls) c'.calls) d)
