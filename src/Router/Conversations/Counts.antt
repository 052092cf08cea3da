-- ===== src/Router/Conversations/Counts.antt =====
-- How often a conversation began and ended, and what leaves that alone.
use acpp.Prelude.{
  Bytes, text_eq, ℕ, zero, suc, ◌+◌, ◌==◌, ==_iff, arith, ◌≡◌, refl, sym, ap, ◌∙◌, Bool, false,
  Bool-cases, inl, inr, Option, none, some, List, [], ◌∷◌, ◌++◌, if◌then◌else◌, get_elem?, set,
}
use acpp.Router.Conversations.{
  Event, conversation_created, conversation_adopted, conversation_replaced, conversation_closed,
  received, sent, process_closed, detached, cleaned_up, SessionState, Router, happen, set_state,
  close_channel,
}

abbrev one_if : Bool → ℕ
one_if b = if b then 1 else 0

unfoldable pub ends : Bytes → Event → ℕ
ends id (conversation_closed meta e) = one_if (text_eq meta.conversation_id id)
ends id (conversation_created meta) = 0
ends id (conversation_adopted meta) = 0
ends id (conversation_replaced old new) = 0
ends id (received meta msg) = 0
ends id (sent p req) = 0
ends id (process_closed p) = 0
ends id (detached p) = 0
ends id (cleaned_up p force) = 0

unfoldable pub starts : Bytes → Event → ℕ
starts id (conversation_created meta) = one_if (text_eq meta.conversation_id id)
starts id (conversation_adopted meta) = one_if (text_eq meta.conversation_id id)
starts id (conversation_closed meta e) = 0
starts id (conversation_replaced old new) = 0
starts id (received meta msg) = 0
starts id (sent p req) = 0
starts id (process_closed p) = 0
starts id (detached p) = 0
starts id (cleaned_up p force) = 0

unfoldable pub total : (Event → ℕ) → List Event → ℕ
total f [] = 0
total f (e ∷ es) = f e + total f es

-- How often a conversation was closed, and how often it was announced.
abbrev pub closes : Bytes → List Event → ℕ
closes id = total (ends id)

abbrev pub begins : Bytes → List Event → ℕ
begins id = total (starts id)

pub total-append :
    (f : Event → ℕ) (es fs : List Event) → total f (es ++ fs) ≡ total f es + total f fs
unfolding total
total-append f [] fs = omega arith
total-append f (e ∷ es) fs = omega (arith, total-append f es fs)

pub total-snoc :
    (f : Event → ℕ) (es : List Event) (e : Event) → total f (es ++ e ∷ []) ≡ total f es + f e
unfolding total
total-snoc f es e = omega (arith, total-append f es (e ∷ []))

module _ {ℓ} {A : Type ℓ} where
  pub get_elem?-set_self :
      (xs : List A) (i : ℕ) (v w : A) → get_elem? xs i ≡ some w → get_elem? (set xs i v) i ≡ some v
  get_elem?-set_self [] i v w h = cc
  get_elem?-set_self (x ∷ xs) zero v w h = refl
  get_elem?-set_self (x ∷ xs) (suc i) v w h = get_elem?-set_self xs i v w h

  pub get_elem?-set_other :
      (xs : List A) (i j : ℕ) (v : A) → (i == j) ≡ false → get_elem? (set xs i v) j ≡ get_elem? xs j
  get_elem?-set_other [] i j v h = refl
  get_elem?-set_other (x ∷ xs) zero zero v h = cc
  get_elem?-set_other (x ∷ xs) zero (suc j) v h = refl
  get_elem?-set_other (x ∷ xs) (suc i) zero v h = refl
  get_elem?-set_other (x ∷ xs) (suc i) (suc j) v h =
      get_elem?-set_other xs i j v (ground (arith, ==_iff i j, ==_iff (suc i) (suc j)))

module _ {K : Type 0} where
  -- The state at a place, with its conversation's id.
  abbrev pub IsAt : Router K → ℕ → Bytes → Type 0
  IsAt r p id =
      (st : SessionState K) × (get_elem? r.states p ≡ some st) × (st.meta.conversation_id ≡ id)

  -- Nothing begins or ends, and every state keeps its conversation.
  pub record IsQuiet (r r' : Router K) : Type 0 where
    pub same_sessions : r'.sessions ≡ r.sessions
    pub same_closes : (id : Bytes) → closes id r'.trace ≡ closes id r.trace
    pub same_begins : (id : Bytes) → begins id r'.trace ≡ begins id r.trace
    pub same_ids : (p : ℕ) (id : Bytes) → IsAt r p id → IsAt r' p id

  pub IsQuiet-refl : (r : Router K) → IsQuiet r r
  IsQuiet-refl r = record {
    same_sessions = refl;
    same_closes = λ id. refl;
    same_begins = λ id. refl;
    same_ids = λ p id h. h;
  }

  pub IsQuiet-trans : (a b c : Router K) → IsQuiet a b → IsQuiet b c → IsQuiet a c
  IsQuiet-trans a b c h k = record {
    same_sessions = k.same_sessions ∙ h.same_sessions;
    same_closes = λ id. k.same_closes id ∙ h.same_closes id;
    same_begins = λ id. k.same_begins id ∙ h.same_begins id;
    same_ids = λ p id s. k.same_ids p id (h.same_ids p id s);
  }

  pub happen-IsQuiet :
      (r : Router K) (e : Event)
      → ((id : Bytes) → (ends id e ≡ 0) × (starts id e ≡ 0))
      → IsQuiet r (happen r e)
  unfolding happen
  happen-IsQuiet r e silent = record {
    same_sessions = refl;
    same_closes = λ id. omega (arith, total-snoc (ends id) r.trace e, (silent id).0);
    same_begins = λ id. omega (arith, total-snoc (starts id) r.trace e, (silent id).1);
    same_ids = λ p id h. h;
  }

  pub set_state-IsQuiet :
      (r : Router K) (p : ℕ) (st st' : SessionState K)
      → get_elem? r.states p ≡ some st
      → st'.meta.conversation_id ≡ st.meta.conversation_id
      → IsQuiet r (set_state r p st')
  unfolding set_state
  set_state-IsQuiet r p st st' h e = record {
    same_sessions = refl;
    same_closes = λ id. refl;
    same_begins = λ id. refl;
    same_ids = λ q id (s, g, i). elim (Bool-cases (p == q)) [
      | inl t ↦
          let same : p ≡ q = (==_iff p q).0 t in
          let one : some st ≡ some s = sym h ∙ ap (get_elem? r.states) same ∙ g in
          let one' : st ≡ s = cc in
          (
            st',
            ap (get_elem? (set r.states p st')) (sym same) ∙ get_elem?-set_self r.states p st' st h,
            e ∙ ap (λ x. x.meta.conversation_id) one' ∙ i,
          )
      | inr t ↦ (s, get_elem?-set_other r.states p q st' t ∙ g, i)
    ];
  }

  pub close_channel-IsQuiet : (r : Router K) (o : Option ℕ) → IsQuiet r (close_channel r o)
  unfolding close_channel
  close_channel-IsQuiet r none = IsQuiet-refl r
  close_channel-IsQuiet r (some c) = record {
    same_sessions = refl;
    same_closes = λ id. refl;
    same_begins = λ id. refl;
    same_ids = λ p id h. h;
  }
