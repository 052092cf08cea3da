-- ===== src/Db/MemStore/Listing/Pages.antt =====
-- The pages of the list of sessions.
use Prim.Native.Nat.{min}
use acpp.Prelude.{
  All, ◌==◌, ◌∷◌, Bool-cases, ℕ, zero, suc, ◌+◌, ◌-◌, ◌*◌, ◌<◌, ◌≤◌, i64_sign, ltb, leb, ◌≡◌, refl,
  sym, ap, ◌∙◌, arith, false, Option, none, some, List, [], ◌++◌, length, take, drop, take-min,
  drop-drop, drop_all, length-drop, take-append-drop, inl, inr,
}
use acpp.Db.Map.{Map, values}
use acpp.Db.Order.{insert_by, sort_by}
use acpp.Db.MemStore.{SessionRow, MemStore}
use acpp.Db.MemStore.Listing.{newer, list_sessions, list_sessions_page, page_of}

take_nil : {A : Type 0} (n : ℕ) → take {A = A} n [] ≡ []
take_nil zero = refl
take_nil (suc n) = refl

length-values : {V : Type 0} (m : Map V) → length (values m) ≡ length m
unfolding values
length-values [] = refl
length-values (e ∷ m) = ap suc (length-values m)

-- The second list has the elements of the first, each one as often, in some order.
pub data Reorders {A : Type 0} : List A → List A → Type 0 where
  nil : Reorders [] []
  cons : {x : A} {xs ys : List A} → Reorders xs ys → Reorders (x ∷ xs) (x ∷ ys)
  swap : {x y : A} {xs : List A} → Reorders (x ∷ y ∷ xs) (y ∷ x ∷ xs)
  trans : {xs ys zs : List A} → Reorders xs ys → Reorders ys zs → Reorders xs zs

pub unchanged : {A : Type 0} (xs : List A) → Reorders xs xs
unchanged [] = nil
unchanged (x ∷ xs) = cons (unchanged xs)

module _ {C : Type 0} where
  next_page :
      Option (List (SessionRow C) × ℕ) → Option (List (SessionRow C)) → Option (List (SessionRow C))
  next_page none rest = none
  next_page (some (page, total)) none = none
  next_page (some (page, total)) (some rest) = some (page ++ rest)

  -- A client that asks for page after page, `rounds` of them. Each call ranges over the map anew, in the
  -- order that `orders` has for its offset.
  unfoldable pub read_pages :
      (ℕ → List (SessionRow C) → List (SessionRow C))
      → MemStore C
      → ℕ
      → ℕ
      → ℕ
      → Option (List (SessionRow C))
  unfolding next_page
  read_pages orders m limit zero offset = some []
  read_pages orders m limit (suc rounds) offset =
      next_page (list_sessions_page (orders offset) m limit offset)
        (read_pages orders m limit rounds (offset + limit))

  page_of_lem :
      (all : List (SessionRow C)) (limit offset : ℕ)
      → offset + limit < i64_sign
      → page_of all limit offset ≡ some (take limit (drop offset all), length all)
  unfolding page_of
  page_of_lem all limit offset b = elim (Bool-cases (ltb (length all) offset)) [
    | inl e ↦
        let no : leb i64_sign (length all + limit) ≡ false = ground arith in
        let past : drop offset all ≡ [] = drop_all offset all (ground arith) in
        let end : drop (length all) all ≡ [] = drop_all (length all) all (omega arith) in
        rw (e, no, past, end) (ap (λ x. some (x, length all)) (take_nil _ ∙ sym (take_nil limit)))
    | inr e ↦
        let no : leb i64_sign (offset + limit) ≡ false = ground arith in
        let size : min (offset + limit) (length all) - offset
            ≡ min limit (length (drop offset all)) =
          ground (arith, length-drop offset all) in
        rw (e, no, size, take-min limit (drop offset all)) refl
  ]

  page_then_rest :
      (limit offset : ℕ) (all : List (SessionRow C))
      → take limit (drop offset all) ++ drop (offset + limit) all ≡ drop offset all
  page_then_rest limit offset all =
      ap (λ x. take limit (drop offset all) ++ x) (sym (drop-drop offset limit all))
      ∙ take-append-drop limit (drop offset all)

  -- No two of the sessions were created at one time.
  abbrev pub Apart : List (SessionRow C) → Type 0
  Apart [] = Unit
  Apart (x ∷ xs) = All (λ y. (x.created_at == y.created_at) ≡ false) xs × Apart xs

  All-Reorders :
      (P : SessionRow C → Type 0) {xs ys : List (SessionRow C)}
      → Reorders xs ys
      → All P xs
      → All P ys
  All-Reorders P nil h = tt
  All-Reorders P (cons d) (p, h) = (p, All-Reorders P d h)
  All-Reorders P swap (p, (q, h)) = (q, (p, h))
  All-Reorders P (trans d e) h = All-Reorders P e (All-Reorders P d h)

  Apart-Reorders : {xs ys : List (SessionRow C)} → Reorders xs ys → Apart xs → Apart ys
  Apart-Reorders nil h = tt
  Apart-Reorders (cons d) (h, s) = (All-Reorders _ d h, Apart-Reorders d s)
  Apart-Reorders swap ((x, h), (k, s)) = ((ground (arith, x), k), (h, s))
  Apart-Reorders (trans d e) h = Apart-Reorders e (Apart-Reorders d h)

  insert_by_swap :
      (x y : SessionRow C) (zs : List (SessionRow C))
      → (x.created_at == y.created_at) ≡ false
      → insert_by newer x (insert_by newer y zs) ≡ insert_by newer y (insert_by newer x zs)
  unfolding insert_by newer
  insert_by_swap x y [] h = ground arith
  insert_by_swap x y (z ∷ zs) h = ground (arith, insert_by_swap x y zs h)

  -- The order in which the sessions come does not matter to the sort.
  sort_by-Reorders :
      {xs ys : List (SessionRow C)}
      → Reorders xs ys
      → Apart xs
      → sort_by newer xs ≡ sort_by newer ys
  unfolding sort_by
  sort_by-Reorders nil h = refl
  sort_by-Reorders (cons {x} d) (h, s) = ap (insert_by newer x) (sort_by-Reorders d s)
  sort_by-Reorders (swap {x} {y} {xs}) ((e, h), (k, s)) = insert_by_swap x y (sort_by newer xs) e
  sort_by-Reorders (trans d e) h = sort_by-Reorders d h ∙ sort_by-Reorders e (Apart-Reorders d h)

  length-insert_by :
      (x : SessionRow C) (ys : List (SessionRow C))
      → length (insert_by newer x ys) ≡ suc (length ys)
  unfolding insert_by
  length-insert_by x [] = refl
  length-insert_by x (y ∷ ys) = ground (arith, length-insert_by x ys)

  length-sort_by : (xs : List (SessionRow C)) → length (sort_by newer xs) ≡ length xs
  unfolding sort_by
  length-sort_by [] = refl
  length-sort_by (x ∷ xs) = length-insert_by x (sort_by newer xs) ∙ ap suc (length-sort_by xs)

  length-list : (m : MemStore C) → length (list_sessions (λ ss. ss) m) ≡ length m.sessions
  unfolding list_sessions
  length-list m = length-sort_by (values m.sessions) ∙ length-values m.sessions

  -- If no two sessions were created at one time, then in whatever order each call ranges over the map, the
  -- pages from an offset on, enough of them to reach the end, make up the rest of the one list.
  pub read_pages_lem :
      (orders : ℕ → List (SessionRow C) → List (SessionRow C)) (m : MemStore C)
      (limit rounds offset : ℕ)
      → ((n : ℕ) → Reorders (values m.sessions) (orders n (values m.sessions)))
      → Apart (values m.sessions)
      → offset + rounds * limit < i64_sign
      → length m.sessions ≤ offset + rounds * limit
      → read_pages orders m limit rounds offset ≡ some (drop offset (list_sessions (λ ss. ss) m))
  unfolding read_pages list_sessions_page
  read_pages_lem orders m limit zero offset o a b h =
      ap some (sym (drop_all offset (list_sessions (λ ss. ss) m) (omega (arith, length-list m))))
  read_pages_lem orders m limit (suc rounds) offset o a b h =
      let all = list_sessions (λ ss. ss) m in
      let same : list_sessions (orders offset) m ≡ all =
        unfold list_sessions in sym (sort_by-Reorders (o offset) a) in
      let here =
        ap (λ x. page_of x limit offset) same ∙ page_of_lem all limit offset (omega arith) in
      let rest =
        read_pages_lem orders m limit rounds (offset + limit) o a (omega arith) (omega arith) in
      ap (λ p. next_page p (read_pages orders m limit rounds (offset + limit))) here
      ∙ ap (next_page (some (take limit (drop offset all), length all))) rest
      ∙ ap some (page_then_rest limit offset all)
