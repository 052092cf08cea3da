-- ===== src/Db/MemStore/LogIds.antt =====
-- The ids of the log entries find them.
use acpp.Prelude.{
  Bytes, ℕ, zero, suc, ◌+◌, ◌<◌, ◌≤◌, ◌==◌, add64, i64_sign, ◌≡◌, refl, sym, ap, ◌∙◌, arith, false,
  Bool-cases, inl, inr, some, List, [], ◌∷◌, ◌++◌, length, get_elem?, ok,
}
use acpp.Db.MemStore.{LogRow, MemStore}
use acpp.Db.MemStore.Logs.{find_log, found_log, get_log, insert_log}
use acpp.Db.MemStore.Valid.{Numbered, IsValid}

-- In numbered entries an id is a position.
find_log-Numbered :
    (n : ℕ) (ls : List LogRow) (i : ℕ) → Numbered n ls → find_log (n + i) ls ≡ get_elem? ls i
unfolding find_log
find_log-Numbered n [] i h = refl
find_log-Numbered n (l ∷ ls) zero (e, h) = ground arith
find_log-Numbered n (l ∷ ls) (suc i) (e, h) =
    let no : (l.id == n + suc i) ≡ false = ground arith in
    let shift : n + suc i ≡ suc n + i = omega arith in
    rw no (ap (λ k. find_log k ls) shift ∙ find_log-Numbered (suc n) ls i h)

find_log-append :
    (k : ℕ) (ls : List LogRow) (l : LogRow)
    → (k == l.id) ≡ false
    → find_log k (ls ++ l ∷ []) ≡ find_log k ls
unfolding find_log
find_log-append k [] l h = ground arith
find_log-append k (x ∷ ls) l h = elim (Bool-cases (x.id == k)) [
  | inl e ↦ rw e refl
  | inr e ↦ rw e (find_log-append k ls l h)
]

find_log-last :
    (ls : List LogRow) (n : ℕ) (l : LogRow)
    → Numbered n ls
    → l.id ≡ n + length ls
    → find_log l.id (ls ++ l ∷ []) ≡ some l
unfolding find_log
find_log-last [] n l h e = ground arith
find_log-last (x ∷ ls) n l (p, h) e =
    let no : (x.id == l.id) ≡ false = ground arith in
    rw no (find_log-last ls (suc n) l h (omega (arith, e)))

pub entry : {C : Type 0} → MemStore C → Bytes → Bytes → Bytes → ℕ → LogRow
entry m session_id event_type payload now = record {
  id = suc (length m.logs);
  session_id = session_id;
  event_type = event_type;
  payload = payload;
  created_at = now;
}

last_id :
    {C : Type 0} (m : MemStore C) (a b c : Bytes) (now : ℕ)
    → (entry m a b c now).id ≡ 1 + length m.logs
unfolding entry
last_id m a b c now = omega arith

other :
    {C : Type 0} (m : MemStore C) (a b c : Bytes) (now i : ℕ)
    → i ≤ length m.logs
    → (i == (entry m a b c now).id) ≡ false
unfolding entry
other m a b c now i h = ground arith

-- A new entry has the next id and is found under it, and every id before it finds what it found.
pub insert_log_lem :
    {C : Type 0} (m : MemStore C) (session_id event_type payload : Bytes) (now : ℕ)
    → IsValid m
    → length m.logs + 1 < i64_sign
    → let m' = insert_log m session_id event_type payload now in
      get_log m' (suc (length m.logs)) ≡ ok (entry m session_id event_type payload now)
      × ((i : ℕ) → i ≤ length m.logs → get_log m' i ≡ get_log m i)
unfolding insert_log get_log entry
insert_log_lem m session_id event_type payload now v b =
    let seq : add64 m.log_seq 1 ≡ suc (length m.logs) = omega (arith, v.next_number) in
    rw seq (
      ap (found_log (suc (length m.logs))) (
          find_log-last m.logs 1 (entry m session_id event_type payload now) v.logs_numbered
            (last_id m session_id event_type payload now)),
      (λ i h. ap (found_log i) (
          find_log-append i m.logs (entry m session_id event_type payload now)
            (other m session_id event_type payload now i h))),
    )

-- The id of an entry is one more than its place.
pub get_log_lem :
    {C : Type 0} (m : MemStore C) (i : ℕ)
    → IsValid m
    → get_log m (suc i) ≡ found_log (suc i) (get_elem? m.logs i)
unfolding get_log
get_log_lem m i v =
    let e : 1 + i ≡ suc i = omega arith in
    ap (found_log (suc i))
      (ap (λ k. find_log k m.logs) (sym e) ∙ find_log-Numbered 1 m.logs i v.logs_numbered)
