-- ===== src/Remote/Bytes.antt =====
-- Bytes and the calls of Go's `bytes` package that remote/buffer.go makes.
use acpp.Prelude.{
  Bytes, newline, ◌≢◌, ℕ, zero, suc, ◌-◌, ◌≡◌, ◌⊎◌, Option, none, some, [], ◌∷◌, arith, ◌==◌,
  if◌then◌else◌, get_elem?, drop, ◌+◌,
}

-- `bytes.LastIndexByte`; `none` is -1.
pub last_index_byte : Bytes → ℕ → Option ℕ
last_index_byte [] c = none
last_index_byte (x ∷ xs) c = elim (last_index_byte xs c) [
  | some i ↦ some (suc i)
  | none ↦ if x == c then some 0 else none
]

pub last_index_byte-hit :
    (xs : Bytes) (c i : ℕ) → last_index_byte xs c ≡ some i → get_elem? xs i ≡ some c
unfolding last_index_byte
last_index_byte-hit [] c i h = cc
last_index_byte-hit (x ∷ xs) c zero h = ground (arith)
last_index_byte-hit (x ∷ xs) c (suc i) h = ground (arith, last_index_byte-hit xs c i)

-- No later place holds the byte.
pub last_index_byte-rest :
    (xs : Bytes) (c i : ℕ)
    → last_index_byte xs c ≡ some i
    → last_index_byte (drop (i + 1) xs) c ≡ none
unfolding last_index_byte
last_index_byte-rest [] c i h = cc
last_index_byte-rest (x ∷ xs) c zero h = ground arith
last_index_byte-rest (x ∷ xs) c (suc i) h = ground (arith, last_index_byte-rest xs c i)

-- Position `k` of the text starts a line.
abbrev pub IsLineStart : ℕ → Bytes → Type 0
IsLineStart k s = (k ≡ 0) ⊎ (get_elem? s (k - 1) ≡ some newline)

pub last_index_byte-none :
    (xs : Bytes) (c i : ℕ) → last_index_byte xs c ≡ none → get_elem? xs i ≢ some c
unfolding last_index_byte
last_index_byte-none [] c i h e = cc
last_index_byte-none (x ∷ xs) c zero h e = ground arith
last_index_byte-none (x ∷ xs) c (suc i) h e = ground (arith, last_index_byte-none xs c i)
