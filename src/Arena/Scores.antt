-- ===== src/Arena/Scores.antt =====
-- arena/scores.go. The JSON decoder is a parameter.
pub mod Accepted
use acpp.Prelude.{
  ℕ, Bytes, ◌+◌, ◌-◌, ◌==◌, leb, ltb, take, drop, length, Bool, true, false, ◌&&◌, Option, none,
  some, List, [], ◌∷◌, if◌then◌else◌, ℤ, pos, negsuc, Result, ok, err,
}
use acpp.Arena.{mem}

pub record Score : Type 0 where
  pub id : Bytes
  pub score : ℤ
  pub rationale : Bytes

pub data Error : Type 0 where
  invalid_json : Error
  unknown_id duplicate_id out_of_range missing_score : Bytes → Error

-- `strings.IndexByte` and `strings.LastIndexByte`
index_byte : Bytes → ℕ → Option ℕ
index_byte [] c = none
index_byte (b ∷ s) c =
    if b == c then some 0 else elim (index_byte s c) [ none ↦ none | some i ↦ some (i + 1) ]

last_index_byte : Bytes → ℕ → Option ℕ
last_index_byte [] c = none
last_index_byte (b ∷ s) c = elim (last_index_byte s c) [
  | none ↦ if b == c then some 0 else none
  | some i ↦ some (i + 1)
]

between : Bytes → Option ℕ → Option ℕ → Bytes
between data_ none end = data_
between data_ (some start) none = data_
between data_ (some start) (some end) =
    if ltb start end then drop start (take (end + 1) data_) else data_

-- From the first '[' to the last ']'.
unfoldable pub extract_json_array : Bytes → Bytes
unfolding between index_byte last_index_byte
extract_json_array data_ = between data_ (index_byte data_ 91) (last_index_byte data_ 93)

unfoldable pub in_range : ℤ → Bool
in_range (pos n) = leb 1 n && leb n 10
in_range (negsuc n) = false

unfoldable pub check_missing : List Bytes → List Bytes → Option Error
unfolding mem
check_missing [] seen = none
check_missing (id ∷ ids) seen =
    if mem id seen then check_missing ids seen else some (missing_score id)

unfoldable pub check_scores : List Bytes → List Bytes → List Score → Option Error
unfolding check_missing mem in_range
check_scores want seen [] = check_missing want seen
check_scores want seen (s ∷ ss) =
    let rest = check_scores want (s.id ∷ seen) ss in
    if mem s.id want
    then if mem s.id seen
      then some (duplicate_id s.id)
      else (if in_range s.score then rest else some (out_of_range s.id))
    else some (unknown_id s.id)

checked : List Score → Option Error → Result Error (List Score)
checked scores none = ok scores
checked scores (some e) = err e

decoded : List Bytes → Option (List Score) → Result Error (List Score)
unfolding checked check_scores
decoded want none = err invalid_json
decoded want (some scores) = checked scores (check_scores want [] scores)

unfoldable pub parse_scores :
    (Bytes → Option (List Score)) → Bytes → List Bytes → Result Error (List Score)
unfolding decoded extract_json_array
parse_scores unmarshal data_ want_ids = decoded want_ids (unmarshal (extract_json_array data_))
