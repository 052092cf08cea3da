-- ===== src/Arena.antt =====
-- arena: several agents on one task, each judged by the others.
pub mod Scores
pub mod Plan
pub mod Meta
pub mod Report
use acpp.Prelude.{Bytes, text_eq, Bool, true, false, List, [], ◌∷◌, if◌then◌else◌, ◌≡◌, ◌+◌}

-- A Go map to true, as the list of its keys.
unfoldable pub mem : Bytes → List Bytes → Bool
mem x [] = false
mem x (y ∷ ys) = if text_eq y x then true else mem x ys
