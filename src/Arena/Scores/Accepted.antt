-- ===== src/Arena/Scores/Accepted.antt =====
-- What holds of scores that are accepted.
use acpp.Prelude.{All, Bytes, text_eq, ◌≡◌, true, false, ◌||◌, List, [], ◌∷◌}
use acpp.Arena.{mem}
use acpp.Arena.Scores.{Score, in_range}

abbrev pub ids : List Score → List Bytes
ids [] = []
ids (s ∷ ss) = s.id ∷ ids ss

-- No two scores have one id.
abbrev pub Distinct : List Score → Type 0
Distinct [] = Unit
Distinct (s ∷ ss) = All (λ t. text_eq s.id t.id ≡ false) ss × Distinct ss

-- A score of a wanted id, and in 1..10.
pub record IsWanted (want : List Bytes) (s : Score) : Type 0 where
  pub known : mem s.id want ≡ true
  pub ranged : in_range s.score ≡ true

pub record Accepted (want : List Bytes) (ss : List Score) : Type 0 where
  pub wanted : All (IsWanted want) ss
  pub distinct : Distinct ss
  pub complete : All (λ id. mem id (ids ss) ≡ true) want

-- What the rest of the loop shows, with the ids seen so far.
record Rest (want seen : List Bytes) (ss : List Score) : Type 0 where
  wanted : All (IsWanted want) ss
  distinct : Distinct ss
  fresh : All (λ s. mem s.id seen ≡ false) ss
  complete : All (λ id. mem id seen || mem id (ids ss) ≡ true) want
