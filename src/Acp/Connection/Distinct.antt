-- ===== src/Acp/Connection/Distinct.antt =====
-- Keys that are there once.
use acpp.Prelude.{All, Bytes, text_eq, ◌≡◌, false, [], ◌∷◌}
use acpp.Db.Map.{Map}

abbrev pub Distinct : Map Bytes → Type 0
Distinct [] = Unit
Distinct (e ∷ m) = All (λ d. text_eq d.0 e.0 ≡ false) m × Distinct m
