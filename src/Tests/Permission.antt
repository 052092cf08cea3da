-- ===== src/Tests/Permission.antt =====
-- permission/allow_all.go: the theorem at concrete options.
use acpp.Prelude.{codes, has_prefix, ◌≡◌, refl, some, List, [], ◌∷◌}
use acpp.Permission.{PermissionOption, decide, selected}

abbrev options : List PermissionOption
options =
    record { kind = codes "reject_once"; name = []; option_id = codes "1" }
    ∷ record { kind = codes "allow_always"; name = []; option_id = codes "2" }
    ∷ record { kind = codes "allow_once"; name = []; option_id = codes "3" }
    ∷ []

decide_test : decide options ≡ some (selected (codes "3"))
unfolding decide has_prefix
decide_test = refl
