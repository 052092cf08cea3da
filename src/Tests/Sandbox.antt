-- ===== src/Tests/Sandbox.antt =====
-- sandbox/: the theorem at a small environment. No entry has a blank at an end.
use acpp.Prelude.{Bytes, codes, has_prefix, text_eq, cut, split, ◌≡◌, refl, List, [], ◌∷◌}
use acpp.Sandbox.{new_env_matcher, filter_env, parse_env_list}
use acpp.Sandbox.Allowed.{Passes, IsFiltered, filter_env_lem}

abbrev as_is : Bytes → Bytes
as_is s = s

abbrev host : List Bytes
host =
    codes "PATH=/bin"
    ∷ codes "AWS_KEY=x"
    ∷ codes "ANTHROPIC_KEY=y=z"
    ∷ codes "broken"
    ∷ codes "GO_X=1"
    ∷ []

abbrev pass_env : List Bytes
pass_env = parse_env_list as_is (codes "GO_*,-ANTHROPIC_KEY")

filter_env_lem_example :
    IsFiltered as_is (Passes as_is pass_env) host (filter_env (new_env_matcher as_is pass_env) host)
filter_env_lem_example = filter_env_lem as_is pass_env host

filtered :
    filter_env (new_env_matcher as_is pass_env) host ≡ codes "PATH=/bin" ∷ codes "GO_X=1" ∷ []
unfolding filter_env new_env_matcher parse_env_list has_prefix text_eq cut split
filtered = refl
