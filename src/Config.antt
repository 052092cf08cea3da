-- ===== src/Config.antt =====
-- config/config.go: the rules that answer a request for a tool. `lower` is `strings.ToLower`.
pub mod Glob
pub mod Rules
pub mod Hooks
use acpp.Prelude.{
  Bytes, codes, text_eq, has_prefix, has_suffix, split, after_first, ℕ, ◌+◌, ◌-◌, ◌==◌, ltb, Bool,
  true, false, ◌&&◌, Option, none, some, List, [], ◌∷◌, if◌then◌else◌, length, drop,
}
use acpp.Db.Map.{Map, lookup}

-- '*'
abbrev pub star : ℕ
star = 42

pub record ToolPermissionRule : Type 0 where
  pub title : Bytes
  pub input : Map Bytes
  pub action : Bytes

unfoldable pub contains_star : Bytes → Bool
contains_star [] = false
contains_star (c ∷ s) = let rest = contains_star s in if c == star then true else rest

-- The segments after the first: all but the last are taken at their first place.
unfoldable pub match_segments : List Bytes → Bytes → Bool
match_segments [] s = false
match_segments (last ∷ []) s = has_suffix s last
match_segments (p ∷ q ∷ ps) s = elim (after_first s p) [
  | none ↦ false
  | some rest ↦ match_segments (q ∷ ps) rest
]

unfoldable pub match_parts : List Bytes → Bytes → Bool
unfolding match_segments
match_parts [] s = false
match_parts (p ∷ ps) s = if has_prefix s p then match_segments ps (drop (length p) s) else false

unfoldable pub wildcard_match : Bytes → Bytes → Bool
unfolding match_parts contains_star
wildcard_match pattern s =
    if contains_star pattern then match_parts (split pattern star) s else text_eq pattern s

module _ (lower : Bytes → Bytes) where
  unfoldable pub matches_value : Bytes → Option Bytes → Bool
  unfolding wildcard_match
  matches_value pattern none = false
  matches_value pattern (some value) = wildcard_match (lower pattern) (lower value)

  -- Every pattern of the rule matches the parameter it names.
  unfoldable pub match_input : Map Bytes → Map Bytes → Bool
  unfolding matches_value
  match_input [] input = true
  match_input ((name, pattern) ∷ ps) input =
      let rest = match_input ps input in
      if matches_value pattern (lookup input name) then rest else false

  unfoldable pub is_empty : Map Bytes → Bool
  is_empty [] = true
  is_empty (e ∷ es) = false

  unfoldable pub matches_title : Bytes → Bytes → Bool
  unfolding wildcard_match
  matches_title title title_lower =
      if text_eq title [] then true else wildcard_match (lower title) title_lower

  unfoldable pub match_rule : ToolPermissionRule → Bytes → Map Bytes → Bool
  unfolding is_empty matches_title match_input
  match_rule rule title_lower input =
      if text_eq rule.title [] && is_empty rule.input
      then false
      else (if matches_title rule.title title_lower then match_input rule.input input else false)

  unfoldable pub first_match : List ToolPermissionRule → Bytes → Map Bytes → Bytes
  unfolding match_rule
  first_match [] title_lower input = []
  first_match (rule ∷ rules) title_lower input =
      let rest = first_match rules title_lower input in
      if match_rule rule title_lower input then rule.action else rest

  unfoldable pub match_tool_permission : List ToolPermissionRule → Bytes → Map Bytes → Bytes
  unfolding first_match
  match_tool_permission rules title input = first_match rules (lower title) input
