-- ===== src/Tests/Config.antt =====
-- config/: the theorems at concrete rules. The texts are in lower case, so lowering them is no change.
use acpp.Prelude.{
  ℕ, ◌==◌, Bool, false, Bool-cases, inl, inr, if◌then◌else◌, if_true, if_false, sym, ◌∙◌, Lacks,
  arith, ok, All, Bytes, codes, text_eq, has_prefix, has_suffix, split, after_first, ◌≡◌, ◌↔◌, ◌⊎◌,
  refl, true, List, [], ◌∷◌, ◌++◌,
}
use acpp.Db.Map.{Map, lookup}
use acpp.Config.{ToolPermissionRule, wildcard_match, match_tool_permission}
use acpp.Config.Glob.{Matches, wildcard_match_lem}
use acpp.Config.Rules.{Applies, match_tool_permission_lem}
use acpp.Config.Hooks.{HookConfig, parse_hook_list, format_hook_list}
use acpp.Config.Hooks.Params.{IsHook}
use acpp.Config.Hooks.RoundTrip.{parse_hook_list-format_hook_list}
use acpp.Db.MemStore.Listing.{text_lt}

-- Whether no byte is the given one.
abbrev lacks : Bytes → ℕ → Bool
lacks [] c = true
lacks (d ∷ s) c = let rest = lacks s c in if d == c then false else rest

lacks_test : (s : Bytes) (c : ℕ) → lacks s c ≡ true → Lacks c s
lacks_test [] c h = tt
lacks_test (d ∷ s) c h = elim (Bool-cases (d == c)) [
  | inl e ↦ let bad : false ≡ true = sym (if_true _ _ e) ∙ h in absurd (cc)
  | inr e ↦ (ground (arith, e), lacks_test s c (sym (if_false _ _ e) ∙ h))
]

abbrev same : Bytes → Bytes
same s = s

wildcard_match_lem_example :
    (wildcard_match (codes "git *status") (codes "git -c a/b status") ≡ true)
    ↔ Matches (codes "git *status") (codes "git -c a/b status")
wildcard_match_lem_example = wildcard_match_lem (codes "git *status") (codes "git -c a/b status")

slashes : wildcard_match (codes "git *status") (codes "git -c a/b status") ≡ true
unfolding wildcard_match split has_prefix has_suffix after_first text_eq
slashes = refl

abbrev rules : List ToolPermissionRule
rules =
    record {
      title = codes "bash";
      input = (codes "command", codes "rm *") ∷ [];
      action = codes "deny";
    }
    ∷ record { title = codes "*"; input = []; action = codes "ask" }
    ∷ []

abbrev listing : Map Bytes
listing = (codes "command", codes "ls -l") ∷ []

match_tool_permission_lem_example :
    (All (λ r. ¬ Applies same r (codes "bash") listing) rules
      × (match_tool_permission same rules (codes "bash") listing ≡ []))
    ⊎ ((before after : List ToolPermissionRule) × (rule : ToolPermissionRule) × (rules
          ≡ before ++ rule ∷ after)
        × All (λ r. ¬ Applies same r (codes "bash") listing) before
        × Applies same rule (codes "bash") listing
        × (match_tool_permission same rules (codes "bash") listing ≡ rule.action))
match_tool_permission_lem_example = match_tool_permission_lem same rules (codes "bash") listing

asked : match_tool_permission same rules (codes "bash") listing ≡ codes "ask"
unfolding match_tool_permission text_eq lookup split has_prefix has_suffix
asked = refl

abbrev worktree : HookConfig
worktree = record {
  type_name = codes "worktree";
  params = (codes "location", codes "/tmp") ∷ (codes "mode", codes "f") ∷ [];
}

is_given : IsHook same worktree
unfolding text_eq text_lt
is_given = record {
  type_given = refl;
  type_trimmed = refl;
  no_colon = lacks_test (codes "worktree") 58 refl;
  no_comma = lacks_test (codes "worktree") 44 refl;
  entry_trimmed = refl;
  holds = (
    record {
      key_given = refl;
      key_trimmed = refl;
      key_plain = lacks_test (codes "location") 61 refl;
      trimmed = refl;
      no_semicolon = lacks_test (codes "location=/tmp") 59 refl;
      no_comma = lacks_test (codes "location=/tmp") 44 refl;
    },
    (
      record {
        key_given = refl;
        key_trimmed = refl;
        key_plain = lacks_test (codes "mode") 61 refl;
        trimmed = refl;
        no_semicolon = lacks_test (codes "mode=f") 59 refl;
        no_comma = lacks_test (codes "mode=f") 44 refl;
      },
      tt,
    ),
  );
  rises = ((refl, tt), (tt, tt));
}

parse_hook_list-format_hook_list_example :
    parse_hook_list same (format_hook_list (worktree ∷ [])) ≡ ok (worktree ∷ [])
parse_hook_list-format_hook_list_example =
    parse_hook_list-format_hook_list same (worktree ∷ []) refl (is_given, tt)
