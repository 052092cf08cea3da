-- ===== src/Sandbox.antt =====
-- sandbox/env.go: which variables of the host an agent in a sandbox sees. `trim` is `strings.TrimSpace`.
pub mod Filter
pub mod Allowed
use acpp.Prelude.{
  Bytes, codes, text_eq, has_prefix, split, cut, ℕ, ◌==◌, Bool, true, false, Option, none, some,
  List, [], ◌∷◌, ◌++◌, if◌then◌else◌,
}

abbrev pub default_pass_env : List Bytes
default_pass_env =
    codes "PATH"
    ∷ codes "HOME"
    ∷ codes "USER"
    ∷ codes "LOGNAME"
    ∷ codes "SHELL"
    ∷ codes "TERM"
    ∷ codes "LANG"
    ∷ codes "LC_*"
    ∷ codes "TZ"
    ∷ codes "XDG_CONFIG_HOME"
    ∷ codes "XDG_CACHE_HOME"
    ∷ codes "XDG_DATA_HOME"
    ∷ codes "HTTP_PROXY"
    ∷ codes "HTTPS_PROXY"
    ∷ codes "NO_PROXY"
    ∷ codes "http_proxy"
    ∷ codes "https_proxy"
    ∷ codes "no_proxy"
    ∷ codes "SSL_CERT_FILE"
    ∷ codes "SSL_CERT_DIR"
    ∷ codes "NODE_EXTRA_CA_CERTS"
    ∷ codes "CURL_CA_BUNDLE"
    ∷ codes "ANTHROPIC_*"
    ∷ codes "CLAUDE_CODE_*"
    ∷ codes "CLAUDE_CONFIG_DIR"
    ∷ []

pub record EnvMatcher : Type 0 where
  pub allow : List Bytes
  pub deny : List Bytes

unfoldable pub put_before : ℕ → Option Bytes → Option Bytes
put_before c none = none
put_before c (some p) = some (c ∷ p)

-- `strings.CutSuffix` by "*"
unfoldable pub cut_star : Bytes → Option Bytes
unfolding put_before
cut_star [] = none
cut_star (c ∷ []) = if c == 42 then some [] else none
cut_star (c ∷ d ∷ s) = put_before c (cut_star (d ∷ s))

unfoldable pub match_prefix_or_name : Bytes → Bytes → Option Bytes → Bool
match_prefix_or_name pattern name none = text_eq pattern name
match_prefix_or_name pattern name (some prefix) = has_prefix name prefix

unfoldable pub match_env_name : Bytes → Bytes → Bool
unfolding match_prefix_or_name cut_star
match_env_name pattern name = match_prefix_or_name pattern name (cut_star pattern)

-- Whether one of the patterns matches.
unfoldable pub any_matches : List Bytes → Bytes → Bool
unfolding match_env_name
any_matches [] name = false
any_matches (p ∷ ps) name =
    let rest = any_matches ps name in if match_env_name p name then true else rest

unfoldable pub allows : EnvMatcher → Bytes → Bool
unfolding any_matches
allows m name = if any_matches m.deny name then false else any_matches m.allow name

unfoldable pub passes : EnvMatcher → Option (Bytes × Bytes) → Bool
unfolding allows
passes m none = false
passes m (some (name, value)) = allows m name

-- '='
unfoldable pub filter_env : EnvMatcher → List Bytes → List Bytes
unfolding passes
filter_env m [] = []
filter_env m (entry ∷ host) =
    let rest = filter_env m host in if passes m (cut entry 61) then entry ∷ rest else rest

-- An entry of the list, trimmed; '-' denies.
unfoldable pub add_entry : EnvMatcher → Bytes → EnvMatcher
add_entry m [] = m
add_entry m (c ∷ s) =
    if c == 45
    then record m { deny = m.deny ++ s ∷ [] }
    else record m { allow = m.allow ++ (c ∷ s) ∷ [] }

module _ (trim : Bytes → Bytes) where
  unfoldable pub add_entries : EnvMatcher → List Bytes → EnvMatcher
  unfolding add_entry
  add_entries m [] = m
  add_entries m (entry ∷ entries) = add_entries (add_entry m (trim entry)) entries

  unfoldable pub new_env_matcher : List Bytes → EnvMatcher
  unfolding add_entries
  new_env_matcher pass_env = add_entries (record { allow = default_pass_env; deny = [] }) pass_env

  nonblank : List Bytes → List Bytes
  nonblank [] = []
  nonblank (item ∷ items) =
      let rest = nonblank items in if text_eq (trim item) [] then rest else trim item ∷ rest

  -- `ParseEnvList`
  unfoldable pub parse_env_list : Bytes → List Bytes
  unfolding nonblank
  parse_env_list value = nonblank (split value 44)
