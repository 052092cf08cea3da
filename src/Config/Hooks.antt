-- ===== src/Config/Hooks.antt =====
-- config/hooklist.go: the hooks of a project in their compact form. `trim_space` is `strings.TrimSpace`.
pub mod Params
pub mod RoundTrip
use acpp.Prelude.{
  Bytes, text_eq, cut, split, join, Bool, Option, none, some, List, [], ◌∷◌, ◌++◌, if◌then◌else◌,
  Result, ok, err, ◌>>=◌,
}
use acpp.Db.Map.{Map, lookup, insert}
use acpp.Db.Order.{sort_by}
use acpp.Db.MemStore.Listing.{text_lt}

pub record HookConfig : Type 0 where
  pub type_name : Bytes
  pub params : Map Bytes

pub data Error : Type 0 where
  missing_type : Bytes → Error
  not_key_value empty_key : Bytes → Bytes → Error

with_key : Bytes → Bytes → Map Bytes → Bytes → Bytes → Result Error (Map Bytes)
with_key typ kv m key value =
    if text_eq key [] then err (empty_key typ kv) else ok (insert m key value)

with_hook : Option HookConfig → List HookConfig → List HookConfig
with_hook none cs = cs
with_hook (some c) cs = c ∷ cs

module _ (trim_space : Bytes → Bytes) where
  parse_param : Bytes → Bytes → Map Bytes → Option (Bytes × Bytes) → Result Error (Map Bytes)
  unfolding with_key
  parse_param typ kv m none = err (not_key_value typ kv)
  parse_param typ kv m (some (key, value)) = with_key typ kv m (trim_space key) value

  -- One part between semicolons, trimmed.
  add_param : Bytes → Map Bytes → Bytes → Result Error (Map Bytes)
  unfolding parse_param cut
  add_param typ m kv = if text_eq kv [] then ok m else parse_param typ kv m (cut kv 61)

  pub parse_params : Bytes → Map Bytes → List Bytes → Result Error (Map Bytes)
  unfolding add_param
  parse_params typ m [] = ok m
  parse_params typ m (kv ∷ kvs) = add_param typ m (trim_space kv) >>= λ m'. parse_params typ m' kvs

  typed : Bytes → Bytes → List Bytes → Result Error (Option HookConfig)
  unfolding parse_params
  typed entry typ kvs =
      if text_eq typ []
      then err (missing_type entry)
      else (parse_params typ [] kvs >>= λ m. ok (some (record { type_name = typ; params = m })))

  parse_cut : Bytes → Option (Bytes × Bytes) → Result Error (Option HookConfig)
  unfolding typed split
  parse_cut entry none = typed entry (trim_space entry) []
  parse_cut entry (some (typ, params)) = typed entry (trim_space typ) (split params 59)

  -- One part between commas, trimmed; an empty one is no hook.
  parse_entry : Bytes → Result Error (Option HookConfig)
  unfolding parse_cut cut
  parse_entry entry = if text_eq entry [] then ok none else parse_cut entry (cut entry 58)

  parse_entries : List Bytes → Result Error (List HookConfig)
  unfolding parse_entry with_hook
  parse_entries [] = ok []
  parse_entries (e ∷ es) =
      parse_entry (trim_space e) >>= λ c. parse_entries es >>= λ cs. ok (with_hook c cs)

  unfoldable pub parse_hook_list : Bytes → Result Error (List HookConfig)
  unfolding parse_entries split
  parse_hook_list s = parse_entries (split s 44)

pub param_keys : Map Bytes → List Bytes
param_keys [] = []
param_keys ((k, v) ∷ m) = k ∷ param_keys m

value_or_empty : Option Bytes → Bytes
value_or_empty none = []
value_or_empty (some v) = v

pub format_params : Map Bytes → List Bytes → List Bytes
unfolding value_or_empty lookup
format_params m [] = []
format_params m (k ∷ ks) = (k ++ 61 ∷ value_or_empty (lookup m k)) ∷ format_params m ks

pub format_entry : Bytes → Map Bytes → Bytes
unfolding format_params param_keys sort_by text_lt join
format_entry typ [] = typ
format_entry typ (p ∷ ps) =
    typ ++ 58 ∷ join (59 ∷ []) (format_params (p ∷ ps) (sort_by text_lt (param_keys (p ∷ ps))))

format_entries : List HookConfig → List Bytes
unfolding format_entry
format_entries [] = []
format_entries (c ∷ cs) = format_entry c.type_name c.params ∷ format_entries cs

unfoldable pub format_hook_list : List HookConfig → Bytes
unfolding format_entries join
format_hook_list cs = join (44 ∷ []) (format_entries cs)
