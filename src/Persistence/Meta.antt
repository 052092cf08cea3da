-- ===== src/Persistence/Meta.antt =====
-- persistence/persister.go: what it reads from the `_meta` of a message. The source's float64 is `C`
-- with the operations that the code uses. The two counters that no other code reads are left out.
use acpp.Prelude.{
  Bytes, codes, text_eq, ℕ, ◌==◌, add64, Bool, Option, none, some, List, [], ◌∷◌, if◌then◌else◌,
}
use acpp.Db.MemStore.{UsageInfo}

pub record Floats (C : Type 0) : Type 0 where
  pub zero_cost : C
  pub plus : C → C → C
  pub is_zero : C → Bool
  pub to_int64 : C → ℕ

-- A decoded JSON value, and the entries of an object.
mutual
  pub data Value (C : Type 0) : Type 0 where
    text : Bytes → Value C
    number : C → Value C
    object : Fields C → Value C
    other : Value C

  pub data Fields (C : Type 0) : Type 0 where
    end : Fields C
    field : Bytes → Value C → Fields C → Fields C

-- "claudeCode", "rai", "codex", "gemini"
abbrev pub meta_keys : List Bytes
meta_keys = codes "claudeCode" ∷ codes "rai" ∷ codes "codex" ∷ codes "gemini" ∷ []

module _ {C : Type 0} where
  unfoldable pub get : Fields C → Bytes → Option (Value C)
  get end key = none
  get (field k v fs) key = if text_eq k key then some v else get fs key

  text_of : Option (Value C) → Bytes
  text_of (some (text t)) = t
  text_of v = []

  unfoldable pub number_of : Option (Value C) → Option C
  number_of (some (number x)) = some x
  number_of v = none

  object_of : Option (Value C) → Option (Fields C)
  object_of (some (object fs)) = some fs
  object_of v = none

  get_meta_string : Fields C → List Bytes → Bytes
  unfolding get text_of object_of
  get_meta_string fs [] = []
  get_meta_string fs (key ∷ []) = text_of (get fs key)
  get_meta_string fs (key ∷ k ∷ keys) = elim (object_of (get fs key)) [
    | none ↦ []
    | some inner ↦ get_meta_string inner (k ∷ keys)
  ]

  first_model : Fields C → List Bytes → Bytes
  unfolding get_meta_string
  first_model meta [] = []
  first_model meta (key ∷ keys) =
      let model = get_meta_string meta (key ∷ codes "model" ∷ []) in
      let rest = first_model meta keys in if text_eq model [] then rest else model

  unfoldable pub model_from_meta : Fields C → Bytes
  unfolding first_model
  model_from_meta meta = first_model meta meta_keys

  -- The first of the keys that holds an object.
  section_of : Fields C → List Bytes → Option (Fields C)
  unfolding object_of get
  section_of meta [] = none
  section_of meta (key ∷ keys) = elim (object_of (get meta key)) [
    | none ↦ section_of meta keys
    | some fs ↦ some fs
  ]

module _ {C : Type 0} where
  -- The context window's figures stay where the new usage has none.
  unfoldable pub carry_context : UsageInfo C → UsageInfo C → UsageInfo C
  carry_context prev next = record next {
    context_used = if next.context_used == 0 then prev.context_used else next.context_used;
    context_window = if next.context_window == 0 then prev.context_window else next.context_window;
  }

module _ {C : Type 0} (f : Floats C) where
  unfoldable pub no_usage : UsageInfo C
  no_usage = record {
    input_tokens = 0;
    output_tokens = 0;
    cache_creation_input_tokens = 0;
    cache_read_input_tokens = 0;
    context_window = 0;
    context_used = 0;
    cost_usd = f.zero_cost;
    prompt_count = 0;
  }

  -- `n += int64(v)` where the field is a number.
  added : ℕ → Option C → ℕ
  added n none = n
  added n (some v) = add64 n (f.to_int64 v)

  replaced : ℕ → Option C → ℕ
  replaced n none = n
  replaced n (some v) = f.to_int64 v

  unfoldable pub costed : C → Option C → C
  costed c none = c
  costed c (some v) = if f.is_zero c then f.plus c v else c

  unfoldable pub add_model : Fields C → UsageInfo C → UsageInfo C
  unfolding added replaced costed number_of get
  add_model m info = record info {
    input_tokens = added info.input_tokens (number_of (get m (codes "inputTokens")));
    output_tokens = added info.output_tokens (number_of (get m (codes "outputTokens")));
    cache_creation_input_tokens =
        added info.cache_creation_input_tokens
          (number_of (get m (codes "cacheCreationInputTokens")));
    cache_read_input_tokens =
        added info.cache_read_input_tokens (number_of (get m (codes "cacheReadInputTokens")));
    context_window = replaced info.context_window (number_of (get m (codes "contextWindow")));
    cost_usd = costed info.cost_usd (number_of (get m (codes "costUSD")));
  }

  -- The sum over the models; an entry that is no object is skipped.
  unfoldable pub add_models : Fields C → UsageInfo C → UsageInfo C
  unfolding add_model
  add_models end info = info
  add_models (field k (object m) fs) info = add_models fs (add_model m info)
  add_models (field k v fs) info = add_models fs info

  total_cost : Option C → UsageInfo C → UsageInfo C
  total_cost none info = info
  total_cost (some v) info = record info { cost_usd = v }

  models_of : Option (Fields C) → UsageInfo C → UsageInfo C
  unfolding add_models
  models_of none info = info
  models_of (some fs) info = add_models fs info

  section_usage : Option (Fields C) → UsageInfo C
  unfolding no_usage total_cost models_of number_of object_of get
  section_usage none = no_usage
  section_usage (some s) =
      models_of (object_of (get s (codes "modelUsage")))
        (total_cost (number_of (get s (codes "totalCostUsd"))) no_usage)

  unfoldable pub extract_usage_from_meta : Fields C → UsageInfo C
  unfolding section_usage section_of
  extract_usage_from_meta meta = section_usage (section_of meta meta_keys)
