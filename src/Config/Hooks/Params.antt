-- ===== src/Config/Hooks/Params.antt =====
-- The parameters of one hook, printed and read.
use mathlib.Core.Path.{subst}
use acpp.Prelude.{
  All, All-append, Bytes, text_eq, text_eq_self, eq_of_text_eq, cut-append, Lacks, ◌==◌, ◌≡◌, refl,
  sym, ap, ◌∙◌, true, false, Bool-cases, inl, inr, some, List, [], ◌∷◌, ◌++◌, append_assoc,
  append-nil, if_true, if_false, ok, ◌>>=◌, arith,
}
use acpp.Db.Map.{Map, lookup, insert_end}
use acpp.Db.Order.{sort_by, insert_by}
use acpp.Db.MemStore.Listing.{text_lt}
use acpp.Config.Hooks.{
  HookConfig, with_key, parse_param, add_param, parse_params, param_keys, value_or_empty,
  format_params, format_entry,
}

-- The keys rise: a Go map written in the order of its keys.
abbrev pub Rises : Map Bytes → Type 0
Rises [] = Unit
Rises (e ∷ m) = All (λ d. text_lt e.0 d.0 ≡ true) m × Rises m

text_lt_self : (s : Bytes) → text_lt s s ≡ false
unfolding text_lt
text_lt_self [] = refl
text_lt_self (c ∷ s) = let e : (c == c) ≡ true = ground arith in if_true _ _ e ∙ text_lt_self s

other_of_lt : (s t : Bytes) → text_lt s t ≡ true → text_eq s t ≡ false
other_of_lt s t h = elim (Bool-cases (text_eq s t)) [
  | inl e ↦
      let bad : text_lt s s ≡ true =
        subst (λ x. text_lt s x ≡ true) (sym (eq_of_text_eq s t e)) h in
      let no : true ≡ false = sym bad ∙ text_lt_self s in absurd (cc)
  | inr e ↦ e
]

pub sort_by-param_keys : (m : Map Bytes) → Rises m → sort_by text_lt (param_keys m) ≡ param_keys m
unfolding sort_by param_keys
sort_by-param_keys [] r = refl
sort_by-param_keys (e ∷ m) (h, r) = ap (insert_by text_lt e.0) (sort_by-param_keys m r) ∙ first m h
  where
    first :
        (d : Map Bytes)
        → All (λ x. text_lt e.0 x.0 ≡ true) d
        → insert_by text_lt e.0 (param_keys d) ≡ e.0 ∷ param_keys d
    first [] k = unfold insert_by in refl
    first (x ∷ d) (k, ks) = unfold insert_by in if_true _ _ k

abbrev pub printed : Bytes × Bytes → Bytes
printed e = e.0 ++ 61 ∷ e.1

abbrev pub all_printed : Map Bytes → List Bytes
all_printed [] = []
all_printed (e ∷ m) = printed e ∷ all_printed m

pub format_params-param_keys :
    (m : Map Bytes) → Rises m → format_params m (param_keys m) ≡ all_printed m
unfolding format_params param_keys lookup value_or_empty
format_params-param_keys [] r = refl
format_params-param_keys (e ∷ m) (h, r) = λ i.
    (e.0 ++ 61 ∷ value_or_empty (if_true (some e.1) (lookup m e.0) (text_eq_self e.0) i))
    ∷ (others m h ∙ format_params-param_keys m r) i
  where
    others :
        (d : Map Bytes)
        → All (λ x. text_lt e.0 x.0 ≡ true) d
        → format_params (e ∷ m) (param_keys d) ≡ format_params m (param_keys d)
    others [] k = refl
    others (x ∷ d) (k, ks) = λ i.
        (x.0 ++ 61 ∷ value_or_empty (if_false (some e.1) (lookup m x.0) (other_of_lt e.0 x.0 k) i))
        ∷ others d ks i

module _ (trim_space : Bytes → Bytes) where
  -- A parameter that the form can hold.
  pub record IsParam (e : Bytes × Bytes) : Type 0 where
    pub key_given : text_eq e.0 [] ≡ false
    pub key_trimmed : trim_space e.0 ≡ e.0
    pub key_plain : Lacks 61 e.0
    pub trimmed : trim_space (printed e) ≡ printed e
    pub no_semicolon : Lacks 59 (printed e)
    pub no_comma : Lacks 44 (printed e)

  -- A hook that it can hold, with its parameters in the order of their keys.
  pub record IsHook (c : HookConfig) : Type 0 where
    pub type_given : text_eq c.type_name [] ≡ false
    pub type_trimmed : trim_space c.type_name ≡ c.type_name
    pub no_colon : Lacks 58 c.type_name
    pub no_comma : Lacks 44 c.type_name
    pub entry_trimmed :
        trim_space (format_entry c.type_name c.params) ≡ format_entry c.type_name c.params
    pub holds : All IsParam c.params
    pub rises : Rises c.params

  pub given-append : (s t : Bytes) → text_eq s [] ≡ false → text_eq (s ++ t) [] ≡ false
  unfolding text_eq
  given-append [] t h = absurd (cc)
  given-append (c ∷ s) t h = refl

  add_param-printed :
      (typ : Bytes) (m : Map Bytes) (e : Bytes × Bytes)
      → IsParam e
      → All (λ d. text_eq d.0 e.0 ≡ false) m
      → add_param trim_space typ m (trim_space (printed e)) ≡ ok (m ++ e ∷ [])
  unfolding add_param parse_param with_key
  add_param-printed typ m e h new =
      ap (add_param trim_space typ m) h.trimmed
      ∙ if_false _ _ (given-append e.0 (61 ∷ e.1) h.key_given)
      ∙ ap (parse_param trim_space typ (printed e) m) (cut-append e.0 e.1 61 h.key_plain)
      ∙ ap (λ k. with_key typ (printed e) m k e.1) h.key_trimmed
      ∙ if_false _ _ h.key_given
      ∙ ap ok (insert_end m e.0 e.1 new)

  pub parse_params-printed :
      (typ : Bytes) (m d : Map Bytes)
      → All IsParam d
      → Rises d
      → All (λ e. All (λ x. text_eq x.0 e.0 ≡ false) m) d
      → parse_params trim_space typ m (all_printed d) ≡ ok (m ++ d)
  unfolding parse_params
  parse_params-printed typ m [] h r n = ap ok (sym (append-nil m))
  parse_params-printed typ m (e ∷ d) (h, hs) (l, r) (n, ns) =
      ap (λ x. x >>= λ m'. parse_params trim_space typ m' (all_printed d))
        (add_param-printed typ m e h n)
      ∙ parse_params-printed typ (m ++ e ∷ []) d hs r (later d l ns)
      ∙ ap ok (append_assoc m (e ∷ []) d)
    where
      later :
          (x : Map Bytes)
          → All (λ y. text_lt e.0 y.0 ≡ true) x
          → All (λ y. All (λ z. text_eq z.0 y.0 ≡ false) m) x
          → All (λ y. All (λ z. text_eq z.0 y.0 ≡ false) (m ++ e ∷ [])) x
      later [] a b = tt
      later (y ∷ x) (a, as_) (b, bs) =
          (All-append _ m (e ∷ []) b (other_of_lt e.0 y.0 a, tt), later x as_ bs)
