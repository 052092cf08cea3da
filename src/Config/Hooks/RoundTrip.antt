-- ===== src/Config/Hooks/RoundTrip.antt =====
-- Hooks in their compact form are read back.
use mathlib.Core.Path.{subst}
use acpp.Prelude.{
  All, All-append, Bytes, text_eq, cut-append, cut-Lacks, split, split-join, join, join-All, Lacks,
  ◌≡◌, refl, sym, ap, ◌∙◌, false, some, List, [], ◌∷◌, ◌++◌, if_false, ok, ◌>>=◌, arith,
}
use acpp.Db.Map.{Map}
use acpp.Config.Hooks.{
  HookConfig, typed, parse_cut, parse_entry, with_hook, parse_entries, parse_hook_list,
  format_params, format_entry, format_entries, format_hook_list,
}
use acpp.Config.Hooks.Params.{
  Rises, printed, all_printed, sort_by-param_keys, format_params-param_keys, IsParam, IsHook,
  given-append, parse_params-printed,
}

module _ (trim_space : Bytes → Bytes) where
  printed_semicolons : (d : Map Bytes) → All (IsParam trim_space) d → All (Lacks 59) (all_printed d)
  printed_semicolons [] h = tt
  printed_semicolons (e ∷ d) (h, hs) = (h.no_semicolon, printed_semicolons d hs)

  printed_commas : (d : Map Bytes) → All (IsParam trim_space) d → All (Lacks 44) (all_printed d)
  printed_commas [] h = tt
  printed_commas (e ∷ d) (h, hs) = (h.no_comma, printed_commas d hs)

  format_entry-some :
      (typ : Bytes) (e : Bytes × Bytes) (m : Map Bytes)
      → Rises (e ∷ m)
      → format_entry typ (e ∷ m) ≡ typ ++ 58 ∷ join (59 ∷ []) (all_printed (e ∷ m))
  unfolding format_entry
  format_entry-some typ e m r =
      ap (λ x. typ ++ 58 ∷ join (59 ∷ []) x)
        (ap (format_params (e ∷ m)) (sort_by-param_keys (e ∷ m) r)
          ∙ format_params-param_keys (e ∷ m) r)

  typed-printed :
      (entry typ : Bytes) (m : Map Bytes)
      → text_eq typ [] ≡ false
      → trim_space typ ≡ typ
      → All (IsParam trim_space) m
      → Rises m
      → typed trim_space entry (trim_space typ) (all_printed m)
        ≡ ok (some (record { type_name = typ; params = m }))
  unfolding typed
  typed-printed entry typ m g t h r =
      ap (λ x. typed trim_space entry x (all_printed m)) t
      ∙ if_false _ _ g
      ∙ ap (λ x. x >>= λ p. ok (some (record { type_name = typ; params = p })))
          (parse_params-printed trim_space typ [] m h r (nothing m))
    where
      nothing :
          (d : Map Bytes) → All (λ e. All {A = Bytes × Bytes} (λ x. text_eq x.0 e.0 ≡ false) []) d
      nothing [] = tt
      nothing (e ∷ d) = (tt, nothing d)

  parse_entry-format_entry :
      (typ : Bytes) (m : Map Bytes)
      → IsHook trim_space (record { type_name = typ; params = m })
      → parse_entry trim_space (format_entry typ m)
        ≡ ok (some (record { type_name = typ; params = m }))
  unfolding parse_entry parse_cut
  parse_entry-format_entry typ [] h =
      unfold format_entry in
      if_false _ _ h.type_given
      ∙ ap (parse_cut trim_space typ) (cut-Lacks typ 58 h.no_colon)
      ∙ typed-printed typ typ [] h.type_given h.type_trimmed tt tt
  parse_entry-format_entry typ (e ∷ m) h =
      ap (parse_entry trim_space) (format_entry-some typ e m h.rises)
      ∙ if_false _ _
          (given-append trim_space typ (58 ∷ join (59 ∷ []) (all_printed (e ∷ m))) h.type_given)
      ∙ ap (parse_cut trim_space (typ ++ 58 ∷ join (59 ∷ []) (all_printed (e ∷ m))))
          (cut-append typ (join (59 ∷ []) (all_printed (e ∷ m))) 58 h.no_colon)
      ∙ ap (typed trim_space (typ ++ 58 ∷ join (59 ∷ []) (all_printed (e ∷ m))) (trim_space typ))
          (split-join (printed e) (all_printed m) 59 (printed_semicolons (e ∷ m) h.holds))
      ∙ typed-printed _ typ (e ∷ m) h.type_given h.type_trimmed h.holds h.rises

  format_entry-Lacks :
      (typ : Bytes) (m : Map Bytes)
      → IsHook trim_space (record { type_name = typ; params = m })
      → Lacks 44 (format_entry typ m)
  format_entry-Lacks typ [] h = unfold format_entry in h.no_comma
  format_entry-Lacks typ (e ∷ m) h = subst (Lacks 44) (sym (format_entry-some typ e m h.rises)) (
      All-append _ typ (58 ∷ join (59 ∷ []) (all_printed (e ∷ m))) h.no_comma (
        ground arith,
        join-All _ (59 ∷ []) (ground arith, tt) (all_printed (e ∷ m))
            (printed_commas (e ∷ m) h.holds),
      ))

  entries_commas :
      (cs : List HookConfig) → All (IsHook trim_space) cs → All (Lacks 44) (format_entries cs)
  unfolding format_entries
  entries_commas [] h = tt
  entries_commas (c ∷ cs) (h, hs) =
      (format_entry-Lacks c.type_name c.params h, entries_commas cs hs)

  parse_entries-format_entries :
      (cs : List HookConfig)
      → All (IsHook trim_space) cs
      → parse_entries trim_space (format_entries cs) ≡ ok cs
  unfolding parse_entries format_entries with_hook
  parse_entries-format_entries [] h = refl
  parse_entries-format_entries (c ∷ cs) (h, hs) = λ i.
      (ap (parse_entry trim_space) h.entry_trimmed
          ∙ parse_entry-format_entry c.type_name c.params h)
        i
      >>= λ x. parse_entries-format_entries cs hs i >>= λ ys. ok (with_hook x ys)

  -- If each hook has a type, each parameter a key, no part has a separator of the form in it or a space at
  -- its ends, the parameters stand in the order of their keys and `TrimSpace` keeps the empty text, then
  -- the compact form of the hooks is read as the hooks.
  pub parse_hook_list-format_hook_list :
      (cs : List HookConfig)
      → trim_space [] ≡ []
      → All (IsHook trim_space) cs
      → parse_hook_list trim_space (format_hook_list cs) ≡ ok cs
  unfolding parse_hook_list format_hook_list
  parse_hook_list-format_hook_list [] e h =
      unfold format_entries join split parse_entries in
      ap (λ x. parse_entry trim_space x >>= λ c. ok [] >>= λ cs. ok (with_hook c cs)) e
      ∙ (unfold parse_entry text_eq with_hook in refl)
  parse_hook_list-format_hook_list (c ∷ cs) e h =
      ap (parse_entries trim_space) (
        unfold format_entries in
        split-join (format_entry c.type_name c.params) (format_entries cs) 44
          (entries_commas (c ∷ cs) h))
      ∙ parse_entries-format_entries (c ∷ cs) h
