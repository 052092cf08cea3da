-- ===== src/Helpers/Table/Lines.antt =====
-- One printed row is read back.
use acpp.Prelude.{
  All, Bytes, codes, Lacks, has_prefix, split, join, split-Lacks, split-append, ◌≡◌, refl, sym, ap,
  ◌∙◌, some, List, [], ◌∷◌, ◌++◌, append_assoc, arith, if_true, All-append,
}
use acpp.Helpers.Table.{trim, trim_cells, parse_table_row, row_line}
use acpp.Helpers.Table.Trim.{trim-same, trim-other}

abbrev pub padded : Bytes → Bytes
padded c = 32 ∷ (c ++ 32 ∷ [])

abbrev pub all_padded : List Bytes → List Bytes
all_padded [] = []
all_padded (c ∷ cs) = padded c ∷ all_padded cs

-- What is used of `strings.TrimSpace`: it takes off blanks at both ends, and changes nothing between
-- two bars and nothing of three dashes.
pub record TrimsSpace (trim_space : Bytes → Bytes) : Type 0 where
  pub blanks : (s : Bytes) → trim_space (32 ∷ (s ++ 32 ∷ [])) ≡ trim_space s
  pub bars : (s : Bytes) → trim_space (124 ∷ (s ++ 124 ∷ [])) ≡ 124 ∷ (s ++ 124 ∷ [])
  pub dashes : trim_space (codes "---") ≡ codes "---"

-- A cell that a row can hold: no bar, and no space at its ends.
pub record IsCell (trim_space : Bytes → Bytes) (c : Bytes) : Type 0 where
  pub no_bar : Lacks 124 c
  pub trimmed : trim_space c ≡ c

module _ (trim_space : Bytes → Bytes) (trims : TrimsSpace trim_space) where
  Lacks-padded : (c : Bytes) → Lacks 124 c → Lacks 124 (padded c)
  Lacks-padded c h = (ground arith, All-append _ c (32 ∷ []) h (ground arith, tt))

  pub split-joined :
      (c : Bytes) (cs : List Bytes)
      → All (IsCell trim_space) (c ∷ cs)
      → split (padded (join (codes " | ") (c ∷ cs))) 124 ≡ all_padded (c ∷ cs)
  unfolding join
  split-joined c [] (h, hs) = split-Lacks (padded c) 124 (Lacks-padded c h.no_bar)
  split-joined c (d ∷ cs) (h, hs) =
      ap (λ x. split x 124)
        (ap (◌∷◌ 32) (
          append_assoc c (codes " | " ++ join (codes " | ") (d ∷ cs)) (32 ∷ [])
          ∙ sym (append_assoc c (32 ∷ []) (124 ∷ padded (join (codes " | ") (d ∷ cs))))))
      ∙ split-append (padded c) (padded (join (codes " | ") (d ∷ cs))) 124 (Lacks-padded c h.no_bar)
      ∙ ap (◌∷◌ (padded c)) (split-joined d cs hs)

  trim_cells-padded :
      (cs : List Bytes) → All (IsCell trim_space) cs → trim_cells trim_space (all_padded cs) ≡ cs
  unfolding trim_cells
  trim_cells-padded [] h = refl
  trim_cells-padded (c ∷ cs) (h, hs) =
      λ i. (trims.blanks c ∙ h.trimmed) i ∷ trim_cells-padded cs hs i

  -- The line as a text between two bars.
  row_line-bars :
      (cs : List Bytes) → row_line cs ≡ 124 ∷ (padded (join (codes " | ") cs) ++ 124 ∷ [])
  unfolding row_line
  row_line-bars cs =
      ap (λ x. 124 ∷ 32 ∷ x) (sym (append_assoc (join (codes " | ") cs) (32 ∷ []) (124 ∷ [])))

  pub trim_space-row_line :
      (cs : List Bytes) → trim 124 (trim_space (row_line cs)) ≡ padded (join (codes " | ") cs)
  trim_space-row_line cs =
      ap (λ x. trim 124 (trim_space x)) (row_line-bars cs)
      ∙ ap (trim 124) (trims.bars (padded (join (codes " | ") cs)))
      ∙ trim-same 124 (padded (join (codes " | ") cs))
      ∙ trim-other 124 32 (join (codes " | ") cs) refl

  pub parse_table_row-row_line :
      (c : Bytes) (cs : List Bytes)
      → All (IsCell trim_space) (c ∷ cs)
      → parse_table_row trim_space (row_line (c ∷ cs)) ≡ some (c ∷ cs)
  unfolding parse_table_row has_prefix
  parse_table_row-row_line c cs h =
      if_true _ _ (
        ap (λ x. has_prefix x (codes "|"))
          (ap trim_space (row_line-bars (c ∷ cs))
            ∙ trims.bars (padded (join (codes " | ") (c ∷ cs)))))
      ∙ ap (λ x. some (trim_cells trim_space x))
          (ap (λ x. split x 124) (trim_space-row_line (c ∷ cs)) ∙ split-joined c cs h)
      ∙ ap some (trim_cells-padded (c ∷ cs) h)
