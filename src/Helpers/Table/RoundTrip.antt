-- ===== src/Helpers/Table/RoundTrip.antt =====
-- A printed table is read back.
use acpp.Prelude.{
  All, Bytes, codes, split, ℕ, suc, ◌==◌, ltb, length, ◌&&◌, ◌≡◌, refl, sym, ap, ◌∙◌, true, false,
  some, List, [], ◌∷◌, ◌++◌, append_assoc, append-nil, arith, if_true, if_false,
}
use acpp.Helpers.Table.{
  Table, all_dashes, parse_table_row, all_separators, is_separator_row, add_line, add_lines,
  with_headers, parse_markdown_table, row_line, dashes, row_lines, table_lines,
}
use acpp.Helpers.Table.Lines.{
  TrimsSpace, IsCell, all_padded, split-joined, trim_space-row_line, parse_table_row-row_line,
}

module _ (trim_space : Bytes → Bytes) where
  -- A row has a cell, and each can be held.
  abbrev pub IsRow : List Bytes → Type 0
  IsRow [] = ⊥
  IsRow (c ∷ cs) = All (IsCell trim_space) (c ∷ cs)

  module _ (trims : TrimsSpace trim_space) where
    dash-IsCell : IsCell trim_space (codes "---")
    dash-IsCell = record {
      no_bar = (ground arith, (ground arith, (ground arith, tt)));
      trimmed = trims.dashes;
    }

    dashes-All : (hs : List Bytes) → All (IsCell trim_space) (dashes hs)
    unfolding dashes
    dashes-All [] = tt
    dashes-All (h ∷ hs) = (dash-IsCell, dashes-All hs)

    dashes-separators : (hs : List Bytes) → all_separators trim_space (dashes hs) ≡ true
    unfolding all_separators dashes all_dashes
    dashes-separators [] = refl
    dashes-separators (h ∷ hs) =
        ap (λ x. all_dashes x && all_separators trim_space (dashes hs)) trims.dashes
        ∙ dashes-separators hs

    all_separators-padded :
        (cs : List Bytes) → all_separators trim_space (all_padded cs) ≡ all_separators trim_space cs
    unfolding all_separators
    all_separators-padded [] = refl
    all_separators-padded (c ∷ cs) =
        λ i. all_dashes (trims.blanks c i) && all_separators-padded cs i

    -- The separator row is recognised.
    is_separator_row-dashes :
        (h : Bytes) (hs : List Bytes)
        → is_separator_row trim_space (row_line (dashes (h ∷ hs))) ≡ true
    unfolding is_separator_row dashes
    is_separator_row-dashes h hs =
        ap (λ x. all_separators trim_space (split x 124))
          (trim_space-row_line trim_space trims (codes "---" ∷ dashes hs))
        ∙ ap (all_separators trim_space)
            (split-joined trim_space trims (codes "---") (dashes hs) (dash-IsCell, dashes-All hs))
        ∙ all_separators-padded (codes "---" ∷ dashes hs)
        ∙ dashes-separators (h ∷ hs)

    -- From the third line on, each line is a row.
    add_lines-row_lines :
        (i : ℕ) (rs : List (List Bytes)) (t : Table)
        → All IsRow rs
        → add_lines trim_space (suc (suc i)) (row_lines rs) t ≡ record t { rows = t.rows ++ rs }
    unfolding add_lines row_lines add_line
    add_lines-row_lines i [] t h = ap (λ x. record t { rows = x }) (sym (append-nil t.rows))
    add_lines-row_lines i ([] ∷ rs) t (h, hs) = absurd h
    add_lines-row_lines i ((c ∷ cs) ∷ rs) t (h, hs) =
        let not_first : (suc (suc i) == 0) ≡ false = ground arith in
        let not_second : (suc (suc i) == 1) ≡ false = ground arith in
        ap
          (λ x.
            add_lines trim_space (suc (suc (suc i))) (row_lines rs)
              (add_line trim_space (suc (suc i)) (row_line (c ∷ cs)) x t))
          (parse_table_row-row_line trim_space trims c cs h)
        ∙ ap (add_lines trim_space (suc (suc (suc i))) (row_lines rs)) (
            if_false _ _ not_first
            ∙ if_false _ _
                (ap (λ b. b && is_separator_row trim_space (row_line (c ∷ cs))) not_second))
        ∙ add_lines-row_lines (suc i) rs (record t { rows = t.rows ++ (c ∷ cs) ∷ [] }) hs
        ∙ ap (λ x. record t { rows = x }) (append_assoc t.rows ((c ∷ cs) ∷ []) rs)

    parse-lines :
        (c : Bytes) (cs : List Bytes) (rs : List (List Bytes))
        → All (IsCell trim_space) (c ∷ cs)
        → All IsRow rs
        → parse_markdown_table trim_space (table_lines (c ∷ cs) rs)
          ≡ some (record { headers = c ∷ cs; rows = rs })
    unfolding parse_markdown_table table_lines with_headers
    parse-lines c cs rs k hs =
        if_false _ _ long_enough ∙ ap (λ (x : Table). with_headers x x.headers) read
      where
        long_enough : ltb (suc (suc (length (row_lines rs)))) 2 ≡ false
        long_enough = ground arith

        empty : Table
        empty = record { headers = []; rows = [] }

        headed : Table
        headed = record { headers = c ∷ cs; rows = [] }

        first :
            add_line trim_space 0
              (row_line (c ∷ cs))
              (parse_table_row trim_space (row_line (c ∷ cs)))
              empty
            ≡ headed
        first =
            unfold add_line in
            ap (λ x. add_line trim_space 0 (row_line (c ∷ cs)) x empty)
              (parse_table_row-row_line trim_space trims c cs k)

        second :
            add_line trim_space 1
              (row_line (dashes (c ∷ cs)))
              (parse_table_row trim_space (row_line (dashes (c ∷ cs))))
              headed
            ≡ headed
        second =
            ap (λ x. add_line trim_space 1 (row_line (dashes (c ∷ cs))) x headed)
              (unfold dashes in
                parse_table_row-row_line trim_space trims (codes "---") (dashes cs)
                  (dash-IsCell, dashes-All cs))
            ∙ (unfold add_line in if_true _ _ (is_separator_row-dashes c cs))

        read :
            add_lines trim_space 0
              (row_line (c ∷ cs) ∷ row_line (dashes (c ∷ cs)) ∷ row_lines rs)
              empty
            ≡ record { headers = c ∷ cs; rows = rs }
        read =
            unfold add_lines in
            ap
              (λ x. add_lines trim_space 2 (row_lines rs) (
                add_line trim_space 1 (row_line (dashes (c ∷ cs)))
                  (parse_table_row trim_space (row_line (dashes (c ∷ cs)))) x))
              first
            ∙ ap (add_lines trim_space 2 (row_lines rs)) second
            ∙ add_lines-row_lines 0 rs headed hs

    -- If there is a header, each row has a cell, no cell has a bar in it or a space at its ends, and
    -- `TrimSpace` does what is used of it, then the lines of the printed table are read as the table.
    pub parse_markdown_table-table_lines :
        (t : Table)
        → IsRow t.headers
        → All IsRow t.rows
        → parse_markdown_table trim_space (table_lines t.headers t.rows) ≡ some t
    parse_markdown_table-table_lines t h hs = by t.headers h
      where
        by :
            (hd : List Bytes)
            → IsRow hd
            → parse_markdown_table trim_space (table_lines hd t.rows)
              ≡ some (record t { headers = hd })
        by [] k = absurd k
        by (c ∷ cs) k = parse-lines c cs t.rows k hs
