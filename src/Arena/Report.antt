-- ===== src/Arena/Report.antt =====
-- arena/report.go: the scores by evaluator and contestant, their totals and the ranking. The number's text
-- (`strconv.Itoa`) is a parameter, and a range over the results goes in the list's order.
pub mod Columns
pub mod Ranking
use acpp.Prelude.{
  Bytes, codes, newline, text_eq, ℕ, suc, Bool, true, false, not, Option, none, some, List, [], ◌∷◌,
  ◌++◌, if◌then◌else◌, ℤ, pos, int_add, int_lt,
}
use acpp.Db.Map.{Map, lookup, insert}
use acpp.Db.Order.{sort_by}
use acpp.Db.MemStore.Listing.{text_lt}
use acpp.Arena.Scores.{Score}
use acpp.Arena.Meta.{RunMeta, EvalMeta, Meta, eval_names}

-- The map of `RunByID`, from a map on.
name_by_id : Map Bytes → List RunMeta → Map Bytes
unfolding insert
name_by_id m [] = m
name_by_id m (r ∷ rs) = name_by_id (insert m r.id r.name) rs

-- A missing total reads as 0.
unfoldable pub or_zero : Option ℤ → ℤ
or_zero none = pos 0
or_zero (some n) = n

unfoldable pub total_of : Map ℤ → Bytes → ℤ
unfolding or_zero
total_of totals name = or_zero (lookup totals name)

-- One score of a contestant whose run is known.
add_score : Option Bytes → ℤ → Map ℤ × Map ℤ → Map ℤ × Map ℤ
unfolding total_of insert int_add
add_score none n (row, totals) = (row, totals)
add_score (some name) n (row, totals) =
    (insert row name n, insert totals name (int_add (total_of totals name) n))

unfoldable pub add_scores : Map Bytes → List Score → Map ℤ × Map ℤ → Map ℤ × Map ℤ
unfolding add_score lookup
add_scores ids [] t = t
add_scores ids (s ∷ ss) t = add_scores ids ss (add_score (lookup ids s.id) s.score t)

-- The cells by evaluator, and the totals.
unfoldable pub tally : Map Bytes → Map (List Score) → Map (Map ℤ) × Map ℤ → Map (Map ℤ) × Map ℤ
unfolding add_scores insert
tally ids [] t = t
tally ids ((evaluator, scores) ∷ rs) (cell, totals) =
    let (row, totals') = add_scores ids scores ([], totals) in
    tally ids rs (insert cell evaluator row, totals')

-- The higher total first, then the name.
unfoldable pub ranks_before : Map ℤ → Bytes → Bytes → Bool
unfolding total_of int_lt text_lt
ranks_before totals x y =
    if int_lt (total_of totals y) (total_of totals x)
    then true
    else if int_lt (total_of totals x) (total_of totals y)
    then false
    else text_lt x y

unfoldable pub contestants : List RunMeta → List Bytes
contestants [] = []
contestants (r ∷ rs) = r.name ∷ contestants rs

unfoldable pub ranked : Map ℤ → List Bytes → List Bytes
unfolding sort_by ranks_before
ranked totals names = sort_by (ranks_before totals) names

module _ (itoa : ℤ → Bytes) where
  rank_lines : Map ℤ → ℕ → List Bytes → Bytes
  unfolding total_of
  rank_lines totals i [] = []
  rank_lines totals i (name ∷ names) =
      codes "| "
      ++ (itoa (pos (suc i))
          ++ (codes " | "
              ++ (name
                  ++ (codes " | "
                      ++ (itoa (total_of totals name)
                          ++ (codes " |" ++ (newline ∷ rank_lines totals (suc i) names)))))))

  cell_text : Option ℤ → Bytes
  cell_text none = codes "  |"
  cell_text (some n) = codes " " ++ (itoa n ++ codes " |")

  cell_texts : Map ℤ → List Bytes → Bytes
  unfolding cell_text lookup
  cell_texts row [] = []
  cell_texts row (c ∷ cs) = cell_text (lookup row c) ++ cell_texts row cs

  row_of : Option (Map ℤ) → Map ℤ
  row_of none = []
  row_of (some row) = row

  evaluator_lines : Map (Map ℤ) → List Bytes → List Bytes → Bytes
  unfolding cell_texts row_of lookup
  evaluator_lines cell names [] = []
  evaluator_lines cell names (e ∷ es) =
      codes "| "
      ++ (e
          ++ (codes " |"
              ++ (cell_texts (row_of (lookup cell e)) names
                  ++ (newline ∷ evaluator_lines cell names es))))

  header_cells : List Bytes → Bytes
  header_cells [] = []
  header_cells (c ∷ cs) = codes " " ++ (c ++ (codes " |" ++ header_cells cs))

  header_dashes : List Bytes → Bytes
  header_dashes [] = []
  header_dashes (c ∷ cs) = codes "---|" ++ header_dashes cs

  notes : List Bytes → Bytes
  notes [] = []
  notes (n ∷ ns) = codes "- " ++ (n ++ (newline ∷ notes ns))

  incomplete_part : List Bytes → Bytes
  unfolding notes
  incomplete_part [] = []
  incomplete_part (n ∷ ns) = codes "\n## Incomplete\n\n" ++ notes (n ∷ ns)

  report_text : Meta → List Bytes → Map (Map ℤ) × Map ℤ → Bytes
  unfolding ranked contestants rank_lines evaluator_lines header_cells header_dashes incomplete_part
      eval_names
  report_text meta incomplete (cell, totals) =
      codes "# Arena report: "
      ++ (meta.name
          ++ (codes "\n\n## Final scores\n\n| Rank | Agent | Total |\n|---|---|---|\n"
              ++ (rank_lines totals 0 (ranked totals (contestants meta.runs))
                  ++ (codes
                        "\n## Scores given (rows = evaluator, columns = contestant)\n\n| evaluator \\ contestant |"
                      ++ (header_cells (contestants meta.runs)
                          ++ (codes "\n|---|"
                              ++ (header_dashes (contestants meta.runs)
                                  ++ (newline
                                      ∷ (evaluator_lines cell (contestants meta.runs)
                                            (eval_names meta.evaluations)
                                          ++ incomplete_part incomplete)))))))))

  unfoldable pub build_report : Meta → Map (List Score) → List Bytes → Bytes
  unfolding tally name_by_id report_text
  build_report meta results incomplete =
      report_text meta incomplete (tally (name_by_id [] meta.runs) results ([], []))
