-- ===== src/Arena/Report/Columns.antt =====
-- The total of a contestant is the sum of the cells that are kept for it.
use mathlib.Core.Path.{subst}
use acpp.Prelude.{
  All, All-append, Bytes, text_eq, eq_of_text_eq, text_eq_comm, ◌≡◌, refl, sym, ap, ◌∙◌, false,
  Bool-cases, inl, inr, Option, none, some, List, [], ◌∷◌, ◌++◌, append_assoc, append-nil, ℤ, pos,
  int_add, ◌+ℤ◌, wrap, wrap_add,
}
use acpp.Db.Map.{Map, lookup, insert, lookup-insert, lookup-insert_other, insert_end}
use acpp.Arena.Scores.{Score}
use acpp.Arena.Meta.Names.{AreOnce}
use acpp.Arena.Report.{or_zero, total_of, add_score, add_scores, tally}

-- The contestants that an evaluator scores.
abbrev with_name : Option Bytes → List Bytes → List Bytes
with_name none names = names
with_name (some name) names = name ∷ names

abbrev pub scored : Map Bytes → List Score → List Bytes
scored ids [] = []
scored ids (s ∷ ss) = with_name (lookup ids s.id) (scored ids ss)

abbrev add_cell : ℤ → Option ℤ → ℤ
add_cell acc none = acc
add_cell acc (some n) = int_add acc n

-- The sum that the code keeps, one evaluator after the other.
abbrev kept_sum : ℤ → Bytes → Map (Map ℤ) → ℤ
kept_sum acc name [] = acc
kept_sum acc name ((evaluator, row) ∷ cells) = kept_sum (add_cell acc (lookup row name)) name cells

-- The exact sum of the cells of a contestant, the empty ones left out.
abbrev with_cell : ℤ → Option ℤ → ℤ
with_cell acc none = acc
with_cell acc (some n) = acc +ℤ n

abbrev pub column : ℤ → Bytes → Map (Map ℤ) → ℤ
column acc name [] = acc
column acc name ((evaluator, row) ∷ cells) = column (with_cell acc (lookup row name)) name cells

wrap-with_cell : (acc : ℤ) (o : Option ℤ) → add_cell (wrap acc) o ≡ wrap (with_cell acc o)
wrap-with_cell acc none = refl
wrap-with_cell acc (some n) = wrap_add acc n

wrap-column :
    (acc : ℤ) (name : Bytes) (cells : Map (Map ℤ))
    → kept_sum (wrap acc) name cells ≡ wrap (column acc name cells)
wrap-column acc name [] = refl
wrap-column acc name ((evaluator, row) ∷ cells) =
    ap (λ t. kept_sum t name cells) (wrap-with_cell acc (lookup row name))
    ∙ wrap-column (with_cell acc (lookup row name)) name cells

-- No two entries have one key.
abbrev pub KeysOnce : Map (List Score) → Type 0
KeysOnce [] = Unit
KeysOnce (e ∷ m) = All (λ d. text_eq e.0 d.0 ≡ false) m × KeysOnce m

module _ (ids : Map Bytes) (name : Bytes) where
  -- Scores of others change nothing for a contestant.
  abbrev OthersKeep : List Score → Type 0
  OthersKeep ss =
      (row totals : Map ℤ)
      → All (λ y. text_eq name y ≡ false) (scored ids ss)
      → (lookup (add_scores ids ss (row, totals)).0 name ≡ lookup row name)
        × (lookup (add_scores ids ss (row, totals)).1 name ≡ lookup totals name)

  others_keep : (ss : List Score) → OthersKeep ss
  unfolding add_scores
  others_keep [] row totals h = (refl, refl)
  others_keep (s ∷ ss) row totals h = by (lookup ids s.id) h (others_keep ss)
    where
      by :
          (o : Option Bytes)
          → All (λ y. text_eq name y ≡ false) (with_name o (scored ids ss))
          → OthersKeep ss
          → (lookup (add_scores ids ss (add_score o s.score (row, totals))).0 name
              ≡ lookup row name)
            × (lookup (add_scores ids ss (add_score o s.score (row, totals))).1 name
                ≡ lookup totals name)
      by none k ih = unfold add_score in ih row totals k
      by (some y) (k, ks) ih =
          unfold add_score in
          let e : text_eq y name ≡ false = text_eq_comm y name ∙ k in
          let n = int_add (total_of totals y) s.score in
          let (p, q) = ih (insert row y s.score) (insert totals y n) ks in
          (p ∙ lookup-insert_other row y name s.score e, q ∙ lookup-insert_other totals y name n e)

  -- One evaluator adds what its cell shows.
  abbrev RowAdds : List Score → Type 0
  RowAdds ss =
      (row totals : Map ℤ)
      → AreOnce (scored ids ss)
      → lookup row name ≡ none
      → total_of (add_scores ids ss (row, totals)).1 name
        ≡ add_cell (total_of totals name) (lookup (add_scores ids ss (row, totals)).0 name)

  row_adds : (ss : List Score) → RowAdds ss
  unfolding add_scores
  row_adds [] row totals o h = sym (ap (add_cell (total_of totals name)) h)
  row_adds (s ∷ ss) row totals o h = by (lookup ids s.id) o (row_adds ss)
    where
      by :
          (y : Option Bytes)
          → AreOnce (with_name y (scored ids ss))
          → RowAdds ss
          → total_of (add_scores ids ss (add_score y s.score (row, totals))).1 name
            ≡ add_cell
                (total_of totals name)
                (lookup (add_scores ids ss (add_score y s.score (row, totals))).0 name)
      by none k ih = unfold add_score in ih row totals k h
      by (some y) (k, ks) ih = elim (Bool-cases (text_eq y name)) [
        | inr e ↦
            unfold add_score in
            ih (insert row y s.score) (insert totals y (int_add (total_of totals y) s.score)) ks
              (lookup-insert_other row y name s.score e ∙ h)
            ∙ ap
                (λ t. add_cell (or_zero t) (
                  lookup
                    (add_scores ids ss (
                      insert row y s.score,
                      insert totals y (int_add (total_of totals y) s.score),
                    )).0
                    name))
                (lookup-insert_other totals y name (int_add (total_of totals y) s.score) e)
        | inl e ↦
            subst
              (λ x.
                total_of (add_scores ids ss (add_score (some x) s.score (row, totals))).1 name
                ≡ add_cell (total_of totals name)
                    (lookup (add_scores ids ss (add_score (some x) s.score (row, totals))).0 name))
              (sym (eq_of_text_eq y name e))
              (own (
                subst (λ x. All (λ z. text_eq x z ≡ false) (scored ids ss)) (eq_of_text_eq y name e)
                  k))
      ]
        where
          own :
              All (λ z. text_eq name z ≡ false) (scored ids ss)
              → total_of (add_scores ids ss (add_score (some name) s.score (row, totals))).1 name
                ≡ add_cell (total_of totals name) (
                    lookup (add_scores ids ss (add_score (some name) s.score (row, totals))).0 name)
          own q =
              unfold add_score in
              let n = int_add (total_of totals name) s.score in
              let (a, b) = others_keep ss (insert row name s.score) (insert totals name n) q in
              ap or_zero (b ∙ lookup-insert totals name n)
              ∙ sym (ap (add_cell (total_of totals name)) (a ∙ lookup-insert row name s.score))

  tally-column :
      (rs : Map (List Score)) (cell : Map (Map ℤ)) (totals : Map ℤ)
      → All (λ r. AreOnce (scored ids r.1)) rs
      → KeysOnce rs
      → All (λ r. All (λ e. text_eq e.0 r.0 ≡ false) cell) rs
      → (cells : Map (Map ℤ)) × (((tally ids rs (cell, totals)).0 ≡ cell ++ cells)
          × (total_of (tally ids rs (cell, totals)).1 name
              ≡ kept_sum (total_of totals name) name cells))
  unfolding tally
  tally-column [] cell totals o k f = ([], (sym (append-nil cell), refl))
  tally-column ((evaluator, scores) ∷ rs) cell totals (o, os) (k, ks) (f, fs) =
      let row = (add_scores ids scores ([], totals)).0 in
      let totals' = (add_scores ids scores ([], totals)).1 in
      let grown : insert cell evaluator row ≡ cell ++ (evaluator, row) ∷ [] =
        insert_end cell evaluator row f in
      let (cells, (p, q)) = tally-column rs (insert cell evaluator row) totals' os ks (
        subst (λ c. All (λ r. All (λ e. text_eq e.0 r.0 ≡ false) c) rs) (sym grown)
          (later rs row k fs)) in
      (
        (evaluator, row) ∷ cells,
        (
          p ∙ ap (λ c. c ++ cells) grown ∙ append_assoc cell ((evaluator, row) ∷ []) cells,
          q ∙ ap (λ t. kept_sum t name cells) (row_adds scores [] totals o (unfold lookup in refl)),
        ),
      )
    where
      later :
          (xs : Map (List Score)) (row : Map ℤ)
          → All (λ d. text_eq evaluator d.0 ≡ false) xs
          → All (λ r. All (λ e. text_eq e.0 r.0 ≡ false) cell) xs
          → All (λ r. All (λ e. text_eq e.0 r.0 ≡ false) (cell ++ (evaluator, row) ∷ [])) xs
      later [] row a b = tt
      later (x ∷ xs) row (a, as_) (b, bs) =
          (All-append _ cell ((evaluator, row) ∷ []) b (a, tt), later xs row as_ bs)

nothing_before :
    (rs : Map (List Score))
    → All (λ r. All {A = Bytes × Map ℤ} (λ e. text_eq e.0 r.0 ≡ false) []) rs
nothing_before [] = tt
nothing_before (r ∷ rs) = (tt, nothing_before rs)

-- If no evaluator is there twice, and none scores a contestant twice, then the total of each contestant is
-- the exact sum of the cells kept for it over all evaluators of the results, wrapped once at 64 bits.
pub total_of-tally :
    (ids : Map Bytes) (name : Bytes) (results : Map (List Score))
    → All (λ r. AreOnce (scored ids r.1)) results
    → KeysOnce results
    → total_of (tally ids results ([], [])).1 name
      ≡ wrap (column (pos 0) name (tally ids results ([], [])).0)
total_of-tally ids name results o k =
    let (cells, (p, q)) = tally-column ids name results [] [] o k (nothing_before results) in
    let exact : kept_sum (total_of [] name) name cells ≡ wrap (column (pos 0) name cells) =
      unfold total_of or_zero lookup wrap in wrap-column (pos 0) name cells in
    q ∙ exact ∙ ap (λ c. wrap (column (pos 0) name c)) (sym p)
