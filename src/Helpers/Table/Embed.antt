-- ===== src/Helpers/Table/Embed.antt =====
-- The fields of an embed, and Discord's limit of 25.
use acpp.Prelude.{
  Bytes, ℕ, zero, suc, ◌-◌, ◌*◌, ◌≤◌, ◌<◌, ◌==◌, ltb, length, length-append, ◌≡◌, refl, ap, Bool,
  true, false, List, [], ◌∷◌, ◌++◌, arith, if◌then◌else◌,
}
use acpp.Helpers.Table.{
  Table, header_fields, padding, row_fields, all_row_fields, to_embed, can_render_as_embed,
}

length-header_fields : (hs : List Bytes) → length (header_fields hs) ≡ length hs
unfolding header_fields
length-header_fields [] = refl
length-header_fields (h ∷ hs) = ap suc (length-header_fields hs)

length-padding : (n : ℕ) → length (padding n) ≡ n
unfolding padding
length-padding zero = refl
length-padding (suc n) = ap suc (length-padding n)

length-row_fields : (n col : ℕ) (row : List Bytes) → length (row_fields n col row) ≡ n
unfolding row_fields
length-row_fields zero col row = refl
length-row_fields (suc n) col row = ap suc (length-row_fields n (suc col) row)

length-all_row_fields :
    (cols : ℕ) (rs : List (List Bytes)) → cols ≤ 3 → length (all_row_fields cols rs) ≡ 3 * length rs
unfolding all_row_fields
length-all_row_fields cols [] h = omega arith
length-all_row_fields cols (r ∷ rs) h = omega (
  arith,
  length-append (row_fields cols 0 r) (padding (3 - cols) ++ all_row_fields cols rs),
  length-append (padding (3 - cols)) (all_row_fields cols rs),
  length-row_fields cols 0 r,
  length-padding (3 - cols),
  length-all_row_fields cols rs h,
)

-- Every row is filled up to three fields.
length-to_embed : (t : Table) → length t.headers ≤ 3 → length (to_embed t) ≡ 3 * suc (length t.rows)
unfolding to_embed
length-to_embed t h = omega (
  arith,
  length-append (header_fields t.headers)
      (padding (3 - length t.headers) ++ all_row_fields (length t.headers) t.rows),
  length-append (padding (3 - length t.headers)) (all_row_fields (length t.headers) t.rows),
  length-header_fields t.headers,
  length-padding (3 - length t.headers),
  length-all_row_fields (length t.headers) t.rows h,
)

-- What the test makes sure of.
pub record Accepts (t : Table) : Type 0 where
  pub some_header : 0 < length t.headers
  pub few_headers : length t.headers ≤ 3
  pub few_cells : length t.headers * suc (length t.rows) ≤ 25

tests_pass :
    (n cells : ℕ) (b : Bool)
    → (if n == 0 then false else if ltb 3 n then false else if ltb 25 cells then false else b)
      ≡ true
    → (0 < n) × (n ≤ 3) × (cells ≤ 25)
tests_pass n cells b e = ground arith

can_render_as_embed-Accepts : (t : Table) → can_render_as_embed t ≡ true → Accepts t
unfolding can_render_as_embed
can_render_as_embed-Accepts t h =
    let (a, b, c) = tests_pass (length t.headers) (length t.headers * suc (length t.rows)) _ h in
    record { some_header = a; few_headers = b; few_cells = c }

-- A table of three columns that is accepted fits in the 25 fields of an embed.
pub three_columns_fit :
    (t : Table) → can_render_as_embed t ≡ true → length t.headers ≡ 3 → length (to_embed t) ≤ 25
three_columns_fit t h e = omega (
  arith,
  length-to_embed t (omega (arith, e)),
  (can_render_as_embed-Accepts t h).few_cells,
  ap (λ n. n * suc (length t.rows)) e,
)

-- One of one or two columns that is accepted does not if it has eight rows or more.
pub narrow_overflows :
    (t : Table)
    → can_render_as_embed t ≡ true
    → length t.headers ≤ 2
    → 8 ≤ length t.rows
    → 25 < length (to_embed t)
narrow_overflows t h n r =
    omega (arith, length-to_embed t (can_render_as_embed-Accepts t h).few_headers)
