-- ===== src/Helpers/Table.antt =====
-- acp/helpers/table.go: a markdown table, as an embed of fields or as a code block.
pub mod Trim
pub mod Lines
pub mod RoundTrip
pub mod Embed
use acpp.Prelude.{
  Bytes, codes, text_eq, has_prefix, split, join, ℕ, zero, suc, ◌+◌, ◌-◌, ◌*◌, ◌==◌, ltb, length,
  newline, Bool, true, false, ◌&&◌, not, Option, none, some, List, [], ◌∷◌, ◌++◌, if◌then◌else◌,
  get_elem?,
}

pub record Table : Type 0 where
  pub headers : List Bytes
  pub rows : List (List Bytes)

-- `strings.Trim` by one byte
trim_left : ℕ → Bytes → Bytes
trim_left c [] = []
trim_left c (d ∷ s) = let rest = trim_left c s in if d == c then rest else d ∷ s

cons_right : ℕ → ℕ → Bytes → Bytes
cons_right c d [] = if d == c then [] else d ∷ []
cons_right c d (e ∷ s) = d ∷ e ∷ s

trim_right : ℕ → Bytes → Bytes
unfolding cons_right
trim_right c [] = []
trim_right c (d ∷ s) = cons_right c d (trim_right c s)

unfoldable pub trim : ℕ → Bytes → Bytes
unfolding trim_left trim_right
trim c s = trim_right c (trim_left c s)

all_dashes : Bytes → Bool
all_dashes [] = true
all_dashes (c ∷ s) =
    let rest = all_dashes s in if c == 45 then rest else if c == 58 then rest else false

with_headers : Table → List Bytes → Option Table
with_headers t [] = none
with_headers t (h ∷ hs) = some t

-- With `strings.TrimSpace`.
module _ (trim_space : Bytes → Bytes) where
  trim_cells : List Bytes → List Bytes
  trim_cells [] = []
  trim_cells (p ∷ ps) = trim_space p ∷ trim_cells ps

  -- `none` is the nil slice: the line is no row.
  pub parse_table_row : Bytes → Option (List Bytes)
  unfolding trim trim_cells split has_prefix
  parse_table_row line =
      if has_prefix (trim_space line) (codes "|")
      then some (trim_cells (split (trim 124 (trim_space line)) 124))
      else none

  all_separators : List Bytes → Bool
  unfolding all_dashes
  all_separators [] = true
  all_separators (p ∷ ps) = all_dashes (trim_space p) && all_separators ps

  pub is_separator_row : Bytes → Bool
  unfolding all_separators trim split
  is_separator_row line = all_separators (split (trim 124 (trim_space line)) 124)

  add_line : ℕ → Bytes → Option (List Bytes) → Table → Table
  unfolding is_separator_row
  add_line i line none t = t
  add_line i line (some cells) t =
      if i == 0
      then record t { headers = cells }
      else if i == 1 && is_separator_row line
      then t
      else record t { rows = t.rows ++ cells ∷ [] }

  add_lines : ℕ → List Bytes → Table → Table
  unfolding add_line parse_table_row
  add_lines i [] t = t
  add_lines i (line ∷ lines) t = add_lines (suc i) lines (add_line i line (parse_table_row line) t)

  unfoldable pub parse_markdown_table : List Bytes → Option Table
  unfolding add_lines with_headers
  parse_markdown_table lines =
      if ltb (length lines) 2
      then none
      else (let t = add_lines 0 lines (record { headers = []; rows = [] }) in
          with_headers t t.headers)

pub row_line : List Bytes → Bytes
unfolding join
row_line cells = codes "| " ++ (join (codes " | ") cells ++ codes " |")

dashes : List Bytes → List Bytes
dashes [] = []
dashes (h ∷ hs) = codes "---" ∷ dashes hs

row_lines : List (List Bytes) → List Bytes
unfolding row_line
row_lines [] = []
row_lines (r ∷ rs) = row_line r ∷ row_lines rs

unfoldable pub table_lines : List Bytes → List (List Bytes) → List Bytes
unfolding row_line dashes row_lines
table_lines [] rows = row_lines rows
table_lines (h ∷ hs) rows = row_line (h ∷ hs) ∷ row_line (dashes (h ∷ hs)) ∷ row_lines rows

unfoldable pub to_code_block : Table → Bytes
unfolding table_lines join
to_code_block t =
    codes "```"
    ++ (newline ∷ (join (newline ∷ []) (table_lines t.headers t.rows) ++ newline ∷ codes "```"))

-- `MessageEmbedField`; all are inline.
pub record Field : Type 0 where
  pub name : Bytes
  pub value : Bytes

-- The zero-width space and the five horizontal bars, in UTF-8.
abbrev zero_width : Bytes
zero_width = 226 ∷ 128 ∷ 139 ∷ []

abbrev bars : ℕ → Bytes
bars zero = []
bars (suc n) = 226 ∷ 148 ∷ 129 ∷ bars n

header_fields : List Bytes → List Field
header_fields [] = []
header_fields (h ∷ hs) = record { name = h; value = bars 5 } ∷ header_fields hs

padding : ℕ → List Field
padding zero = []
padding (suc n) = record { name = zero_width; value = zero_width } ∷ padding n

cell_value : Option Bytes → Bytes
cell_value none = zero_width
cell_value (some s) = if text_eq s [] then zero_width else s

-- The fields of a row from a column on.
row_fields : ℕ → ℕ → List Bytes → List Field
unfolding cell_value
row_fields zero col row = []
row_fields (suc n) col row =
    record { name = zero_width; value = cell_value (get_elem? row col) }
    ∷ row_fields n (suc col) row

all_row_fields : ℕ → List (List Bytes) → List Field
unfolding row_fields padding
all_row_fields cols [] = []
all_row_fields cols (r ∷ rs) = row_fields cols 0 r ++ (padding (3 - cols) ++ all_row_fields cols rs)

unfoldable pub to_embed : Table → List Field
unfolding header_fields padding all_row_fields
to_embed t =
    header_fields t.headers
    ++ (padding (3 - length t.headers) ++ all_row_fields (length t.headers) t.rows)

-- The characters of texts, none of which is above the limit.
count_texts : ℕ → List Bytes → Option ℕ
count_texts limit [] = some 0
count_texts limit (s ∷ ss) = elim (count_texts limit ss) [
  | none ↦ none
  | some n ↦ if ltb limit (length s) then none else some (length s + n)
]

count_rows : List (List Bytes) → Option ℕ
unfolding count_texts
count_rows [] = some 0
count_rows (r ∷ rs) = elim (count_texts 1024 r) [
  | none ↦ none
  | some m ↦ elim (count_rows rs) [ none ↦ none | some n ↦ some (m + n) ]
]

within : Option ℕ → Option ℕ → Bool
within none n = false
within (some m) none = false
within (some m) (some n) = not (ltb 6000 (m + n))

unfoldable pub can_render_as_embed : Table → Bool
unfolding count_texts count_rows within
can_render_as_embed t =
    if length t.headers == 0
    then false
    else if ltb 3 (length t.headers)
    then false
    else if ltb 25 (length t.headers * suc (length t.rows))
    then false
    else within (count_texts 256 t.headers) (count_rows t.rows)

pub data Sent : Type 0 where
  embed : List Field → Sent
  text : Bytes → Sent

-- `Render`, with whether there are `SendEmbed` and `SendText`.
unfoldable pub render : Bool → Bool → Option Table → Option Sent
unfolding can_render_as_embed to_embed to_code_block
render has_embed has_text none = none
render has_embed has_text (some t) =
    if can_render_as_embed t && has_embed
    then some (embed (to_embed t))
    else if has_text
    then some (text (to_code_block t))
    else none
