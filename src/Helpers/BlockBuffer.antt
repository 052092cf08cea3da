-- ===== src/Helpers/BlockBuffer.antt =====
-- acp/helpers/block_buffer.go. The two callbacks are parameters over a state `T` of their own, like
-- the line buffer's. `handle_line` is the callback that the line buffer calls.
pub mod Fence
use acpp.Prelude.{
  ℕ, Bytes, newline, codes, has_prefix, ◌==◌, Bool, true, false, ◌&&◌, Option, none, some, List, [],
  ◌∷◌, ◌++◌, if◌then◌else◌, length, ltb,
}
use acpp.Helpers.LineBuffer
use acpp.Helpers.LineBuffer.{LineBuffer}

-- What the buffer holds back.
pub record Held : Type 0 where
  pub in_code_block : Bool
  pub in_table : Bool
  pub code_buffer : Bytes
  pub table_lines : List Bytes
  pub code_block_sent : Bool

pub record BlockBuffer : Type 0 where
  pub line_buffer : LineBuffer
  pub held : Held

unfoldable pub no_held : Held
no_held = record {
  in_code_block = false;
  in_table = false;
  code_buffer = [];
  table_lines = [];
  code_block_sent = false;
}

pub new_block_buffer : BlockBuffer
unfolding no_held LineBuffer.new_line_buffer
new_block_buffer = record { line_buffer = LineBuffer.new_line_buffer; held = no_held }

pub set_flush_delay : BlockBuffer → ℕ → BlockBuffer
set_flush_delay b d = record b { line_buffer = LineBuffer.set_flush_delay b.line_buffer d }

-- "```"
abbrev pub fence : Bytes
fence = 96 ∷ 96 ∷ 96 ∷ []

-- "|"
abbrev pub bar : Bytes
bar = 124 ∷ []

-- `strings.TrimSuffix(s, "\n")`
pub trim_newline : Bytes → Bytes
trim_newline [] = []
trim_newline (c ∷ []) = if c == newline then [] else c ∷ []
trim_newline (c ∷ d ∷ s) = c ∷ trim_newline (d ∷ s)

-- The text up to its last newline, which stays, and nothing if there is none.
pub upto_last_newline : Bytes → Bytes
upto_last_newline [] = []
upto_last_newline (c ∷ s) = elim (upto_last_newline s) [
  | [] ↦ if c == newline then c ∷ [] else []
  | d ∷ t ↦ c ∷ d ∷ t
]

-- `content` without its last line.
pub drop_last_line : Bytes → Bytes
unfolding trim_newline upto_last_newline
drop_last_line content = upto_last_newline (trim_newline content)

-- The rows with the last one replaced.
pub replace_last : List Bytes → Bytes → List Bytes
replace_last [] line = line ∷ []
replace_last (x ∷ []) line = line ∷ []
replace_last (x ∷ y ∷ ls) line = x ∷ replace_last (y ∷ ls) line

-- `strings.Join(lines, "\n")`
pub join_lines : List Bytes → Bytes
join_lines [] = []
join_lines (l ∷ []) = l
join_lines (l ∷ m ∷ ls) = l ++ newline ∷ join_lines (m ∷ ls)

-- The opening fence starts a block.
opened : Held → Bytes → Held
opened h line = record h {
  in_code_block = true;
  code_buffer = line ++ newline ∷ [];
  code_block_sent = false;
}

module _ {ℓ κ} {T : Type ℓ} {E : Type κ} (output : T → Bytes → Bool → T × Option E)
    (table_output : Option (T → List Bytes → T × Option E)) where
  -- The closing fence, or `Flush`, puts the block out.
  output_block : Held → T → (Held × T) × Option E
  unfolding trim_newline
  output_block h t =
      let (t', e) = output t (trim_newline h.code_buffer) h.code_block_sent in
      ((record h { code_buffer = []; in_code_block = false; code_block_sent = false }, t'), e)

  -- A line inside a code block.
  code_line : Held → T → Bytes → Bool → (Held × T) × Option E
  unfolding output_block drop_last_line
  code_line h t line update =
      let before = if update then drop_last_line h.code_buffer else h.code_buffer in
      let h' = record h { code_buffer = before ++ line ++ newline ∷ [] } in
      if has_prefix line fence then output_block h' t else ((h', t), none)

  output_rows : T → List Bytes → Bool → T × Option E
  unfolding join_lines
  output_rows t [] sent = (t, none)
  output_rows t (l ∷ ls) sent = elim table_output [
    | some f ↦ f t (l ∷ ls)
    | none ↦ output t (fence ++ newline ∷ (join_lines (l ∷ ls) ++ newline ∷ fence)) sent
  ]

  -- `outputTable`; its deferred function resets the table on every path.
  output_table : Held → T → (Held × T) × Option E
  unfolding output_rows
  output_table h t =
      let (t', e) = output_rows t h.table_lines h.code_block_sent in
      ((record h { table_lines = []; in_table = false; code_block_sent = false }, t'), e)

  -- A line outside of code blocks and tables.
  plain_line : Held → T → Bytes → Bool → (Held × T) × Option E
  unfolding opened
  plain_line h t line update =
      if has_prefix line fence
      then ((opened h line, t), none)
      else if has_prefix line bar
      then (
        (record h { in_table = true; table_lines = line ∷ []; code_block_sent = false }, t),
        none,
      )
      else (let (t', e) = output t line update in ((h, t'), e))

  -- The table has ended: an error of its output returns, else the line is an ordinary one.
  after_table : Bytes → Bool → (Held × T) × Option E → (Held × T) × Option E
  unfolding plain_line
  after_table line update ((h, t), none) = plain_line h t line update
  after_table line update ((h, t), some e) = ((h, t), some e)

  table_line : Held → T → Bytes → Bool → (Held × T) × Option E
  unfolding after_table output_table replace_last
  table_line h t line update =
      if has_prefix line bar
      then (
        (
          record h {
            table_lines =
                if update && ltb 0 (length h.table_lines)
                then replace_last h.table_lines line
                else h.table_lines ++ line ∷ [];
          },
          t,
        ),
        none,
      )
      else after_table line update (output_table h t)

  pub handle_line : Held × T → Bytes → Bool → (Held × T) × Option E
  unfolding code_line table_line plain_line
  handle_line (h, t) line update =
      if h.in_code_block
      then code_line h t line update
      else if h.in_table
      then table_line h t line update
      else plain_line h t line update

  -- What `Write` and `Flush` of the line buffer leave, put together again.
  rejoin : (LineBuffer × (Held × T)) × Option E → (BlockBuffer × T) × Option E
  rejoin ((l, (h, t)), e) = ((record { line_buffer = l; held = h }, t), e)

  pub write : BlockBuffer → Bytes → T → (BlockBuffer × T) × Option E
  unfolding rejoin handle_line LineBuffer.write
  write b fragment t = rejoin (LineBuffer.write handle_line b.line_buffer fragment (b.held, t))

  -- The end of `Flush`: what is still held back goes out.
  pub flush_held : Held → T → (Held × T) × Option E
  unfolding output_block output_table
  flush_held h t =
      if h.in_code_block && ltb 0 (length h.code_buffer)
      then output_block h t
      else if h.in_table && ltb 0 (length h.table_lines)
      then output_table h t
      else ((h, t), none)

  then_held : (LineBuffer × (Held × T)) × Option E → (BlockBuffer × T) × Option E
  unfolding rejoin flush_held
  then_held ((l, (h, t)), some e) = rejoin ((l, (h, t)), some e)
  then_held ((l, (h, t)), none) = let (r, e) = flush_held h t in rejoin ((l, r), e)

  pub flush : BlockBuffer → T → (BlockBuffer × T) × Option E
  unfolding then_held handle_line LineBuffer.flush
  flush b t = then_held (LineBuffer.flush handle_line b.line_buffer (b.held, t))
