-- ===== src/Tests/Helpers.antt =====
-- acp/helpers/: the theorems at concrete texts.
use acpp.Prelude.{
  ℕ, ◌==◌, ◌≢◌, ◌<◌, length, false, cut, has_prefix, newline, codes, ◌≡◌, refl, true, none, some,
  List, [], ◌∷◌, ◌++◌, arith,
}
use acpp.Helpers.LineBuffer.{new_line_buffer, write, flush, timer_flush}
use acpp.Helpers.LineBuffer.Screen.{Kept, show}
use acpp.Helpers.LineBuffer.Session.{
  Call, writes, timer_fires, flushes, session, start, screen_shows_text, IsShown,
}
use acpp.Helpers.LineBuffer.Retry.{fails, failed_line_lost}
use acpp.Helpers.Table.{
  Table, trim, parse_markdown_table, table_lines, can_render_as_embed, to_embed,
}
use acpp.Helpers.Table.Trim.{trim-same, trim-other}
use acpp.Helpers.Table.Lines.{TrimsSpace, IsCell}
use acpp.Helpers.Table.RoundTrip.{parse_markdown_table-table_lines}
use acpp.Helpers.Table.Embed.{narrow_overflows}
use acpp.Helpers.BlockBuffer.{no_held, handle_line}
use acpp.Helpers.BlockBuffer.Fence.{update_closes}

-- A line in two parts, the first one shown by the timer, and a flush at the end.
abbrev calls : List Call
calls = writes (codes "ab") ∷ timer_fires ∷ writes (codes "c\nd") ∷ flushes ∷ []

session_test : (session start calls).screen ≡ codes "abc" ∷ codes "d" ∷ []
unfolding session flush write cut timer_flush new_line_buffer show
session_test = refl

screen_shows_text_example : IsShown (session start calls)
screen_shows_text_example = screen_shows_text calls

failed_line_lost_example :
    let r = write fails new_line_buffer (codes "ab" ++ newline ∷ codes "c") [] in
    r.1 ≡ some tt × Kept (codes "c") (write show r.0.0 [] r.0.1)
failed_line_lost_example =
    failed_line_lost (codes "ab") (codes "c")
      (λ e. absurd (omega (arith, e)), (λ e. absurd (omega (arith, e)), tt))

update_closes_example :
    let r = handle_line show none (no_held, []) (codes "```g") false in
    r.0.0.in_code_block ≡ true
    × (handle_line show none r.0 (codes "```go") true).0.0.in_code_block ≡ false
unfolding no_held has_prefix
update_closes_example =
    update_closes show none no_held [] (codes "```g") (codes "```go") refl refl refl refl

trims : TrimsSpace (trim 32)
trims = record {
  blanks = trim-same 32;
  bars = λ s. trim-other 32 124 s refl;
  dashes = trim-other 32 45 (45 ∷ []) refl;
}

doubled-IsCell : (n : ℕ) → n ≢ 124 → (n == 32) ≡ false → IsCell (trim 32) (n ∷ n ∷ [])
doubled-IsCell n h e = record { no_bar = (h, (h, tt)); trimmed = trim-other 32 n [] e }

abbrev letters : Table
letters = record { headers = codes "aa" ∷ codes "bb" ∷ []; rows = (codes "cc" ∷ []) ∷ [] }

parse_markdown_table-table_lines_example :
    parse_markdown_table (trim 32) (table_lines letters.headers letters.rows) ≡ some letters
parse_markdown_table-table_lines_example =
    parse_markdown_table-table_lines (trim 32) trims letters
      (doubled-IsCell 97 (ground arith) refl, (doubled-IsCell 98 (ground arith) refl, tt))
      ((doubled-IsCell 99 (ground arith) refl, tt), tt)

abbrev narrow : Table
narrow = record { headers = codes "h" ∷ []; rows = [] ∷ [] ∷ [] ∷ [] ∷ [] ∷ [] ∷ [] ∷ [] ∷ [] }

accepted : can_render_as_embed narrow ≡ true
unfolding can_render_as_embed
accepted = refl

narrow_overflows_example : 25 < length (to_embed narrow)
narrow_overflows_example = narrow_overflows narrow accepted (omega arith) (omega arith)
