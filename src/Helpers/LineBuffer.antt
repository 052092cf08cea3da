-- ===== src/Helpers/LineBuffer.antt =====
-- acp/helpers/line_buffer.go. The output callback is a parameter: it changes a state `S` of its own
-- and may return an error. The timer is its two flags; that it fires is a call of `timer_flush`.
-- The mutex makes each call atomic.
pub mod Screen
pub mod Session
pub mod Retry
use acpp.Prelude.{
  Bytes, newline, cut, ℕ, zero, suc, Bool, true, false, Option, none, some, [], ◌∷◌, ◌++◌, length,
}

pub record LineBuffer : Type 0 where
  pub buffer : Bytes
  pub current_line : Bytes
  pub has_output : Bool
  pub timer : Bool
  pub timer_running : Bool
  pub flush_delay : ℕ

-- The delay is in milliseconds.
unfoldable pub new_line_buffer : LineBuffer
new_line_buffer = record {
  buffer = [];
  current_line = [];
  has_output = false;
  timer = false;
  timer_running = false;
  flush_delay = 5000;
}

unfoldable pub set_flush_delay : LineBuffer → ℕ → LineBuffer
set_flush_delay b d = record b { flush_delay = d }

pub start_timer : LineBuffer → LineBuffer
start_timer b = record b { timer = true; timer_running = true }

pub stop_timer : LineBuffer → LineBuffer
stop_timer b = elim b.timer [ true ↦ record b { timer = false; timer_running = false } | false ↦ b ]

module _ {ℓ κ} {S : Type ℓ} {E : Type κ} (output : S → Bytes → Bool → S × Option E) where
  -- The end of `processBuffer`: what is left has no newline.
  rest_pending : LineBuffer → Bytes → LineBuffer
  unfolding start_timer stop_timer
  rest_pending b [] = stop_timer (record b { buffer = [] })
  rest_pending b (c ∷ content) = start_timer (record b { buffer = c ∷ content })

  -- After a line was given to `output`: the loop goes on with `go`, or the error returns.
  after_line :
      (LineBuffer → S → (LineBuffer × S) × Option E)
      → LineBuffer
      → Bytes
      → S × Option E
      → (LineBuffer × S) × Option E
  after_line go b rest (s, none) = go (record b { current_line = []; has_output = false }) s
  after_line go b rest (s, some err) = ((record b { buffer = b.current_line ++ rest }, s), some err)

  next_line :
      (LineBuffer → Bytes → S → (LineBuffer × S) × Option E)
      → LineBuffer
      → Bytes
      → S
      → Option (Bytes × Bytes)
      → (LineBuffer × S) × Option E
  unfolding after_line rest_pending
  next_line go b content s none = ((rest_pending b content, s), none)
  next_line go b content s (some (line, rest)) =
      after_line (λ b'. go b' rest) b rest (output s (b.current_line ++ line) b.has_output)

  -- The loop of `processBuffer`. Each round takes a line off `content`, so the fuel of
  -- `process_buffer` is enough.
  unfoldable pub process_lines : ℕ → LineBuffer → Bytes → S → (LineBuffer × S) × Option E
  unfolding next_line
  process_lines zero b content s = ((b, s), none)
  process_lines (suc fuel) b content s =
      next_line (process_lines fuel) b content s (cut content newline)

  pub process_buffer : LineBuffer → S → (LineBuffer × S) × Option E
  unfolding process_lines
  process_buffer b s = process_lines (suc (length b.buffer)) b b.buffer s

  unfoldable pub write : LineBuffer → Bytes → S → (LineBuffer × S) × Option E
  unfolding process_buffer
  write b fragment s = process_buffer (record b { buffer = b.buffer ++ fragment }) s

  -- What `timerFlush` makes of the callback's answer: an error keeps the content for a retry.
  flushed : LineBuffer → Bytes → S × Option E → LineBuffer × S
  flushed b full (s, none) = (record b { current_line = full; has_output = true; buffer = [] }, s)
  flushed b full (s, some err) = (b, s)

  timer_content : LineBuffer → S → Bytes → LineBuffer × S
  unfolding flushed
  timer_content b s [] = (b, s)
  timer_content b s (c ∷ content) =
      let full = b.current_line ++ c ∷ content in flushed b full (output s full b.has_output)

  unfoldable pub timer_flush : LineBuffer → S → LineBuffer × S
  unfolding timer_content
  timer_flush b s = timer_content (record b { timer_running = false }) s b.buffer

  finished : LineBuffer → S × Option E → (LineBuffer × S) × Option E
  finished b (s, none) =
      ((record b { current_line = []; has_output = false; buffer = [] }, s), none)
  finished b (s, some err) = ((b, s), some err)

  flush_content : LineBuffer → S → Bytes → (LineBuffer × S) × Option E
  unfolding finished
  flush_content b s [] = ((b, s), none)
  flush_content b s (c ∷ content) =
      finished b (output s (b.current_line ++ c ∷ content) b.has_output)

  unfoldable pub flush : LineBuffer → S → (LineBuffer × S) × Option E
  unfolding flush_content stop_timer
  flush b s = flush_content (stop_timer b) s b.buffer
