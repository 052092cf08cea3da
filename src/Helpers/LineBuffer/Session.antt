-- ===== src/Helpers/LineBuffer/Session.antt =====
-- A whole session of a line buffer: fragments, timer flushes and explicit flushes in any order.
use mathlib.Core.Path.{subst}
use acpp.Prelude.{
  ◌≢◌, arith, Bytes, newline, Lacks, All-append, ◌≡◌, refl, sym, ap, ◌∙◌, inl, inr, false, Option,
  none, List, [], ◌∷◌, ◌++◌, append_assoc, append-nil,
}
use acpp.Helpers.LineBuffer.{
  LineBuffer, new_line_buffer, stop_timer, write, timer_flush, flush, timer_content, flush_content,
}
use acpp.Helpers.LineBuffer.Screen.{
  NoError, Shows, Kept, show, show-partial, unlines, unlines-append, new_line_buffer-Shows,
  write-Shows,
}

stop_timer_parts :
    (b : LineBuffer)
    → (stop_timer b).buffer ≡ b.buffer
      × (stop_timer b).current_line ≡ b.current_line
      × (stop_timer b).has_output ≡ b.has_output
unfolding stop_timer
stop_timer_parts b = ground arith

-- Changes of the timer do not show.
same_text :
    (text : Bytes) (b b' : LineBuffer) (screen : List Bytes)
    → b'.buffer ≡ b.buffer × b'.current_line ≡ b.current_line × b'.has_output ≡ b.has_output
    → Shows text b screen
    → Shows text b' screen
same_text text b b' screen (x, y, z) v = record {
  lines = v.lines;
  spells = rw (x, y) v.spells;
  shown = rw (y, z) v.shown;
  fresh = rw (y, z) v.fresh;
  finished_lines = v.finished_lines;
  one_line = (rw y v.one_line.0, rw x v.one_line.1);
}

no_newline :
    {text : Bytes} {b : LineBuffer} {screen : List Bytes} (content : Bytes)
    → Shows text b screen
    → b.buffer ≡ content
    → Lacks newline (b.current_line ++ content)
no_newline {b = b} content v e =
    All-append (λ c. c ≢ newline) b.current_line content v.one_line.0
      (subst (Lacks newline) e v.one_line.1)

timer-Shows :
    (text : Bytes) (b : LineBuffer) (screen : List Bytes) (content : Bytes)
    → Shows text b screen
    → b.buffer ≡ content
    → let r = timer_content show (record b { timer_running = false }) screen content in
      Shows text r.0 r.1
unfolding timer_content
timer-Shows text b screen [] v e = same_text text b _ screen (refl, refl, refl) v
timer-Shows text b screen (c ∷ content) v e =
    rw (v.shown, show-partial v.lines b.has_output b.current_line (b.current_line ++ c ∷ content))
      (record {
        lines = v.lines;
        spells =
            v.spells
            ∙ ap (λ x. unlines v.lines ++ (b.current_line ++ x)) e
            ∙ ap (λ x. unlines v.lines ++ x) (sym (append-nil _));
        shown = refl;
        fresh = inl refl;
        finished_lines = v.finished_lines;
        one_line = (no_newline (c ∷ content) v e, tt);
      })

-- An explicit flush ends the line that it puts out.
pub line_end : Bytes → Bytes
line_end [] = []
line_end (c ∷ content) = newline ∷ []

flush-Shows :
    (text : Bytes) (b : LineBuffer) (screen : List Bytes) (content : Bytes)
    → Shows text b screen
    → b.buffer ≡ content
    → Kept (text ++ line_end content) (flush_content show b screen content)
unfolding flush_content line_end
flush-Shows text b screen [] v e = (rw append-nil v, refl)
flush-Shows text b screen (c ∷ content) v e =
    rw (v.shown, show-partial v.lines b.has_output b.current_line (b.current_line ++ c ∷ content))
      (
        record {
          lines = v.lines ++ (b.current_line ++ c ∷ content) ∷ [];
          spells =
              ap (λ x. x ++ newline ∷ [])
                (v.spells ∙ ap (λ x. unlines v.lines ++ (b.current_line ++ x)) e)
              ∙ simp (unlines-append, append_assoc);
          shown = sym (append-nil _);
          fresh = inr (refl, refl);
          finished_lines =
              All-append (Lacks newline) v.lines ((b.current_line ++ c ∷ content) ∷ [])
                v.finished_lines (no_newline (c ∷ content) v e, tt);
          one_line = (tt, tt);
        },
        refl,
      )

pub data Call : Type 0 where
  writes : Bytes → Call
  timer_fires : Call
  flushes : Call

-- `text` is the history of what was written, with a newline for each flush that ended a line.
pub record Session : Type 0 where
  pub text : Bytes
  pub line_buffer : LineBuffer
  pub screen : List Bytes

abbrev pub start : Session
start = record { text = []; line_buffer = new_line_buffer; screen = [] }

after : Bytes → (LineBuffer × List Bytes) × Option NoError → Session
after text ((b, screen), e) = record { text = text; line_buffer = b; screen = screen }

call : Session → Call → Session
unfolding after
call s (writes f) = after (s.text ++ f) (write show s.line_buffer f s.screen)
call s timer_fires = after s.text (timer_flush show s.line_buffer s.screen, none)
call s flushes = after (s.text ++ line_end s.line_buffer.buffer) (flush show s.line_buffer s.screen)

unfoldable pub session : Session → List Call → Session
unfolding call
session s [] = s
session s (c ∷ cs) = session (call s c) cs

abbrev pub IsShown : Session → Type 0
IsShown s = Shows s.text s.line_buffer s.screen

call-IsShown : (s : Session) (c : Call) → IsShown s → IsShown (call s c)
unfolding call
call-IsShown s (writes f) v = (write-Shows s.text f s.line_buffer s.screen v).0
call-IsShown s timer_fires v =
    unfold timer_flush in timer-Shows s.text s.line_buffer s.screen s.line_buffer.buffer v refl
call-IsShown s flushes v =
    unfold flush in
    (flush-Shows s.text (stop_timer s.line_buffer) s.screen s.line_buffer.buffer
      (same_text s.text s.line_buffer _ s.screen (stop_timer_parts s.line_buffer) v)
      (stop_timer_parts s.line_buffer).0).0

session-IsShown : (cs : List Call) (s : Session) → IsShown s → IsShown (session s cs)
unfolding session
session-IsShown [] s v = v
session-IsShown (c ∷ cs) s v = session-IsShown cs (call s c) (call-IsShown s c v)

-- After any session the screen shows exactly the finished lines of the text, in order, and, if a
-- timer flush showed the start of the last line, that start; the buffer holds the rest of it.
pub screen_shows_text : (cs : List Call) → IsShown (session start cs)
screen_shows_text cs = session-IsShown cs start new_line_buffer-Shows
