-- ===== src/Helpers/LineBuffer/Screen.antt =====
-- A line buffer in front of a screen that never fails: an update replaces the last line, anything
-- else starts a new one.
use mathlib.Core.Path.{subst, subst₂}
use acpp.Prelude.{
  Bytes, newline, cut, cut_cases, Lacks, All, All-append, ℕ, zero, suc, ◌<◌, ◌≡◌, refl, sym, ap,
  ◌∙◌, ◌⊎◌, inl, inr, ◌≢◌, Bool, true, false, Option, none, some, List, [], ◌∷◌, ◌++◌, append_assoc,
  append-nil, arith, length, length-append, if◌then◌else◌,
}
use acpp.Helpers.LineBuffer.{
  LineBuffer, new_line_buffer, process_lines, process_buffer, next_line, after_line, rest_pending,
  write,
}

replace_last : List Bytes → Bytes → List Bytes
replace_last [] line = line ∷ []
replace_last (x ∷ []) line = line ∷ []
replace_last (x ∷ y ∷ ls) line = x ∷ replace_last (y ∷ ls) line

abbrev pub NoError : Type 0
NoError = Unit {0}

unfoldable pub show : List Bytes → Bytes → Bool → List Bytes × Option NoError
unfolding replace_last
show ls line update = (if update then replace_last ls line else ls ++ line ∷ [], none)

replace_last_lem :
    (ls : List Bytes) (x line : Bytes) → replace_last (ls ++ x ∷ []) line ≡ ls ++ line ∷ []
unfolding replace_last
replace_last_lem [] x line = refl
replace_last_lem (y ∷ []) x line = refl
replace_last_lem (y ∷ z ∷ ls) x line = ap (◌∷◌ y) (replace_last_lem (z ∷ ls) x line)

-- Lines, each with its newline.
abbrev pub unlines : List Bytes → Bytes
unlines [] = []
unlines (l ∷ ls) = l ++ newline ∷ unlines ls

pub unlines-append : (ls ms : List Bytes) → unlines (ls ++ ms) ≡ unlines ls ++ unlines ms
unlines-append [] ms = refl
unlines-append (l ∷ ls) ms = simp (unlines-append ls ms, append_assoc)

-- The line that is on the screen and not finished.
abbrev pub partial : Bool → Bytes → List Bytes
partial true line = line ∷ []
partial false line = []

-- The screen shows the finished lines of the text and, after a timer flush, the start of the next;
-- what is not shown is in the buffer.
pub record Shows (text : Bytes) (b : LineBuffer) (screen : List Bytes) : Type 0 where
  pub lines : List Bytes
  pub spells : text ≡ unlines lines ++ (b.current_line ++ b.buffer)
  pub shown : screen ≡ lines ++ partial b.has_output b.current_line
  pub fresh : (b.has_output ≡ true) ⊎ (b.has_output ≡ false × b.current_line ≡ [])
  pub finished_lines : All (Lacks newline) lines
  pub one_line : Lacks newline b.current_line × Lacks newline b.buffer

pub new_line_buffer-Shows : Shows [] new_line_buffer []
unfolding new_line_buffer
new_line_buffer-Shows = record {
  lines = [];
  spells = refl;
  shown = refl;
  fresh = inr (refl, refl);
  finished_lines = tt;
  one_line = (tt, tt);
}

-- A line goes to the screen in place of its start.
pub show-partial :
    (ls : List Bytes) (h : Bool) (c line : Bytes)
    → show (ls ++ partial h c) line h ≡ (ls ++ line ∷ [], none)
unfolding show
show-partial ls true c line = ap (λ (x : List Bytes). (x, none)) (replace_last_lem ls c line)
show-partial ls false c line = rw append-nil

rest_pending_parts :
    (b : LineBuffer) (c : Bytes)
    → (rest_pending show b c).buffer ≡ c
      × (rest_pending show b c).current_line ≡ b.current_line
      × (rest_pending show b c).has_output ≡ b.has_output
unfolding rest_pending
rest_pending_parts b [] = ground arith
rest_pending_parts b (x ∷ c) = (refl, refl, refl)

-- What a call of `write` or `flush` leaves, when no error came back.
abbrev pub Kept : Bytes → (LineBuffer × List Bytes) × Option NoError → Type 0
Kept text ((b, screen), e) = Shows text b screen × e ≡ none

pending :
    (b : LineBuffer) (content : Bytes) (ls : List Bytes)
    → All (Lacks newline) ls
    → Lacks newline b.current_line
    → (b.has_output ≡ true) ⊎ (b.has_output ≡ false × b.current_line ≡ [])
    → Lacks newline content
    → Kept
        (unlines ls ++ (b.current_line ++ content))
        ((rest_pending show b content, ls ++ partial b.has_output b.current_line), none)
pending b content ls h k f n =
    let (x, y, z) = rest_pending_parts b content in
    (
      record {
        lines = ls;
        spells = rw (x, y);
        shown = rw (y, z);
        fresh = rw (y, z) f;
        finished_lines = h;
        one_line = (rw y k, rw x n);
      },
      refl,
    )

abbrev next_state : LineBuffer → LineBuffer
next_state b = record b { current_line = []; has_output = false }

process_step :
    (fuel : ℕ) (b : LineBuffer) (content a r : Bytes) (ls : List Bytes)
    → cut content newline ≡ some (a, r)
    → process_lines show (suc fuel) b content (ls ++ partial b.has_output b.current_line)
      ≡ process_lines show fuel (next_state b) r (ls ++ (b.current_line ++ a) ∷ [])
unfolding process_lines
process_step fuel b content a r ls q =
    ap (next_line show (process_lines show fuel) b content _) q
    ∙ ap (after_line show (λ b'. process_lines show fuel b' r) b r)
        (show-partial ls b.has_output b.current_line (b.current_line ++ a))

process_end :
    (fuel : ℕ) (b : LineBuffer) (content : Bytes) (screen : List Bytes)
    → cut content newline ≡ none
    → process_lines show (suc fuel) b content screen ≡ ((rest_pending show b content, screen), none)
unfolding process_lines
process_end fuel b content screen q =
    ap (next_line show (process_lines show fuel) b content screen) q

respell :
    (ls : List Bytes) (cur content a r : Bytes)
    → content ≡ a ++ newline ∷ r
    → unlines (ls ++ (cur ++ a) ∷ []) ++ ([] ++ r) ≡ unlines ls ++ (cur ++ content)
respell ls cur content a r p = rw p (simp (unlines-append, append_assoc))

pub process_lines-Shows :
    (fuel : ℕ) (b : LineBuffer) (content : Bytes) (ls : List Bytes)
    → All (Lacks newline) ls
    → Lacks newline b.current_line
    → (b.has_output ≡ true) ⊎ (b.has_output ≡ false × b.current_line ≡ [])
    → length content < fuel
    → Kept
        (unlines ls ++ (b.current_line ++ content))
        (process_lines show fuel b content (ls ++ partial b.has_output b.current_line))
process_lines-Shows zero b content ls h k f lt = absurd (omega arith)
process_lines-Shows (suc fuel) b content ls h k f lt = elim (cut_cases content newline) [
  | inl (q, none_left) ↦
      subst (Kept (unlines ls ++ (b.current_line ++ content)))
        (sym (process_end fuel b content _ q)) (pending b content ls h k f none_left)
  | inr (a, r, q, p, one) ↦
      subst₂ Kept (respell ls b.current_line content a r p)
        (sym (process_step fuel b content a r ls q))
        (subst
          (λ screen.
            Kept (unlines (ls ++ (b.current_line ++ a) ∷ []) ++ ([] ++ r))
              (process_lines show fuel (next_state b) r screen))
          (append-nil (ls ++ (b.current_line ++ a) ∷ []))
          (process_lines-Shows fuel (next_state b) r (ls ++ (b.current_line ++ a) ∷ [])
            (All-append (Lacks newline) ls ((b.current_line ++ a) ∷ []) h
              (All-append (λ c. c ≢ newline) b.current_line a k one, tt))
            tt (inr (refl, refl)) (omega (arith, ap length p, length-append a (newline ∷ r)))))
]

-- A write goes on with the text: whatever its parts were, the screen shows the finished lines.
pub write-Shows :
    (text fragment : Bytes) (b : LineBuffer) (screen : List Bytes)
    → Shows text b screen
    → Kept (text ++ fragment) (write show b fragment screen)
unfolding write process_buffer
write-Shows text fragment b screen v =
    subst₂ Kept
      (ap (λ x. unlines v.lines ++ x) (sym (append_assoc b.current_line b.buffer fragment))
        ∙ sym (append_assoc (unlines v.lines) (b.current_line ++ b.buffer) fragment)
        ∙ ap (λ x. x ++ fragment) (sym v.spells))
      (ap
        (process_lines show (suc (length (b.buffer ++ fragment)))
          (record b { buffer = b.buffer ++ fragment }) (b.buffer ++ fragment))
        (sym v.shown))
      (process_lines-Shows (suc (length (b.buffer ++ fragment)))
        (record b { buffer = b.buffer ++ fragment }) (b.buffer ++ fragment) v.lines v.finished_lines
        v.one_line.0 v.fresh (omega arith))
