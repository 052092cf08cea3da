-- ===== src/Helpers/LineBuffer/Retry.antt =====
-- What an error of the output callback leaves to a later call.
use mathlib.Core.Path.{subst}
use acpp.Prelude.{
  Bytes, newline, Lacks, cut-append, ◌≡◌, refl, sym, ap, inr, arith, Bool, Option, some, List, [],
  ◌∷◌, ◌++◌, append-nil, length, suc,
}
use acpp.Helpers.LineBuffer.{
  LineBuffer, new_line_buffer, write, process_buffer, process_lines, next_line,
}
use acpp.Helpers.LineBuffer.Screen.{NoError, Kept, show, process_lines-Shows}

-- A callback that always fails.
pub fails : List Bytes → Bytes → Bool → List Bytes × Option NoError
fails s line update = (s, some tt)

retained : Bytes → LineBuffer
retained rest = record new_line_buffer { buffer = rest }

write-fails :
    (line rest : Bytes)
    → Lacks newline line
    → write fails new_line_buffer (line ++ newline ∷ rest) [] ≡ ((retained rest, []), some tt)
unfolding write process_buffer process_lines fails retained new_line_buffer
write-fails line rest h =
    ap
      (next_line fails (process_lines fails (length (line ++ newline ∷ rest)))
        (record new_line_buffer { buffer = line ++ newline ∷ rest }) (line ++ newline ∷ rest) [])
      (cut-append line rest newline h)

retry : (rest : Bytes) → Kept rest (write show (retained rest) [] [])
unfolding write process_buffer retained new_line_buffer
retry rest =
    subst
      (λ content. Kept rest (
        process_lines show (suc (length content)) (record new_line_buffer { buffer = content })
          content []))
      (sym (append-nil rest))
      (process_lines-Shows (suc (length rest)) (record new_line_buffer { buffer = rest }) rest [] tt
        tt (inr (refl, refl)) (omega arith))

-- A line whose output fails is gone: the error comes back, and a later write, with an output that
-- works, shows the text after the line and never the line.
pub failed_line_lost :
    (line rest : Bytes)
    → Lacks newline line
    → let r = write fails new_line_buffer (line ++ newline ∷ rest) [] in
      r.1 ≡ some tt × Kept rest (write show r.0.0 [] r.0.1)
failed_line_lost line rest h = rw (write-fails line rest h) (refl, retry rest)
