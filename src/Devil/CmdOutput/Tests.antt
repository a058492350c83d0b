-- ===== src/Devil/CmdOutput/Tests.antt =====
-- Outputs in chunks, and what is yielded of them.
use car_multimedia_android_a.Base.{ℕ, ◌≡◌, refl, true, false, none, some, List, [], ◌∷◌, map}
use car_multimedia_android_a.Devil.CmdOutput.{
  Text, newline, carriage_return, splitlines, Output, Progress, ended, called_process_error,
  iter_lines, exited, timed_out, timeout_error,
}
use car_multimedia_android_a.Devil.CmdOutput.Chunks.{joined, are_fit, iter_lines-joined}

abbrev chunk : Text → ℕ → Output
chunk s now = record { data_read = some s; now = now; later = now }

abbrev fresh : Progress
fresh = record { iter_end = 10; buffer_output = [] }

-- "ab" and "c\nd"
abbrev two_chunks : List Output
two_chunks = chunk (b'a' ∷ b'b' ∷ []) 1 ∷ chunk (b'c' ∷ newline ∷ b'd' ∷ []) 2 ∷ []

iter_lines-joined_example :
    iter_lines none (exited true) two_chunks (record { iter_end = 10; buffer_output = [] })
    ≡ (map some (splitlines (joined two_chunks)), called_process_error)
unfolding are_fit
iter_lines-joined_example = iter_lines-joined true two_chunks 10 refl

-- The lines of "a\r\nb" have an empty one among them if the output is cut after the return.
a_cut_line_end :
    iter_lines none
      (exited false)
      (chunk (b'a' ∷ carriage_return ∷ []) 1 ∷ chunk (newline ∷ b'b' ∷ []) 2 ∷ [])
      fresh
    ≡ (some (b'a' ∷ []) ∷ some [] ∷ some (b'b' ∷ []) ∷ [], ended)
unfolding iter_lines
a_cut_line_end = refl

-- With a time limit of 5 on an iteration, a chunk that comes after it is dropped.
a_late_chunk :
    iter_lines
      (some 5)
      (exited false)
      (chunk (b'a' ∷ newline ∷ []) 11 ∷ chunk (b'b' ∷ newline ∷ []) 12 ∷ [])
      fresh
    ≡ (none ∷ some (b'b' ∷ []) ∷ [], ended)
unfolding iter_lines
a_late_chunk = refl

-- A TimeoutError of the command takes the place of the line that is not complete.
a_timeout :
    iter_lines none timed_out (chunk (b'a' ∷ newline ∷ b'b' ∷ []) 1 ∷ []) fresh
    ≡ (some (b'a' ∷ []) ∷ [], timeout_error)
unfolding iter_lines
a_timeout = refl
