-- ===== src/Devil/CmdOutput.antt =====
-- `_IterCmdOutputLines` of devil/utils/cmd_helper.py. Texts are lists of bytes; the generator of
-- the process's output is the list of what it yields, with the times that are read, and how it
-- ends. `iter_timeout` is `none` where it is None or 0.
pub mod Lines
pub mod Chunks
mod Tests
use car_multimedia_android_a.Base.{
  ℕ, zero, suc, ◌+◌, Bool, true, false, not, ◌&&◌, ◌||◌, Option, none, some, List, [], ◌∷◌, ◌++◌,
  map, ltb, ◌==◌, is_empty, if◌then◌else◌,
}

abbrev pub Text : Type 0
Text = List ℕ

abbrev pub newline : ℕ
newline = 10

abbrev pub carriage_return : ℕ
carriage_return = 13

abbrev pub starts_newline : Text → Bool
starts_newline [] = false
starts_newline (c ∷ s) = c == newline

-- A character before the first of some lines
abbrev pub push : ℕ → List Text → List Text
push c [] = (c ∷ []) ∷ []
push c (line ∷ lines) = (c ∷ line) ∷ lines

-- `str.splitlines`: a line ends with '\n', '\r' or '\r\n'.
unfoldable pub splitlines : Text → List Text
splitlines [] = []
splitlines (c ∷ s) =
    let rest = splitlines s in
    if c == newline
    then [] ∷ rest
    else if c == carriage_return
    then (if starts_newline s then rest else [] ∷ rest)
    else push c rest

abbrev pub last_of : Text → Option ℕ
last_of [] = none
last_of (c ∷ []) = some c
last_of (c ∷ d ∷ s) = last_of (d ∷ s)

-- `buffer_output[-1] not in '\r\n'` on the last byte
abbrev pub is_incomplete : ℕ → Bool
is_incomplete c = not (c == newline || c == carriage_return)

-- `lines.pop()` if there is an incomplete line: the lines that are left, and the buffer
abbrev pub pop_incomplete : Bool → List Text → List Text × Text
pop_incomplete false lines = (lines, [])
pop_incomplete true [] = ([], [])
pop_incomplete true (line ∷ []) = ([], line)
pop_incomplete true (line ∷ next ∷ lines) =
    let (done, buffer) = pop_incomplete true (next ∷ lines) in (line ∷ done, buffer)

-- How the generator ends.
pub data Outcome : Type 0 where
  ended called_process_error assertion_error index_error timeout_error : Outcome

-- How the generator of the output ends: with the process, and whether `check_status and
-- process.returncode` then holds, or with the TimeoutError of its own `timeout`.
pub data Exit : Type 0 where
  exited : Bool → Exit
  timed_out : Exit

-- What the generator of the output yields: data or None, the time then, and the time after the
-- lines of the data were taken.
pub record Output : Type 0 where
  pub data_read : Option Text
  pub now : ℕ
  pub later : ℕ

-- `iter_end`, and `buffer_output`
pub record Progress : Type 0 where
  pub iter_end : ℕ
  pub buffer_output : Text

-- What has been yielded before the rest
abbrev pub yielding :
    List (Option Text) → List (Option Text) × Outcome → List (Option Text) × Outcome
yielding lines (rest, outcome) = (lines ++ rest, outcome)

-- The time at which the iteration ends, once lines have been yielded
abbrev pub next_end : Option ℕ → List Text → ℕ → ℕ → ℕ
next_end (some iter_timeout) (_ ∷ _) later iter_end = later + iter_timeout
next_end (some iter_timeout) [] later iter_end = iter_end
next_end none lines later iter_end = iter_end

-- Whether the current iteration has timed out
abbrev pub is_overdue : Option ℕ → ℕ → ℕ → Bool
is_overdue none now iter_end = false
is_overdue (some _) now iter_end = ltb iter_end now

-- What follows the loop; the TimeoutError leaves the buffer behind.
abbrev pub finish : Exit → Text → List (Option Text) × Outcome
finish timed_out s = ([], timeout_error)
finish (exited failed) [] = ([], if failed then called_process_error else ended)
finish (exited failed) (c ∷ s) = (some (c ∷ s) ∷ [], if failed then called_process_error else ended)

-- The progress after a chunk, and the lines it completes; the buffer with it is not empty.
abbrev pub take_data : Option ℕ → Text → ℕ → ℕ → Progress → List Text × Progress
take_data iter_timeout text last later p =
    let (lines, buffer) = pop_incomplete (is_incomplete last) (splitlines text) in
    (
      lines,
      record { iter_end = next_end iter_timeout lines later p.iter_end; buffer_output = buffer },
    )

abbrev pub again : Option ℕ → ℕ → Progress → Progress
again none now p = p
again (some iter_timeout) now p = record p { iter_end = now + iter_timeout }

-- The loop of `_IterCmdOutputLines`, and what follows it.
unfoldable pub iter_lines : Option ℕ → Exit → List Output → Progress → List (Option Text) × Outcome
unfolding splitlines
iter_lines iter_timeout exit [] p = finish exit p.buffer_output
iter_lines iter_timeout exit (o ∷ rest) p = elim o.data_read [
  | none ↦ elim iter_timeout [
    | none ↦ ([], assertion_error)
    | some t ↦ yielding (none ∷ []) (iter_lines (some t) exit rest (again (some t) o.now p))
  ]
  | some chunk ↦
      if is_overdue iter_timeout o.now p.iter_end
      then yielding (none ∷ []) (iter_lines iter_timeout exit rest (again iter_timeout o.now p))
      else elim (last_of (p.buffer_output ++ chunk)) [
        | none ↦ ([], index_error)
        | some last ↦
            let (lines, q) = take_data iter_timeout (p.buffer_output ++ chunk) last o.later p in
            yielding (map some lines) (iter_lines iter_timeout exit rest q)
      ]
]
