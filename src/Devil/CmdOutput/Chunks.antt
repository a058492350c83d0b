-- ===== src/Devil/CmdOutput/Chunks.antt =====
-- That the lines do not depend on how the output is cut into chunks.
use mathlib.Core.List.{map-append}
use car_multimedia_android_a.Base.{
  ℕ, ◌≡◌, refl, sym, ap, ◌∙◌, Bool, true, false, not, ◌&&◌, Option, none, some, List, [], ◌∷◌, ◌++◌,
  map, append-nil, append_assoc, ◌==◌, if◌then◌else◌, arith, Option-cases, inl, inr,
}
use car_multimedia_android_a.Devil.CmdOutput.{
  Text, carriage_return, splitlines, last_of, is_incomplete, Output, Progress, Outcome, yielding,
  take_data, iter_lines, finish, ended, called_process_error, Exit, exited,
}
use car_multimedia_android_a.Devil.CmdOutput.Lines.{Splits, text-Splits, whole}

-- All that was read, in one text
unfoldable pub joined : List Output → Text
joined [] = []
joined (o ∷ os) = (elim o.data_read [ none ↦ [] | some chunk ↦ chunk ]) ++ joined os

-- The chunk has a byte, and its last is no carriage return.
abbrev pub is_fit : Option Text → Bool
is_fit none = false
is_fit (some chunk) = elim (last_of chunk) [
  | none ↦ false
  | some last ↦ not (last == carriage_return)
]

unfoldable pub are_fit : List Output → Bool
are_fit [] = true
are_fit (o ∷ os) = is_fit o.data_read && are_fit os

abbrev outcome_of : Bool → Outcome
outcome_of failed = if failed then called_process_error else ended

finish-whole :
    (failed : Bool) (b : Text) → finish (exited failed) b ≡ (map some (whole b), outcome_of failed)
finish-whole failed [] = refl
finish-whole failed (c ∷ b) = refl

last_of-append :
    (b chunk : Text) (last : ℕ) → last_of chunk ≡ some last → last_of (b ++ chunk) ≡ some last
last_of-append [] chunk last p = p
last_of-append (c ∷ []) [] last p = absurd (cc)
last_of-append (c ∷ []) (d ∷ chunk) last p = p
last_of-append (c ∷ d ∷ b) chunk last p = last_of-append (d ∷ b) chunk last p

iter_lines-step :
    (exit : Exit) (o : Output) (os : List Output) (p : Progress) (chunk : Text) (last : ℕ)
    → o.data_read ≡ some chunk
    → last_of (p.buffer_output ++ chunk) ≡ some last
    → iter_lines none exit (o ∷ os) p
      ≡ yielding
          (map some (take_data none (p.buffer_output ++ chunk) last o.later p).0)
          (iter_lines none exit os (take_data none (p.buffer_output ++ chunk) last o.later p).1)
unfolding iter_lines
iter_lines-step exit o os p chunk last h l = ground arith

-- The same of a text that is not known to have a byte, but has a last one
any-Splits :
    (t u : Text) (last : ℕ)
    → last_of t ≡ some last
    → (last == carriage_return) ≡ false
    → Splits (splitlines t) (splitlines (t ++ u)) u (is_incomplete last)
any-Splits [] u last p q = absurd (cc)
any-Splits (c ∷ s) u last p q = text-Splits c s u last p q

-- The data of an output that is fit
fit-data :
    (d : Option Text)
    → is_fit d ≡ true
    → (chunk : Text) × (last : ℕ) × (d ≡ some chunk)
      × (last_of chunk ≡ some last)
      × ((last == carriage_return) ≡ false)
fit-data none p = absurd (cc)
fit-data (some chunk) p = elim (Option-cases (last_of chunk)) [
  | inl n ↦ absurd (ground arith)
  | inr (last, h) ↦ (chunk, last, refl, h, ground arith)
]

are_fit-cons :
    (o : Output) (os : List Output)
    → are_fit (o ∷ os) ≡ true
    → (is_fit o.data_read ≡ true) × (are_fit os ≡ true)
unfolding are_fit
are_fit-cons o os p = ground arith

joined-cons :
    (o : Output) (os : List Output) (chunk : Text)
    → o.data_read ≡ some chunk
    → joined (o ∷ os) ≡ chunk ++ joined os
unfolding joined
joined-cons o os chunk p = ground arith

-- From any progress whose buffer has no line break
iter_lines-rest :
    (failed : Bool) (os : List Output) (p : Progress)
    → are_fit os ≡ true
    → splitlines p.buffer_output ≡ whole p.buffer_output
    → iter_lines none (exited failed) os p
      ≡ (map some (splitlines (p.buffer_output ++ joined os)), outcome_of failed)
unfolding iter_lines joined
iter_lines-rest failed [] p f h =
    finish-whole failed p.buffer_output
    ∙ ap (λ ls. (map some ls, outcome_of failed))
        (sym h ∙ ap splitlines (sym (append-nil p.buffer_output)))
iter_lines-rest failed (o ∷ os) p f h =
    let fits = are_fit-cons o os f in
    let (chunk, last, d, l, r) = fit-data o.data_read fits.0 in
    let t = p.buffer_output ++ chunk in
    let tl = last_of-append p.buffer_output chunk last l in
    let s = any-Splits t (joined os) last tl r in
    let (lines, q) = take_data none t last o.later p in
    iter_lines-step (exited failed) o os p chunk last d tl
    ∙ ap (yielding (map some lines)) (iter_lines-rest failed os q fits.1 s.left_over)
    ∙ ap (λ ls. (ls, outcome_of failed))
        (sym (map-append some lines (splitlines (q.buffer_output ++ joined os)))
          ∙ ap (map some) (
              sym s.joined_lines
              ∙ ap splitlines (
                  append_assoc p.buffer_output chunk (joined os)
                  ∙ ap (◌++◌ p.buffer_output) (sym (joined-cons o os chunk d)))))

-- Without a time limit on an iteration, if the command ends before its own time limit and no chunk
-- of the output is empty or ends in a carriage return, the generator yields the lines of all of the output joined, however it was cut
-- into chunks and whenever they came, and then ends, with a CalledProcessError if the status is
-- checked and the process has failed.
pub iter_lines-joined :
    (failed : Bool) (os : List Output) (iter_end : ℕ)
    → are_fit os ≡ true
    → iter_lines none (exited failed) os (record { iter_end = iter_end; buffer_output = [] })
      ≡ (map some (splitlines (joined os)), if failed then called_process_error else ended)
unfolding splitlines
iter_lines-joined failed os iter_end f =
    iter_lines-rest failed os (record { iter_end = iter_end; buffer_output = [] }) f refl
