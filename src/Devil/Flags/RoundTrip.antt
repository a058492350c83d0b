-- ===== src/Devil/Flags/RoundTrip.antt =====
-- `_ParseFlags` reads back what `_SerializeFlags` wrote.
use car_multimedia_android_a.Base.{
  ℕ, ◌≡◌, refl, ap, ◌∙◌, ◌≢◌, All, false, Option, none, some, List, [], ◌∷◌, ◌++◌, append_assoc,
  map,
}
use car_multimedia_android_a.Devil.Flags.Text.{
  Flag, ParseState, ends_with_escape, parse_char, parse_loop, flush, drop_first, join_rest,
  serialize_flags, parse_flags, quote_flag,
}
use car_multimedia_android_a.Devil.Flags.Loop.{at, parse_loop-append}
use car_multimedia_android_a.Devil.Flags.Quoting.{parse_loop-quote_flag}

-- A flag that survives being written and read: it has a character, and the last is no backslash.
abbrev pub IsParsable : Flag → Type 0
IsParsable f = (f ≢ []) × (ends_with_escape f ≡ false)

-- The flags that the loop has read when the line ends.
abbrev read : ParseState → List Flag
read s = flush s.flags s.current_flag

parse_loop-quoted :
    (done : List Flag) (g f : Flag)
    → IsParsable f
    → parse_loop (quote_flag f) (parse_char (at done none (some g)) 32)
      ≡ at (done ++ (g ∷ [])) none (some f)
unfolding parse_char
parse_loop-quoted done g f (h, n) = parse_loop-quote_flag (done ++ (g ∷ [])) f h ∙ rw n

read-join_rest :
    (fs : List Flag) (done : List Flag) (g : Flag)
    → All IsParsable fs
    → read (parse_loop (join_rest (map quote_flag fs)) (at done none (some g))) ≡ done ++ (g ∷ fs)
unfolding parse_loop join_rest
read-join_rest [] done g h = refl
read-join_rest (f ∷ fs) done g h =
    let line = join_rest (map quote_flag fs) in
    ap read (
      parse_loop-append (quote_flag f) line (parse_char (at done none (some g)) 32)
      ∙ ap (parse_loop line) (parse_loop-quoted done g f h.0))
    ∙ read-join_rest fs (done ++ (g ∷ [])) f h.1
    ∙ append_assoc done (g ∷ []) (f ∷ fs)

-- The command line that is written for some flags, '' where the file is removed.
abbrev pub line_of : Option (List ℕ) → List ℕ
line_of none = []
line_of (some line) = line

-- Flags that are not empty and do not end in a backslash are read back from the command line
-- that is written for them, all of them and in order.
pub parse_flags-serialize_flags :
    (fs : List Flag) → All IsParsable fs → parse_flags (line_of (serialize_flags fs)) ≡ fs
unfolding parse_flags serialize_flags
parse_flags-serialize_flags [] h = refl
parse_flags-serialize_flags (f ∷ fs) h = ap drop_first (read-join_rest (f ∷ fs) [] (b'_' ∷ []) h)
