-- ===== src/Devil/Flags/Lines.antt =====
-- Command lines without line breaks, which `ReadFile` of a device reads back but for a line break
-- that it may put behind them.
use car_multimedia_android_a.Base.{
  ℕ, ◌≡◌, refl, ap, sym, ◌∙◌, All, Bool, true, false, not, ◌&&◌, ◌||◌, List, [], ◌∷◌, ◌++◌, map,
  arith, ◌==◌,
}
use car_multimedia_android_a.Devil.Flags.Text.{
  Flag, escape_quotes, in_quotes, join_rest, serialize_flags, quote_flag,
}
use car_multimedia_android_a.Devil.Flags.Quoting.{Quoted, whole, plain, pair, quote_flag-Quoted}
use car_multimedia_android_a.Devil.Flags.RoundTrip.{IsParsable, line_of}

abbrev pub is_break : ℕ → Bool
is_break c = c == 10 || c == 13

unfoldable pub is_one_line : List ℕ → Bool
is_one_line [] = true
is_one_line (c ∷ s) = not (is_break c) && is_one_line s

-- A flag that survives being stored in a file: its command line is parsed to it, and it has no
-- line break.
abbrev pub IsStorable : Flag → Type 0
IsStorable f = IsParsable f × (is_one_line f ≡ true)

pub IsStorable-IsParsable : (fs : List Flag) → All IsStorable fs → All IsParsable fs
IsStorable-IsParsable [] h = tt
IsStorable-IsParsable (f ∷ fs) h = (h.0.0, IsStorable-IsParsable fs h.1)

is_one_line-append : (xs ys : List ℕ) → is_one_line (xs ++ ys) ≡ (is_one_line xs && is_one_line ys)
unfolding is_one_line
is_one_line-append [] ys = refl
is_one_line-append (c ∷ xs) ys = ground (arith, is_one_line-append xs ys)

is_one_line-escape_quotes : (s : List ℕ) → is_one_line (escape_quotes s) ≡ is_one_line s
unfolding is_one_line escape_quotes
is_one_line-escape_quotes [] = refl
is_one_line-escape_quotes (c ∷ s) = ground (arith, is_one_line-escape_quotes s)

and_true : (b : Bool) → (b && true) ≡ b
and_true true = refl
and_true false = refl

is_one_line-in_quotes : (v : List ℕ) → is_one_line (in_quotes v) ≡ is_one_line v
unfolding is_one_line in_quotes
is_one_line-in_quotes v =
    is_one_line-append (escape_quotes v) (b'"' ∷ [])
    ∙ and_true (is_one_line (escape_quotes v))
    ∙ is_one_line-escape_quotes v

is_one_line-Quoted : (f q : List ℕ) → Quoted f q → is_one_line q ≡ is_one_line f
unfolding is_one_line
is_one_line-Quoted f q (whole e) = ap is_one_line e ∙ is_one_line-in_quotes f
is_one_line-Quoted f q (plain e p n) = ap is_one_line e
is_one_line-Quoted f q (pair k v e e' p) =
    ap is_one_line e'
    ∙ is_one_line-append k (b'=' ∷ in_quotes v)
    ∙ ap (λ b. is_one_line k && b) (is_one_line-in_quotes v)
    ∙ sym (is_one_line-append k (b'=' ∷ v))
    ∙ ap is_one_line (sym e)

is_one_line-join_rest :
    (fs : List Flag) → All IsStorable fs → is_one_line (join_rest (map quote_flag fs)) ≡ true
unfolding is_one_line join_rest
is_one_line-join_rest [] h = refl
is_one_line-join_rest (f ∷ fs) h =
    is_one_line-append (quote_flag f) (join_rest (map quote_flag fs))
    ∙ ap (λ b. b && is_one_line (join_rest (map quote_flag fs)))
        (is_one_line-Quoted f (quote_flag f) (quote_flag-Quoted f) ∙ h.0.1)
    ∙ is_one_line-join_rest fs h.1

-- What is written for storable flags is one line.
pub is_one_line-serialize_flags :
    (fs : List Flag) → All IsStorable fs → is_one_line (line_of (serialize_flags fs)) ≡ true
unfolding is_one_line serialize_flags
is_one_line-serialize_flags [] h = refl
is_one_line-serialize_flags (f ∷ fs) h = is_one_line-join_rest (f ∷ fs) h
