-- ===== src/Devil/Flags/Strip.antt =====
-- `str.strip`, which `FlagChanger.GetCurrentFlags` applies to the file: it takes nothing from a
-- line that `_SerializeFlags` wrote.
use car_multimedia_android_a.Base.{
  ℕ, ◌≡◌, refl, ◌≢◌, All, Bool, true, false, not, ◌&&◌, List, [], ◌∷◌, ◌++◌, map, append-nil, arith,
  is_empty, if◌then◌else◌,
}
use car_multimedia_android_a.Devil.Flags.Text.{
  Flag, is_space, escape_quotes, in_quotes, join_rest, serialize_flags, quote_flag,
}
use car_multimedia_android_a.Devil.Flags.Loop.{IsPlain}
use car_multimedia_android_a.Devil.Flags.Quoting.{Quoted, whole, plain, pair, quote_flag-Quoted}
use car_multimedia_android_a.Devil.Flags.RoundTrip.{IsParsable, line_of}

unfoldable pub lstrip : List ℕ → List ℕ
lstrip [] = []
lstrip (c ∷ s) = let rest = lstrip s in if is_space c then rest else c ∷ s

unfoldable pub rstrip : List ℕ → List ℕ
rstrip [] = []
rstrip (c ∷ s) = let rest = rstrip s in if is_empty rest && is_space c then [] else c ∷ rest

unfoldable pub strip : List ℕ → List ℕ
unfolding lstrip rstrip is_space
strip s = rstrip (lstrip s)

-- The last character is there and is no space.
abbrev is_solid : List ℕ → Bool
is_solid [] = false
is_solid (c ∷ []) = not (is_space c)
is_solid (c ∷ d ∷ s) = is_solid (d ∷ s)

rstrip-solid : (s : List ℕ) → is_solid s ≡ true → rstrip s ≡ s
unfolding rstrip
rstrip-solid [] h = refl
rstrip-solid (c ∷ []) h = ground arith
rstrip-solid (c ∷ d ∷ s) h = rw (rstrip-solid (d ∷ s) h) refl

solid-append : (xs ys : List ℕ) → is_solid ys ≡ true → is_solid (xs ++ ys) ≡ true
solid-append [] ys h = h
solid-append (c ∷ []) [] h = cc
solid-append (c ∷ []) (d ∷ ys) h = h
solid-append (c ∷ d ∷ xs) ys h = solid-append (d ∷ xs) ys h

solid-plain : (f : Flag) → f ≢ [] → All IsPlain f → is_solid f ≡ true
solid-plain [] h p = absurd (h refl)
solid-plain (c ∷ []) h p = ground (arith, p.0)
solid-plain (c ∷ d ∷ f) h p = solid-plain (d ∷ f) (λ e. cc) p.1

solid-in_quotes : (v : List ℕ) → is_solid (in_quotes v) ≡ true
unfolding in_quotes is_space
solid-in_quotes v = solid-append (b'"' ∷ escape_quotes v) (b'"' ∷ []) refl

solid-Quoted : (f q : List ℕ) → f ≢ [] → Quoted f q → is_solid q ≡ true
solid-Quoted f q h (whole e) = rw e (solid-in_quotes f)
solid-Quoted f q h (plain e p n) = rw e (solid-plain f h p)
solid-Quoted f q h (pair k v e e' p) = rw e' (
    solid-append k (b'=' ∷ in_quotes v)
      (solid-append (b'=' ∷ []) (in_quotes v) (solid-in_quotes v)))

solid-join_rest :
    (f : Flag) (fs : List Flag)
    → All IsParsable (f ∷ fs)
    → is_solid (join_rest (map quote_flag (f ∷ fs))) ≡ true
unfolding join_rest
solid-join_rest f [] h = rw append-nil (
    solid-append (32 ∷ []) (quote_flag f)
      (solid-Quoted f (quote_flag f) h.0.0 (quote_flag-Quoted f)))
solid-join_rest f (g ∷ fs) h =
    solid-append (32 ∷ quote_flag f) (join_rest (map quote_flag (g ∷ fs)))
      (solid-join_rest g fs h.1)

-- A line break behind a text that ends in no space is all that is taken from it.
rstrip-newline : (s : List ℕ) → is_solid s ≡ true → rstrip (s ++ (10 ∷ [])) ≡ s
unfolding rstrip is_space
rstrip-newline [] h = absurd (cc)
rstrip-newline (c ∷ []) h = ground arith
rstrip-newline (c ∷ d ∷ s) h = rw (rstrip-newline (d ∷ s) h) refl

-- A line break behind the line that is written for some flags is stripped off.
pub strip-newline :
    (f : Flag) (fs : List Flag)
    → All IsParsable (f ∷ fs)
    → strip (line_of (serialize_flags (f ∷ fs)) ++ (10 ∷ [])) ≡ line_of (serialize_flags (f ∷ fs))
unfolding strip serialize_flags
strip-newline f fs h =
    rstrip-newline (b'_' ∷ join_rest (map quote_flag (f ∷ fs)))
      (solid-append (b'_' ∷ []) (join_rest (map quote_flag (f ∷ fs))) (solid-join_rest f fs h))

pub strip-serialize_flags :
    (fs : List Flag)
    → All IsParsable fs
    → strip (line_of (serialize_flags fs)) ≡ line_of (serialize_flags fs)
unfolding strip serialize_flags
strip-serialize_flags [] h = refl
strip-serialize_flags (f ∷ fs) h =
    rstrip-solid (b'_' ∷ join_rest (map quote_flag (f ∷ fs)))
      (solid-append (b'_' ∷ []) (join_rest (map quote_flag (f ∷ fs))) (solid-join_rest f fs h))
