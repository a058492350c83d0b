-- ===== src/Devil/Flags/Quoting.antt =====
-- How `_QuoteFlag` writes a flag, and what the parsing loop makes of what it wrote.
use car_multimedia_android_a.Base.{
  ℕ, ◌≡◌, refl, ap, sym, subst, ◌∙◌, ◌≢◌, All, All-append, Bool, true, false, ◌||◌, Option, none,
  some, List, [], ◌∷◌, ◌++◌, arith, ◌==◌, is_empty, if◌then◌else◌, Bool-cases, inl, inr,
}
use car_multimedia_android_a.Devil.Flags.Text.{
  Flag, is_quote, is_space, is_word, needs_quoting, ParseState, ends_with_escape, parse_char,
  parse_loop, escape_quotes, in_quotes, quote_value, quote_pair, quote_flag, split_flag, add_char,
  escaped, replace_last,
}
use car_multimedia_android_a.Devil.Flags.Loop.{
  at, add_all, add_all-some, IsPlain, parse_loop-append, parse_loop-escape_quotes, parse_loop-plain,
  parse_char-plain, ends_with_escape-snoc,
}

-- The state behind a closing quote: a backslash before it makes it a character of the flag.
abbrev pub closed : List Flag → Option Flag → ParseState
closed fs fl = if escaped fl then at fs (some b'"') (replace_last fl b'"') else at fs none fl

parse_opening :
    (fs : List Flag) (fl : Option Flag)
    → escaped fl ≡ false
    → parse_char (at fs none fl) b'"' ≡ at fs (some b'"') fl
unfolding parse_char
parse_opening fs fl h = rw h

parse_closing :
    (fs : List Flag) (fl : Option Flag) → parse_char (at fs (some b'"') fl) b'"' ≡ closed fs fl
unfolding parse_char
parse_closing fs fl = refl

parse_loop-in_quotes :
    (v : List ℕ) (fs : List Flag) (fl : Option Flag)
    → escaped fl ≡ false
    → parse_loop (in_quotes v) (at fs none fl) ≡ closed fs (add_all fl v)
unfolding parse_loop in_quotes
parse_loop-in_quotes v fs fl h =
    ap (parse_loop (escape_quotes v ++ (b'"' ∷ []))) (parse_opening fs fl h)
    ∙ parse_loop-append (escape_quotes v) (b'"' ∷ []) (at fs (some b'"') fl)
    ∙ ap (parse_loop (b'"' ∷ [])) (parse_loop-escape_quotes v fs fl)
    ∙ parse_closing fs (add_all fl v)

is_word-IsPlain : (c : ℕ) → is_word c ≡ true → IsPlain c
unfolding is_word is_quote is_space
is_word-IsPlain c h = ground arith

needs_quoting-IsPlain : (v : List ℕ) → needs_quoting v ≡ false → All IsPlain v
unfolding needs_quoting
needs_quoting-IsPlain [] h = tt
needs_quoting-IsPlain (c ∷ v) h = ground (arith, is_word-IsPlain c, needs_quoting-IsPlain v)

needs_quoting-ends_with_escape : (v : List ℕ) → needs_quoting v ≡ false → ends_with_escape v ≡ false
unfolding needs_quoting ends_with_escape is_word
needs_quoting-ends_with_escape [] h = refl
needs_quoting-ends_with_escape (c ∷ []) h = ground arith
needs_quoting-ends_with_escape (c ∷ d ∷ v) h =
    ground (arith, needs_quoting-ends_with_escape (d ∷ v))

ends_with_escape-append :
    (k : Flag) (c : ℕ) (v : Flag) → ends_with_escape (k ++ (c ∷ v)) ≡ ends_with_escape (c ∷ v)
unfolding ends_with_escape
ends_with_escape-append [] c v = refl
ends_with_escape-append (a ∷ []) c v = refl
ends_with_escape-append (a ∷ b ∷ k) c v = ends_with_escape-append (b ∷ k) c v

-- The three shapes in which a flag is written.
pub data Quoted (f : Flag) (q : List ℕ) : Type 0 where
  whole : q ≡ in_quotes f → Quoted f q
  plain : q ≡ f → All IsPlain f → ends_with_escape f ≡ false → Quoted f q
  pair :
      (k v : List ℕ)
      → f ≡ k ++ (b'=' ∷ v)
      → q ≡ k ++ (b'=' ∷ in_quotes v)
      → All IsPlain k
      → Quoted f q

-- `key` or `'='.join([key, value])`
abbrev unsplit : Flag × Option Flag → Flag
unsplit (k, none) = k
unsplit (k, some v) = k ++ (b'=' ∷ v)

unsplit-cons : (c : ℕ) (p : Flag × Option Flag) → unsplit (c ∷ p.0, p.1) ≡ c ∷ unsplit p
unsplit-cons c (k, none) = refl
unsplit-cons c (k, some v) = refl

unsplit-split_flag : (f : Flag) → unsplit (split_flag f) ≡ f
unfolding split_flag
unsplit-split_flag [] = refl
unsplit-split_flag (c ∷ f) = ground (arith, unsplit-cons c (split_flag f), unsplit-split_flag f)

ends_with_escape-value :
    (v : List ℕ) → needs_quoting v ≡ false → ends_with_escape (b'=' ∷ v) ≡ false
unfolding ends_with_escape
ends_with_escape-value [] h = refl
ends_with_escape-value (c ∷ v) h = needs_quoting-ends_with_escape (c ∷ v) h

IsPlain-pair :
    (key value : List ℕ)
    → needs_quoting key ≡ false
    → needs_quoting value ≡ false
    → All IsPlain (key ++ (b'=' ∷ value))
unfolding is_quote is_space
IsPlain-pair key value h q =
    All-append IsPlain key (b'=' ∷ value) (needs_quoting-IsPlain key h)
      ((refl, refl), needs_quoting-IsPlain value q)

or-eq-false : (a b : Bool) → (a || b) ≡ false → b ≡ false
or-eq-false true b h = cc
or-eq-false false b h = h

quote_pair-Quoted :
    (f key : Flag) (value : Option Flag)
    → unsplit (key, value) ≡ f
    → needs_quoting key ≡ false
    → Quoted f (quote_pair key value)
quote_pair-Quoted f key none e h =
    plain e (subst (All IsPlain) e (needs_quoting-IsPlain key h))
      (subst (λ g. ends_with_escape g ≡ false) e (needs_quoting-ends_with_escape key h))
quote_pair-Quoted f key (some value) e h = elim (Bool-cases (needs_quoting value)) [
  | inl q ↦ pair key value (sym e) (rw q) (needs_quoting-IsPlain key h)
  | inr q ↦
      let e' : key ++ (b'=' ∷ quote_value value) ≡ f = rw q e in
      plain e' (subst (All IsPlain) e (IsPlain-pair key value h q)) (
        subst (λ g. ends_with_escape g ≡ false) e
          (ends_with_escape-append key b'=' value ∙ ends_with_escape-value value q))
]

pub quote_flag-Quoted : (f : Flag) → Quoted f (quote_flag f)
unfolding quote_flag
quote_flag-Quoted f = elim (Bool-cases (is_empty f || needs_quoting (split_flag f).0)) [
  | inl odd ↦ rw odd (whole refl)
  | inr fine ↦ rw fine (
      quote_pair-Quoted f (split_flag f).0 (split_flag f).1 (unsplit-split_flag f)
        (or-eq-false (is_empty f) _ fine))
]

-- What the loop makes of a quoted flag, from between two flags.
abbrev pub opened : List Flag → ParseState
opened fs = at fs none none

escaped-add_char :
    (fl : Option Flag) (c : ℕ) → (c == 92) ≡ false → escaped (some (add_char fl c)) ≡ false
unfolding ends_with_escape
escaped-add_char none c h = h
escaped-add_char (some f) c h = ends_with_escape-snoc f c ∙ h

add_all-append : (fl : Option Flag) (k w : List ℕ) → add_all fl (k ++ w) ≡ add_all (add_all fl k) w
add_all-append fl [] w = refl
add_all-append fl (c ∷ k) w = add_all-append (some (add_char fl c)) k w

add_all-none : (f : Flag) → f ≢ [] → add_all none f ≡ some f
add_all-none [] h = absurd (h refl)
add_all-none (c ∷ f) h = add_all-some (c ∷ []) f

escaped-add_all : (f : Flag) → escaped (add_all none f) ≡ ends_with_escape f
unfolding ends_with_escape
escaped-add_all [] = refl
escaped-add_all (c ∷ f) = rw (add_all-some (c ∷ []) f)

closed_unescaped :
    (fs : List Flag) (fl : Option Flag) → escaped fl ≡ false → at fs none fl ≡ closed fs fl
closed_unescaped fs fl h = rw h

-- `key=` is read before the value's opening quote.
parse_loop-pair :
    (fs : List Flag) (k v : List ℕ)
    → All IsPlain k
    → parse_loop (k ++ (b'=' ∷ in_quotes v)) (opened fs)
      ≡ closed fs (add_all none (k ++ (b'=' ∷ v)))
unfolding parse_loop is_quote is_space
parse_loop-pair fs k v p =
    let fl = add_all none k in
    parse_loop-append k (b'=' ∷ in_quotes v) (opened fs)
    ∙ ap (parse_loop (b'=' ∷ in_quotes v)) (parse_loop-plain k fs none p)
    ∙ ap (parse_loop (in_quotes v)) (parse_char-plain fs fl b'=' (refl, refl))
    ∙ parse_loop-in_quotes v fs (some (add_char fl b'=')) (escaped-add_char fl b'=' refl)
    ∙ ap (closed fs) (sym (add_all-append none k (b'=' ∷ v)))

parse_loop-Quoted_all :
    (fs : List Flag) (f q : List ℕ)
    → Quoted f q
    → parse_loop q (opened fs) ≡ closed fs (add_all none f)
parse_loop-Quoted_all fs f q (whole e) = rw e (parse_loop-in_quotes f fs none refl)
parse_loop-Quoted_all fs f q (plain e p n) =
    rw e
      (parse_loop-plain f fs none p ∙ closed_unescaped fs (add_all none f) (escaped-add_all f ∙ n))
parse_loop-Quoted_all fs f q (pair k v e e' p) = rw (e, e') (parse_loop-pair fs k v p)

pub parse_loop-quote_flag :
    (fs : List Flag) (f : Flag)
    → f ≢ []
    → parse_loop (quote_flag f) (opened fs) ≡ closed fs (some f)
parse_loop-quote_flag fs f h =
    parse_loop-Quoted_all fs f (quote_flag f) (quote_flag-Quoted f)
    ∙ ap (closed fs) (add_all-none f h)
