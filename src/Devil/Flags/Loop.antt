-- ===== src/Devil/Flags/Loop.antt =====
-- What the parsing loop does on the pieces of a command line.
use car_multimedia_android_a.Base.{
  ℕ, ◌≡◌, refl, ap, sym, ◌∙◌, All, true, false, Option, none, some, List, [], ◌∷◌, ◌++◌, append-nil,
  append_assoc, ◌==◌, Bool-cases, inl, inr, ==_iff,
}
use car_multimedia_android_a.Devil.Flags.Text.{
  Flag, is_quote, is_space, ParseState, ends_with_escape, drop_last, parse_char, parse_loop,
  escape_quotes, add_char, escape,
}

pub parse_loop-append :
    (xs ys : List ℕ) (s : ParseState) → parse_loop (xs ++ ys) s ≡ parse_loop ys (parse_loop xs s)
unfolding parse_loop
parse_loop-append [] ys s = refl
parse_loop-append (c ∷ xs) ys s = parse_loop-append xs ys (parse_char s c)

pub ends_with_escape-snoc : (f : Flag) (c : ℕ) → ends_with_escape (f ++ (c ∷ [])) ≡ (c == escape)
unfolding ends_with_escape
ends_with_escape-snoc [] c = refl
ends_with_escape-snoc (d ∷ []) c = refl
ends_with_escape-snoc (d ∷ e ∷ f) c = ends_with_escape-snoc (e ∷ f) c

pub drop_last-snoc : (f : Flag) (c : ℕ) → drop_last (f ++ (c ∷ [])) ≡ f
unfolding drop_last
drop_last-snoc [] c = refl
drop_last-snoc (d ∷ []) c = refl
drop_last-snoc (d ∷ e ∷ f) c = ap (λ r. d ∷ r) (drop_last-snoc (e ∷ f) c)

-- The loop's state with one flag in progress.
abbrev pub at : List Flag → Option ℕ → Option Flag → ParseState
at fs q fl = record { flags = fs; current_quote = q; current_flag = fl }

-- The current flag with more characters behind it.
abbrev pub add_all : Option Flag → List ℕ → Option Flag
add_all fl [] = fl
add_all fl (c ∷ v) = add_all (some (add_char fl c)) v

pub add_all-some : (f v : List ℕ) → add_all (some f) v ≡ some (f ++ v)
add_all-some f [] = rw append-nil
add_all-some f (c ∷ v) = add_all-some (f ++ (c ∷ [])) v ∙ rw append_assoc

parse_quoted_char :
    (fs : List Flag) (fl : Option Flag) (c : ℕ)
    → (c == b'"') ≡ false
    → parse_char (at fs (some b'"') fl) c ≡ at fs (some b'"') (some (add_char fl c))
unfolding parse_char
parse_quoted_char fs fl c h = rw h

parse_escaped_quote :
    (fs : List Flag) (fl : Option Flag)
    → parse_char (parse_char (at fs (some b'"') fl) escape) b'"'
      ≡ at fs (some b'"') (some (add_char fl b'"'))
unfolding parse_char ends_with_escape drop_last
parse_escaped_quote fs none = refl
parse_escaped_quote fs (some f) = rw (ends_with_escape-snoc f escape, drop_last-snoc f escape)

escape_quotes-quote :
    (c : ℕ) (v : List ℕ)
    → (c == b'"') ≡ true
    → escape_quotes (c ∷ v) ≡ escape ∷ b'"' ∷ escape_quotes v
unfolding escape_quotes
escape_quotes-quote c v h = rw h

escape_quotes-other :
    (c : ℕ) (v : List ℕ) → (c == b'"') ≡ false → escape_quotes (c ∷ v) ≡ c ∷ escape_quotes v
unfolding escape_quotes
escape_quotes-other c v h = rw h

-- Inside quotes an escaped text is read back unchanged.
pub parse_loop-escape_quotes :
    (v : List ℕ) (fs : List Flag) (fl : Option Flag)
    → parse_loop (escape_quotes v) (at fs (some b'"') fl) ≡ at fs (some b'"') (add_all fl v)
unfolding parse_loop
parse_loop-escape_quotes [] fs fl = unfold escape_quotes in refl
parse_loop-escape_quotes (c ∷ v) fs fl = elim (Bool-cases (c == b'"')) [
  | inl quote ↦
      ap (λ l. parse_loop l (at fs (some b'"') fl)) (escape_quotes-quote c v quote)
      ∙ ap (parse_loop (escape_quotes v)) (parse_escaped_quote fs fl)
      ∙ parse_loop-escape_quotes v fs (some (add_char fl b'"'))
      ∙ ap (λ q. at fs (some b'"') (add_all fl (q ∷ v))) (sym ((==_iff c b'"').0 quote))
  | inr other ↦
      ap (λ l. parse_loop l (at fs (some b'"') fl)) (escape_quotes-other c v other)
      ∙ ap (parse_loop (escape_quotes v)) (parse_quoted_char fs fl c other)
      ∙ parse_loop-escape_quotes v fs (some (add_char fl c))
]

-- A text with nothing that ends a flag is read as it stands.
abbrev pub IsPlain : ℕ → Type 0
IsPlain c = (is_quote c ≡ false) × (is_space c ≡ false)

pub parse_char-plain :
    (fs : List Flag) (fl : Option Flag) (c : ℕ)
    → IsPlain c
    → parse_char (at fs none fl) c ≡ at fs none (some (add_char fl c))
unfolding parse_char
parse_char-plain fs fl c (q, s) = rw (q, s)

pub parse_loop-plain :
    (v : List ℕ) (fs : List Flag) (fl : Option Flag)
    → All IsPlain v
    → parse_loop v (at fs none fl) ≡ at fs none (add_all fl v)
unfolding parse_loop
parse_loop-plain [] fs fl h = refl
parse_loop-plain (c ∷ v) fs fl h =
    ap (parse_loop v) (parse_char-plain fs fl c h.0)
    ∙ parse_loop-plain v fs (some (add_char fl c)) h.1
