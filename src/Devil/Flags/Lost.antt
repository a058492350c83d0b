-- ===== src/Devil/Flags/Lost.antt =====
-- Which flags survive the file: a flag that ends in a backslash swallows its closing quote.
use car_multimedia_android_a.Base.{
  ◌≡◌, refl, ap, sym, ◌∙◌, ◌≢◌, ◌↔◌, true, false, none, some, List, [], ◌∷◌, ◌++◌, Bool-cases, inl,
  inr, append-nil,
}
use car_multimedia_android_a.Devil.Flags.Text.{
  Flag, ends_with_escape, drop_last, parse_loop, flush, drop_first, serialize_flags, parse_flags,
  quote_flag,
}
use car_multimedia_android_a.Devil.Flags.Loop.{at, ends_with_escape-snoc}
use car_multimedia_android_a.Devil.Flags.Quoting.{parse_loop-quote_flag}
use car_multimedia_android_a.Devil.Flags.RoundTrip.{
  IsParsable, line_of, parse_flags-serialize_flags,
}

-- What is read for one flag that ends in a backslash: the backslash is gone, and the closing
-- quote stands in its place.
parse_flags-backslash :
    (f : Flag)
    → f ≢ []
    → ends_with_escape f ≡ true
    → parse_flags (line_of (serialize_flags (f ∷ []))) ≡ (drop_last f ++ (b'"' ∷ [])) ∷ []
unfolding parse_flags serialize_flags
parse_flags-backslash f h e =
    rw append-nil (ap (λ s. drop_first (flush s.flags s.current_flag)) loop)
  where
    loop :
        parse_loop (quote_flag f) (at ((b'_' ∷ []) ∷ []) none none)
        ≡ at ((b'_' ∷ []) ∷ []) (some b'"') (some (drop_last f ++ (b'"' ∷ [])))
    loop = parse_loop-quote_flag ((b'_' ∷ []) ∷ []) f h ∙ rw e

-- An empty flag is written as two quotes, and nothing is read for them.
parse_flags-empty : parse_flags (line_of (serialize_flags ([] ∷ []))) ≡ []
unfolding parse_flags serialize_flags
parse_flags-empty = refl

not-backslash :
    (f : Flag)
    → f ≢ []
    → parse_flags (line_of (serialize_flags (f ∷ []))) ≡ f ∷ []
    → ends_with_escape f ≡ true
    → ⊥
not-backslash f h e bad =
    let lost : (drop_last f ++ (b'"' ∷ [])) ∷ [] ≡ f ∷ [] =
      sym (parse_flags-backslash f h bad) ∙ e in
    let same : drop_last f ++ (b'"' ∷ []) ≡ f = cc lost in
    let ends : ends_with_escape (drop_last f ++ (b'"' ∷ [])) ≡ false = ends_with_escape-snoc _ _ in
    cc (ends, ap ends_with_escape same, bad)

-- A single flag is read back as it was exactly when it is not empty and does not end in a
-- backslash.
pub parse_flags-serialize_iff :
    (f : Flag) → (parse_flags (line_of (serialize_flags (f ∷ []))) ≡ f ∷ []) ↔ IsParsable f
parse_flags-serialize_iff [] =
    (λ e. absurd (nil-ne-cons (sym parse_flags-empty ∙ e)), λ p. absurd (p.0 refl))
  where
    nil-ne-cons : ◌≡◌ {A = List Flag} [] ([] ∷ []) → ⊥
    nil-ne-cons e = cc
parse_flags-serialize_iff (c ∷ f) = (
  λ e. elim (Bool-cases (ends_with_escape (c ∷ f))) [
    | inl bad ↦ absurd (not-backslash (c ∷ f) (λ p. cc) e bad)
    | inr fine ↦ (λ p. cc, fine)
  ],
  λ p. parse_flags-serialize_flags ((c ∷ f) ∷ []) (p, tt),
)
