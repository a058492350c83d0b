-- ===== src/Devil/CmdOutput/Lines.antt =====
-- That the lines do not depend on how the output is cut into chunks.
use car_multimedia_android_a.Base.{
  ℕ, ◌≡◌, refl, sym, ap, subst, ◌∙◌, Bool, true, false, some, List, [], ◌∷◌, ◌++◌, ◌==◌, arith,
  Bool-cases, inl, inr,
}
use car_multimedia_android_a.Devil.CmdOutput.{
  Text, newline, carriage_return, push, splitlines, last_of, is_incomplete, pop_incomplete,
}

-- A text without line breaks, as a list of lines
abbrev pub whole : Text → List Text
whole [] = []
whole (c ∷ s) = (c ∷ s) ∷ []

split_newline : (s : Text) → splitlines (newline ∷ s) ≡ [] ∷ splitlines s
unfolding splitlines
split_newline s = ground arith

split_plain :
    (c : ℕ) (s : Text) → is_incomplete c ≡ true → splitlines (c ∷ s) ≡ push c (splitlines s)
unfolding splitlines
split_plain c s p = ground arith

split_return_joined :
    (d : ℕ) (s : Text)
    → (d == newline) ≡ true
    → splitlines (carriage_return ∷ d ∷ s) ≡ splitlines (d ∷ s)
unfolding splitlines
split_return_joined d s p = ground arith

split_return_alone :
    (d : ℕ) (s : Text)
    → (d == newline) ≡ false
    → splitlines (carriage_return ∷ d ∷ s) ≡ [] ∷ splitlines (d ∷ s)
unfolding splitlines
split_return_alone d s p = ground arith

-- A byte breaks a line, or it does not.
data Kind (c : ℕ) : Type 0 where
  breaks : c ≡ newline → Kind c
  returns : c ≡ carriage_return → Kind c
  plain : is_incomplete c ≡ true → Kind c

classify : (c : ℕ) → Kind c
classify c = elim (Bool-cases (c == newline)) [
  | inl p ↦ breaks (ground arith)
  | inr p ↦ elim (Bool-cases (c == carriage_return)) [
    | inl q ↦ returns (ground arith)
    | inr q ↦ plain (ground arith)
  ]
]

abbrev HasLine : List Text → Type 0
HasLine ls = (line : Text) × (lines : List Text) × (ls ≡ line ∷ lines)

push-HasLine : (c : ℕ) (ls : List Text) → HasLine (push c ls)
push-HasLine c [] = (c ∷ [], [], refl)
push-HasLine c (line ∷ lines) = (c ∷ line, lines, refl)

split_lone_return : splitlines (carriage_return ∷ []) ≡ [] ∷ []
unfolding splitlines
split_lone_return = refl

newline_of : (d : ℕ) → (d == newline) ≡ true → d ≡ newline
newline_of d p = ground arith

return-HasLine : (s : Text) → HasLine (splitlines (carriage_return ∷ s))
return-HasLine [] = ([], [], split_lone_return)
return-HasLine (d ∷ s) = elim (Bool-cases (d == newline)) [
  | inr p ↦ ([], splitlines (d ∷ s), split_return_alone d s p)
  | inl p ↦ (
    [],
    splitlines s,
    split_return_joined d s p ∙ ap (λ c. splitlines (c ∷ s)) (newline_of d p) ∙ split_newline s,
  )
]

-- A text with a byte in it has a line.
split-HasLine : (c : ℕ) (s : Text) → HasLine (splitlines (c ∷ s))
split-HasLine c s = elim (classify c) [
  | breaks p ↦ subst (λ c. HasLine (splitlines (c ∷ s))) (sym p) ([], splitlines s, split_newline s)
  | returns p ↦ subst (λ c. HasLine (splitlines (c ∷ s))) (sym p) (return-HasLine s)
  | plain p ↦ subst HasLine (sym (split_plain c s p)) (push-HasLine c (splitlines s))
]

-- Of the lines of a text, with those done and the buffer that is left: they do not depend on
-- whether more text is split together with them, or with the buffer.
pub record Splits (lines joined : List Text) (u : Text) (b : Bool) : Type 0 where
  pub joined_lines :
      joined ≡ (pop_incomplete b lines).0 ++ splitlines ((pop_incomplete b lines).1 ++ u)
  pub left_over : splitlines (pop_incomplete b lines).1 ≡ whole (pop_incomplete b lines).1

push-whole : (c : ℕ) (l : Text) → push c (whole l) ≡ (c ∷ l) ∷ []
push-whole c [] = refl
push-whole c (d ∷ l) = refl

push-Splits :
    (b : Bool) (c : ℕ) (line : Text) (lines joined : List Text) (u : Text)
    → is_incomplete c ≡ true
    → Splits (line ∷ lines) joined u b
    → Splits (push c (line ∷ lines)) (push c joined) u b
push-Splits false c line lines joined u p h = record {
  joined_lines = ap (push c) h.joined_lines;
  left_over = h.left_over;
}
push-Splits true c line [] joined u p h = record {
  joined_lines = ap (push c) h.joined_lines ∙ sym (split_plain c (line ++ u) p);
  left_over = split_plain c line p ∙ ap (push c) h.left_over ∙ push-whole c line;
}
push-Splits true c line (next ∷ lines) joined u p h = record {
  joined_lines = ap (push c) h.joined_lines;
  left_over = h.left_over;
}

-- An empty line before others
cons-Splits :
    (b : Bool) (line : Text) (lines joined : List Text) (u : Text)
    → Splits (line ∷ lines) joined u b
    → Splits ([] ∷ line ∷ lines) ([] ∷ joined) u b
cons-Splits false line lines joined u h = record {
  joined_lines = ap (◌∷◌ []) h.joined_lines;
  left_over = h.left_over;
}
cons-Splits true line lines joined u h = record {
  joined_lines = ap (◌∷◌ []) h.joined_lines;
  left_over = h.left_over;
}

newline_alone-Splits :
    (u : Text) → Splits (splitlines (newline ∷ [])) (splitlines (newline ∷ u)) u false
unfolding splitlines
newline_alone-Splits u = record { joined_lines = refl; left_over = refl }

plain-Splits :
    (c : ℕ) (u : Text) → is_incomplete c ≡ true → Splits ((c ∷ []) ∷ []) (splitlines (c ∷ u)) u true
unfolding splitlines
plain-Splits c u p = record { joined_lines = refl; left_over = split_plain c [] p }

pub some_injective : {x y : ℕ} → some x ≡ some y → x ≡ y
some_injective p = cc

equal-Splits :
    {lines lines' joined joined' : List Text} {u : Text} {b : Bool}
    → lines ≡ lines'
    → joined ≡ joined'
    → Splits lines' joined' u b
    → Splits lines joined u b
equal-Splits {lines} {lines'} {joined} {joined'} {u} {b} p q h =
    subst (λ ls. Splits ls joined u b) (sym p) (subst (λ js. Splits lines' js u b) (sym q) h)

last-Splits :
    (c : ℕ) (u : Text)
    → (c == carriage_return) ≡ false
    → Splits (splitlines (c ∷ [])) (splitlines (c ∷ u)) u (is_incomplete c)
unfolding splitlines
last-Splits c u q = elim (classify c) [
  | breaks p ↦
      subst (λ c. Splits (splitlines (c ∷ [])) (splitlines (c ∷ u)) u (is_incomplete c)) (sym p)
        (newline_alone-Splits u)
  | returns p ↦ absurd (ground arith)
  | plain p ↦
      subst (Splits (splitlines (c ∷ [])) (splitlines (c ∷ u)) u) (sym p)
        (equal-Splits (split_plain c [] p) refl (plain-Splits c u p))
]

return-Splits :
    (d : ℕ) (s u line : Text) (lines : List Text) (b : Bool)
    → splitlines (d ∷ s) ≡ line ∷ lines
    → Splits (line ∷ lines) (splitlines (d ∷ s ++ u)) u b
    → Splits (splitlines (carriage_return ∷ d ∷ s)) (splitlines (carriage_return ∷ d ∷ s ++ u)) u b
return-Splits d s u line lines b h rest = elim (Bool-cases (d == newline)) [
  | inl p ↦ equal-Splits (split_return_joined d s p ∙ h) (split_return_joined d (s ++ u) p) rest
  | inr p ↦
      equal-Splits (split_return_alone d s p ∙ ap (◌∷◌ []) h) (split_return_alone d (s ++ u) p)
        (cons-Splits b line lines (splitlines (d ∷ s ++ u)) u rest)
]

-- A text that does not end in a carriage return, and any text after it
pub text-Splits :
    (c : ℕ) (s u : Text) (last : ℕ)
    → last_of (c ∷ s) ≡ some last
    → (last == carriage_return) ≡ false
    → Splits (splitlines (c ∷ s)) (splitlines (c ∷ s ++ u)) u (is_incomplete last)
text-Splits c [] u last p q =
    subst (λ l. Splits (splitlines (c ∷ [])) (splitlines (c ∷ u)) u (is_incomplete l))
      (some_injective p) (last-Splits c u (ap (λ l. l == carriage_return) (some_injective p) ∙ q))
text-Splits c (d ∷ s) u last p q =
    let (line, lines, h) = split-HasLine d s in
    let b = is_incomplete last in
    let rest =
      subst (λ ls. Splits ls (splitlines (d ∷ s ++ u)) u b) h (text-Splits d s u last p q) in
    elim (classify c) [
      | breaks e ↦
          subst (λ c. Splits (splitlines (c ∷ d ∷ s)) (splitlines (c ∷ d ∷ s ++ u)) u b) (sym e)
            (equal-Splits (split_newline (d ∷ s) ∙ ap (◌∷◌ []) h) (split_newline (d ∷ s ++ u))
              (cons-Splits b line lines (splitlines (d ∷ s ++ u)) u rest))
      | returns e ↦
          subst (λ c. Splits (splitlines (c ∷ d ∷ s)) (splitlines (c ∷ d ∷ s ++ u)) u b) (sym e)
            (return-Splits d s u line lines b h rest)
      | plain e ↦
          equal-Splits (split_plain c (d ∷ s) e ∙ ap (push c) h) (split_plain c (d ∷ s ++ u) e)
            (push-Splits b c line lines (splitlines (d ∷ s ++ u)) u e rest)
    ]
