-- ===== src/Devil/Flags/Text.antt =====
-- `_ParseFlags`, `_SerializeFlags` and `_QuoteFlag` of devil/android/flag_changer.py. A flag and a
-- command line are lists of bytes, as Python 2 strings are.
use car_multimedia_android_a.Base.{
  ℕ, Bool, true, false, not, ◌&&◌, ◌||◌, Option, none, some, List, [], ◌∷◌, ◌++◌, map, leb, ◌==◌,
  any, is_empty, if◌then◌else◌,
}

abbrev pub Flag : Type 0
Flag = List ℕ

-- `_QUOTES` and `_ESCAPE`
unfoldable pub is_quote : ℕ → Bool
is_quote c = c == b'"' || c == 39

abbrev pub escape : ℕ
escape = 92

-- `str.isspace` on one byte
unfoldable pub is_space : ℕ → Bool
is_space c = c == 32 || leb 9 c && leb c 13

-- What `[\w-]` matches; `_RE_NEEDS_QUOTING` looks for anything else.
unfoldable pub is_word : ℕ → Bool
is_word c =
    leb b'a' c && leb c b'z'
    || leb b'A' c && leb c b'Z'
    || leb b'0' c && leb c b'9'
    || c == b'_'
    || c == b'-'

unfoldable pub needs_quoting : List ℕ → Bool
needs_quoting = any (λ c. not (is_word c))

-- The three variables of the loop of `_ParseFlags`.
pub record ParseState : Type 0 where
  pub flags : List Flag
  pub current_quote : Option ℕ
  pub current_flag : Option Flag

-- `current_quote is None`
abbrev pub is_none : Option ℕ → Bool
is_none none = true
is_none (some _) = false

-- `c == current_quote`
abbrev pub is_current : Option ℕ → ℕ → Bool
is_current none c = false
is_current (some q) c = c == q

-- `current_flag[-1] == _ESCAPE` for a flag that is not None; the flag is never empty.
unfoldable pub ends_with_escape : Flag → Bool
ends_with_escape [] = false
ends_with_escape (c ∷ []) = c == escape
ends_with_escape (c ∷ d ∷ f) = ends_with_escape (d ∷ f)

-- `current_flag[:-1]`
unfoldable pub drop_last : Flag → Flag
drop_last [] = []
drop_last (c ∷ []) = []
drop_last (c ∷ d ∷ f) = c ∷ drop_last (d ∷ f)

abbrev pub escaped : Option Flag → Bool
escaped none = false
escaped (some f) = ends_with_escape f

-- `current_flag += c`, from '' if it was None
abbrev pub add_char : Option Flag → ℕ → Flag
add_char none c = c ∷ []
add_char (some f) c = f ++ (c ∷ [])

-- `flags.append(current_flag)`, if there is a current flag
abbrev pub flush : List Flag → Option Flag → List Flag
flush fs none = fs
flush fs (some f) = fs ++ (f ∷ [])

-- `current_flag[:-1] + c`
abbrev pub replace_last : Option Flag → ℕ → Option Flag
replace_last none c = none
replace_last (some f) c = some (drop_last f ++ (c ∷ []))

-- `c if current_quote is None else None`
abbrev pub toggle : Option ℕ → ℕ → Option ℕ
toggle none c = some c
toggle (some _) c = none

-- The body of the loop.
unfoldable pub parse_char : ParseState → ℕ → ParseState
unfolding is_quote is_space
parse_char s c =
    if is_none s.current_quote && is_quote c || is_current s.current_quote c
    then if escaped s.current_flag
      then record s { current_flag = replace_last s.current_flag c }
      else record s { current_quote = toggle s.current_quote c }
    else if is_none s.current_quote && is_space c
    then record s { flags = flush s.flags s.current_flag; current_flag = none }
    else record s { current_flag = some (add_char s.current_flag c) }

unfoldable pub parse_loop : List ℕ → ParseState → ParseState
parse_loop [] s = s
parse_loop (c ∷ line) s = parse_loop line (parse_char s c)

abbrev pub drop_first : List Flag → List Flag
drop_first [] = []
drop_first (_ ∷ fs) = fs

abbrev pub start : ParseState
start = record { flags = []; current_quote = none; current_flag = none }

-- `_ParseFlags`; the warning about an unterminated quote is a log line and is left out.
unfoldable pub parse_flags : List ℕ → List Flag
unfolding parse_loop parse_char ends_with_escape drop_last
parse_flags line = let s = parse_loop line start in drop_first (flush s.flags s.current_flag)

-- `key, value = flag.split('=', 1)` if there is a '=', else `flag, None`
unfoldable pub split_flag : Flag → Flag × Option Flag
split_flag [] = ([], none)
split_flag (c ∷ f) =
    let (key, value) = split_flag f in if c == b'=' then ([], some f) else (c ∷ key, value)

-- `s.replace('"', r'\"')`
unfoldable pub escape_quotes : List ℕ → List ℕ
escape_quotes [] = []
escape_quotes (c ∷ s) =
    let rest = escape_quotes s in if c == b'"' then escape ∷ b'"' ∷ rest else c ∷ rest

-- `'"%s"' % s.replace('"', r'\"')`
unfoldable pub in_quotes : List ℕ → List ℕ
unfolding escape_quotes
in_quotes s = b'"' ∷ (escape_quotes s ++ (b'"' ∷ []))

abbrev pub quote_value : List ℕ → List ℕ
quote_value value = if needs_quoting value then in_quotes value else value

abbrev pub quote_pair : Flag → Option Flag → List ℕ
quote_pair key none = key
quote_pair key (some value) = key ++ (b'=' ∷ quote_value value)

-- `_QuoteFlag`
unfoldable pub quote_flag : Flag → List ℕ
unfolding split_flag needs_quoting is_word in_quotes
quote_flag flag =
    let (key, value) = split_flag flag in
    if is_empty flag || needs_quoting key then in_quotes flag else quote_pair key value

-- What `' '.join(args)` puts behind its first item.
unfoldable pub join_rest : List (List ℕ) → List ℕ
join_rest [] = []
join_rest (a ∷ args) = 32 ∷ (a ++ join_rest args)

-- `_SerializeFlags`
unfoldable pub serialize_flags : List Flag → Option (List ℕ)
unfolding join_rest quote_flag
serialize_flags [] = none
serialize_flags (f ∷ fs) = some (b'_' ∷ join_rest (map quote_flag (f ∷ fs)))
