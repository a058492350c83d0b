-- ===== src/Devil/SharedPrefs/Commit.antt =====
-- The methods of `SharedPrefs` that talk to the device: `Load`, `Commit`, `_GetSecurityContext` and
-- the `with` statement. The device, and the parser and the printer of ElementTree, are interfaces.
pub mod Laws
use Prim.Native.Char.{code}
use Prim.Native.String.{char_at, slice, len as byte_len}
use text.Mathlib.Text.{starts_with}
use car_multimedia_android_a.Base.{
  ◌≡◌, Bool, true, false, ◌||◌, ◌&&◌, Option, none, some, List, [], ◌∷◌, ◌++◌, ℕ, zero, suc, ◌+◌,
  String, ◌<>◌, str_eq, if◌then◌else◌, leb, ◌==◌,
}
use car_multimedia_android_a.Devil.SharedPrefs.Elements.{
  Element, Error, index_error, parse_error, assertion_error, command_failed, Result, raised,
  returned,
}
use car_multimedia_android_a.Devil.SharedPrefs.Collection.{SharedPrefs}

-- What `SharedPrefs` calls of `DeviceUtils`. A call that changes the device answers with the state
-- that it leaves, also where it raises.
pub record Device : Type 1 where
  pub State : Type 0
  pub file_exists : String → State → Bool
  pub read_file : String → State → Result String
  pub write_file : String → String → State → Result (Unit {0}) × State
  pub run_shell_command : List String → State → Result (List String) × State
  pub kill_all : String → State → Result (Unit {0}) × State
  pub build_version_sdk : State → ℕ

-- `ElementTree.fromstring`, to the tag and the children of the root, and `ElementTree.tostring` of
-- a `map` with these children.
pub record Xml : Type 0 where
  pub fromstring : String → Option (String × List Element)
  pub tostring : List Element → String

abbrev pub xml_declaration : String
xml_declaration = "<?xml version='1.0' encoding='utf-8' standalone='yes' ?>\n"

abbrev pub marshmallow : ℕ
marshmallow = 23

-- `posixpath.dirname(self.path)`, for a filename without a slash
abbrev pub directory : SharedPrefs → String
directory s = "/data/data/" <> s.package_name <> "/shared_prefs"

abbrev pub path : SharedPrefs → String
path s = directory s <> "/" <> s.filename

abbrev pub is_blank : ℕ → Bool
is_blank c = c == 32 || leb 9 c && leb c 13

abbrev pub flush : String → List String → List String
flush word rest = if str_eq word "" then rest else word ∷ rest

-- The words from a position on, with the one begun before it; the line is of ASCII characters.
unfoldable pub words_from : ℕ → String → ℕ → String → List String
words_from zero line i word = flush word []
words_from (suc n) line i word =
    let blank = is_blank (code (char_at line i)) in
    let rest = words_from n line (i + 1) (if blank then "" else word <> slice line i (i + 1)) in
    if blank then flush word rest else rest

-- `line.split()`
abbrev pub split : String → List String
split line = words_from (byte_len line) line 0 ""

-- `split_line[-1]`; `none` is its IndexError.
unfoldable pub last_word : List String → Option String
last_word [] = none
last_word (w ∷ []) = some w
last_word (w ∷ v ∷ ws) = last_word (v ∷ ws)

-- The inner loop of `_GetSecurityContext`
unfoldable pub context_column : List String → Option String
context_column [] = none
context_column (c ∷ cs) = if starts_with c "u:object" then some c else context_column cs

-- The outer loop of `_GetSecurityContext`, on the words of each line. A line of the package without
-- a context does not end it.
unfoldable pub find_context : String → List (List String) → Result (Option String)
unfolding last_word context_column
find_context package_name [] = returned none
find_context package_name (ws ∷ lines) =
    let rest = find_context package_name lines in
    elim (last_word ws) [
      | none ↦ raised index_error
      | some w ↦
          if str_eq w package_name
          then elim (context_column ws) [ none ↦ rest | some c ↦ returned (some c) ]
          else rest
    ]

abbrev pub split_lines : List String → List (List String)
split_lines [] = []
split_lines (line ∷ lines) = split line ∷ split_lines lines

-- What follows a call that may have raised.
abbrev pub and_then : {A B S : Type 0} → Result A × S → (A → S → Result B × S) → Result B × S
and_then (raised e, d) k = (raised e, d)
and_then (returned a, d) k = k a d

module _ (D : Device) (X : Xml) where
  -- `_GetSecurityContext`
  unfoldable pub get_security_context : String → D.State → Result (Option String) × D.State
  unfolding find_context
  get_security_context package_name d =
      and_then (D.run_shell_command ("ls" ∷ "-Z" ∷ "/data/data/" ∷ []) d)
        (λ lines d1. (find_context package_name (split_lines lines), d1))

  -- The context found, applied
  abbrev pub chcon : SharedPrefs → Option String → D.State → Result (Unit {0}) × D.State
  chcon s none d = (raised command_failed, d)
  chcon s (some c) d =
      and_then (D.run_shell_command ("chcon" ∷ "-R" ∷ c ∷ directory s ∷ []) d)
        (λ _ d1. (returned tt, d1))

  -- The `if self._device.build_version_sdk` of Commit
  unfoldable pub apply_context : SharedPrefs → D.State → Result (Unit {0}) × D.State
  unfolding get_security_context
  apply_context s d =
      if leb marshmallow (D.build_version_sdk d)
      then and_then (get_security_context s.package_name d) (chcon s)
      else (returned tt, d)

  -- `str(self)`
  abbrev pub document : SharedPrefs → String
  document s = xml_declaration <> X.tostring s.xml

  -- What Commit does once the file is written
  abbrev pub label_file : SharedPrefs → Unit {0} → D.State → Result (Unit {0}) × D.State
  label_file s _ d = and_then (apply_context s d) (λ _ d1. D.kill_all s.package_name d1)

  -- What Commit does once the directory is there
  abbrev pub save_file : SharedPrefs → List String → D.State → Result (Unit {0}) × D.State
  save_file s _ d = and_then (D.write_file (path s) (document s) d) (label_file s)

  -- The calls of Commit on the device
  unfoldable pub save : SharedPrefs → D.State → Result (Unit {0}) × D.State
  unfolding apply_context
  save s d = and_then (D.run_shell_command ("mkdir" ∷ "-p" ∷ directory s ∷ []) d) (save_file s)

  -- `self._changed = False`, where no call has raised
  abbrev pub finish_commit :
      SharedPrefs → Result (Unit {0}) × D.State → Result (Unit {0}) × (SharedPrefs × D.State)
  finish_commit s (raised e, d) = (raised e, (s, d))
  finish_commit s (returned _, d) = (returned tt, (record s { changed = false }, d))

  -- `Commit`
  unfoldable pub commit : SharedPrefs → D.State → Result (Unit {0}) × (SharedPrefs × D.State)
  unfolding save
  commit s d = if s.changed then finish_commit s (save s d) else (returned tt, (s, d))

  -- `Load`. Where the root is no `map`, the document read stays behind; its tag is not kept here.
  unfoldable pub load : SharedPrefs → D.State → Result (Unit {0}) × SharedPrefs
  load s d =
      if D.file_exists (path s) d
      then elim (D.read_file (path s) d) [
        | raised e ↦ (raised e, s)
        | returned text ↦ elim (X.fromstring text) [
          | none ↦ (raised parse_error, s)
          | some (tag, children) ↦
              if str_eq tag "map"
              then (returned tt, record s { xml = children; changed = false })
              else (raised assertion_error, record s { xml = children })
        ]
      ]
      else (returned tt, record s { xml = []; changed = false })

  -- `__exit__`, after the body
  abbrev pub leave_prefs :
      Result (Unit {0}) × (SharedPrefs × D.State) → Result (Unit {0}) × (SharedPrefs × D.State)
  leave_prefs (raised e, (s, d)) = (raised e, (s, d))
  leave_prefs (returned _, (s, d)) = commit s d

  -- `with prefs:` around a body, by `__enter__` and `__exit__`
  unfoldable pub with_prefs :
      (SharedPrefs → D.State → Result (Unit {0}) × (SharedPrefs × D.State))
      → SharedPrefs
      → D.State
      → Result (Unit {0}) × (SharedPrefs × D.State)
  unfolding load commit
  with_prefs body s d =
      let (entered, s1) = load s d in
      elim entered [ raised e ↦ (raised e, (s1, d)) | returned _ ↦ leave_prefs (body s1 d) ]
