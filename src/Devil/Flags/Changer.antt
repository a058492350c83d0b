-- ===== src/Devil/Flags/Changer.antt =====
-- `FlagChanger` and `CustomCommandLineFlags` of devil/android/flag_changer.py. The device is an
-- interface, since what it does with a file is decided by adb; so is the order in which Python
-- iterates over a set.
pub mod Stored
pub mod Restore
pub mod Context
use Prim.Native.Char.{Char, code}
use car_multimedia_android_a.Base.{
  ℕ, ◌≡◌, ◌⊎◌, ◌++◌, Bool, true, false, ◌&&◌, ◌||◌, Option, none, some, List, [], ◌∷◌, String, ◌<>◌,
  str_eq, is_empty, if◌then◌else◌, ◌==◌, leb,
}
use car_multimedia_android_a.Devil.Flags.Text.{Flag, serialize_flags, parse_flags}
use car_multimedia_android_a.Devil.Flags.Strip.{strip}
use car_multimedia_android_a.Devil.Flags.Lines.{is_one_line}
use car_multimedia_android_a.Devil.Flags.Sets.{has, set_of, update, difference_update}

-- The methods of a `DeviceUtils` that the changer calls, on a device where none of them raises.
pub record Device : Type 1 where
  pub State : Type 0
  pub path_exists : State → String → Bool
  pub read_file : State → String → List ℕ
  pub write_file : State → String → List ℕ → State
  pub remove_path : State → String → State
  pub build_version_sdk : State → ℕ
  pub get_enforce : State → Bool
  pub set_enforce : State → Bool → State

-- What ReadFile gives for a file of one line: the line, as it is or terminated.
abbrev pub IsReadAs : List ℕ → List ℕ → Type 0
IsReadAs text found = (found ≡ text) ⊎ (found ≡ text ++ (10 ∷ []))

-- What the changer relies on: a file is there once it is written, with its text if that is one
-- line, is gone once it is removed, and is not touched by SetEnforce.
pub record IsLawful (D : Device) : Type 0 where
  pub exists-write_file :
      (d : D.State) (p : String) (text : List ℕ) → D.path_exists (D.write_file d p text) p ≡ true
  pub read_file-write_file :
      (d : D.State) (p : String) (text : List ℕ)
      → is_one_line text ≡ true
      → IsReadAs text (D.read_file (D.write_file d p text) p)
  pub exists-remove_path : (d : D.State) (p : String) → D.path_exists (D.remove_path d p) p ≡ false
  pub exists-set_enforce :
      (d : D.State) (on : Bool) (p : String)
      → D.path_exists (D.set_enforce d on) p ≡ D.path_exists d p
  pub read_file-set_enforce :
      (d : D.State) (on : Bool) (p : String) → D.read_file (D.set_enforce d on) p ≡ D.read_file d p
  pub get_enforce-set_enforce : (d : D.State) (on : Bool) → D.get_enforce (D.set_enforce d on) ≡ on

-- A set is iterated over with all of its members and no others.
pub record IsIteration (iterate : List Flag → List Flag) : Type 0 where
  pub has-iterate : (f : Flag) (s : List Flag) → has f (iterate s) ≡ has f s

-- The top of `state_stack`, its last item in Python, stands first.
pub record FlagChanger : Type 0 where
  pub cmdline_path : String
  pub state_stack : List (List Flag)

-- `self._state_stack[-1]`; the stack is never empty.
abbrev pub top : List (List Flag) → List Flag
top [] = []
top (s ∷ _) = s

-- `self._state_stack[-1] = s`
abbrev pub set_top : List Flag → List (List Flag) → List (List Flag)
set_top s [] = []
set_top s (_ ∷ rest) = s ∷ rest

-- `posixpath.sep in s`
unfoldable pub has_separator : String → Bool
has_separator String.[] = false
has_separator (String.◌∷◌ c s) = code c == b'/' || has_separator s

-- `posixpath.join` with `_CMDLINE_DIR` or `_CMDLINE_DIR_LEGACY` and a plain file name
abbrev pub join_path : String → String → String
join_path dir name = dir <> "/" <> name

module _ (D : Device) where
  -- The flags that the file at `p` holds, as GetCurrentFlags reads them.
  unfoldable pub stored : String → D.State → List Flag
  stored p d = parse_flags (if D.path_exists d p then strip (D.read_file d p) else [])

  -- The first half of _UpdateCommandLineFile.
  abbrev pub store : String → Option (List ℕ) → D.State → D.State
  store p none d = D.remove_path d p
  store p (some line) d = D.write_file d p line

  unfoldable pub get_current_flags : FlagChanger → D.State → List Flag × FlagChanger
  get_current_flags c d =
      let flags = stored c.cmdline_path d in
      (flags, record c { state_stack = set_top (set_of flags) c.state_stack })

  -- `FlagChanger.__init__`; `none` is its ValueError.
  unfoldable pub new_flag_changer : String → D.State → Option (FlagChanger × D.State)
  unfolding has_separator get_current_flags
  new_flag_changer cmdline_file d =
      let legacy = join_path "/data/local" cmdline_file in
      let d' = if D.path_exists d legacy then D.remove_path d legacy else d in
      let c : FlagChanger = record {
        cmdline_path = join_path "/data/local/tmp" cmdline_file;
        state_stack = [] ∷ [];
      } in
      if has_separator cmdline_file then none else some ((get_current_flags c d').1, d')

  module _ (iterate : List Flag → List Flag) where
    -- `_SerializeFlags` on a set.
    abbrev pub ordered : List Flag → List Flag
    ordered [] = []
    ordered (f ∷ s) = iterate (f ∷ s)

    unfoldable pub update_command_line_file :
        FlagChanger → D.State → List Flag × FlagChanger × D.State
    unfolding get_current_flags
    update_command_line_file c d =
        let d' = store c.cmdline_path (serialize_flags (ordered (top c.state_stack))) d in
        let (flags, c') = get_current_flags c d' in (flags, c', d')

    unfoldable pub replace_flags :
        List Flag → FlagChanger → D.State → List Flag × FlagChanger × D.State
    unfolding update_command_line_file
    replace_flags flags c d =
        update_command_line_file (record c { state_stack = set_of flags ∷ c.state_stack }) d

    -- `PushFlags`; AddFlags and RemoveFlags leave one of the lists out.
    unfoldable pub push_flags :
        List Flag → List Flag → FlagChanger → D.State → List Flag × FlagChanger × D.State
    unfolding replace_flags
    push_flags add remove c d =
        let new_flags = difference_update (update (top c.state_stack) add) remove in
        replace_flags (iterate new_flags) c d

    abbrev pub add_flags : List Flag → FlagChanger → D.State → List Flag × FlagChanger × D.State
    add_flags flags = push_flags flags []

    abbrev pub remove_flags : List Flag → FlagChanger → D.State → List Flag × FlagChanger × D.State
    remove_flags flags = push_flags [] flags

    -- `self._state_stack.pop()`, unless the assertion before it fails.
    abbrev pub pop_state : List (List Flag) → Option (List (List Flag))
    pop_state [] = none
    pop_state (_ ∷ []) = none
    pop_state (_ ∷ s ∷ rest) = some (s ∷ rest)

    -- `Restore`; `none` is its AssertionError.
    unfoldable pub restore : FlagChanger → D.State → Option (List Flag × FlagChanger × D.State)
    unfolding update_command_line_file
    restore c d = elim (pop_state c.state_stack) [
      | none ↦ none
      | some rest ↦ some (update_command_line_file (record c { state_stack = rest }) d)
    ]

    -- How the `with` statement ends: its body, which runs on the device, may raise.
    unfoldable pub with_changer :
        String → List Flag → (D.State → Bool × D.State) → D.State → Bool × D.State
    with_changer cmdline_name flags body d = elim (new_flag_changer cmdline_name d) [
      | none ↦ (false, d)
      | some (changer, d1) ↦
          let (_, changer', d2) = replace_flags flags changer d1 in
          let (done, d3) = body d2 in
          elim (restore changer' d3) [ none ↦ (false, d3) | some (_, _, d4) ↦ (done, d4) ]
    ]

    -- `CustomCommandLineFlags`, true unless an exception leaves it.
    unfoldable pub custom_command_line_flags :
        String → List Flag → (D.State → Bool × D.State) → D.State → Bool × D.State
    unfolding with_changer
    custom_command_line_flags cmdline_name flags body d =
        let needs_permissive = leb 24 (D.build_version_sdk d) && D.get_enforce d in
        let d1 = if needs_permissive then D.set_enforce d false else d in
        let (done, d2) = with_changer cmdline_name flags body d1 in
        (done, if needs_permissive then D.set_enforce d2 true else d2)
