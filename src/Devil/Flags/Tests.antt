-- ===== src/Devil/Flags/Tests.antt =====
-- A device in memory, which terminates what it reads, and the theorems on the flag changer at concrete flags.
use car_multimedia_android_a.Base.{
  ℕ, ◌≡◌, refl, Bool, true, false, Option, none, some, List, [], ◌∷◌, String, str_eq, eq_refl,
  is_some, ◌++◌, inr, if◌then◌else◌, All, subst, sym, ◌↔◌,
}
use car_multimedia_android_a.Devil.Flags.Text.{Flag, serialize_flags, parse_flags, ends_with_escape}
use car_multimedia_android_a.Devil.Flags.RoundTrip.{
  IsParsable, line_of, parse_flags-serialize_flags,
}
use car_multimedia_android_a.Devil.Flags.Lost.{parse_flags-serialize_iff}
use car_multimedia_android_a.Devil.Flags.Lines.{IsStorable, is_one_line}
use car_multimedia_android_a.Devil.Flags.Sets.{SameFlags}
use car_multimedia_android_a.Devil.Flags.Changer.{
  Device, IsLawful, IsIteration, FlagChanger, stored, update_command_line_file,
  custom_command_line_flags, has_separator,
}
use car_multimedia_android_a.Devil.Flags.Changer.Stored.{
  IsWritten, update_command_line_file-IsWritten,
}
use car_multimedia_android_a.Devil.Flags.Changer.Restore.{
  Change, HoldsSome, push_all, restore_all, restore_all-push_all,
}
use car_multimedia_android_a.Devil.Flags.Changer.Context.{
  Brackets, custom_command_line_flags-Brackets,
}

record Phone : Type 0 where
  files : String → Option (List ℕ)
  enforcing : Bool

abbrev text_of : Option (List ℕ) → List ℕ
text_of none = []
text_of (some text) = text

abbrev set_file : Phone → String → Option (List ℕ) → Phone
set_file d p text = record d { files = λ q. if str_eq p q then text else d.files q }

abbrev phone : Device
phone = record {
  State = Phone;
  path_exists = λ d p. is_some (d.files p);
  read_file = λ d p. text_of (d.files p) ++ (10 ∷ []);
  write_file = λ d p text. set_file d p (some text);
  remove_path = λ d p. set_file d p none;
  build_version_sdk = λ d. 25;
  get_enforce = λ d. d.enforcing;
  set_enforce = λ d on. record d { enforcing = on };
}

phone-IsLawful : IsLawful phone
phone-IsLawful = record {
  exists-write_file = λ d p text. rw eq_refl;
  read_file-write_file = λ d p text _. inr (rw eq_refl);
  exists-remove_path = λ d p. rw eq_refl;
  exists-set_enforce = λ d on p. refl;
  read_file-set_enforce = λ d on p. refl;
  get_enforce-set_enforce = λ d on. refl;
}

abbrev in_order : List Flag → List Flag
in_order s = s

in_order-IsIteration : IsIteration in_order
in_order-IsIteration = record { has-iterate = λ f s. refl }

-- `--a`, `--b="x y` and `--c\`
abbrev flag_a : Flag
flag_a = 45 ∷ 45 ∷ 97 ∷ []

abbrev flag_b : Flag
flag_b = 45 ∷ 45 ∷ 98 ∷ 61 ∷ 34 ∷ 120 ∷ 32 ∷ 121 ∷ []

abbrev flag_c : Flag
flag_c = 45 ∷ 45 ∷ 99 ∷ 92 ∷ []

abbrev fresh_phone : Phone
fresh_phone = record { files = λ p. none; enforcing = true }

flag_a-IsParsable : IsParsable flag_a
unfolding ends_with_escape
flag_a-IsParsable = (λ e. cc, refl)

flag_b-IsParsable : IsParsable flag_b
unfolding ends_with_escape
flag_b-IsParsable = (λ e. cc, refl)

abbrev both : List Flag
both = flag_a ∷ flag_b ∷ []

both-IsParsable : All IsParsable both
both-IsParsable = (flag_a-IsParsable, (flag_b-IsParsable, tt))

both-IsStorable : All IsStorable both
unfolding is_one_line
both-IsStorable = ((flag_a-IsParsable, refl), ((flag_b-IsParsable, refl), tt))

parse_flags-serialize_flags_example : parse_flags (line_of (serialize_flags both)) ≡ both
parse_flags-serialize_flags_example = parse_flags-serialize_flags both both-IsParsable

parse_flags-serialize_iff_example :
    (parse_flags (line_of (serialize_flags (flag_c ∷ []))) ≡ flag_c ∷ []) ↔ IsParsable flag_c
parse_flags-serialize_iff_example = parse_flags-serialize_iff flag_c

abbrev changer : FlagChanger
changer = record { cmdline_path = "/data/local/tmp/chrome"; state_stack = both ∷ [] }

update_command_line_file-IsWritten_example :
    IsWritten phone phone-IsLawful in_order in_order-IsIteration changer both []
      (update_command_line_file phone in_order changer fresh_phone)
update_command_line_file-IsWritten_example =
    update_command_line_file-IsWritten phone phone-IsLawful in_order in_order-IsIteration changer
      both [] fresh_phone refl both-IsStorable

abbrev no_flags : FlagChanger
no_flags = record { cmdline_path = "/data/local/tmp/chrome"; state_stack = [] ∷ [] }

abbrev changes : List Change
changes = (record { add = both; remove = [] }) ∷ (record { add = []; remove = flag_a ∷ [] }) ∷ []

no_flags-stored : SameFlags (stored phone "/data/local/tmp/chrome" fresh_phone) []
unfolding stored parse_flags
no_flags-stored f = refl

restore_all-push_all_example :
    HoldsSome phone in_order "/data/local/tmp/chrome" [] []
      (restore_all phone in_order 2 (push_all phone in_order changes no_flags fresh_phone))
restore_all-push_all_example =
    restore_all-push_all phone in_order phone-IsLawful in_order-IsIteration changes no_flags [] []
      fresh_phone refl tt no_flags-stored (both-IsStorable, (tt, tt))

-- A body that overwrites the file and raises.
abbrev body : Phone → Bool × Phone
body d = (false, set_file d "/data/local/tmp/chrome" (some flag_c))

nothing_stored : stored phone "/data/local/tmp/chrome" fresh_phone ≡ []
unfolding stored parse_flags
nothing_stored = refl

custom_command_line_flags-Brackets_example :
    let r = custom_command_line_flags phone in_order "chrome" both body fresh_phone in
    Brackets phone phone-IsLawful in_order in_order-IsIteration "chrome" both body fresh_phone r
    × (r.1.enforcing ≡ true)
unfolding has_separator
custom_command_line_flags-Brackets_example =
    custom_command_line_flags-Brackets phone phone-IsLawful in_order in_order-IsIteration "chrome"
      both body fresh_phone refl refl both-IsStorable
      (subst (All IsStorable) (sym nothing_stored) tt)
