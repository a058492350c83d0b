-- ===== src/Battor/Path.antt =====
-- `_GetBattOrPath`: which port or device a wrapper talks to. What the machine has is an interface,
-- with the map that battor_device_mapping makes of it.
use text.Mathlib.Text.{find?}
use car_multimedia_android_a.Base.{
  not, ◌||◌, Option, none, some, List, [], ◌∷◌, String, ◌<>◌, str_eq, is_some, contains,
  if◌then◌else◌,
}

pub data Error : Type 0 where
  battor_error not_implemented_error : Error

pub data Result (A : Type 0) : Type 0 where
  raised : Error → Result A
  returned : A → Result A

-- What is asked of the machine
pub record Machine : Type 0 where
  -- The ports and their descriptions
  pub comports : List (String × String)
  -- `GetBattOrList` on the tree of the USB devices
  pub battor_list : List String
  -- `GetBattOrPathFromPhoneSerial`, with the maps that were given, or else the one generated
  pub path_from_phone_serial : String → Result String

-- _SUPPORTED_PLATFORMS
abbrev pub supported_platforms : List String
supported_platforms = "android" ∷ "chromeos" ∷ "linux" ∷ "mac" ∷ "win" ∷ []

-- The first port whose description has a text in it
unfoldable pub find_port : String → List (String × String) → Option String
find_port t [] = none
find_port t ((port, desc) ∷ ports) = if is_some (find? desc t) then some port else find_port t ports

abbrev pub windows_port : Option String → Result String
windows_port none = raised battor_error
windows_port (some port) = returned port

-- `'/dev/%s' % battors.pop()`, if it is the only one
abbrev pub only_battor : List String → Result String
only_battor [] = raised battor_error
only_battor (b ∷ []) = returned ("/dev/" <> b)
only_battor (b ∷ c ∷ rest) = raised battor_error

-- The branch of Android and Linux; an empty path or serial is `none`, and a path is a string.
abbrev pub attached_path : String → Option String → Option String → Machine → Result String
attached_path platform android_device (some path) machine = returned path
attached_path platform android_device none machine =
    if str_eq platform "android"
    then elim android_device [
      | none ↦ raised battor_error
      | some serial ↦ machine.path_from_phone_serial serial
    ]
    else only_battor machine.battor_list

-- Where no port was found on a Mac, the last line is reached, as on Chrome OS.
abbrev pub mac_port : Option String → Result String
mac_port none = raised not_implemented_error
mac_port (some port) = returned port

-- `_GetBattOrPath`
unfoldable pub get_battor_path : String → Option String → Option String → Machine → Result String
unfolding find_port
get_battor_path platform android_device battor_path machine =
    if not (contains platform supported_platforms)
    then raised battor_error
    else if str_eq platform "win"
    then windows_port (find_port "USB Serial Port" machine.comports)
    else if str_eq platform "mac"
    then mac_port (find_port "BattOr" machine.comports)
    else if str_eq platform "android" || str_eq platform "linux"
    then attached_path platform android_device battor_path machine
    else raised not_implemented_error
