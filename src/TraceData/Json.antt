-- ===== src/TraceData/Json.antt =====
-- What `json.loads` makes of a text. An object is a dict, so its keys are distinct.
use car_multimedia_android_a.Base.{
  Bool, true, false, not, ◌&&◌, Option, none, some, String, str_eq, is_some, if◌then◌else◌,
}

mutual
  pub data Json : Type 0 where
    null : Json
    boolean : Bool → Json
    -- A number, and whether it is not 0
    number : Bool → Json
    text : String → Json
    array : Items → Json
    object : Members → Json

  pub data Items : Type 0 where
    none_left : Items
    item : Json → Items → Items

  pub data Members : Type 0 where
    empty : Members
    member : String → Json → Members → Members

-- `not json_data`
unfoldable pub is_false : Json → Bool
is_false null = true
is_false (boolean b) = not b
is_false (number b) = not b
is_false (text s) = str_eq s ""
is_false (array none_left) = true
is_false (array (item v vs)) = false
is_false (object empty) = true
is_false (object (member k v m)) = false

-- `json_data.get(k)`
unfoldable pub get : String → Members → Option Json
get k empty = none
get k (member j v m) = if str_eq j k then some v else get k m

-- The members whose keys pass, which are left when `del` has taken the others
unfoldable pub keep : (String → Bool) → Members → Members
keep f empty = empty
keep f (member j v m) = let rest = keep f m in if f j then member j v rest else rest

-- That no key stands twice
unfoldable pub is_dict : Members → Bool
unfolding get
is_dict empty = true
is_dict (member j v m) = not (is_some (get j m)) && is_dict m
