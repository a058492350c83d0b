-- ===== src/TraceData/Handle.antt =====
-- `TraceFileHandle`. The disk is the files, by their paths, and `json.load` a parameter.
pub mod Session
use car_multimedia_android_a.Base.{
  Bool, true, false, not, ◌||◌, Option, none, some, List, [], ◌∷◌, String, ◌<>◌, str_eq, is_some,
  if◌then◌else◌,
}
use car_multimedia_android_a.Base.Dict.{Dict, lookup, insert}
use car_multimedia_android_a.TraceData.Json.{Json, is_false}

pub data Error : Type 0 where
  assertion_error already_built not_serializable attribute_error value_error io_error : Error

pub data Result (A : Type 0) : Type 0 where
  raised : Error → Result A
  returned : A → Result A

-- The three attributes; the backing file is the path of its temporary file.
pub record TraceFileHandle : Type 0 where
  pub backing_file : Option String
  pub file_path : Option String
  pub trace_data : Option Json

abbrev pub new_handle : TraceFileHandle
new_handle = record { backing_file = none; file_path = none; trace_data = none }

abbrev pub Disk : Type 0
Disk = Dict String

-- `os.remove` of a file that is there
unfoldable pub delete : String → Disk → Disk
delete p [] = []
delete p ((q, t) ∷ disk) = let rest = delete p disk in if str_eq q p then rest else (q, t) ∷ rest

-- `Open`, with the path that tempfile chooses
unfoldable pub open_file : String → TraceFileHandle → Disk → Result TraceFileHandle × Disk
open_file path h disk =
    if is_some h.backing_file || is_some h.file_path
    then (raised assertion_error, disk)
    else (returned (record h { backing_file = some path }), insert path "" disk)

abbrev pub content : Option String → String
content none = ""
content (some t) = t

-- `AppendTraceData`; None has no `write`.
unfoldable pub append_trace_data : String → TraceFileHandle → Disk → Result (Unit {0}) × Disk
append_trace_data partial_trace_data h disk = elim h.backing_file [
  | none ↦ (raised attribute_error, disk)
  | some path ↦ (returned tt, insert path (content (lookup path disk) <> partial_trace_data) disk)
]

-- `Close`
unfoldable pub close_file : TraceFileHandle → Result TraceFileHandle
close_file h = elim h.backing_file [
  | none ↦ raised assertion_error
  | some path ↦ returned (record h { backing_file = none; file_path = some path })
]

-- `Clean`
unfoldable pub clean : TraceFileHandle → Disk → Result (Unit {0}) × (TraceFileHandle × Disk)
unfolding delete
clean h disk = elim h.file_path [
  | none ↦ (raised assertion_error, (h, disk))
  | some path ↦ elim (lookup path disk) [
    | none ↦ (raised io_error, (h, disk))
    | some _ ↦ (returned tt, (record h { file_path = none }, delete path disk))
  ]
]

module _ (loads : String → Option Json) where
  -- The file of AsTraceData, read and removed
  unfoldable pub load_trace_data : TraceFileHandle → Disk → Result Json × (TraceFileHandle × Disk)
  unfolding delete
  load_trace_data h disk = elim h.file_path [
    | none ↦ (raised assertion_error, (h, disk))
    | some path ↦ elim (lookup path disk) [
      | none ↦ (raised io_error, (h, disk))
      | some t ↦ elim (loads t) [
        | none ↦ (raised value_error, (h, disk))
        | some j ↦
            (returned j, (record h { file_path = none; trace_data = some j }, delete path disk))
      ]
    ]
  ]

  -- `AsTraceData`. What was read before is returned only if it counts as true.
  unfoldable pub as_trace_data : TraceFileHandle → Disk → Result Json × (TraceFileHandle × Disk)
  unfolding load_trace_data
  as_trace_data h disk = elim h.trace_data [
    | none ↦ load_trace_data h disk
    | some j ↦ if is_false j then load_trace_data h disk else (returned j, (h, disk))
  ]
