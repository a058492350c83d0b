-- ===== src/TraceData/Tests.antt =====
-- Raw data of three parts, one of them unknown, and the life of a file handle.
use car_multimedia_android_a.Base.{
  ◌≡◌, refl, Option, none, some, [], ◌∷◌, String, str_eq, if◌then◌else◌,
}
use car_multimedia_android_a.Base.Dict.{lookup}
use car_multimedia_android_a.TraceData.Json.{
  keep, is_false, Json, text, array, object, none_left, Members, empty, member, get, is_dict,
}
use car_multimedia_android_a.TraceData.Handle.{
  raised, returned, assertion_error, TraceFileHandle, new_handle, as_trace_data,
}
use car_multimedia_android_a.TraceData.Handle.Session.{session, session-read}
use car_multimedia_android_a.TraceData.Builder.{memory, TraceData}
use car_multimedia_android_a.TraceData.Create.{is_other_part, create_trace_data_from_raw_data}
use car_multimedia_android_a.TraceData.Create.Parts.{
  create_trace_data-part_of, are_allowed, part_of,
}

abbrev loads : String → Option Json
loads s = some (text s)

abbrev three_parts : Members
three_parts =
    member "traceEvents" (array none_left)
      (member "systemTraceEvents" (text "atrace") (member "waltTraceEvents" (text "walt") empty))

abbrev Created : Type 0
Created =
    (d : TraceData) × (create_trace_data_from_raw_data loads (object three_parts) ≡ returned d)
    × ((p : String) → lookup p d.raw_data ≡ part_of three_parts p)

create_trace_data-part_of_example : Created
unfolding is_dict get are_allowed
create_trace_data-part_of_example = create_trace_data-part_of loads three_parts refl refl refl

-- The part of WALT is none of ALL_TRACE_PARTS, and stays within the trace of Chrome.
walt_stays :
    part_of three_parts "traceEvents"
    ≡ some (
        memory (
          object
            (member "traceEvents" (array none_left) (member "waltTraceEvents" (text "walt") empty)))
        ∷ [])
unfolding keep is_other_part
walt_stays = refl

abbrev closed : TraceFileHandle
closed = record { backing_file = none; file_path = some "/tmp/t"; trace_data = none }

abbrev loads_empty : String → Option Json
loads_empty s = some (object empty)

-- What was read counts as false, and is not found again when it is asked for twice.
twice_read :
    (as_trace_data loads_empty (as_trace_data loads_empty closed (("/tmp/t", "{}") ∷ [])).1.0 []).0
    ≡ raised assertion_error
unfolding as_trace_data lookup is_false
twice_read = refl

session-read_example :
    ((session loads "/tmp/t" ("a" ∷ "b" ∷ []) []).0 ≡ returned (text "ab"))
    × ((session loads "/tmp/t" ("a" ∷ "b" ∷ []) []).1.0
        ≡ record new_handle { trace_data = some (text "ab") })
    × ((q : String)
        → lookup q (session loads "/tmp/t" ("a" ∷ "b" ∷ []) []).1.1
          ≡ (if str_eq "/tmp/t" q then none else lookup q []))
session-read_example = session-read loads "/tmp/t" ("a" ∷ "b" ∷ []) [] (text "ab") refl
