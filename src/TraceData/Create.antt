-- ===== src/TraceData/Create.antt =====
-- `CreateTraceDataFromRawData`. A copy of the data is the data here.
pub mod Parts
use car_multimedia_android_a.Base.{
  Bool, true, false, not, ◌&&◌, Option, none, some, List, [], ◌∷◌, String, str_eq, is_some,
  contains, if◌then◌else◌,
}
use car_multimedia_android_a.TraceData.Json.{
  Json, null, boolean, number, text, array, object, Members, empty, member, is_false, get, keep,
}
use car_multimedia_android_a.TraceData.Handle.{
  Error, assertion_error, not_serializable, value_error, Result, raised, returned,
}
use car_multimedia_android_a.TraceData.Builder.{
  memory, chrome_trace_part, all_trace_parts, TraceDataBuilder, new_builder, add_trace_for,
  TraceData, as_data,
}

abbrev pub and_then : {A B : Type 0} → Result A → (A → Result B) → Result B
and_then (raised e) k = raised e
and_then (returned a) k = k a

-- `k != 'traceEvents' and k in ALL_TRACE_PARTS_RAW_NAMES`
unfoldable pub is_other_part : String → Bool
unfolding all_trace_parts
is_other_part k = not (str_eq k chrome_trace_part) && contains k all_trace_parts

-- The loop over the keys
unfoldable pub add_parts : Members → TraceDataBuilder → Result TraceDataBuilder
unfolding add_trace_for is_other_part
add_parts empty builder = returned builder
add_parts (member k v m) builder =
    if is_other_part k
    then and_then (add_trace_for k (memory v) builder) (add_parts m)
    else add_parts m builder

abbrev pub built : TraceDataBuilder → Result TraceData
built builder = (as_data builder).0

-- The trace of Chrome, once the parts are added and their keys are deleted
abbrev pub add_chrome : Json → TraceDataBuilder → Result TraceData
add_chrome trace builder = and_then (add_trace_for chrome_trace_part (memory trace) builder) built

-- On an object that is not empty
unfoldable pub create_from_object : Members → Result TraceData
unfolding add_parts keep
create_from_object m =
    if is_some (get chrome_trace_part m)
    then and_then (add_parts m new_builder)
        (add_chrome (object (keep (λ k. not (is_other_part k)) m)))
    else raised assertion_error

-- By the type of the data, which counts as true
abbrev pub create_from_json : Json → Result TraceData
create_from_json (object m) = create_from_object m
create_from_json (array items) =
    add_chrome (object (member chrome_trace_part (array items) empty)) new_builder
create_from_json null = raised not_serializable
create_from_json (boolean _) = raised not_serializable
create_from_json (number _) = raised not_serializable
create_from_json (text _) = raised not_serializable

abbrev pub create_from_data : Json → Result TraceData
create_from_data j = if is_false j then built new_builder else create_from_json j

module _ (loads : String → Option Json) where
  -- `CreateTraceDataFromRawData`: a string is read by `json.loads` first.
  unfoldable pub create_trace_data_from_raw_data : Json → Result TraceData
  unfolding create_from_object is_false as_data
  create_trace_data_from_raw_data (text s) = elim (loads s) [
    | none ↦ raised value_error
    | some j ↦ create_from_data j
  ]
  create_trace_data_from_raw_data null = create_from_data null
  create_trace_data_from_raw_data (boolean b) = create_from_data (boolean b)
  create_trace_data_from_raw_data (number b) = create_from_data (number b)
  create_trace_data_from_raw_data (array items) = create_from_data (array items)
  create_trace_data_from_raw_data (object m) = create_from_data (object m)
