-- ===== src/TraceData/Builder.antt =====
-- `TraceDataBuilder`, and `TraceData` as far as it is built. A handle is a number, its place in the
-- row of the handles that were made.
use car_multimedia_android_a.Base.{
  ℕ, Bool, true, false, not, Option, none, some, List, [], ◌∷◌, ◌++◌, String, str_eq, is_some,
  is_empty, if◌then◌else◌,
}
use car_multimedia_android_a.Base.Dict.{Dict, lookup, insert}
use car_multimedia_android_a.TraceData.Handle.{
  assertion_error, already_built, Result, raised, returned,
}
use car_multimedia_android_a.TraceData.Json.{Json, text, array, object, null, boolean, number}

-- A trace that an agent hands over, in memory or by a file handle
pub data Trace : Type 0 where
  memory : Json → Trace
  handle : ℕ → Trace

-- The raw field names of the parts
abbrev pub chrome_trace_part : String
chrome_trace_part = "traceEvents"

-- ALL_TRACE_PARTS_RAW_NAMES
unfoldable pub all_trace_parts : List String
all_trace_parts =
    "androidProcessDump" ∷ "systemTraceEvents" ∷ "powerTraceAsString" ∷ "traceEvents"
    ∷ "cpuSnapshots" ∷ "inspectorTimelineEvents" ∷ "surfaceFlinger" ∷ "tabIds" ∷ "telemetry" ∷ []

-- `_raw_data`, by field names
abbrev pub RawData : Type 0
RawData = Dict (List Trace)

-- `_HasTraceFor`
unfoldable pub has_trace_for : String → RawData → Bool
has_trace_for part raw = elim (lookup part raw) [
  | none ↦ false
  | some traces ↦ not (is_empty traces)
]

-- What AddTraceFor asserts of the trace
unfoldable pub is_allowed : String → Trace → Bool
is_allowed part (handle _) = str_eq part chrome_trace_part
is_allowed part (memory (object _)) = true
is_allowed part (memory (array _)) = true
is_allowed part (memory (text _)) = not (str_eq part chrome_trace_part)
is_allowed part (memory null) = false
is_allowed part (memory (boolean _)) = false
is_allowed part (memory (number _)) = false

-- `self._raw_data.setdefault(name, [])` and `append`
unfoldable pub append_trace : String → Trace → RawData → RawData
append_trace part trace raw =
    insert part ((elim (lookup part raw) [ none ↦ [] | some traces ↦ traces ]) ++ trace ∷ []) raw

-- A builder is its `_raw_data`, `none` once it has been built.
abbrev pub TraceDataBuilder : Type 0
TraceDataBuilder = Option RawData

abbrev pub new_builder : TraceDataBuilder
new_builder = some []

-- `TraceDataBuilder.AddTraceFor`
unfoldable pub add_trace_for : String → Trace → TraceDataBuilder → Result TraceDataBuilder
unfolding append_trace is_allowed
add_trace_for part trace builder =
    if is_allowed part trace
    then elim builder [
      | none ↦ raised already_built
      | some raw ↦ returned (some (append_trace part trace raw))
    ]
    else raised assertion_error

pub record TraceData : Type 0 where
  pub raw_data : RawData
  pub events_are_safely_mutable : Bool

-- `TraceDataBuilder.AsData`, with what it leaves of the builder
unfoldable pub as_data : TraceDataBuilder → Result TraceData × TraceDataBuilder
as_data none = (raised already_built, none)
as_data (some raw) = (returned (record { raw_data = raw; events_are_safely_mutable = true }), none)

-- `TraceData.active_parts`, in the order of ALL_TRACE_PARTS
unfoldable pub active : List String → RawData → List String
active [] raw = []
active (p ∷ ps) raw = let rest = active ps raw in if is_some (lookup p raw) then p ∷ rest else rest

unfoldable pub active_parts : TraceData → List String
unfolding active all_trace_parts
active_parts d = active all_trace_parts d.raw_data
