-- ===== src/TraceData/Traces.antt =====
-- The methods of `TraceData` that read and clean its traces. Handles are kept in a row, since a
-- trace may be held by others too.
use car_multimedia_android_a.Base.{
  ℕ, zero, suc, Option, none, some, List, [], ◌∷◌, String, if◌then◌else◌,
}
use car_multimedia_android_a.Base.Dict.{lookup, insert}
use car_multimedia_android_a.TraceData.Json.{Json}
use car_multimedia_android_a.TraceData.Handle.{
  assertion_error, Result, raised, returned, TraceFileHandle, new_handle, Disk, as_trace_data,
  clean,
}
use car_multimedia_android_a.TraceData.Builder.{
  Trace, memory, handle, RawData, TraceData, has_trace_for,
}

-- All handles, and the disk
pub record Store : Type 0 where
  pub handles : List TraceFileHandle
  pub disk : Disk

-- The handle at a place; each handle that a trace names has been made.
abbrev pub handle_at : ℕ → List TraceFileHandle → TraceFileHandle
handle_at n [] = new_handle
handle_at zero (h ∷ hs) = h
handle_at (suc n) (h ∷ hs) = handle_at n hs

abbrev pub put_handle : ℕ → TraceFileHandle → List TraceFileHandle → List TraceFileHandle
put_handle n new [] = []
put_handle zero new (h ∷ hs) = new ∷ hs
put_handle (suc n) new (h ∷ hs) = h ∷ put_handle n new hs

abbrev pub stored :
    {A : Type 0} → ℕ → Result A × (TraceFileHandle × Disk) → Store → Result A × Store
stored n (result, (h, disk)) s =
    (result, record { handles = put_handle n h s.handles; disk = disk })

-- `trace.Clean()` for the handles of a list of traces
unfoldable pub clean_traces : List Trace → Store → Result (Unit {0}) × Store
clean_traces [] s = (returned tt, s)
clean_traces (memory _ ∷ traces) s = clean_traces traces s
clean_traces (handle n ∷ traces) s =
    let (result, s1) = stored n (clean (handle_at n s.handles) s.disk) s in
    elim result [ raised e ↦ (raised e, s1) | returned _ ↦ clean_traces traces s1 ]

-- The loop of CleanUpAllTraces
unfoldable pub clean_all : RawData → Store → Result (Unit {0}) × Store
unfolding clean_traces
clean_all [] s = (returned tt, s)
clean_all ((_, traces) ∷ raw) s =
    let (result, s1) = clean_traces traces s in
    elim result [ raised e ↦ (raised e, s1) | returned _ ↦ clean_all raw s1 ]

-- `TraceData.CleanUpAllTraces`
unfoldable pub clean_up_all_traces : TraceData → Store → Result (Unit {0}) × (TraceData × Store)
unfolding clean_all
clean_up_all_traces d s =
    let (result, s1) = clean_all d.raw_data s in
    elim result [
      | raised e ↦ (raised e, (d, s1))
      | returned _ ↦ (returned tt, (record d { raw_data = [] }, s1))
    ]

module _ (loads : String → Option Json) where
  -- The loop of GetTracesFor: the traces as far as they were replaced, and how it ended
  unfoldable pub convert : List Trace → Store → Result (Unit {0}) × (List Trace × Store)
  convert [] s = (returned tt, ([], s))
  convert (memory j ∷ traces) s =
      let (result, (rest, s1)) = convert traces s in (result, (memory j ∷ rest, s1))
  convert (handle n ∷ traces) s =
      let (result, s1) = stored n (as_trace_data loads (handle_at n s.handles) s.disk) s in
      elim result [
        | raised e ↦ (raised e, (handle n ∷ traces, s1))
        | returned j ↦
            let (result, (rest, s2)) = convert traces s1 in (result, (memory j ∷ rest, s2))
      ]

  -- The traces of a part that is there, replaced in the data
  abbrev pub replaced :
      String
      → TraceData
      → Result (Unit {0}) × (List Trace × Store)
      → Result (List Trace) × (TraceData × Store)
  replaced part d (raised e, (traces, s)) =
      (raised e, (record d { raw_data = insert part traces d.raw_data }, s))
  replaced part d (returned _, (traces, s)) =
      (returned traces, (record d { raw_data = insert part traces d.raw_data }, s))

  -- `TraceData.GetTracesFor`
  unfoldable pub get_traces_for :
      String → TraceData → Store → Result (List Trace) × (TraceData × Store)
  unfolding convert
  get_traces_for part d s =
      if has_trace_for part d.raw_data
      then elim (lookup part d.raw_data) [
        | none ↦ (returned [], (d, s))
        | some traces ↦ replaced part d (convert traces s)
      ]
      else (returned [], (d, s))

  abbrev pub only : Result (List Trace) → Result Trace
  only (raised e) = raised e
  only (returned []) = raised assertion_error
  only (returned (t ∷ [])) = returned t
  only (returned (t ∷ u ∷ ts)) = raised assertion_error

  -- `TraceData.GetTraceFor`
  unfoldable pub get_trace_for : String → TraceData → Store → Result Trace × (TraceData × Store)
  unfolding get_traces_for
  get_trace_for part d s = let (result, rest) = get_traces_for part d s in (only result, rest)
