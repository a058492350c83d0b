-- ===== src/TraceData/Handle/Session.antt =====
-- The life of a file handle: opened, written to, closed and read back.
use text.Mathlib.TextLemmas.{
  append_assoc as text_append_assoc, append-nil as text_append_nil, nil-append as text_nil_append,
}
use car_multimedia_android_a.Base.{
  ◌≡◌, refl, ap, ◌∙◌, Option, none, some, List, [], ◌∷◌, String, ◌<>◌, str_eq, if◌then◌else◌, arith,
  eq_iff, eq_refl,
}
use car_multimedia_android_a.Base.Dict.{lookup, insert, lookup-insert}
use car_multimedia_android_a.TraceData.Json.{Json}
use car_multimedia_android_a.TraceData.Handle.{
  Result, raised, returned, TraceFileHandle, new_handle, Disk, delete, content, open_file,
  append_trace_data, close_file, load_trace_data, as_trace_data,
}

-- AppendTraceData for each of some texts; the first exception ends it.
unfoldable pub append_all : List String → TraceFileHandle → Disk → Result (Unit {0}) × Disk
append_all [] h disk = (returned tt, disk)
append_all (x ∷ xs) h disk =
    let (result, disk1) = append_trace_data x h disk in
    elim result [ raised e ↦ (raised e, disk1) | returned _ ↦ append_all xs h disk1 ]

-- All texts in one
abbrev pub joined : List String → String
joined [] = ""
joined (x ∷ xs) = x <> joined xs

abbrev written_handle : String → TraceFileHandle
written_handle path = record new_handle { backing_file = some path }

append_trace_data-written :
    (path x t : String) (disk : Disk)
    → lookup path disk ≡ some t
    → append_trace_data x (written_handle path) disk ≡ (returned tt, insert path (t <> x) disk)
unfolding append_trace_data
append_trace_data-written path x t disk p =
    ap (λ c. (returned tt, insert path (content c <> x) disk)) p

lookup-insert_same : (path t : String) (disk : Disk) → lookup path (insert path t disk) ≡ some t
lookup-insert_same path t disk = ground (arith, lookup-insert path path t disk, eq_refl path)

append_all-cons :
    (path x t : String) (xs : List String) (disk : Disk)
    → lookup path disk ≡ some t
    → append_all (x ∷ xs) (written_handle path) disk
      ≡ append_all xs (written_handle path) (insert path (t <> x) disk)
unfolding append_all
append_all-cons path x t xs disk p = ground (arith, append_trace_data-written path x t disk p)

-- Of a file that is there, all is written behind what it has, and the other files stay.
append_all-written :
    (path t : String) (xs : List String) (disk : Disk)
    → lookup path disk ≡ some t
    → ((append_all xs (written_handle path) disk).0 ≡ returned tt)
      × ((j : String)
          → lookup j (append_all xs (written_handle path) disk).1
            ≡ (if str_eq path j then some (t <> joined xs) else lookup j disk))
unfolding append_all
append_all-written path t [] disk p = (refl, λ j. ground (arith, eq_iff path j, text_append_nil t))
append_all-written path t (x ∷ xs) disk p =
    let (ok, found) =
      append_all-written path (t <> x) xs (insert path (t <> x) disk)
        (lookup-insert_same path (t <> x) disk) in
    let step = append_all-cons path x t xs disk p in
    (
      ap (λ r. r.0) step ∙ ok,
      λ j.
          ap (λ r. lookup j r.1) step
          ∙ found j
          ∙ ground (arith, text_append_assoc t x (joined xs), lookup-insert path j (t <> x) disk),
    )

lookup-delete :
    (p q : String) (disk : Disk)
    → lookup q (delete p disk) ≡ (if str_eq p q then none else lookup q disk)
unfolding lookup delete
lookup-delete p q [] = ground arith
lookup-delete p q ((k, t) ∷ disk) =
    ground (arith, eq_iff k p, eq_iff k q, eq_iff p q, lookup-delete p q disk)

if_same : {A : Type 0} (path : String) (x y : A) → (if str_eq path path then x else y) ≡ x
if_same path x y = ap (λ b. if b then x else y) (eq_refl path)

module _ (loads : String → Option Json) where
  -- Close and AsTraceData, if nothing was raised before
  abbrev close_and_read :
      TraceFileHandle → Result (Unit {0}) × Disk → Result Json × (TraceFileHandle × Disk)
  close_and_read h (raised e, disk) = (raised e, (h, disk))
  close_and_read h (returned _, disk) = elim (close_file h) [
    | raised e ↦ (raised e, (h, disk))
    | returned closed ↦ as_trace_data loads closed disk
  ]

  -- A new handle, opened on a temporary file, written to, closed and read
  unfoldable pub session : String → List String → Disk → Result Json × (TraceFileHandle × Disk)
  unfolding open_file append_all close_file as_trace_data
  session path xs disk =
      let (opened, disk1) = open_file path new_handle disk in
      elim opened [
        | raised e ↦ (raised e, (new_handle, disk1))
        | returned h ↦ close_and_read h (append_all xs h disk1)
      ]

  abbrev closed_handle : String → TraceFileHandle
  closed_handle path = record new_handle { file_path = some path }

  abbrev read_handle : Json → TraceFileHandle
  read_handle j = record new_handle { trace_data = some j }

  as_trace_data-read :
      (path t : String) (j : Json) (disk : Disk)
      → lookup path disk ≡ some t
      → loads t ≡ some j
      → as_trace_data loads (closed_handle path) disk
        ≡ (returned j, (read_handle j, delete path disk))
  unfolding as_trace_data load_trace_data
  as_trace_data-read path t j disk p q = ground arith

  abbrev written : String → List String → Disk → Result (Unit {0}) × Disk
  written path xs disk = append_all xs (written_handle path) (insert path "" disk)

  session-appended :
      (path : String) (xs : List String) (disk : Disk)
      → (written path xs disk).0 ≡ returned tt
      → session path xs disk ≡ as_trace_data loads (closed_handle path) (written path xs disk).1
  unfolding session open_file close_file
  session-appended path xs disk p =
      ap (λ r. close_and_read (written_handle path) (r, (written path xs disk).1)) p

  -- What is appended to a file handle between Open and Close, in any pieces, is what AsTraceData
  -- then reads, if it is json; the handle keeps it in memory, its file is gone, and every other
  -- file is as it was.
  pub session-read :
      (path : String) (xs : List String) (disk : Disk) (j : Json)
      → loads (joined xs) ≡ some j
      → ((session path xs disk).0 ≡ returned j)
        × ((session path xs disk).1.0 ≡ record new_handle { trace_data = some j })
        × ((q : String)
            → lookup q (session path xs disk).1.1 ≡ (if str_eq path q then none else lookup q disk))
  session-read path xs disk j p =
      let started = lookup-insert_same path "" disk in
      let (ok, found) = append_all-written path "" xs (insert path "" disk) started in
      let there =
        found path
        ∙ if_same path (some ("" <> joined xs)) _
        ∙ ap some (text_nil_append (joined xs)) in
      let read =
        session-appended path xs disk ok
        ∙ as_trace_data-read path (joined xs) j (written path xs disk).1 there p in
      (
        ap (λ r. r.0) read,
        ap (λ r. r.1.0) read,
        λ q.
            ap (λ r. lookup q r.1.1) read
            ∙ lookup-delete path q (written path xs disk).1
            ∙ ap (λ before. if str_eq path q then none else before) (found q)
            ∙ ground (arith, lookup-insert path q "" disk),
      )
