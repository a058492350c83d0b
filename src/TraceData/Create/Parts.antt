-- ===== src/TraceData/Create/Parts.antt =====
-- Where the parts of raw data end up.
use car_multimedia_android_a.Base.{
  ◌≡◌, refl, sym, ap, subst, ◌∙◌, Bool, true, false, not, ◌&&◌, ◌||◌, Option, none, some, List, [],
  ◌∷◌, ◌++◌, String, str_eq, is_some, if◌then◌else◌, arith, eq_iff, Bool-cases, Option-cases, inl,
  inr,
}
use car_multimedia_android_a.Base.Dict.{lookup, lookup-insert}
use car_multimedia_android_a.TraceData.Json.{
  Json, object, Members, empty, member, get, keep, is_dict, is_false,
}
use car_multimedia_android_a.TraceData.Handle.{returned}
use car_multimedia_android_a.TraceData.Builder.{
  Trace, memory, chrome_trace_part, RawData, add_trace_for, append_trace, is_allowed, TraceData,
  as_data,
}
use car_multimedia_android_a.TraceData.Create.{
  and_then, is_other_part, add_parts, add_chrome, create_from_object,
  create_trace_data_from_raw_data,
}

-- The traces that are there, or no traces
abbrev traces_of : Option (List Trace) → List Trace
traces_of none = []
traces_of (some traces) = traces

lookup-append_trace :
    (p j : String) (t : Trace) (raw : RawData)
    → lookup j (append_trace p t raw)
      ≡ (if str_eq p j then some (traces_of (lookup p raw) ++ t ∷ []) else lookup j raw)
unfolding append_trace
lookup-append_trace p j t raw = elim (Option-cases (lookup p raw)) [
  | inl e ↦ ground (arith, lookup-insert p j (t ∷ []) raw)
  | inr (ts, e) ↦ ground (arith, lookup-insert p j (ts ++ t ∷ []) raw)
]

-- The parts other than Chrome's have values that a builder takes.
unfoldable pub are_allowed : Members → Bool
unfolding is_other_part is_allowed
are_allowed empty = true
are_allowed (member k v m) = (not (is_other_part k) || is_allowed k (memory v)) && are_allowed m

-- What the loop makes of the raw data
unfoldable gather : Members → RawData → RawData
unfolding append_trace is_other_part
gather empty raw = raw
gather (member k v m) raw =
    gather m (if is_other_part k then append_trace k (memory v) raw else raw)

if_true : {A : Type 0} (b : Bool) (x y : A) → b ≡ true → (if b then x else y) ≡ x
if_true true x y p = refl
if_true false x y p = absurd (cc)

if_false : {A : Type 0} (b : Bool) (x y : A) → b ≡ false → (if b then x else y) ≡ y
if_false true x y p = absurd (cc)
if_false false x y p = refl

allowed_first : (a b c : Bool) → ((not a || b) && c) ≡ true → a ≡ true → b ≡ true
allowed_first a b c p q = ground arith

allowed_rest : (a b c : Bool) → ((not a || b) && c) ≡ true → c ≡ true
allowed_rest a b c p = ground arith

-- The raw data once the first member is added, if it is a part
abbrev first_added : String → Json → RawData → RawData
first_added k v raw = if is_other_part k then append_trace k (memory v) raw else raw

gather-member :
    (k : String) (v : Json) (m : Members) (raw : RawData)
    → gather (member k v m) raw ≡ gather m (first_added k v raw)
unfolding gather
gather-member k v m raw = refl

add_trace_for-allowed :
    (k : String) (t : Trace) (raw : RawData)
    → is_allowed k t ≡ true
    → add_trace_for k t (some raw) ≡ returned (some (append_trace k t raw))
unfolding add_trace_for
add_trace_for-allowed k t raw p = if_true (is_allowed k t) _ _ p

add_parts-member :
    (k : String) (v : Json) (m : Members) (raw : RawData)
    → are_allowed (member k v m) ≡ true
    → add_parts (member k v m) (some raw) ≡ add_parts m (some (first_added k v raw))
unfolding add_parts are_allowed
add_parts-member k v m raw p = elim (Bool-cases (is_other_part k)) [
  | inr q ↦
      if_false (is_other_part k) _ _ q
      ∙ ap (λ r. add_parts m (some r))
          (sym (if_false (is_other_part k) (append_trace k (memory v) raw) raw q))
  | inl q ↦
      if_true (is_other_part k) _ _ q
      ∙ ap (λ r. and_then r (add_parts m))
          (add_trace_for-allowed k (memory v) raw
            (allowed_first (is_other_part k) (is_allowed k (memory v)) (are_allowed m) p q))
      ∙ ap (λ r. add_parts m (some r))
          (sym (if_true (is_other_part k) (append_trace k (memory v) raw) raw q))
]

are_allowed-rest :
    (k : String) (v : Json) (m : Members) → are_allowed (member k v m) ≡ true → are_allowed m ≡ true
unfolding are_allowed
are_allowed-rest k v m p =
    allowed_rest (is_other_part k) (is_allowed k (memory v)) (are_allowed m) p

add_parts-gather :
    (m : Members) (raw : RawData)
    → are_allowed m ≡ true
    → add_parts m (some raw) ≡ returned (some (gather m raw))
unfolding add_parts gather
add_parts-gather empty raw p = refl
add_parts-gather (member k v m) raw p =
    add_parts-member k v m raw p
    ∙ add_parts-gather m (first_added k v raw) (are_allowed-rest k v m p)

-- What was looked up before, with the member of the key added
abbrev with_member : Option Json → Option (List Trace) → Option (List Trace)
with_member none before = before
with_member (some v) before = some (traces_of before ++ memory v ∷ [])

get-member :
    (p k : String) (v : Json) (m : Members)
    → get p (member k v m) ≡ (if str_eq k p then some v else get p m)
unfolding get
get-member p k v m = refl

is_dict-member :
    (k : String) (v : Json) (m : Members)
    → is_dict (member k v m) ≡ true
    → (get k m ≡ none) × (is_dict m ≡ true)
unfolding is_dict
is_dict-member k v m p = elim (Option-cases (get k m)) [
  | inl n ↦ (n, ground arith)
  | inr (w, h) ↦ absurd (ground arith)
]

-- What the loop leaves under a name, in both cases of it
abbrev expected : Bool → Option Json → Option (List Trace) → Option (List Trace)
expected b found before = if b then with_member found before else before

same_name :
    (k p : String) (v : Json) (raw : RawData)
    → (if str_eq k p then some (traces_of (lookup k raw) ++ memory v ∷ []) else lookup p raw)
      ≡ expected (str_eq k p) (some v) (lookup p raw)
same_name k p v raw = elim (Bool-cases (str_eq k p)) [
  | inr q ↦ if_false (str_eq k p) _ _ q ∙ sym (if_false (str_eq k p) _ _ q)
  | inl q ↦
      if_true (str_eq k p) _ _ q
      ∙ ap (λ j. some (traces_of (lookup j raw) ++ memory v ∷ [])) ((eq_iff k p).0 q)
      ∙ sym (if_true (str_eq k p) _ _ q)
]

lookup-first_added :
    (k p : String) (v : Json) (raw : RawData)
    → lookup p (first_added k v raw)
      ≡ expected (is_other_part k && str_eq k p) (some v) (lookup p raw)
lookup-first_added k p v raw = elim (Bool-cases (is_other_part k)) [
  | inr q ↦
      ap (lookup p) (if_false (is_other_part k) _ _ q)
      ∙ ap (λ b. expected (b && str_eq k p) (some v) (lookup p raw)) (sym q)
  | inl q ↦
      ap (lookup p) (if_true (is_other_part k) _ _ q)
      ∙ lookup-append_trace k p (memory v) raw
      ∙ same_name k p v raw
      ∙ ap (λ b. expected (b && str_eq k p) (some v) (lookup p raw)) (sym q)
]

expected_step :
    (a b same : Bool) (v : Json) (found : Option Json) (before : Option (List Trace))
    → (same ≡ true → (a ≡ b) × (found ≡ none))
    → expected b found (expected (a && same) (some v) before)
      ≡ expected b (if same then some v else found) before
expected_step a b true v found before h = ground (arith, (h refl).0, (h refl).1)
expected_step true b false v found before h = refl
expected_step false b false v found before h = refl

lookup-gather :
    (m : Members) (raw : RawData) (p : String)
    → is_dict m ≡ true
    → lookup p (gather m raw) ≡ expected (is_other_part p) (get p m) (lookup p raw)
unfolding gather get
lookup-gather empty raw p d = elim (Bool-cases (is_other_part p)) [
  | inl q ↦ sym (if_true (is_other_part p) _ _ q)
  | inr q ↦ sym (if_false (is_other_part p) _ _ q)
]
lookup-gather (member k v m) raw p d =
    let (fresh, d1) = is_dict-member k v m d in
    lookup-gather m (first_added k v raw) p d1
    ∙ ap (expected (is_other_part p) (get p m)) (lookup-first_added k p v raw)
    ∙ expected_step (is_other_part k) (is_other_part p) (str_eq k p) v (get p m) (lookup p raw)
        (λ same.
          let e = (eq_iff k p).0 same in (ap is_other_part e, subst (λ q. get q m ≡ none) e fresh))

-- The trace of Chrome is what is left of the object.
abbrev pub chrome_trace : Members → Json
chrome_trace m = object (keep (λ k. not (is_other_part k)) m)

-- What the data of an object has under a name: the trace of Chrome, the member of the same name if
-- it is another part, and nothing else.
abbrev pub part_of : Members → String → Option (List Trace)
part_of m p =
    if str_eq chrome_trace_part p
    then some (memory (chrome_trace m) ∷ [])
    else if is_other_part p
    then elim (get p m) [ none ↦ none | some v ↦ some (memory v ∷ []) ]
    else none

chrome_is_no_other : is_other_part chrome_trace_part ≡ false
unfolding is_other_part
chrome_is_no_other = refl

abbrev data_of : Members → TraceData
data_of m = record {
  raw_data = append_trace chrome_trace_part (memory (chrome_trace m)) (gather m []);
  events_are_safely_mutable = true;
}

alone :
    (found : Option Json)
    → with_member found none ≡ elim found [ none ↦ none | some v ↦ some (memory v ∷ []) ]
alone none = refl
alone (some v) = refl

lookup-gathered :
    (m : Members) (p : String)
    → is_dict m ≡ true
    → lookup p (gather m []) ≡ expected (is_other_part p) (get p m) none
unfolding lookup
lookup-gathered m p d = lookup-gather m [] p d

lookup-data_of :
    (m : Members) (p : String) → is_dict m ≡ true → lookup p (data_of m).raw_data ≡ part_of m p
lookup-data_of m p d =
    let none_before =
      lookup-gathered m chrome_trace_part d
      ∙ if_false (is_other_part chrome_trace_part) _ _ chrome_is_no_other in
    lookup-append_trace chrome_trace_part p (memory (chrome_trace m)) (gather m [])
    ∙ ap
        (λ before.
          if str_eq chrome_trace_part p
          then some (traces_of before ++ memory (chrome_trace m) ∷ [])
          else lookup p (gather m []))
        none_before
    ∙ ap
        (λ other. if str_eq chrome_trace_part p then some (memory (chrome_trace m) ∷ []) else other)
        (lookup-gathered m p d
          ∙ ap (λ found. if is_other_part p then found else none) (alone (get p m)))

has_member : (m : Members) → is_some (get chrome_trace_part m) ≡ true → is_false (object m) ≡ false
unfolding get is_false
has_member empty p = absurd (cc)
has_member (member k v m) p = refl

add_chrome-some :
    (trace : Members) (raw : RawData)
    → add_chrome (object trace) (some raw)
      ≡ returned (record {
        raw_data = append_trace chrome_trace_part (memory (object trace)) raw;
        events_are_safely_mutable = true;
      })
unfolding add_trace_for is_allowed as_data
add_chrome-some trace raw = refl

create-data_of :
    (loads : String → Option Json) (m : Members)
    → is_some (get chrome_trace_part m) ≡ true
    → are_allowed m ≡ true
    → create_trace_data_from_raw_data loads (object m) ≡ returned (data_of m)
unfolding create_trace_data_from_raw_data create_from_object
create-data_of loads m p q =
    if_false (is_false (object m)) _ _ (has_member m p)
    ∙ if_true (is_some (get chrome_trace_part m)) _ _ p
    ∙ ap (λ r. and_then r (add_chrome (chrome_trace m))) (add_parts-gather m [] q)
    ∙ add_chrome-some (keep (λ k. not (is_other_part k)) m) (gather m [])

-- From a json object with the part of Chrome, whose other parts are texts, objects or arrays,
-- CreateTraceDataFromRawData makes data that has, under the name of each other part that is in
-- ALL_TRACE_PARTS, the member of that name as its one trace, under the name of Chrome's the object
-- without these members, and no other traces.
pub create_trace_data-part_of :
    (loads : String → Option Json) (m : Members)
    → is_dict m ≡ true
    → is_some (get chrome_trace_part m) ≡ true
    → are_allowed m ≡ true
    → (d : TraceData) × (create_trace_data_from_raw_data loads (object m) ≡ returned d)
      × ((p : String) → lookup p d.raw_data ≡ part_of m p)
create_trace_data-part_of loads m h p q =
    (data_of m, create-data_of loads m p q, λ name. lookup-data_of m name h)
