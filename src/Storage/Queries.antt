-- ===== src/Storage/Queries.antt =====
-- The queries of src/analysis/query.c on a log. What a query frees is a part of its result.
-- `qsort` is a parameter.
pub mod ById
pub mod Slowest
use mathlib.Core.List.{Perm}
use dapper_lite.Prelude.{
  ℕ, zero, suc, ◌+◌, ◌-◌, ◌/◌, ◌<◌, ◌≤◌, ◌≡◌, ◌≢◌, min, refl, ap, ap₂, sym, ◌∙◌, inl, inr, Bool,
  true, false, Bool-cases, Option, Option-cases, none, some, List, [], ◌∷◌, ◌++◌, map, ltb, ◌==◌,
  if◌then◌else◌, length, take, drop, All, arith, take-append-drop, length-take,
}
use dapper_lite.Prelude.Outcome.{Outcome, ok, failed, ◌>>=◌, ◌>>◌, fail_if}
use dapper_lite.Core.{Span}
use dapper_lite.ByteOrder.{Host}
use dapper_lite.Collector.{PartialTrace}
use dapper_lite.Storage.{LoggedTrace, Status, query_load_all_status}
use dapper_lite.Storage.Log.{IsStorable}
use dapper_lite.Storage.RoundTrip.{write_all, logged, query_load_all-write_all}

-- The loop over the traces: the result so far, and those that are freed.
unfoldable pub pick_trace :
    ℕ → Option LoggedTrace → List LoggedTrace → Option LoggedTrace × List LoggedTrace
pick_trace id result [] = (result, [])
pick_trace id result (t ∷ all) =
    let kept = pick_trace id (some t) all in
    let rest = pick_trace id result all in if t.id == id then kept else (rest.0, t ∷ rest.1)

-- The span that `rebuild_hierarchy` takes for the root.
abbrev pub root_of : List Span → Option Span
root_of [] = none
root_of (s ∷ spans) = let later = root_of spans in if s.parent_span_id == 0 then some s else later

unfoldable pub trace_root_duration_us : LoggedTrace → ℕ
trace_root_duration_us trace = elim (root_of trace.spans) [
  | none ↦ 0
  | some root ↦ root.monotonic_end_ns / 1000
]

-- The result of a comparison function: -1, 0 or 1.
pub data Sign : Type 0 where
  negative same positive : Sign

unfoldable pub cmp_trace_duration_desc : LoggedTrace → LoggedTrace → Sign
unfolding trace_root_duration_us
cmp_trace_duration_desc ta tb =
    let da = trace_root_duration_us ta in
    let db = trace_root_duration_us tb in
    if ltb db da then negative else if ltb da db then positive else same

abbrev pub Ordered : List LoggedTrace → Type 0
Ordered [] = Unit {0}
Ordered (t ∷ traces) = All (λ u. cmp_trace_duration_desc t u ≢ positive) traces × Ordered traces

-- What C says of `qsort` with a comparison function that orders durations, of an array of traces.
pub record IsQsort (qsort : List LoggedTrace → List LoggedTrace) (traces : List LoggedTrace)
    : Type 0 where
  pub permutes : Perm (qsort traces) traces
  pub sorts : Ordered (qsort traces)
  pub same_length : length (qsort traces) ≡ length traces

abbrev is_empty_array : List LoggedTrace → Bool
is_empty_array [] = true
is_empty_array (t ∷ all) = false

module _ (host : Host) where
  unfoldable pub query_trace_by_id : List ℕ → ℕ → Outcome (Option LoggedTrace × List LoggedTrace)
  unfolding pick_trace
  query_trace_by_id log id = do
    (all, status) ← query_load_all_status host log
    ok (pick_trace id none all)

  -- The traces that are returned, and those that are freed. `limit` is not negative.
  unfoldable pub query_slowest_traces :
      (List LoggedTrace → List LoggedTrace)
      → List ℕ
      → ℕ
      → Outcome (List LoggedTrace × List LoggedTrace)
  query_slowest_traces qsort log limit = do
    fail_if (limit == 0)
    (all, status) ← query_load_all_status host log
    fail_if (is_empty_array all)
    let sorted = qsort all
    let total = length all
    let result_count = if ltb total limit then total else limit
    ok (take result_count sorted, drop result_count sorted)
