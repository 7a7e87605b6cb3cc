-- ===== src/Storage/Queries/Slowest.antt =====
-- A query by duration gives the slowest traces.
use mathlib.Core.List.{Perm}
use dapper_lite.Prelude.{
  ℕ, zero, suc, ◌/◌, ◌<◌, ◌≤◌, ◌≡◌, ◌≢◌, min, none, some, refl, inl, inr, false, Bool-cases, List,
  [], ◌∷◌, ◌++◌, ltb, ◌==◌, if◌then◌else◌, length, take, drop, All, arith, take-append-drop,
  length-take,
}
use dapper_lite.Prelude.Outcome.{ok}
use dapper_lite.Core.{Span}
use dapper_lite.ByteOrder.{Host}
use dapper_lite.Storage.{LoggedTrace, Status, query_load_all_status}
use dapper_lite.Storage.Queries.{
  positive, root_of, trace_root_duration_us, cmp_trace_duration_desc, Ordered, IsQsort,
  query_slowest_traces,
}

-- The spans without a parent.
unfoldable pub roots : List Span → List Span
roots [] = []
roots (s ∷ spans) = let later = roots spans in if s.parent_span_id == 0 then (s ∷ later) else later

unfoldable microseconds_to_end : List Span → ℕ
microseconds_to_end [] = 0
microseconds_to_end (root ∷ others) = root.monotonic_end_ns / 1000

-- The duration of a trace: that of its first span without a parent, in whole microseconds, and 0
-- when every span has a parent. (Spans of a log start at 0.)
unfoldable pub duration_of : LoggedTrace → ℕ
unfolding roots microseconds_to_end
duration_of t = microseconds_to_end (roots t.spans)

root_of_lem :
    (spans : List Span)
    → (elim (root_of spans) [ none ↦ 0 | some root ↦ root.monotonic_end_ns / 1000 ])
      ≡ microseconds_to_end (roots spans)
unfolding roots microseconds_to_end
root_of_lem [] = refl
root_of_lem (s ∷ spans) = elim (Bool-cases (s.parent_span_id == 0)) [
  | inl e ↦ rw e refl
  | inr e ↦ rw e (root_of_lem spans)
]

trace_root_duration_us_lem : (t : LoggedTrace) → trace_root_duration_us t ≡ duration_of t
unfolding trace_root_duration_us duration_of
trace_root_duration_us_lem t = root_of_lem t.spans

cmp_lem :
    (t u : LoggedTrace) → cmp_trace_duration_desc t u ≢ positive → duration_of u ≤ duration_of t
unfolding cmp_trace_duration_desc
cmp_lem t u h =
    let e = trace_root_duration_us_lem t in
    let f = trace_root_duration_us_lem u in
    elim (Bool-cases (ltb (trace_root_duration_us t) (trace_root_duration_us u))) [
      | inl up ↦
          let down : ltb (trace_root_duration_us u) (trace_root_duration_us t) ≡ false =
            ground (arith, up) in
          absurd (h (rw (down, up) refl))
      | inr stay ↦ ground (arith, stay, e, f)
    ]

-- None of the traces is slower than `t`, or none is faster than `u`.
abbrev pub NoneSlower : LoggedTrace → List LoggedTrace → Type 0
NoneSlower t traces = All (λ u. duration_of u ≤ duration_of t) traces

abbrev pub NoneFaster : LoggedTrace → List LoggedTrace → Type 0
NoneFaster u traces = All (λ t. duration_of u ≤ duration_of t) traces

abbrev pub Descending : List LoggedTrace → Type 0
Descending [] = Unit {0}
Descending (t ∷ traces) = NoneSlower t traces × Descending traces

none_slower :
    (t : LoggedTrace) (traces : List LoggedTrace)
    → All (λ u. cmp_trace_duration_desc t u ≢ positive) traces
    → NoneSlower t traces
none_slower t [] h = tt
none_slower t (u ∷ traces) h = (cmp_lem t u h.0, none_slower t traces h.1)

Ordered-Descending : (traces : List LoggedTrace) → Ordered traces → Descending traces
Ordered-Descending [] h = tt
Ordered-Descending (t ∷ traces) h = (none_slower t traces h.0, Ordered-Descending traces h.1)

module _ (P : LoggedTrace → Type 0) where
  All-take : (n : ℕ) (xs : List LoggedTrace) → All P xs → All P (take n xs)
  All-take zero xs a = tt
  All-take (suc n) [] a = tt
  All-take (suc n) (x ∷ xs) a = (a.0, All-take n xs a.1)

  All-drop : (n : ℕ) (xs : List LoggedTrace) → All P xs → All P (drop n xs)
  All-drop zero xs a = a
  All-drop (suc n) [] a = tt
  All-drop (suc n) (x ∷ xs) a = All-drop n xs a.1

  All-always : (xs : List LoggedTrace) → ((x : LoggedTrace) → P x) → All P xs
  All-always [] f = tt
  All-always (x ∷ xs) f = (f x, All-always xs f)

none_faster :
    (t : LoggedTrace) (first rest : List LoggedTrace)
    → NoneSlower t rest
    → All (λ u. NoneFaster u first) rest
    → All (λ u. NoneFaster u (t ∷ first)) rest
none_faster t first [] a b = tt
none_faster t first (u ∷ rest) a b = ((a.0, b.0), none_faster t first rest a.1 b.1)

Descending-split :
    (n : ℕ) (traces : List LoggedTrace)
    → Descending traces
    → Descending (take n traces) × All (λ u. NoneFaster u (take n traces)) (drop n traces)
Descending-split zero traces h = (tt, All-always (λ u. NoneFaster u []) traces (λ u. tt))
Descending-split (suc n) [] h = (tt, tt)
Descending-split (suc n) (t ∷ traces) h =
    let slower : LoggedTrace → Type 0 = λ u. duration_of u ≤ duration_of t in
    let (first, rest) = Descending-split n traces h.1 in
    (
      (All-take slower n traces h.0, first),
      none_faster t (take n traces) (drop n traces) (All-drop slower n traces h.0) rest,
    )

-- What `query_slowest_traces` returns, and what it frees, of all traces of the log.
pub record Slowest (all : List LoggedTrace) (limit : ℕ) (result freed : List LoggedTrace)
    : Type 0 where
  pub size : length result ≡ min limit (length all)
  pub nothing_lost : Perm (result ++ freed) all
  pub slowest_first : Descending result
  pub others_below : All (λ u. NoneFaster u result) freed

-- If a log can be read and holds a trace, and `qsort` sorts its traces by the code's comparison,
-- `query_slowest_traces` with a positive limit returns as many traces as the limit allows, slowest
-- first, and frees the others, none of which is slower than one that is returned. The duration of a
-- trace is that of its first span without a parent; a trace whose spans all have a parent counts
-- with duration 0, and is not skipped.
pub query_slowest_traces-Slowest :
    (host : Host) (qsort : List LoggedTrace → List LoggedTrace) (log : List ℕ) (limit : ℕ)
    (all : List LoggedTrace) (status : Status)
    → IsQsort qsort all
    → query_load_all_status host log ≡ ok (all, status)
    → 0 < limit
    → 0 < length all
    → (result : List LoggedTrace) × (freed : List LoggedTrace) × (query_slowest_traces host qsort
          log limit
        ≡ ok (result, freed))
      × Slowest all limit result freed
unfolding query_slowest_traces
query_slowest_traces-Slowest host qsort log limit [] status laws read pos some_trace =
    absurd (omega (arith, some_trace))
query_slowest_traces-Slowest host qsort log limit (t ∷ rest) status laws read pos some_trace =
    let all = t ∷ rest in
    let positive_limit : (limit == 0) ≡ false = ground (arith, pos) in
    let n = if ltb (length all) limit then length all else limit in
    let sorted = qsort all in
    let (first, others) = Descending-split n sorted (Ordered-Descending sorted laws.sorts) in
    (
      take n sorted,
      drop n sorted,
      rw (positive_limit, read) refl,
      record {
        size = ground (arith, length-take {A = LoggedTrace} n sorted, laws.same_length);
        nothing_lost = rw (take-append-drop n sorted) (laws.permutes);
        slowest_first = first;
        others_below = others;
      },
    )
