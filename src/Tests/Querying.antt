-- ===== src/Tests/Querying.antt =====
-- The theorems on queries, at a log of two equal traces.
use mathlib.Core.List.Perm
use dapper_lite.Prelude.{ℕ, ◌≡◌, ◌≢◌, refl, false, List, [], ◌∷◌, map, ltb, replicate, arith}
use dapper_lite.Prelude.Outcome.{ok}
use dapper_lite.ByteOrder.{big}
use dapper_lite.Storage.{LoggedTrace, query_load_all_status, read_eof}
use dapper_lite.Storage.RoundTrip.{write_all, logged, query_load_all-write_all}
use dapper_lite.Storage.Queries.{
  positive, IsQsort, trace_root_duration_us, cmp_trace_duration_desc, query_trace_by_id,
  query_slowest_traces,
}
use dapper_lite.Storage.Queries.ById.{last_with, without, query_trace_by_id-write_all}
use dapper_lite.Storage.Queries.Slowest.{Slowest, query_slowest_traces-Slowest}
use dapper_lite.Tests.Data.{two_spans, two_spans-IsStorable}

abbrev zeros : List ℕ
zeros = replicate 256 0

abbrev traces : List LoggedTrace
traces = map logged (two_spans ∷ two_spans ∷ [])

query_trace_by_id-write_all_example :
    (log : List ℕ) × (write_all big zeros [] (two_spans ∷ two_spans ∷ []) ≡ ok log)
    × (query_trace_by_id big log 7 ≡ ok (last_with 7 traces, without 7 traces))
query_trace_by_id-write_all_example =
    query_trace_by_id-write_all big zeros (two_spans ∷ two_spans ∷ []) 7 (omega arith)
      (two_spans-IsStorable, (two_spans-IsStorable, tt))

stored_twice :
    (log : List ℕ) × (write_all big zeros [] (two_spans ∷ two_spans ∷ []) ≡ ok log)
    × (query_load_all_status big log ≡ ok (traces, read_eof))
stored_twice =
    query_load_all-write_all big zeros (two_spans ∷ two_spans ∷ []) (omega arith)
      (two_spans-IsStorable, (two_spans-IsStorable, tt))

cmp_self : (t : LoggedTrace) → cmp_trace_duration_desc t t ≢ positive
unfolding cmp_trace_duration_desc
cmp_self t =
    let d = trace_root_duration_us t in let e : ltb d d ≡ false = ground arith in rw e (λ h. cc)

-- Equal traces are in order as they are.
abbrev leave : List LoggedTrace → List LoggedTrace
leave all = all

leave-IsQsort : IsQsort leave traces
leave-IsQsort = record {
  permutes = Perm.refl traces;
  sorts = ((cmp_self (logged two_spans), tt), (tt, tt));
  same_length = refl;
}

query_slowest_traces-Slowest_example :
    (result : List LoggedTrace) × (freed : List LoggedTrace) × (query_slowest_traces big leave
        stored_twice.0 1
      ≡ ok (result, freed))
    × Slowest traces 1 result freed
query_slowest_traces-Slowest_example =
    query_slowest_traces-Slowest big leave stored_twice.0 1 traces read_eof leave-IsQsort
      stored_twice.2 (omega arith) (omega arith)
