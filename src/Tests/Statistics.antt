-- ===== src/Tests/Statistics.antt =====
-- The statistics of a small trace, in hundredths.
use mathlib.Core.List.Perm
use dapper_lite.Prelude.{
  ℕ, ◌*◌, ◌/◌, ◌+◌, ◌-◌, ◌<◌, ◌≡◌, ◌≢◌, refl, List, [], ◌∷◌, arith, ltb, length, All,
}
use dapper_lite.Prelude.Outcome.{ok}
use dapper_lite.CriticalPath.{SpanTree, null, node, span_duration_us, span_tree_walk_preorder}
use dapper_lite.Aggregation.{collect_traces, collect_spans}
use dapper_lite.Core.Strings.{c_str, c_array, safe_strncpy}
use dapper_lite.Storage.Queries.{same, positive}
use dapper_lite.Aggregation.Statistics.{
  Doubles, ServiceStats, HasRanks, IsAsymmetric, IsQsort, aggregate_by_service, cmp_double,
}
use dapper_lite.Aggregation.Extremes.{Summaries, aggregate_by_service-Summaries}
use dapper_lite.Tests.Data.{root_span, child_span}

abbrev hundredths : Doubles
hundredths = record {
  Double = ℕ;
  of_int = λ n. n * 100;
  to_int = λ d. d / 100;
  less = ltb;
  plus = λ a b. a + b;
  minus = λ a b. a - b;
  times = λ a b. a * b / 100;
  over = λ a b. a * 100 / b;
}

hundredths-HasRanks : HasRanks hundredths
hundredths-HasRanks = record { median = λ n. omega arith; high = λ n. omega arith }

hundredths-IsAsymmetric : IsAsymmetric hundredths
hundredths-IsAsymmetric = record { one_way = λ a b h. ground arith }

abbrev trees : List SpanTree
trees = node root_span (node child_span null null) null ∷ []

abbrev already_sorted : List ℕ → List ℕ
already_sorted xs = xs

some_group : 0 < length (collect_traces hundredths.of_int [] trees)
unfolding collect_traces root_span child_span span_tree_walk_preorder collect_spans c_str c_array
    safe_strncpy cmp_double span_duration_us
some_group = omega arith

same_not_positive : same ≢ positive
same_not_positive e = cc

all_sorted :
    All
      (λ g. IsQsort hundredths already_sorted g.latencies)
      (collect_traces hundredths.of_int [] trees)
unfolding collect_traces root_span child_span span_tree_walk_preorder collect_spans c_str c_array
    safe_strncpy cmp_double span_duration_us
all_sorted = (
  record {
    permutes = Perm.refl (400 ∷ 400 ∷ []);
    sorts = ((same_not_positive, tt), (tt, tt));
    same_length = refl;
  },
  tt,
)

aggregate_by_service-Summaries_example :
    (stats : List (ServiceStats ℕ)) × (aggregate_by_service hundredths already_sorted trees
      ≡ ok stats)
    × Summaries hundredths (collect_traces hundredths.of_int [] trees) stats
aggregate_by_service-Summaries_example =
    aggregate_by_service-Summaries hundredths already_sorted trees hundredths-IsAsymmetric
      hundredths-HasRanks (omega arith) some_group all_sorted
