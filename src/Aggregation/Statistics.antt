-- ===== src/Aggregation/Statistics.antt =====
-- src/analysis/aggregation.c: the statistics of a group and `aggregate_by_service`. The arithmetic
-- of `double` and `qsort` are parameters.
use mathlib.Core.List.{Perm}
use dapper_lite.Prelude.{
  ℕ, ◌+◌, ◌-◌, ◌≤◌, ◌≡◌, ◌≢◌, Bool, true, false, none, some, List, [], ◌∷◌, leb, ◌==◌,
  if◌then◌else◌, length, get_elem?, replicate, All,
}
use dapper_lite.Prelude.Outcome.{Outcome, ok, fault, ◌>>=◌, ◌>>◌, fail_if}
use dapper_lite.Core.{span_name_max_length}
use dapper_lite.Core.Strings.{c_str, safe_strncpy}
use dapper_lite.CriticalPath.{SpanTree}
use dapper_lite.Storage.Queries.{Sign, negative, same, positive}
use dapper_lite.Aggregation.{Group, collect_traces}

-- `double`, with the conversions from and to an integer.
pub record Doubles : Type 1 where
  pub Double : Type 0
  pub of_int : ℕ → Double
  pub to_int : Double → ℕ
  pub less : Double → Double → Bool
  pub plus : Double → Double → Double
  pub minus : Double → Double → Double
  pub times : Double → Double → Double
  pub over : Double → Double → Double

pub record ServiceStats (Double : Type 0) : Type 0 where
  pub name : List ℕ
  pub count : ℕ
  pub mean_latency_us : Double
  pub p50_latency_us : Double
  pub p99_latency_us : Double
  pub min_latency_us : Double
  pub max_latency_us : Double

-- An element of an array, or a read outside of it.
abbrev pub read_at : {A : Type 0} → List A → ℕ → Outcome A
read_at xs i = elim (get_elem? xs i) [ none ↦ fault | some x ↦ ok x ]

module _ (D : Doubles) where
  unfoldable pub cmp_double : D.Double → D.Double → Sign
  cmp_double da db = if D.less da db then negative else if D.less db da then positive else same

  -- `pct / 100.0 * (count - 1)`
  abbrev pub rank_of : ℕ → ℕ → D.Double
  rank_of pct count = D.times (D.over (D.of_int pct) (D.of_int 100)) (D.of_int (count - 1))

  unfoldable pub percentile : List D.Double → ℕ → ℕ → Outcome D.Double
  percentile sorted count pct =
      let rank = rank_of pct count in
      let lo = D.to_int rank in
      let hi = if leb count (lo + 1) then count - 1 else (lo + 1) in
      let between = do
        low ← read_at sorted lo
        high ← read_at sorted hi
        ok (D.plus low (D.times (D.minus rank (D.of_int lo)) (D.minus high low)))
      in if count == 0 then ok (D.of_int 0) else if count == 1 then read_at sorted 0 else between

  unfoldable pub sum_from : D.Double → List D.Double → D.Double
  sum_from sum [] = sum
  sum_from sum (latency ∷ latencies) = sum_from (D.plus sum latency) latencies

  module _ (qsort : List D.Double → List D.Double) where
    abbrev pub zero_stats : Group D.Double → ServiceStats D.Double
    zero_stats g = record {
      name = safe_strncpy (replicate span_name_max_length 0) (c_str g.name) span_name_max_length;
      count = length g.latencies;
      mean_latency_us = D.of_int 0;
      p50_latency_us = D.of_int 0;
      p99_latency_us = D.of_int 0;
      min_latency_us = D.of_int 0;
      max_latency_us = D.of_int 0;
    }

    -- The body of the loop over the groups.
    unfoldable pub group_stats : Group D.Double → Outcome (ServiceStats D.Double)
    group_stats g =
        let count = length g.latencies in
        let sorted = qsort g.latencies in
        let filled = do
          p50 ← percentile sorted count 50
          p99 ← percentile sorted count 99
          first ← read_at sorted 0
          last ← read_at sorted (count - 1)
          ok (record (zero_stats g) {
            mean_latency_us = D.over (sum_from (D.of_int 0) sorted) (D.of_int count);
            p50_latency_us = p50;
            p99_latency_us = p99;
            min_latency_us = first;
            max_latency_us = last;
          })
        in if count == 0 then ok (zero_stats g) else filled

    unfoldable pub all_stats : List (Group D.Double) → Outcome (List (ServiceStats D.Double))
    unfolding group_stats
    all_stats [] = ok []
    all_stats (g ∷ groups) = do s ← group_stats g; stats ← all_stats groups; ok (s ∷ stats)

    -- `failed` stands for NULL.
    unfoldable pub aggregate_by_service : List SpanTree → Outcome (List (ServiceStats D.Double))
    unfolding all_stats collect_traces
    aggregate_by_service traces = do
      fail_if (length traces == 0)
      let groups = collect_traces D.of_int [] traces
      fail_if (length groups == 0)
      all_stats groups

  abbrev pub Ordered : List D.Double → Type 0
  Ordered [] = Unit {0}
  Ordered (x ∷ xs) = All (λ y. cmp_double x y ≢ positive) xs × Ordered xs

  -- What C says of `qsort` with `cmp_double`, of an array.
  pub record IsQsort (qsort : List D.Double → List D.Double) (xs : List D.Double) : Type 0 where
    pub permutes : Perm (qsort xs) xs
    pub sorts : Ordered (qsort xs)
    pub same_length : length (qsort xs) ≡ length xs

  -- What `<` on doubles promises: it does not hold both ways.
  pub record IsAsymmetric : Type 0 where
    pub one_way : (a b : D.Double) → D.less a b ≡ true → D.less b a ≡ false

  -- The products 50.0 / 100.0 * n and 99.0 / 100.0 * n do not exceed `n`, when they are cut to an
  -- integer.
  pub record HasRanks : Type 0 where
    pub median : (n : ℕ) → D.to_int (D.times (D.over (D.of_int 50) (D.of_int 100)) (D.of_int n)) ≤ n
    pub high : (n : ℕ) → D.to_int (D.times (D.over (D.of_int 99) (D.of_int 100)) (D.of_int n)) ≤ n
