-- ===== src/Aggregation/Extremes.antt =====
-- `aggregate_by_service` of src/analysis/aggregation.c stays inside its arrays, and what it says
-- of a group.
use mathlib.Core.List.{Perm}
use dapper_lite.Prelude.{
  ℕ, zero, suc, ◌+◌, ◌-◌, ◌≤◌, ◌<◌, ◌≡◌, ◌≢◌, refl, sym, ap, inl, inr, false, Bool-cases, List, [],
  ◌∷◌, ◌++◌, leb, ◌==◌, if◌then◌else◌, arith, length, All,
}
use dapper_lite.Prelude.Outcome.{ok}
use dapper_lite.CriticalPath.{SpanTree}
use dapper_lite.Storage.Queries.{positive}
use dapper_lite.Aggregation.{Group, collect_traces}
use dapper_lite.Aggregation.Filled.{IsFilled, collect_traces-IsFilled}
use dapper_lite.Aggregation.Statistics.{
  Doubles, ServiceStats, read_at, cmp_double, percentile, sum_from, group_stats, all_stats,
  zero_stats, aggregate_by_service, Ordered, IsQsort, IsAsymmetric, HasRanks,
}

read_at-lt : {A : Type 0} (xs : List A) (i : ℕ) → i < length xs → (x : A) × (read_at xs i ≡ ok x)
read_at-lt [] i h = absurd (omega arith)
read_at-lt (x ∷ xs) zero h = (x, refl)
read_at-lt (x ∷ xs) (suc i) h = read_at-lt xs i (omega arith)

All-last :
    {A : Type 0} (P : A → Type 0) (init : List A) (last : A) → All P (init ++ (last ∷ [])) → P last
All-last P [] last h = h.0
All-last P (x ∷ init) last h = All-last P init last h.1

module _ (D : Doubles) where
  -- No element of the list is above `x`, or none is below it.
  abbrev pub NoneAbove : D.Double → List D.Double → Type 0
  NoneAbove x xs = All (λ y. D.less x y ≡ false) xs

  abbrev pub NoneBelow : D.Double → List D.Double → Type 0
  NoneBelow x xs = All (λ y. D.less y x ≡ false) xs

  -- What the statistics say of a group: how many durations it has, and that the minimum and the
  -- maximum are durations of the group with none below and none above.
  pub record Summary (g : Group D.Double) (s : ServiceStats D.Double) : Type 0 where
    pub counts : s.count ≡ length g.latencies
    pub others : List D.Double
    pub minimum : Perm (s.min_latency_us ∷ others) g.latencies
    pub none_below : NoneBelow s.min_latency_us others
    pub before : List D.Double
    pub maximum : Perm (before ++ (s.max_latency_us ∷ [])) g.latencies
    pub none_above : NoneAbove s.max_latency_us before

  percentile_total :
      (pct : ℕ) (sorted : List D.Double) (count : ℕ)
      → length sorted ≡ count
      → ((n : ℕ) → D.to_int (D.times (D.over (D.of_int pct) (D.of_int 100)) (D.of_int n)) ≤ n)
      → (p : D.Double) × (percentile D sorted count pct ≡ ok p)
  unfolding percentile
  percentile_total pct sorted count h rank = elim (Bool-cases (count == 0)) [
    | inl none_there ↦ (D.of_int 0, rw none_there refl)
    | inr some_there ↦ elim (Bool-cases (count == 1)) [
      | inl one ↦
          let (x, e) = read_at-lt sorted 0 (ground arith) in (x, rw (some_there, one, e) refl)
      | inr more ↦
          let lo =
            D.to_int (D.times (D.over (D.of_int pct) (D.of_int 100)) (D.of_int (count - 1))) in
          let hi = if leb count (lo + 1) then count - 1 else (lo + 1) in
          let below = rank (count - 1) in
          let (x, e) = read_at-lt sorted lo (ground (arith, below)) in
          let (y, f) = read_at-lt sorted hi (ground (arith, below)) in
          let rank_then = D.times (D.over (D.of_int pct) (D.of_int 100)) (D.of_int (count - 1)) in
          (
            D.plus x (D.times (D.minus rank_then (D.of_int lo)) (D.minus y x)),
            rw (some_there, more, e, f) refl,
          )
    ]
  ]

  -- The last element of an ordered array.
  last_element :
      (x : D.Double) (xs : List D.Double)
      → Ordered D (x ∷ xs)
      → (init : List D.Double) × (last : D.Double) × (x ∷ xs ≡ init ++ (last ∷ []))
        × (read_at (x ∷ xs) (length xs) ≡ ok last)
        × All (λ z. cmp_double D z last ≢ positive) init
  last_element x [] h = ([], x, refl, refl, tt)
  last_element x (y ∷ xs) h =
      let (init, last, e, f, above) = last_element y xs h.1 in
      let all : All (λ z. cmp_double D x z ≢ positive) (init ++ (last ∷ [])) = rw (sym e) (h.0) in
      (
        x ∷ init,
        last,
        ap (λ zs. x ∷ zs) e,
        f,
        (All-last (λ z. cmp_double D x z ≢ positive) init last all, above),
      )

  module _ (asymmetric : IsAsymmetric D) where
    -- What the comparison function does not put in front is not less.
    not_less : (x y : D.Double) → cmp_double D x y ≢ positive → D.less y x ≡ false
    unfolding cmp_double
    not_less x y h = elim (Bool-cases (D.less y x)) [
      | inl e ↦ absurd (h (rw (asymmetric.one_way y x e, e) refl))
      | inr e ↦ e
    ]

    not_below :
        (x : D.Double) (xs : List D.Double)
        → All (λ y. cmp_double D x y ≢ positive) xs
        → NoneBelow x xs
    not_below x [] h = tt
    not_below x (y ∷ xs) h = (not_less x y h.0, not_below x xs h.1)

    not_above :
        (x : D.Double) (xs : List D.Double)
        → All (λ y. cmp_double D y x ≢ positive) xs
        → NoneAbove x xs
    not_above x [] h = tt
    not_above x (y ∷ xs) h = (not_less y x h.0, not_above x xs h.1)

  -- The statistics of each group, in the order of the groups.
  abbrev pub Summaries : List (Group D.Double) → List (ServiceStats D.Double) → Type 0
  Summaries [] [] = Unit {0}
  Summaries (g ∷ groups) (s ∷ stats) = Summary g s × Summaries groups stats
  Summaries _ stats = ⊥

  module _ (qsort : List D.Double → List D.Double) (asymmetric : IsAsymmetric D)
      (ranks : HasRanks D) where
    group_stats-Summary :
        (g : Group D.Double) (sorted : List D.Double)
        → qsort g.latencies ≡ sorted
        → Perm sorted g.latencies
        → Ordered D sorted
        → length sorted ≡ length g.latencies
        → 0 < length g.latencies
        → (s : ServiceStats D.Double) × (group_stats D qsort g ≡ ok s) × Summary g s
    unfolding group_stats
    group_stats-Summary g [] e permutes ordered size filled = absurd (omega (arith, size, filled))
    group_stats-Summary g (x ∷ xs) e permutes ordered size filled =
        let count = length g.latencies in
        let some_there : (count == 0) ≡ false = ground (arith, size) in
        let (p50, e50) = percentile_total 50 (x ∷ xs) count size ranks.median in
        let (p99, e99) = percentile_total 99 (x ∷ xs) count size ranks.high in
        let (init, last, split, read, above) = last_element x xs ordered in
        let index : count - 1 ≡ length xs = omega (arith, size) in
        let last_read : read_at (x ∷ xs) (count - 1) ≡ ok last = rw index read in
        (
          record (zero_stats D qsort g) {
            mean_latency_us = D.over (sum_from D (D.of_int 0) (x ∷ xs)) (D.of_int count);
            p50_latency_us = p50;
            p99_latency_us = p99;
            min_latency_us = x;
            max_latency_us = last;
          },
          rw (e, some_there, e50, e99, last_read) refl,
          record {
            counts = refl;
            others = xs;
            minimum = permutes;
            none_below = not_below asymmetric x xs ordered.0;
            before = init;
            maximum = rw (sym split) permutes;
            none_above = not_above asymmetric last init above;
          },
        )

    all_stats-Summaries :
        (groups : List (Group D.Double))
        → All (λ g. IsQsort D qsort g.latencies) groups
        → All IsFilled groups
        → (stats : List (ServiceStats D.Double)) × (all_stats D qsort groups ≡ ok stats)
          × Summaries groups stats
    unfolding all_stats
    all_stats-Summaries [] h k = ([], refl, tt)
    all_stats-Summaries (g ∷ groups) h k =
        let q = h.0 in
        let (s, e, summary) =
          group_stats-Summary g (qsort g.latencies) refl q.permutes q.sorts q.same_length k.0 in
        let (stats, f, rest) = all_stats-Summaries groups h.1 k.1 in
        (s ∷ stats, rw (e, f) refl, (summary, rest))

-- If a trace is given and a span is found in it, `qsort` sorts the durations of every group by the
-- code's comparison, `<` on doubles never holds both ways and the ranks of the percentiles do not
-- exceed the last index, `aggregate_by_service` stays inside its arrays and returns statistics for
-- each group of the collected spans, in order: the number of its durations, and a minimum and a
-- maximum that are durations of the group, with no other duration `<` the minimum and the maximum
-- `<` no other.
pub aggregate_by_service-Summaries :
    (D : Doubles) (qsort : List D.Double → List D.Double) (traces : List SpanTree)
    → IsAsymmetric D
    → HasRanks D
    → 0 < length traces
    → 0 < length (collect_traces D.of_int [] traces)
    → All (λ g. IsQsort D qsort g.latencies) (collect_traces D.of_int [] traces)
    → (stats : List (ServiceStats D.Double)) × (aggregate_by_service D qsort traces ≡ ok stats)
      × Summaries D (collect_traces D.of_int [] traces) stats
unfolding aggregate_by_service
aggregate_by_service-Summaries D qsort traces asymmetric ranks some_trace some_group h =
    let groups = collect_traces D.of_int [] traces in
    let t : (length traces == 0) ≡ false = ground (arith, some_trace) in
    let n : (length groups == 0) ≡ false = ground (arith, some_group) in
    let filled = collect_traces-IsFilled D.of_int [] traces tt in
    let (stats, e, summaries) = all_stats-Summaries D qsort asymmetric ranks groups h filled in
    (stats, rw (t, n, e) refl, summaries)
