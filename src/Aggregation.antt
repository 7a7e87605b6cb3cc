-- ===== src/Aggregation.antt =====
-- src/analysis/aggregation.c: the spans of all traces grouped by name, with the durations of each
-- group. Durations are converted to `double` by a parameter; allocations succeed.
pub mod Groups
pub mod Visit
pub mod Collect
pub mod Reference
pub mod Filled
pub mod Statistics
pub mod Extremes
use mathlib.Core.Option
use dapper_lite.Prelude.{
  ℕ, zero, suc, ◌+◌, ◌*◌, Bool, true, false, ◌&&◌, Option, none, some, List, [], ◌∷◌, ◌++◌, leb,
  ltb, ◌==◌, if◌then◌else◌, length, replicate,
}
use dapper_lite.Prelude.Outcome.{Outcome, ok, failed, fault}
use dapper_lite.Core.{Span, span_name_max_length}
use dapper_lite.Core.Strings.{c_str, safe_strncpy}
use dapper_lite.CriticalPath.{SpanTree, span_duration_us, span_tree_walk_preorder}
use dapper_lite.Sampler.{same_string}

abbrev pub max_groups : ℕ
max_groups = 256

abbrev pub max_samples : ℕ
max_samples = 65536

-- `count` is the length of `latencies`, which have room for `capacity`.
pub record Group (Double : Type 0) : Type 0 where
  pub name : List ℕ
  pub latencies : List Double
  pub capacity : ℕ

-- The index of the first group with the name. The groups are `groups[0]`, ...,
-- `groups[num_groups - 1]`.
unfoldable pub find_group : {D : Type 0} → List (Group D) → List ℕ → Option ℕ
find_group [] name = none
find_group (g ∷ groups) name =
    let rest = Option.map suc (find_group groups name) in
    if same_string (c_str g.name) (c_str name) then some 0 else rest

abbrev pub new_group : {D : Type 0} → List ℕ → Group D
new_group name = record {
  name = safe_strncpy (replicate span_name_max_length 0) (c_str name) span_name_max_length;
  latencies = [];
  capacity = 128;
}

-- `none` stands for -1.
unfoldable pub create_group :
    {D : Type 0} → List (Group D) → List ℕ → Option ℕ → Option ℕ × List (Group D)
create_group groups name (some i) = (some i, groups)
create_group groups name none =
    if leb max_groups (length groups)
    then (none, groups)
    else (some (length groups), groups ++ (new_group name ∷ []))

unfoldable pub find_or_create_group :
    {D : Type 0} → List (Group D) → List ℕ → Option ℕ × List (Group D)
unfolding find_group create_group
find_or_create_group groups name = create_group groups name (find_group groups name)

unfoldable pub add_sample : {D : Type 0} → Group D → D → Outcome (Group D)
add_sample g latency_us =
    let grown = if ltb max_samples (g.capacity * 2) then max_samples else g.capacity * 2 in
    if leb g.capacity (length g.latencies)
    then if leb max_samples g.capacity
      then failed
      else ok (record g { latencies = g.latencies ++ (latency_us ∷ []); capacity = grown })
    else ok (record g { latencies = g.latencies ++ (latency_us ∷ []) })

-- The group after a call of `add_sample` whose result is not looked at.
unfoldable pub with_sample : {D : Type 0} → D → Group D → Group D
unfolding add_sample
with_sample latency_us g = elim (add_sample g latency_us) [ ok g' ↦ g' | failed ↦ g | fault ↦ g ]

-- An assignment to `groups[i]`.
abbrev pub alter : {A : Type 0} → List A → ℕ → (A → A) → List A
alter [] i f = []
alter (x ∷ xs) zero f = f x ∷ xs
alter (x ∷ xs) (suc i) f = x ∷ alter xs i f

module _ {D : Type 0} (to_double : ℕ → D) where
  unfoldable pub add_to : Option ℕ × List (Group D) → Span → List (Group D)
  unfolding with_sample
  add_to (none, groups) span = groups
  add_to (some i, groups) span = alter groups i (with_sample (to_double (span_duration_us span)))

  unfoldable pub collect_span_visit : List (Group D) → Span → List (Group D)
  unfolding find_or_create_group add_to
  collect_span_visit groups span = add_to (find_or_create_group groups span.name) span

  unfoldable pub collect_spans : List (Group D) → List Span → List (Group D)
  unfolding collect_span_visit
  collect_spans groups [] = groups
  collect_spans groups (span ∷ spans) = collect_spans (collect_span_visit groups span) spans

  -- The first loop of `aggregate_by_service`, over the trees of the traces.
  unfoldable pub collect_traces : List (Group D) → List SpanTree → List (Group D)
  unfolding collect_spans
  collect_traces groups [] = groups
  collect_traces groups (root ∷ traces) =
      collect_traces (collect_spans groups (span_tree_walk_preorder root)) traces
