-- ===== src/CriticalPath.antt =====
-- src/analysis/critical_path.c and span_walk.h: the walks over a reconstructed span tree.
-- A tree is followed by its two pointers: a node with its `first_child` and its `next_sibling`,
-- or NULL.
pub mod Laws
use dapper_lite.Prelude.{
  ℕ, zero, suc, ◌+◌, ◌-◌, ◌/◌, ◌%◌, ◌^◌, Option, none, some, List, [], ◌∷◌, ◌++◌, ltb,
  if◌then◌else◌, Bool, true, false,
}
use dapper_lite.Core.{Span}

pub data SpanTree : Type 0 where
  null : SpanTree
  node : Span → SpanTree → SpanTree → SpanTree

-- `uint64_t` subtraction wraps.
unfoldable pub span_duration_us : Span → ℕ
span_duration_us span = (span.monotonic_end_ns + 2 ^ 64 - span.monotonic_start_ns) % 2 ^ 64 / 1000

-- `span_tree_walk_preorder` with a visitor that appends to an array: the visits in order. The
-- second clause is the loop over the children; `walk_siblings t` starts at the child `t`.
unfoldable pub walk_siblings : SpanTree → List Span
walk_siblings null = []
walk_siblings (node span first_child next_sibling) =
    (span ∷ walk_siblings first_child) ++ walk_siblings next_sibling

unfoldable pub span_tree_walk_preorder : SpanTree → List Span
unfolding walk_siblings
span_tree_walk_preorder null = []
span_tree_walk_preorder (node span first_child next_sibling) = span ∷ walk_siblings first_child

-- The loop that takes the maximum over the children, with `max_child_depth` so far.
unfoldable pub max_child_depth : ℕ → SpanTree → ℕ
max_child_depth best null = best
max_child_depth best (node span first_child next_sibling) =
    let d = 1 + max_child_depth 0 first_child in
    max_child_depth (if ltb best d then d else best) next_sibling

unfoldable pub critical_path_depth : SpanTree → ℕ
unfolding max_child_depth
critical_path_depth null = 0
critical_path_depth (node span first_child next_sibling) = 1 + max_child_depth 0 first_child

-- The loop of `find_critical_child`: `critical` so far, with `max_duration` its duration.
unfoldable pub critical_among : SpanTree → SpanTree → SpanTree
critical_among critical null = critical
critical_among null (node span first_child next_sibling) =
    critical_among (node span first_child next_sibling) next_sibling
critical_among (node best c n) (node span first_child next_sibling) =
    critical_among
      (if ltb (span_duration_us best) (span_duration_us span)
        then node span first_child next_sibling
        else node best c n)
      next_sibling

unfoldable pub find_critical_child : SpanTree → SpanTree
unfolding critical_among
find_critical_child null = null
find_critical_child (node span first_child next_sibling) = critical_among null first_child

-- The loop that fills the path: `room` is `depth - idx`.
unfoldable pub path_from : ℕ → SpanTree → List Span
path_from zero current = []
path_from (suc room) null = []
path_from (suc room) (node span c n) = span ∷ path_from room (find_critical_child (node span c n))

unfoldable pub compute_critical_path : SpanTree → List Span
unfolding path_from
compute_critical_path root = path_from (critical_path_depth root) root

unfoldable pub critical_path_duration_us : SpanTree → ℕ
unfolding span_duration_us
critical_path_duration_us null = 0
critical_path_duration_us (node span c n) = span_duration_us span
