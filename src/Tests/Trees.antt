-- ===== src/Tests/Trees.antt =====
-- The theorems on traces and trees of spans, at two spans.
use dapper_lite.Prelude.{replicate, ◌≡◌, refl, none, some, true, [], ◌∷◌, arith}
use dapper_lite.Prelude.Outcome.{ok, ◌>>=◌}
use dapper_lite.Hierarchy.{
  Heap, Trace, World, trace_create_with_id, rebuild_hierarchy, trace_destroy, span_create,
  span_create_from_context,
}
use dapper_lite.Hierarchy.Children.{children_below}
use dapper_lite.Hierarchy.Ownership.{down_from}
use dapper_lite.Hierarchy.Forest.{IsForest, parent_in}
use dapper_lite.Hierarchy.Create.{Created, span_create-Created}
use dapper_lite.Hierarchy.Destroy.{trace_destroy-owned, trace_destroy-rebuild_hierarchy}
use dapper_lite.Hierarchy.Remote.{Continues, span_create_from_context-context_inject}
use dapper_lite.Context.{context_inject, context_extract}
use dapper_lite.ByteOrder.{little, big}
use dapper_lite.Tests.Data.{noon, root_span, child_span, root_span-IsSpan}

-- The child stands before its parent.
abbrev pair : Heap
pair = child_span ∷ root_span ∷ []

trace_destroy-rebuild_hierarchy_example :
    (rebuild_hierarchy pair (trace_create_with_id 7) >>= λ r. trace_destroy r.0 r.1)
    ≡ ok (down_from 2)
unfolding trace_create_with_id
trace_destroy-rebuild_hierarchy_example =
    trace_destroy-rebuild_hierarchy pair (trace_create_with_id 7) refl

abbrev one : World
one = record { heap = root_span ∷ []; next_span_id = 2 }

abbrev owner : Trace
owner = record { id = 7; root_span = some 0; all_spans = some 0; sampled = true }

one-IsForest : IsForest one.heap
unfolding root_span children_below parent_in
one-IsForest = record { children = ((none, refl, refl), tt); parents = (tt, tt) }

span_create-Created_example :
    (w' : World) × (trace' : Trace) × (span_create one owner (some 0) (103 ∷ []) 6000 noon
      ≡ ok (1, w', trace'))
    × Created one.heap w'.heap (some 0) trace' (0 ∷ [])
unfolding root_span
span_create-Created_example =
    span_create-Created one owner (some 0) (103 ∷ []) 6000 noon (0 ∷ []) one-IsForest (omega arith)
      (refl, none, refl, refl)

abbrev owned_pair : Heap
owned_pair = root_span ∷ record child_span { owner_next = some 0 } ∷ []

trace_destroy-owned_example :
    trace_destroy owned_pair (record owner { all_spans = some 1 }) ≡ ok (1 ∷ 0 ∷ [])
unfolding root_span child_span
trace_destroy-owned_example =
    trace_destroy-owned owned_pair (record owner { all_spans = some 1 }) (1 ∷ 0 ∷ [])
      (refl, some 0, refl, (refl, none, refl, refl)) (omega arith, (omega arith, tt))

span_create_from_context-context_inject_example :
    (w' : World) × (trace' : Trace) × (((context_inject little root_span (replicate 20 0) 20
          >>= λ b. context_extract big b 20)
        >>= λ c. span_create_from_context one owner c (103 ∷ []) 6000 noon)
      ≡ ok (1, w', trace'))
    × Continues w'.heap 1 root_span
    × (trace'.id ≡ root_span.trace_id)
span_create_from_context-context_inject_example =
    span_create_from_context-context_inject little big root_span (replicate 20 0) 20 one owner
      (103 ∷ []) 6000 noon root_span-IsSpan.trace_id_fits root_span-IsSpan.span_id_fits
      (omega arith) (omega arith)
