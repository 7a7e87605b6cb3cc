-- ===== src/Hierarchy.antt =====
-- src/core/span.c (span_create), src/core/trace.c, span_create_from_context, and the hierarchy of src/analysis/query.c. Spans
-- lie in a heap: the list of all spans that were allocated, where an address is an index. A read or
-- write at another address is a fault. Allocations succeed.
pub mod Chains
pub mod Siblings
pub mod Children
pub mod Linking
pub mod Ownership
pub mod Numbers
pub mod Stages
pub mod Rounds
pub mod Rebuild
pub mod Forest
pub mod Create
pub mod Destroy
pub mod Remote
use dapper_lite.Prelude.{
  ℕ, zero, suc, ◌+◌, ◌*◌, ◌/◌, ◌%◌, ◌^◌, Bool, true, false, Option, none, some, List, [], ◌∷◌, ◌++◌,
  ltb, ◌==◌, ◌||◌, if◌then◌else◌, length, get_elem?,
}
use dapper_lite.Prelude.Outcome.{Outcome, ok, failed, fault, ◌>>=◌, ◌>>◌}
use dapper_lite.Core.{Span, SpanPtr, zeroed_span, span_name_max_length}
use dapper_lite.Core.Strings.{safe_strncpy}
use dapper_lite.Collector.{Time}
use dapper_lite.Context.{TraceContext}

abbrev pub Heap : Type 0
Heap = List Span

-- `sample_rate` and `sampling_reason` are left to the sampler.
pub record Trace : Type 0 where
  pub id : ℕ
  pub root_span : SpanPtr
  pub all_spans : SpanPtr
  pub sampled : Bool

unfoldable pub load : Heap → ℕ → Outcome Span
load heap p = elim (get_elem? heap p) [ none ↦ fault | some s ↦ ok s ]

abbrev pub modify : Heap → ℕ → (Span → Span) → Heap
modify [] p f = []
modify (s ∷ heap) zero f = f s ∷ heap
modify (s ∷ heap) (suc p) f = s ∷ modify heap p f

-- A test of a pointer against NULL.
abbrev pub if_null : {A : Type 0} → SpanPtr → A → (ℕ → A) → A
if_null none null_case other = null_case
if_null (some p) null_case other = other p

-- Assignments to fields of the span at `p`.
unfoldable pub update : Heap → ℕ → (Span → Span) → Outcome Heap
update heap p f = if ltb p (length heap) then ok (modify heap p f) else fault

-- `while (last->next_sibling) last = last->next_sibling; last->next_sibling = child;`. `failed`
-- means that the fuel ran out.
unfoldable pub append_sibling : ℕ → Heap → ℕ → ℕ → Outcome Heap
unfolding load update
append_sibling zero heap last child = failed
append_sibling (suc fuel) heap last child = load heap last >>= λ s.
    if_null s.next_sibling (update heap last (λ t. record t { next_sibling = some child }))
      (λ next. append_sibling fuel heap next child)

-- The child is appended to the parent's list. The list has fewer spans than the heap.
unfoldable pub link_child : Heap → ℕ → ℕ → Outcome Heap
unfolding load update
link_child heap parent child = load heap parent >>= λ p.
    if_null p.first_child (update heap parent (λ t. record t { first_child = some child }))
      (λ first. append_sibling (length heap) heap first child)

-- `g_next_span_id` and the heap are shared by all traces.
pub record World : Type 0 where
  pub heap : Heap
  pub next_span_id : ℕ

unfoldable pub parent_id : Heap → SpanPtr → Outcome ℕ
unfolding load
parent_id heap none = ok 0
parent_id heap (some p) = load heap p >>= λ s. ok s.span_id

abbrev pub wall_us : Time → ℕ
wall_us t = (t.sec * 1000000 + t.nsec / 1000) % 2 ^ 64

abbrev pub new_span : World → Trace → SpanPtr → ℕ → List ℕ → ℕ → Time → Span
new_span w trace parent pid name start wall = record zeroed_span {
  trace_id = trace.id;
  span_id = w.next_span_id;
  parent_span_id = pid;
  name = safe_strncpy zeroed_span.name name span_name_max_length;
  sampled = trace.sampled;
  monotonic_start_ns = start;
  wall_start_us = wall_us wall;
  parent = parent;
  owner_next = trace.all_spans;
}

-- The last `if`: the parent's list, or the root of the trace if it has none.
unfoldable pub place : Heap → Trace → SpanPtr → ℕ → Outcome (Heap × Trace)
place heap trace (some p) span = link_child heap p span >>= λ heap'. ok (heap', trace)
place heap trace none span =
    if_null trace.root_span (ok (heap, record trace { root_span = some span }))
      (λ r. ok (heap, trace))

-- `start` and `wall` are the readings of the two clocks. The results are the address of the span,
-- and what the call leaves.
unfoldable pub span_create :
    World → Trace → SpanPtr → List ℕ → ℕ → Time → Outcome (ℕ × World × Trace)
unfolding parent_id place
span_create w trace parent name start wall = do
  pid ← parent_id w.heap parent
  let span = length w.heap
  let heap = w.heap ++ (new_span w trace parent pid name start wall ∷ [])
  (heap', trace') ← place heap (record trace { all_spans = some span }) parent span
  ok (span, record { heap = heap'; next_span_id = (w.next_span_id + 1) % 2 ^ 64 }, trace')

-- src/core/context.c: a span whose parent is in another process.
unfoldable pub span_create_from_context :
    World → Trace → TraceContext → List ℕ → ℕ → Time → Outcome (ℕ × World × Trace)
unfolding span_create update
span_create_from_context w trace ctx name start wall = do
  (span, w', trace') ←
      span_create w (record trace { id = ctx.trace_id; sampled = ctx.sampled }) none name start wall
  heap ← update w'.heap span (λ s. record s { parent_span_id = ctx.span_id })
  ok (span, record w' { heap = heap }, trace')

unfoldable pub trace_create_with_id : ℕ → Trace
trace_create_with_id id = record { id = id; root_span = none; all_spans = none; sampled = true }

abbrev pub member : ℕ → List ℕ → Bool
member p [] = false
member p (q ∷ qs) = p == q || member p qs

-- The loop of `trace_destroy`: the addresses that it frees, in order. A span that was freed is
-- neither read nor freed again.
unfoldable pub free_spans : ℕ → Heap → List ℕ → SpanPtr → Outcome (List ℕ)
unfolding load
free_spans fuel heap freed none = ok []
free_spans zero heap freed (some p) = failed
free_spans (suc fuel) heap freed (some p) =
    if member p freed
    then fault
    else (load heap p >>= λ s.
        free_spans fuel heap (p ∷ freed) s.owner_next >>= λ rest. ok (p ∷ rest))

unfoldable pub trace_destroy : Heap → Trace → Outcome (List ℕ)
unfolding free_spans
trace_destroy heap trace = free_spans (length heap) heap [] trace.all_spans

-- `find_span_by_id` over `spans[i]`, `spans[i + 1]`, ...
unfoldable pub find_span_from : ℕ → Heap → ℕ → SpanPtr
find_span_from i [] id = none
find_span_from i (s ∷ spans) id =
    if s.span_id == id then some i else find_span_from (suc i) spans id

unfoldable pub find_span_by_id : Heap → ℕ → SpanPtr
unfolding find_span_from
find_span_by_id spans id = find_span_from 0 spans id

-- The first loop of `rebuild_hierarchy`. The spans of the array were allocated for it: the array
-- is the heap, and `spans[i]` is the address `i`.
unfoldable pub take_ownership : ℕ → ℕ → Heap → Trace → Outcome (Heap × Trace)
unfolding update
take_ownership zero i heap trace = ok (heap, trace)
take_ownership (suc rounds) i heap trace = do
  heap ← update heap i (λ s. record s {
    parent = none;
    first_child = none;
    next_sibling = none;
    owner_next = trace.all_spans;
  })
  take_ownership rounds (suc i) heap (record trace { all_spans = some i })

-- A child with the parent that was found for it, if any.
unfoldable pub attach : Heap → ℕ → SpanPtr → Outcome Heap
unfolding update
attach heap i none = ok heap
attach heap i (some p) = do
  heap ← update heap i (λ s. record s { parent = some p })
  link_child heap p i

-- The body of the second loop.
unfoldable pub link_span : Heap → Trace → ℕ → Span → Outcome (Heap × Trace)
unfolding attach
link_span heap trace i s =
    if s.parent_span_id == 0
    then (if_null trace.root_span (ok (heap, record trace { root_span = some i }))
        (λ r. ok (heap, trace)))
    else (attach heap i (find_span_by_id heap s.parent_span_id) >>= λ heap'. ok (heap', trace))

unfoldable pub link_spans : ℕ → ℕ → Heap → Trace → Outcome (Heap × Trace)
unfolding load link_span
link_spans zero i heap trace = ok (heap, trace)
link_spans (suc rounds) i heap trace =
    load heap i >>= λ s. link_span heap trace i s >>= λ r. link_spans rounds (suc i) r.0 r.1

unfoldable pub rebuild_hierarchy : Heap → Trace → Outcome (Heap × Trace)
unfolding take_ownership link_spans
rebuild_hierarchy spans trace = do
  (heap, trace) ← take_ownership (length spans) 0 spans (record trace { root_span = none })
  link_spans (length spans) 0 heap trace
