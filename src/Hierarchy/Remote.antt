-- ===== src/Hierarchy/Remote.antt =====
-- A span of one process continues in another.
use mathlib.Core.Option
use dapper_lite.Prelude.{
  ℕ, ◌+◌, ◌%◌, ◌^◌, ◌<◌, ◌≤◌, ◌≡◌, refl, ap, none, some, List, [], ◌∷◌, ◌++◌, arith, length,
  length-append,
}
use dapper_lite.Prelude.Outcome.{Outcome, ok, ◌>>=◌}
use dapper_lite.ByteOrder.{Host}
use dapper_lite.Core.{Span, SpanPtr}
use dapper_lite.Collector.{Time}
use dapper_lite.Context.{TraceContext, context_inject, context_extract}
use dapper_lite.Context.RoundTrip.{context_extract-context_inject}
use dapper_lite.Hierarchy.{
  Heap, Trace, World, if_null, new_span, place, span_create, span_create_from_context,
}
use dapper_lite.Hierarchy.Chains.{field, get-append_last}
use dapper_lite.Hierarchy.Siblings.{update_lem}
use dapper_lite.Hierarchy.Ownership.{modify-append}

-- The span at an address continues `remote`, which is its parent in another process.
pub record Continues (heap : Heap) (i : ℕ) (remote : Span) : Type 0 where
  pub same_trace : field (λ s. s.trace_id) heap i ≡ some remote.trace_id
  pub remote_parent : field (λ s. s.parent_span_id) heap i ≡ some remote.span_id
  pub same_decision : field (λ s. s.sampled) heap i ≡ some remote.sampled
  pub no_local_parent : field (λ s. s.parent) heap i ≡ some none

abbrev placed : Heap → Trace → ℕ → SpanPtr → Outcome (Heap × Trace)
placed heap trace span o =
    if_null o (ok (heap, record trace { root_span = some span; all_spans = some span }))
      (λ r. ok (heap, record trace { all_spans = some span }))

placed_lem :
    (heap : Heap) (trace : Trace) (span : ℕ) (o : SpanPtr)
    → (trace' : Trace) × (placed heap trace span o ≡ ok (heap, trace')) × (trace'.id ≡ trace.id)
placed_lem heap trace span none =
    (record trace { root_span = some span; all_spans = some span }, refl, refl)
placed_lem heap trace span (some r) = (record trace { all_spans = some span }, refl, refl)

module _ (w : World) (trace : Trace) (remote : Span) (name : List ℕ) (start : ℕ) (wall : Time) where
  abbrev ctx : TraceContext
  ctx = record { trace_id = remote.trace_id; span_id = remote.span_id; sampled = remote.sampled }

  abbrev local : Trace
  local = record trace { id = remote.trace_id; sampled = remote.sampled }

  continued :
      (w' : World) × (trace' : Trace) × (span_create_from_context w trace ctx name start wall
        ≡ ok (length w.heap, w', trace'))
      × Continues w'.heap (length w.heap) remote
      × (trace'.id ≡ remote.trace_id)
  unfolding span_create_from_context span_create place
  continued =
      let new = new_span w local none 0 name start wall in
      let grown = w.heap ++ (new ∷ []) in
      let n = length w.heap in
      let (trace', run, id) = placed_lem grown local n trace.root_span in
      let inside : n < length grown = omega (arith, length-append {A = Span} w.heap (new ∷ [])) in
      let assign = λ (s : Span). record s { parent_span_id = remote.span_id } in
      let last = get-append_last w.heap (assign new) in
      (
        record { heap = w.heap ++ (assign new ∷ []); next_span_id = (w.next_span_id + 1) % 2 ^ 64 },
        trace',
        rw (run, update_lem grown n assign inside, modify-append w.heap new [] assign) refl,
        record {
          same_trace = ap (Option.map (λ (s : Span). s.trace_id)) last;
          remote_parent = ap (Option.map (λ (s : Span). s.parent_span_id)) last;
          same_decision = ap (Option.map (λ (s : Span). s.sampled)) last;
          no_local_parent = ap (Option.map (λ (s : Span). s.parent)) last;
        },
        id,
      )

-- A context that is injected from a span in one process, with a buffer of at least 17 bytes, and
-- extracted in another, of the same or of the other byte order, gives a span there that has the
-- trace and the sampling decision of the first, and the first for its parent.
pub span_create_from_context-context_inject :
    (sender receiver : Host) (remote : Span) (buffer : List ℕ) (bufsize : ℕ) (w : World)
    (trace : Trace) (name : List ℕ) (start : ℕ) (wall : Time)
    → remote.trace_id < 2 ^ 64
    → remote.span_id < 2 ^ 64
    → 17 ≤ bufsize
    → bufsize ≤ length buffer
    → (w' : World) × (trace' : Trace) × (((context_inject sender remote buffer bufsize >>= λ b.
            context_extract receiver b bufsize)
          >>= λ c. span_create_from_context w trace c name start wall)
        ≡ ok (length w.heap, w', trace'))
      × Continues w'.heap (length w.heap) remote
      × (trace'.id ≡ remote.trace_id)
span_create_from_context-context_inject sender receiver remote buffer bufsize w trace name start
      wall t s room inside =
    rw (context_extract-context_inject sender receiver remote buffer bufsize t s room inside)
      (continued w trace remote name start wall)
