-- ===== src/Traces/Decision.antt =====
-- The decision of a sampler is that of all spans of a trace, in other processes too.
use mathlib.Core.Option
use dapper_lite.Prelude.{
  ℕ, ◌^◌, ◌<◌, ◌≤◌, ◌≡◌, refl, ap, ◌∙◌, Bool, Option, none, some, List, [], ◌∷◌, ◌++◌, length,
  get_elem?,
}
use dapper_lite.Prelude.Outcome.{ok, ◌>>=◌}
use dapper_lite.ByteOrder.{Host}
use dapper_lite.Core.{Span}
use dapper_lite.Collector.{Time}
use dapper_lite.Context.{context_inject, context_extract}
use dapper_lite.Hierarchy.{
  Heap, Trace, World, new_span, place, parent_id, span_create, span_create_from_context,
}
use dapper_lite.Hierarchy.Chains.{field, get-append_last}
use dapper_lite.Hierarchy.Remote.{span_create_from_context-context_inject}
use dapper_lite.Sampler.{Floats, Sampler, Rng, Clocks, sampler_should_sample}
use dapper_lite.Traces.{trace_create_sampled}

-- The span at an address is of a trace, with a decision.
pub record Decided (heap : Heap) (i id : ℕ) (decision : Bool) : Type 0 where
  pub of_trace : field (λ s. s.trace_id) heap i ≡ some id
  pub decided : field (λ s. s.sampled) heap i ≡ some decision

module _ (F : Floats) (sampler : Sampler F.Double) (endpoint : Option (List ℕ)) (next : ℕ)
    (rng : Rng) (t : Clocks) where
  -- What `trace_create_sampled` returns, and what the sampler decides.
  abbrev pub created : Trace
  created = (trace_create_sampled F (some sampler) endpoint next rng t).0

  abbrev pub decision : Bool
  decision = (sampler_should_sample F sampler endpoint rng t).0.sampled

  -- The root span of the trace, as `span_create` makes it.
  abbrev pub root : World → List ℕ → ℕ → Time → Span
  root w name start wall = new_span w created none 0 name start wall

  root_created :
      (w : World) (name : List ℕ) (start : ℕ) (wall : Time)
      → (w' : World) × (trace' : Trace) × (span_create w created none name start wall
          ≡ ok (length w.heap, w', trace'))
        × (w'.heap ≡ w.heap ++ (root w name start wall ∷ []))
  unfolding span_create parent_id place trace_create_sampled
  root_created w name start wall = (_, _, refl, refl)

-- The sampler decides once for a trace. The root span that the process creates in the new trace has
-- the trace's number and the sampler's decision, and so has the span that another process, of
-- the same or of the other byte order, creates from the context that is injected from that root
-- with a buffer of at least 17 bytes.
pub span_create-trace_create_sampled :
    (F : Floats) (sampler : Sampler F.Double) (endpoint : Option (List ℕ)) (next : ℕ) (rng : Rng)
    (t : Clocks) (w other : World) (name : List ℕ) (start : ℕ) (wall : Time)
    (sender receiver : Host) (buffer : List ℕ) (bufsize : ℕ) (there : Trace)
    → next < 2 ^ 64
    → w.next_span_id < 2 ^ 64
    → 17 ≤ bufsize
    → bufsize ≤ length buffer
    → let decided = decision F sampler endpoint next rng t in
      let local = root F sampler endpoint next rng t w name start wall in
      (w' : World) × (trace' : Trace) × (span_create w
          (created F sampler endpoint next rng t)
          none
          name
          start
          wall
        ≡ ok (length w.heap, w', trace'))
      × Decided w'.heap (length w.heap) next decided
      × (v' : World) × (there' : Trace) × (((context_inject sender local buffer bufsize >>= λ b.
              context_extract receiver b bufsize)
            >>= λ c. span_create_from_context other there c name start wall)
          ≡ ok (length other.heap, v', there'))
      × Decided v'.heap (length other.heap) next decided
unfolding trace_create_sampled
span_create-trace_create_sampled F sampler endpoint next rng t w other name start wall sender
      receiver buffer bufsize there small small_id room inside =
    let local = root F sampler endpoint next rng t w name start wall in
    let (w', trace', run, grown) = root_created F sampler endpoint next rng t w name start wall in
    let here = ap (λ h. get_elem? h (length w.heap)) grown ∙ get-append_last w.heap local in
    let (v', there', remote, continues, same_id) =
      span_create_from_context-context_inject sender receiver local buffer bufsize other there name
        start wall small small_id room inside in
    (
      w',
      trace',
      run,
      record {
        of_trace = ap (Option.map (λ (s : Span). s.trace_id)) here;
        decided = ap (Option.map (λ (s : Span). s.sampled)) here;
      },
      v',
      there',
      remote,
      record { of_trace = continues.same_trace; decided = continues.same_decision },
    )
