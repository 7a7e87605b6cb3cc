-- ===== src/Traces.antt =====
-- src/core/trace.c: the creation of a trace, with a number of its own and with the decision of a
-- sampler.
pub mod Decision
use dapper_lite.Prelude.{ℕ, ◌+◌, ◌%◌, ◌^◌, Option, none, some, List}
use dapper_lite.Hierarchy.{Trace, trace_create_with_id}
use dapper_lite.Sampler.{Floats, Sampler, SamplingDecision, Rng, Clocks, sampler_should_sample}

-- `g_next_trace_id` before the call; the results are the number and what the counter is then.
unfoldable generate_trace_id : ℕ → ℕ × ℕ
generate_trace_id next = (next, (next + 1) % 2 ^ 64)

unfoldable pub trace_create : ℕ → Trace × ℕ
unfolding generate_trace_id trace_create_with_id
trace_create next = let (id, next') = generate_trace_id next in (trace_create_with_id id, next')

module _ (F : Floats) where
  -- What is done with the decision. The rate and the reason are left out.
  unfoldable with_decision : Trace → SamplingDecision F.Double → Trace
  with_decision trace decision = record trace { sampled = decision.sampled }

  -- `sampler` may be NULL. The results are the trace, the sampler behind the call, the counter and
  -- the state of the random numbers.
  unfoldable pub trace_create_sampled :
      Option (Sampler F.Double)
      → Option (List ℕ)
      → ℕ
      → Rng
      → Clocks
      → Trace × Option (Sampler F.Double) × ℕ × Rng
  unfolding trace_create with_decision
  trace_create_sampled none endpoint next rng t =
      let (trace, next') = trace_create next in (trace, none, next', rng)
  trace_create_sampled (some sampler) endpoint next rng t =
      let (trace, next') = trace_create next in
      let (decision, sampler', rng') = sampler_should_sample F sampler endpoint rng t in
      (with_decision trace decision, some sampler', next', rng')
