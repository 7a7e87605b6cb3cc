-- ===== src/Tests/Sampling.antt =====
-- The theorems on samplers, with fixed-point numbers of four decimals for `double`.
use dapper_lite.Prelude.{
  ℕ, ◌+◌, ◌*◌, ◌/◌, ◌≡◌, refl, inl, inr, true, Bool-cases, none, some, List, [], ◌∷◌, ltb,
  if◌then◌else◌, arith, replicate,
}
use dapper_lite.Prelude.Outcome.{Safe, ok, ◌>>=◌}
use dapper_lite.Sampler.{
  Floats, AdaptiveSampler, Sampler, probability, adaptive, Rng, Clocks, sampler_get_stats,
  sampler_should_sample, sampler_create_override,
}
use dapper_lite.Sampler.Rate.{IsFloats, HasRates, IsRate, sampler_should_sample-HasRates}
use dapper_lite.Sampler.Counts.{total, sampled}
use dapper_lite.Sampler.Stats.{
  Request, decide_all, own_decisions, own_sampled, sampler_get_stats-decide_all,
}
use dapper_lite.Sampler.Override.{Overrides, sampler_create_override-Overrides}
use dapper_lite.ByteOrder.{little, big}
use dapper_lite.Context.{context_inject, context_extract}
use dapper_lite.Hierarchy.{
  Trace, World, trace_create_with_id, span_create, span_create_from_context,
}
use dapper_lite.Traces.Decision.{Decided, created, decision, root, span_create-trace_create_sampled}
use dapper_lite.Tests.Data.{noon}

abbrev fixed : Floats
fixed = record {
  Double = ℕ;
  of_int = λ n. n * 10000;
  literal = λ a b. a * 10000 / b;
  less = ltb;
  times = λ x y. x * y / 10000;
  over = λ x y. x * 10000 / y;
  fmin = λ x y. if ltb x y then x else y;
  fmax = λ x y. if ltb x y then y else x;
}

fixed-IsFloats : IsFloats fixed
fixed-IsFloats = record {
  fmin_below = λ x y. ground arith;
  fmax_above = λ x y. ground arith;
  fmax_one_of =
      λ x y. elim (Bool-cases (ltb x y)) [ inl e ↦ rw e (inr refl) | inr e ↦ rw e (inl refl) ];
  less_trans = λ x y z p q. ground (arith, p, q);
  zero_small = refl;
  small_one = refl;
  tenth_small = refl;
  one_tenth = refl;
}

abbrev tenth : Sampler ℕ
tenth = probability (record { rate = 1000; total_decisions = 5; sampled_count = 1 })

abbrev slow : AdaptiveSampler ℕ
slow = record {
  target_tps = 1;
  current_rate = 1000;
  window_sampled = replicate 10 0;
  window_total = replicate 10 0;
  last_update_sec = 7;
  total_decisions = 0;
  sampled_count = 0;
}

abbrev rng : Rng
rng = record { state = 88172645463325252; initialized = true }

abbrev clocks : Clocks
clocks = record { update_at = noon; seed_at = noon; slot_at = noon }

-- One request for `a`, one without an endpoint.
abbrev requests : List Request
requests = (some (97 ∷ []), clocks) ∷ (none, clocks) ∷ []

sampler_get_stats-decide_all_example :
    let r = decide_all fixed tenth rng requests in
    let stats = sampler_get_stats fixed r.1 in
    (stats.total_decisions ≡ total fixed tenth + own_decisions fixed tenth requests)
    × (stats.sampled_count ≡ sampled fixed tenth + own_sampled fixed tenth requests r.0)
    × (stats.sampled_count + stats.dropped_count ≡ stats.total_decisions)
unfolding sampler_get_stats
sampler_get_stats-decide_all_example =
    sampler_get_stats-decide_all fixed tenth rng requests (omega arith) (omega arith)

sampler_should_sample-HasRates_example :
    let r = sampler_should_sample fixed (adaptive slow) none rng clocks in
    HasRates fixed r.1 × IsRate fixed r.0.sample_rate
sampler_should_sample-HasRates_example =
    sampler_should_sample-HasRates fixed fixed-IsFloats (adaptive slow) none rng clocks
      (record { rate_in = (refl, refl); sampled_size = refl; total_size = refl })

sampler_create_override-Overrides_example :
    Safe
      (λ s. Overrides fixed tenth s (97 ∷ []) 5000 (some (97 ∷ [])) rng clocks)
      (sampler_create_override fixed tenth (97 ∷ []) 5000)
sampler_create_override-Overrides_example =
    sampler_create_override-Overrides fixed tenth (97 ∷ []) 5000 ((λ e. omega (arith, e)), tt)
      (omega arith) (some (97 ∷ [])) rng clocks

abbrev empty : World
empty = record { heap = []; next_span_id = 1 }

span_create-trace_create_sampled_example :
    let decided = decision fixed tenth none 7 rng clocks in
    let local = root fixed tenth none 7 rng clocks empty (97 ∷ []) 5 noon in
    (w' : World) × (trace' : Trace) × (span_create empty
        (created fixed tenth none 7 rng clocks)
        none
        (97 ∷ [])
        5
        noon
      ≡ ok (0, w', trace'))
    × Decided w'.heap 0 7 decided
    × (v' : World) × (there' : Trace) × (((context_inject little local (replicate 20 0) 20 >>= λ b.
            context_extract big b 20)
          >>= λ c. span_create_from_context empty (trace_create_with_id 9) c (97 ∷ []) 5 noon)
        ≡ ok (0, v', there'))
    × Decided v'.heap 0 7 decided
span_create-trace_create_sampled_example =
    span_create-trace_create_sampled fixed tenth none 7 rng clocks empty empty (97 ∷ []) 5 noon
      little big (replicate 20 0) 20 (trace_create_with_id 9) (omega arith) (omega arith)
      (omega arith) (omega arith)
