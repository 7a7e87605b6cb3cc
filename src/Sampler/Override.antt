-- ===== src/Sampler/Override.antt =====
-- A sampler with an override for one endpoint.
use dapper_lite.Prelude.{
  ℕ, ◌<◌, ◌≡◌, refl, ap, ◌∙◌, inl, inr, Bool, true, false, Bool-cases, ◌||◌, Option, none, some,
  List, [], ◌∷◌, All, length, if◌then◌else◌, arith,
}
use dapper_lite.Prelude.Outcome.{Safe}
use dapper_lite.Core.Strings.{c_str, c_str-c_array, NonNul}
use dapper_lite.Collector.{Time}
use dapper_lite.Core.Copies.{safe_strncpy-zeroed}
use dapper_lite.Sampler.{
  Floats, ProbSampler, OverrideEntry, Sampler, override, Rng, Clocks, same_string,
  prob_should_sample, decide_by_entry, decide_by_override, sampler_should_sample, sampler_get_stats,
  sampler_create_probability, sampler_create_override,
}

-- Whether a request names the endpoint.
abbrev pub names : Option (List ℕ) → List ℕ → Bool
names none endpoint = false
names (some asked) endpoint = same_string endpoint asked

module _ (F : Floats) where
  -- A new probabilistic sampler.
  abbrev pub fresh : F.Double → ProbSampler F.Double
  fresh rate = record { rate = rate; total_decisions = 0; sampled_count = 0 }

  -- What the sampler `s` does on a request, with a base and an override of one endpoint.
  pub record Overrides (base s : Sampler F.Double) (endpoint : List ℕ) (rate : F.Double)
      (asked : Option (List ℕ)) (rng : Rng) (t : Clocks) : Type 0 where
    pub decision : (sampler_should_sample F s asked rng t).0 ≡ (
        if names asked endpoint
        then (prob_should_sample F (fresh rate) rng t.seed_at).0
        else (sampler_should_sample F base asked rng t).0)
    pub stats : sampler_get_stats F (sampler_should_sample F s asked rng t).1 ≡ (
        if names asked endpoint
        then sampler_get_stats F base
        else sampler_get_stats F (sampler_should_sample F base asked rng t).1)

  hit :
      (entry : OverrideEntry F.Double) (asked : List ℕ) (rng : Rng) (t : Time)
      → same_string (c_str entry.endpoint) asked ≡ true
      → let r = prob_should_sample F entry.override_sampler rng t in
        decide_by_entry F (entry ∷ []) asked rng t
        ≡ some (r.0, record entry { override_sampler = r.1 } ∷ [], r.2)
  unfolding decide_by_entry
  hit entry asked rng t q = rw q refl

  miss :
      (entry : OverrideEntry F.Double) (asked : List ℕ) (rng : Rng) (t : Time)
      → same_string (c_str entry.endpoint) asked ≡ false
      → decide_by_entry F (entry ∷ []) asked rng t ≡ none
  unfolding decide_by_entry
  miss entry asked rng t q = rw q refl

  with_entry-Overrides :
      (base : Sampler F.Double) (endpoint : List ℕ) (rate : F.Double)
      (entry : OverrideEntry F.Double) (asked : Option (List ℕ)) (rng : Rng) (t : Clocks)
      → c_str entry.endpoint ≡ endpoint
      → entry.override_sampler ≡ fresh rate
      → Overrides base (override base (entry ∷ [])) endpoint rate asked rng t
  unfolding sampler_should_sample sampler_get_stats decide_by_override
  with_entry-Overrides base endpoint rate entry none rng t e f = record {
    decision = refl;
    stats = refl;
  }
  with_entry-Overrides base endpoint rate entry (some asked) rng t e f =
      elim (Bool-cases (same_string endpoint asked)) [
        | inl q ↦
            let run = hit entry asked rng t.seed_at (rw e q) in
            record {
              decision = rw (run, q, f, sampler_should_sample) refl;
              stats = rw (run, q, sampler_should_sample) refl;
            }
        | inr q ↦
            let run = miss entry asked rng t.seed_at (rw e q) in
            record {
              decision = rw (run, q, sampler_should_sample) refl;
              stats = rw (run, q, sampler_should_sample) refl;
            }
      ]

  -- An override for an endpoint of at most 127 bytes, if it is created, decides on the requests for
  -- this endpoint with its own rate and leaves the statistics of the base alone; the base
  -- decides on all others.
  pub sampler_create_override-Overrides :
      (base : Sampler F.Double) (endpoint : List ℕ) (rate : F.Double)
      → All NonNul endpoint
      → length endpoint < 128
      → (asked : Option (List ℕ)) (rng : Rng) (t : Clocks)
      → Safe
          (λ s. Overrides base s endpoint rate asked rng t)
          (sampler_create_override F base endpoint rate)
  unfolding sampler_create_override sampler_create_probability
  sampler_create_override-Overrides base endpoint rate h short asked rng t =
      let bad = F.less rate (F.of_int 0) || F.less (F.of_int 1) rate in
      elim (Bool-cases bad) [
        | inl e ↦ rw e tt
        | inr e ↦ rw e (
            with_entry-Overrides base endpoint rate _ asked rng t
              (ap c_str (safe_strncpy-zeroed 127 endpoint (omega (arith, short)))
                ∙ c_str-c_array 128 endpoint h)
              refl)
      ]
