-- ===== src/Sampler/Counts.antt =====
-- What one decision does to the counters of a sampler.
use dapper_lite.Prelude.{
  ℕ, ◌≡◌, refl, ap, ◌⊎◌, inl, inr, Bool, true, false, Bool-cases, not, ◌||◌, ◌&&◌, Option, none,
  some, List, [], ◌∷◌, ◌==◌, if◌then◌else◌,
}
use dapper_lite.Core.Strings.{c_str}
use dapper_lite.Sampler.{
  Floats, AdaptiveSampler, OverrideEntry, Sampler, probability, adaptive, override,
  SamplingDecision, Rng, Clocks, count_one, same_string, prob_should_sample, adaptive_update_rate,
  adaptive_should_sample, prob_get_stats, adaptive_get_stats, decide_by_entry, decide_by_override,
  sampler_should_sample, sampler_get_stats,
}
use dapper_lite.Collector.{Time}

-- Whether one of the entries is for the endpoint.
unfoldable has_entry : {D : Type 0} → List (OverrideEntry D) → List ℕ → Bool
has_entry [] endpoint = false
has_entry (e ∷ entries) endpoint =
    same_string (c_str e.endpoint) endpoint || has_entry entries endpoint

unfoldable has_override : {D : Type 0} → List (OverrideEntry D) → Option (List ℕ) → Bool
unfolding has_entry
has_override entries none = false
has_override entries (some endpoint) = has_entry entries endpoint

has_override-congr :
    {D : Type 0} (entries entries' : List (OverrideEntry D))
    → ((x : List ℕ) → has_entry entries' x ≡ has_entry entries x)
    → (o : Option (List ℕ)) → has_override entries' o ≡ has_override entries o
unfolding has_override
has_override-congr entries entries' same none = refl
has_override-congr entries entries' same (some x) = same x

-- Whether an override decides on the endpoint, and not the sampler at the base.
unfoldable pub overridden : {D : Type 0} → Sampler D → Option (List ℕ) → Bool
unfolding has_override
overridden (probability s) endpoint = false
overridden (adaptive s) endpoint = false
overridden (override base entries) endpoint =
    has_override entries endpoint || overridden base endpoint

module _ (F : Floats) where
  abbrev pub total : Sampler F.Double → ℕ
  total s = (sampler_get_stats F s).total_decisions

  abbrev pub sampled : Sampler F.Double → ℕ
  sampled s = (sampler_get_stats F s).sampled_count

  -- The loop over the entries ends without a match, or changes no endpoint.
  decide_by_entry-cases :
      (entries : List (OverrideEntry F.Double)) (endpoint : List ℕ) (rng : Rng) (t : Time)
      → (has_entry entries endpoint ≡ false) × (decide_by_entry F entries endpoint rng t ≡ none)
        ⊎ (d : SamplingDecision F.Double) × (entries' : List (OverrideEntry F.Double))
          × (rng' : Rng) × (has_entry entries endpoint ≡ true)
          × (decide_by_entry F entries endpoint rng t ≡ some (d, entries', rng'))
          × ((x : List ℕ) → has_entry entries' x ≡ has_entry entries x)
  unfolding has_entry decide_by_entry
  decide_by_entry-cases [] endpoint rng t = inl (refl, refl)
  decide_by_entry-cases (e ∷ entries) endpoint rng t =
      elim (Bool-cases (same_string (c_str e.endpoint) endpoint)) [
        | inl q ↦
            let r = prob_should_sample F e.override_sampler rng t in
            rw q
              (inr (r.0, record e { override_sampler = r.1 } ∷ entries, r.2, refl, refl, λ x. refl))
        | inr q ↦ elim (decide_by_entry-cases entries endpoint rng t) [
          | inl (h, run) ↦ rw (q, h, run) (inl (refl, refl))
          | inr (d, entries', rng', h, run, same) ↦
              rw (q, h, run)
                (inr (
                  d,
                  e ∷ entries',
                  rng',
                  refl,
                  refl,
                  λ x. ap (λ b. same_string (c_str e.endpoint) x || b) (same x),
                ))
        ]
      ]

  -- What one call does to what the statistics show.
  abbrev pub Counts :
      Sampler F.Double → Option (List ℕ) → SamplingDecision F.Double → Sampler F.Double → Type 0
  Counts s endpoint d s' =
      (total s' ≡ (if overridden s endpoint then total s else count_one (total s)))
      × (sampled s'
          ≡ (if not (overridden s endpoint) && d.sampled then count_one (sampled s) else sampled s))
      × ((x : Option (List ℕ)) → overridden s' x ≡ overridden s x)

  update-kept :
      (s : AdaptiveSampler F.Double) (now : ℕ)
      → let s' = adaptive_update_rate F s now in
        (s'.total_decisions ≡ s.total_decisions) × (s'.sampled_count ≡ s.sampled_count)
  unfolding adaptive_update_rate
  update-kept s now = elim (Bool-cases (now == s.last_update_sec)) [
    | inl e ↦ rw e (refl, refl)
    | inr e ↦ rw e (refl, refl)
  ]

  pub sampler_should_sample-Counts :
      (s : Sampler F.Double) (endpoint : Option (List ℕ)) (rng : Rng) (t : Clocks)
      → let r = sampler_should_sample F s endpoint rng t in Counts s endpoint r.0 r.1
  unfolding sampler_should_sample prob_should_sample adaptive_should_sample overridden
      sampler_get_stats prob_get_stats adaptive_get_stats decide_by_override has_override
  sampler_should_sample-Counts (probability s) endpoint rng t = (refl, refl, λ x. refl)
  sampler_should_sample-Counts (adaptive s) endpoint rng t =
      let u = update-kept s t.update_at.sec in rw (u.0, u.1) (refl, refl, λ x. refl)
  sampler_should_sample-Counts (override base entries) none rng t =
      let (more, more_sampled, same) = sampler_should_sample-Counts base none rng t in
      (more, more_sampled, λ x. ap (λ b. has_override entries x || b) (same x))
  sampler_should_sample-Counts (override base entries) (some endpoint) rng t =
      elim (decide_by_entry-cases entries endpoint rng t.seed_at) [
        | inl (h, run) ↦
            let (more, more_sampled, same) =
              sampler_should_sample-Counts base (some endpoint) rng t in
            rw (h, run, sampler_should_sample)
              (more, more_sampled, λ x. ap (λ b. has_override entries x || b) (same x))
        | inr (d, entries', rng', h, run, same) ↦
            rw (h, run, sampler_should_sample)
              (
                refl,
                refl,
                λ x. ap (λ b. b || overridden base x) (has_override-congr entries entries' same x),
              )
      ]
