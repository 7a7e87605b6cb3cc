-- ===== src/Sampler/Rate.antt =====
-- The rates of samplers.
use dapper_lite.Prelude.{
  ℕ, zero, suc, ◌≡◌, refl, ap, ◌∙◌, ◌⊎◌, inl, inr, Bool, true, false, Bool-cases, Option, none,
  some, List, [], ◌∷◌, All, length, if◌then◌else◌, ◌==◌, ◌%◌, ◌+◌, ◌^◌,
}
use dapper_lite.Core.Strings.{c_str}
use dapper_lite.Collector.{Time}
use dapper_lite.Sampler.{
  Floats, AdaptiveSampler, OverrideEntry, Sampler, probability, adaptive, override,
  SamplingDecision, Rng, Clocks, change, same_string, prob_should_sample, new_rate,
  adaptive_update_rate, adaptive_should_sample, decide_by_entry, decide_by_override,
  sampler_should_sample, window_size_sec,
}

-- What C says of `fmin`, `fmax` and `<`, the first two facts also of a NaN, and how the constants
-- of the code compare.
pub record IsFloats (F : Floats) : Type 0 where
  pub fmin_below : (x y : F.Double) → F.less x (F.fmin x y) ≡ false
  pub fmax_above : (x y : F.Double) → F.less (F.fmax x y) x ≡ false
  pub fmax_one_of : (x y : F.Double) → (F.fmax x y ≡ x) ⊎ (F.fmax x y ≡ y)
  pub less_trans : (x y z : F.Double) → F.less x y ≡ true → F.less y z ≡ true → F.less x z ≡ true
  pub zero_small : F.less (F.of_int 0) (F.literal 1 10000) ≡ true
  pub small_one : F.less (F.of_int 1) (F.literal 1 10000) ≡ false
  pub tenth_small : F.less (F.literal 1 10) (F.literal 1 10000) ≡ false
  pub one_tenth : F.less (F.of_int 1) (F.literal 1 10) ≡ false

module _ (F : Floats) where
  abbrev pub Between : F.Double → F.Double → F.Double → Type 0
  Between lo hi x = (F.less x lo ≡ false) × (F.less hi x ≡ false)

  abbrev pub IsRate : F.Double → Type 0
  IsRate x = Between (F.of_int 0) (F.of_int 1) x

  -- Rates of at least 0.0001 where they adapt, and windows of ten seconds.
  pub record IsAdaptive (s : AdaptiveSampler F.Double) : Type 0 where
    pub rate_in : Between (F.literal 1 10000) (F.of_int 1) s.current_rate
    pub sampled_size : length s.window_sampled ≡ window_size_sec
    pub total_size : length s.window_total ≡ window_size_sec

  abbrev pub HasRates : Sampler F.Double → Type 0
  HasRates (probability s) = IsRate s.rate
  HasRates (adaptive s) = IsAdaptive s
  HasRates (override base entries) =
      HasRates base × All (λ e. IsRate e.override_sampler.rate) entries

  module _ (laws : IsFloats F) where
    new_rate-Between :
        (target_tps : ℕ) (current_rate current_tps : F.Double)
        → Between (F.literal 1 10000) (F.of_int 1) (new_rate F target_tps current_rate current_tps)
    unfolding new_rate
    new_rate-Between target_tps current_rate current_tps = clamp_in _
      where
        clamp_in :
            (x : F.Double)
            → Between
                (F.literal 1 10000)
                (F.of_int 1)
                (F.fmax (F.literal 1 10000) (F.fmin (F.of_int 1) x))
        clamp_in x = (
          laws.fmax_above (F.literal 1 10000) (F.fmin (F.of_int 1) x),
          elim (laws.fmax_one_of (F.literal 1 10000) (F.fmin (F.of_int 1) x)) [
            | inl e ↦ rw e laws.small_one
            | inr e ↦ rw e (laws.fmin_below (F.of_int 1) x)
          ],
        )

    length-change : (xs : List ℕ) (i : ℕ) (f : ℕ → ℕ) → length (change xs i f) ≡ length xs
    length-change [] i f = refl
    length-change (x ∷ xs) zero f = refl
    length-change (x ∷ xs) (suc i) f = ap suc (length-change xs i f)

    adaptive_update_rate-IsAdaptive :
        (s : AdaptiveSampler F.Double) (now : ℕ)
        → IsAdaptive s
        → IsAdaptive (adaptive_update_rate F s now)
    unfolding adaptive_update_rate
    adaptive_update_rate-IsAdaptive s now i = elim (Bool-cases (now == s.last_update_sec)) [
      | inl e ↦ rw e i
      | inr e ↦ rw e (record {
        rate_in = new_rate-Between s.target_tps s.current_rate _;
        sampled_size =
            length-change s.window_sampled (now % window_size_sec) (λ n. 0) ∙ i.sampled_size;
        total_size = length-change s.window_total (now % window_size_sec) (λ n. 0) ∙ i.total_size;
      })
    ]

    IsRate-small :
        (x : F.Double) → F.less x (F.literal 1 10000) ≡ false → F.less x (F.of_int 0) ≡ false
    IsRate-small x h = elim (Bool-cases (F.less x (F.of_int 0))) [
      | inl e ↦ let t = laws.less_trans x (F.of_int 0) (F.literal 1 10000) e laws.zero_small in cc
      | inr e ↦ e
    ]

    adaptive_should_sample-HasRates :
        (s : AdaptiveSampler F.Double) (rng : Rng) (t : Clocks)
        → IsAdaptive s
        → let r = adaptive_should_sample F s rng t in IsAdaptive r.1 × IsRate r.0.sample_rate
    unfolding adaptive_should_sample
    adaptive_should_sample-HasRates s rng t i =
        let u = adaptive_update_rate F s t.update_at.sec in
        let v = adaptive_update_rate-IsAdaptive s t.update_at.sec i in
        (
          record {
            rate_in = v.rate_in;
            sampled_size = kept _ u.window_sampled _ v.sampled_size;
            total_size =
                length-change u.window_total (t.slot_at.sec % window_size_sec) _ ∙ v.total_size;
          },
          (IsRate-small u.current_rate v.rate_in.0, v.rate_in.1),
        )
      where
        kept :
            (b : Bool) (xs : List ℕ) (i : ℕ)
            → length xs ≡ window_size_sec
            → length (if b then change xs i (λ n. (n + 1) % 2 ^ 64) else xs) ≡ window_size_sec
        kept true xs i h = length-change xs i (λ n. (n + 1) % 2 ^ 64) ∙ h
        kept false xs i h = h

    decide_by_entry-HasRates :
        (entries : List (OverrideEntry F.Double)) (endpoint : List ℕ) (rng : Rng) (t : Time)
        → All (λ e. IsRate e.override_sampler.rate) entries
        → (decide_by_entry F entries endpoint rng t ≡ none)
          ⊎ (d : SamplingDecision F.Double) × (entries' : List (OverrideEntry F.Double))
            × (rng' : Rng) × (decide_by_entry F entries endpoint rng t ≡ some (d, entries', rng'))
            × All (λ e. IsRate e.override_sampler.rate) entries'
            × IsRate d.sample_rate
    unfolding decide_by_entry prob_should_sample
    decide_by_entry-HasRates [] endpoint rng t a = inl refl
    decide_by_entry-HasRates (e ∷ entries) endpoint rng t a =
        elim (Bool-cases (same_string (c_str e.endpoint) endpoint)) [
          | inl q ↦
              let r = prob_should_sample F e.override_sampler rng t in
              rw q (
                inr
                  (r.0, record e { override_sampler = r.1 } ∷ entries, r.2, refl, (a.0, a.1), a.0))
          | inr q ↦ elim (decide_by_entry-HasRates entries endpoint rng t a.1) [
            | inl run ↦ rw (q, run) (inl refl)
            | inr (d, entries', rng', run, b, i) ↦
                rw (q, run) (inr (d, e ∷ entries', rng', refl, (a.0, b), i))
          ]
        ]

    -- A decision keeps every rate of a sampler in its range: those of overrides and of
    -- probabilistic samplers between 0 and 1, that of an adaptive sampler between 0.0001 and 1.
    -- Its own rate is between 0 and 1.
    pub sampler_should_sample-HasRates :
        (s : Sampler F.Double) (endpoint : Option (List ℕ)) (rng : Rng) (t : Clocks)
        → HasRates s
        → let r = sampler_should_sample F s endpoint rng t in HasRates r.1 × IsRate r.0.sample_rate
    unfolding sampler_should_sample prob_should_sample decide_by_override
    sampler_should_sample-HasRates (probability s) endpoint rng t h = (h, h)
    sampler_should_sample-HasRates (adaptive s) endpoint rng t h =
        adaptive_should_sample-HasRates s rng t h
    sampler_should_sample-HasRates (override base entries) none rng t (h, a) =
        let (i, r) = sampler_should_sample-HasRates base none rng t h in ((i, a), r)
    sampler_should_sample-HasRates (override base entries) (some endpoint) rng t (h, a) =
        elim (decide_by_entry-HasRates entries endpoint rng t.seed_at a) [
          | inl run ↦
              let (i, r) = sampler_should_sample-HasRates base (some endpoint) rng t h in
              rw (run, sampler_should_sample) ((i, a), r)
          | inr (d, entries', rng', run, b, r) ↦ rw (run, sampler_should_sample) ((h, b), r)
        ]
