-- ===== src/Sampler.antt =====
-- src/sampling/sampler.c: the three kinds of sampler behind one interface. The arithmetic of
-- `double` is a parameter. A call has the readings of the clock as an argument; calls run one at a
-- time, so that the compare-and-exchange of the adaptive sampler succeeds. The text of a reason is
-- left out.
pub mod Counts
pub mod Stats
pub mod Rate
pub mod Override
use Prim.Native.Nat.{bit_xor}
use dapper_lite.Prelude.{
  ℕ, zero, suc, ◌+◌, ◌-◌, ◌*◌, ◌/◌, ◌%◌, ◌^◌, Bool, true, false, ◌||◌, ◌&&◌, Option, none, some,
  List, [], ◌∷◌, leb, ◌==◌, if◌then◌else◌, replicate,
}
use dapper_lite.Prelude.Outcome.{Outcome, ok, failed, ◌>>=◌, ◌>>◌, fail_if}
use dapper_lite.Core.Strings.{safe_strncpy, c_str}
use dapper_lite.Collector.{Time}

-- `double`: `literal a b` is the constant a / b, `of_int` the conversion.
pub record Floats : Type 1 where
  pub Double : Type 0
  pub of_int : ℕ → Double
  pub literal : ℕ → ℕ → Double
  pub less : Double → Double → Bool
  pub times : Double → Double → Double
  pub over : Double → Double → Double
  pub fmin : Double → Double → Double
  pub fmax : Double → Double → Double

pub record ProbSampler (Double : Type 0) : Type 0 where
  pub rate : Double
  pub total_decisions : ℕ
  pub sampled_count : ℕ

pub record AdaptiveSampler (Double : Type 0) : Type 0 where
  pub target_tps : ℕ
  pub current_rate : Double
  pub window_sampled : List ℕ
  pub window_total : List ℕ
  pub last_update_sec : ℕ
  pub total_decisions : ℕ
  pub sampled_count : ℕ

-- The sampler of an entry is made by `sampler_create_probability`.
pub record OverrideEntry (Double : Type 0) : Type 0 where
  pub endpoint : List ℕ
  pub rate : Double
  pub override_sampler : ProbSampler Double

-- A sampler with the samplers that its pointers lead to.
pub data Sampler (Double : Type 0) : Type 0 where
  probability : ProbSampler Double → Sampler Double
  adaptive : AdaptiveSampler Double → Sampler Double
  override : Sampler Double → List (OverrideEntry Double) → Sampler Double

pub record SamplingDecision (Double : Type 0) : Type 0 where
  pub sampled : Bool
  pub sample_rate : Double

pub record SamplerStats (Double : Type 0) : Type 0 where
  pub total_decisions : ℕ
  pub sampled_count : ℕ
  pub dropped_count : ℕ
  pub current_rate : Double

-- `g_rng_state` and `initialized`.
pub record Rng : Type 0 where
  pub state : ℕ
  pub initialized : Bool

-- The readings of the clock in one call, in the order of the code.
pub record Clocks : Type 0 where
  pub update_at : Time
  pub seed_at : Time
  pub slot_at : Time

abbrev pub window_size_sec : ℕ
window_size_sec = 10

abbrev pub max_endpoint : ℕ
max_endpoint = 128

-- The wrap-around of a counter.
abbrev pub count_one : ℕ → ℕ
count_one n = (n + 1) % 2 ^ 64

unfoldable pub seeded : Rng → Time → ℕ
seeded rng t = if rng.initialized then rng.state else ((t.sec * 1000000000 + t.nsec) % 2 ^ 64)

unfoldable pub xorshift64 : Rng → Time → ℕ × Rng
unfolding seeded
xorshift64 rng t =
    let x = seeded rng t in
    let x = bit_xor x (x / 2 ^ 12) in
    let x = bit_xor x (x * 2 ^ 25 % 2 ^ 64) in
    let x = bit_xor x (x / 2 ^ 27) in
    (x * 0x2545f4914f6cdd1d % 2 ^ 64, record { state = x; initialized = true })

-- An assignment to an element of an array.
abbrev pub change : List ℕ → ℕ → (ℕ → ℕ) → List ℕ
change [] i f = []
change (x ∷ xs) zero f = f x ∷ xs
change (x ∷ xs) (suc i) f = x ∷ change xs i f

-- The sum in `uint64_t`.
abbrev pub total_of : List ℕ → ℕ
total_of [] = 0
total_of (x ∷ xs) = (x + total_of xs) % 2 ^ 64

-- `strcmp(a, b) == 0` of two strings.
abbrev pub same_string : List ℕ → List ℕ → Bool
same_string [] [] = true
same_string [] (b ∷ bs) = false
same_string (a ∷ xs) [] = false
same_string (a ∷ xs) (b ∷ bs) = a == b && same_string xs bs

module _ (F : Floats) where
  -- `(double)random / (double)UINT64_MAX < rate`
  unfoldable pub drawn : ℕ → F.Double → Bool
  drawn random rate = F.less (F.over (F.of_int random) (F.of_int (2 ^ 64 - 1))) rate

  unfoldable pub sampler_create_probability : F.Double → Outcome (ProbSampler F.Double)
  sampler_create_probability rate = do
    fail_if (F.less rate (F.of_int 0) || F.less (F.of_int 1) rate)
    ok (record { rate = rate; total_decisions = 0; sampled_count = 0 })

  unfoldable pub prob_should_sample :
      ProbSampler F.Double → Rng → Time → SamplingDecision F.Double × ProbSampler F.Double × Rng
  unfolding xorshift64 drawn
  prob_should_sample s rng t =
      let (random, rng') = xorshift64 rng t in
      let sampled = drawn random s.rate in
      (
        record { sampled = sampled; sample_rate = s.rate },
        record s {
          total_decisions = count_one s.total_decisions;
          sampled_count = if sampled then count_one s.sampled_count else s.sampled_count;
        },
        rng',
      )

  unfoldable pub prob_get_stats : ProbSampler F.Double → SamplerStats F.Double
  prob_get_stats s = record {
    total_decisions = s.total_decisions;
    sampled_count = s.sampled_count;
    dropped_count = (s.total_decisions + 2 ^ 64 - s.sampled_count) % 2 ^ 64;
    current_rate = s.rate;
  }

  unfoldable pub new_rate : ℕ → F.Double → F.Double → F.Double
  new_rate target_tps current_rate current_tps =
      let target = F.of_int target_tps in
      let new =
        if F.less (F.times target (F.literal 11 10)) current_tps
        then F.times (F.times current_rate (F.over target current_tps)) (F.literal 9 10)
        else if F.less current_tps (F.times target (F.literal 9 10))
        then F.fmin (F.of_int 1) (F.times current_rate (F.literal 11 10))
        else current_rate in
      F.fmax (F.literal 1 10000) (F.fmin (F.of_int 1) new)

  unfoldable pub adaptive_update_rate : AdaptiveSampler F.Double → ℕ → AdaptiveSampler F.Double
  unfolding new_rate
  adaptive_update_rate s now =
      if now == s.last_update_sec
      then s
      else let total_sampled = total_of s.window_sampled in
        let slot = now % window_size_sec in
        let current_tps = F.over (F.of_int total_sampled) (F.of_int window_size_sec) in
        record s {
          last_update_sec = now;
          window_sampled = change s.window_sampled slot (λ n. 0);
          window_total = change s.window_total slot (λ n. 0);
          current_rate = new_rate s.target_tps s.current_rate current_tps;
        }

  -- `target_tps <= 0` of an `int`, whose positive values are the numbers here.
  unfoldable pub sampler_create_adaptive : ℕ → Time → Outcome (AdaptiveSampler F.Double)
  sampler_create_adaptive target_tps t = do
    fail_if (target_tps == 0)
    ok (record {
      target_tps = target_tps;
      current_rate = F.literal 1 10;
      window_sampled = replicate window_size_sec 0;
      window_total = replicate window_size_sec 0;
      last_update_sec = t.sec;
      total_decisions = 0;
      sampled_count = 0;
    })

  unfoldable pub adaptive_should_sample :
      AdaptiveSampler F.Double
      → Rng
      → Clocks
      → SamplingDecision F.Double × AdaptiveSampler F.Double × Rng
  unfolding adaptive_update_rate xorshift64 drawn
  adaptive_should_sample s rng t =
      let s = adaptive_update_rate s t.update_at.sec in
      let rate = s.current_rate in
      let (random, rng') = xorshift64 rng t.seed_at in
      let sampled = drawn random rate in
      let slot = t.slot_at.sec % window_size_sec in
      (
        record { sampled = sampled; sample_rate = rate },
        record s {
          total_decisions = count_one s.total_decisions;
          window_total = change s.window_total slot count_one;
          sampled_count = if sampled then count_one s.sampled_count else s.sampled_count;
          window_sampled =
              if sampled then change s.window_sampled slot count_one else s.window_sampled;
        },
        rng',
      )

  unfoldable pub adaptive_get_stats : AdaptiveSampler F.Double → SamplerStats F.Double
  adaptive_get_stats s = record {
    total_decisions = s.total_decisions;
    sampled_count = s.sampled_count;
    dropped_count = (s.total_decisions + 2 ^ 64 - s.sampled_count) % 2 ^ 64;
    current_rate = s.current_rate;
  }

  unfoldable pub sampler_create_override :
      Sampler F.Double → List ℕ → F.Double → Outcome (Sampler F.Double)
  unfolding sampler_create_probability
  sampler_create_override base endpoint rate = do
    fail_if (F.less rate (F.of_int 0) || F.less (F.of_int 1) rate)
    own ← sampler_create_probability rate
    ok (
        override base (
          record {
            endpoint = safe_strncpy (replicate max_endpoint 0) endpoint max_endpoint;
            rate = rate;
            override_sampler = own;
          }
          ∷ []))

  -- The loop of `override_should_sample` over the entries: the decision of the first whose endpoint
  -- matches, and the entries after it.
  unfoldable pub decide_by_entry :
      List (OverrideEntry F.Double)
      → List ℕ
      → Rng
      → Time
      → Option (SamplingDecision F.Double × List (OverrideEntry F.Double) × Rng)
  unfolding prob_should_sample
  decide_by_entry [] endpoint rng t = none
  decide_by_entry (e ∷ entries) endpoint rng t =
      let rest = decide_by_entry entries endpoint rng t in
      if same_string (c_str e.endpoint) endpoint
      then (let (decision, own, rng') = prob_should_sample e.override_sampler rng t in
          some (decision, record e { override_sampler = own } ∷ entries, rng'))
      else elim rest [
        | none ↦ none
        | some (decision, entries', rng') ↦ some (decision, e ∷ entries', rng')
      ]

  -- `endpoint` is `none` for NULL.
  unfoldable pub decide_by_override :
      List (OverrideEntry F.Double)
      → Option (List ℕ)
      → Rng
      → Time
      → Option (SamplingDecision F.Double × List (OverrideEntry F.Double) × Rng)
  unfolding decide_by_entry
  decide_by_override entries none rng t = none
  decide_by_override entries (some endpoint) rng t = decide_by_entry entries endpoint rng t

  unfoldable pub sampler_should_sample :
      Sampler F.Double
      → Option (List ℕ)
      → Rng
      → Clocks
      → SamplingDecision F.Double × Sampler F.Double × Rng
  unfolding prob_should_sample adaptive_should_sample decide_by_override
  sampler_should_sample (probability s) endpoint rng t =
      let (decision, s', rng') = prob_should_sample s rng t.seed_at in
      (decision, probability s', rng')
  sampler_should_sample (adaptive s) endpoint rng t =
      let (decision, s', rng') = adaptive_should_sample s rng t in (decision, adaptive s', rng')
  sampler_should_sample (override base entries) endpoint rng t =
      let (decision, base', rng') = sampler_should_sample base endpoint rng t in
      elim (decide_by_override entries endpoint rng t.seed_at) [
        | none ↦ (decision, override base' entries, rng')
        | some (own, entries', rng'') ↦ (own, override base entries', rng'')
      ]

  unfoldable pub sampler_get_stats : Sampler F.Double → SamplerStats F.Double
  unfolding prob_get_stats adaptive_get_stats
  sampler_get_stats (probability s) = prob_get_stats s
  sampler_get_stats (adaptive s) = adaptive_get_stats s
  sampler_get_stats (override base entries) = sampler_get_stats base
