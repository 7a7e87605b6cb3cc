-- ===== src/Sampler/Stats.antt =====
-- What the counters of a sampler say of its decisions.
use dapper_lite.Prelude.{
  ℕ, suc, ◌+◌, ◌-◌, ◌%◌, ◌^◌, ◌<◌, ◌≤◌, ◌≡◌, refl, ap, ◌∙◌, Bool, true, false, not, ◌&&◌, Option,
  List, [], ◌∷◌, arith, if◌then◌else◌, length,
}
use dapper_lite.Sampler.{
  Floats, Sampler, probability, adaptive, override, SamplingDecision, Rng, Clocks, count_one,
  prob_get_stats, adaptive_get_stats, sampler_should_sample, sampler_get_stats,
}
use dapper_lite.Sampler.Counts.{overridden, total, sampled, sampler_should_sample-Counts}

-- A call, with counters that do not overflow.
one_more :
    (o d : Bool) (t s t' s' n : ℕ)
    → t' ≡ (if o then t else count_one t)
    → s' ≡ (if not o && d then count_one s else s)
    → s ≤ t
    → t + suc n < 2 ^ 64
    → (s' ≤ t')
      × (t' + n < 2 ^ 64)
      × ((m : ℕ) → t' + m ≡ t + (if o then m else suc m))
      × ((m : ℕ) → s' + m ≡ s + (if not o && d then suc m else m))
one_more true d t s t' s' n e f h b =
    (omega (arith, e, f, h), omega (arith, e, b), λ m. omega (arith, e), λ m. omega (arith, f))
one_more false true t s t' s' n e f h b = (
  omega (arith, e, f, h, b),
  omega (arith, e, b),
  λ m. omega (arith, e, b),
  λ m. omega (arith, f, h, b),
)
one_more false false t s t' s' n e f h b = (
  omega (arith, e, f, h, b),
  omega (arith, e, b),
  λ m. omega (arith, e, b),
  λ m. omega (arith, f),
)

-- A request: its endpoint, and the clock while it is decided on.
abbrev pub Request : Type 0
Request = Option (List ℕ) × Clocks

module _ (F : Floats) where
  -- The decisions on a sequence of requests, and the sampler behind it.
  unfoldable pub decide_all :
      Sampler F.Double → Rng → List Request → List (SamplingDecision F.Double) × Sampler F.Double
  decide_all s rng [] = ([], s)
  decide_all s rng (q ∷ requests) =
      let (decision, s', rng') = sampler_should_sample F s q.0 rng q.1 in
      let (decisions, s'') = decide_all s' rng' requests in (decision ∷ decisions, s'')

  -- The requests that the sampler at the base decides on, and those of them that it samples.
  unfoldable pub own_decisions : Sampler F.Double → List Request → ℕ
  own_decisions s [] = 0
  own_decisions s (q ∷ requests) =
      let rest = own_decisions s requests in if overridden s q.0 then rest else suc rest

  unfoldable pub own_sampled :
      Sampler F.Double → List Request → List (SamplingDecision F.Double) → ℕ
  own_sampled s [] decisions = 0
  own_sampled s (q ∷ requests) [] = 0
  own_sampled s (q ∷ requests) (d ∷ decisions) =
      let rest = own_sampled s requests decisions in
      if not (overridden s q.0) && d.sampled then suc rest else rest

  own_decisions-congr :
      (s s' : Sampler F.Double) (requests : List Request)
      → ((x : Option (List ℕ)) → overridden s' x ≡ overridden s x)
      → own_decisions s' requests ≡ own_decisions s requests
  unfolding own_decisions
  own_decisions-congr s s' [] same = refl
  own_decisions-congr s s' (q ∷ requests) same =
      rw (same q.0, own_decisions-congr s s' requests same) refl

  own_sampled-congr :
      (s s' : Sampler F.Double) (requests : List Request) (ds : List (SamplingDecision F.Double))
      → ((x : Option (List ℕ)) → overridden s' x ≡ overridden s x)
      → own_sampled s' requests ds ≡ own_sampled s requests ds
  unfolding own_sampled
  own_sampled-congr s s' [] ds same = refl
  own_sampled-congr s s' (q ∷ requests) [] same = refl
  own_sampled-congr s s' (q ∷ requests) (d ∷ ds) same =
      rw (same q.0, own_sampled-congr s s' requests ds same) refl

  counted :
      (s : Sampler F.Double) (rng : Rng) (requests : List Request)
      → sampled F s ≤ total F s
      → total F s + length requests < 2 ^ 64
      → let r = decide_all s rng requests in
        (total F r.1 ≡ total F s + own_decisions s requests)
        × (sampled F r.1 ≡ sampled F s + own_sampled s requests r.0)
        × (sampled F r.1 ≤ total F r.1)
        × (total F r.1 < 2 ^ 64)
  unfolding decide_all own_decisions own_sampled
  counted s rng [] h b = (omega arith, omega arith, h, omega (arith, b))
  counted s rng (q ∷ requests) h b =
      let r = sampler_should_sample F s q.0 rng q.1 in
      let s' = r.1 in
      let (more, more_sampled, same) = sampler_should_sample-Counts F s q.0 rng q.1 in
      let (below, room, add, add_sampled) =
        one_more (overridden s q.0) r.0.sampled (total F s) (sampled F s) (total F s')
          (sampled F s') (length requests) more more_sampled h b in
      let ih = counted s' r.2 requests below room in
      let ds = (decide_all s' r.2 requests).0 in
      (
        ih.0
            ∙ ap (λ m. total F s' + m) (own_decisions-congr s s' requests same)
            ∙ add (own_decisions s requests),
        ih.1
            ∙ ap (λ m. sampled F s' + m) (own_sampled-congr s s' requests ds same)
            ∙ add_sampled (own_sampled s requests ds),
        ih.2,
        ih.3,
      )

  dropped_lem :
      (s : Sampler F.Double)
      → (sampler_get_stats F s).dropped_count ≡ (total F s + 2 ^ 64 - sampled F s) % 2 ^ 64
  unfolding sampler_get_stats prob_get_stats adaptive_get_stats
  dropped_lem (probability s) = refl
  dropped_lem (adaptive s) = refl
  dropped_lem (override base entries) = dropped_lem base

  -- After any sequence of decisions, as long as the counter of decisions has room for all of them,
  -- the statistics of a sampler count the decisions that no override took, those of them that
  -- sampled, and the rest as dropped.
  pub sampler_get_stats-decide_all :
      (s : Sampler F.Double) (rng : Rng) (requests : List Request)
      → sampled F s ≤ total F s
      → total F s + length requests < 2 ^ 64
      → let r = decide_all s rng requests in
        let stats = sampler_get_stats F r.1 in
        (stats.total_decisions ≡ total F s + own_decisions s requests)
        × (stats.sampled_count ≡ sampled F s + own_sampled s requests r.0)
        × (stats.sampled_count + stats.dropped_count ≡ stats.total_decisions)
  sampler_get_stats-decide_all s rng requests h b =
      let (all, some_of, below, room) = counted s rng requests h b in
      let d = dropped_lem (decide_all s rng requests).1 in
      (all, some_of, omega (arith, d, below, room))
