-- ===== src/Receiver/Window.antt =====
-- The window of the rate limit in src/collector/receiver.c, against the seconds of the datagrams.
use dapper_lite.Prelude.{
  ℕ, ◌+◌, ◌<◌, ◌≡◌, refl, ap, ==→eq, false, Bool-cases, inl, inr, List, ◌∷◌, arith, ltb, leb, ◌==◌,
  if◌then◌else◌,
}
use dapper_lite.Collector.{Time}
use dapper_lite.Receiver.{Receiver, rate_limit}
use dapper_lite.Receiver.Fates.{run_length, is_over}

below_or_not : (limit n : ℕ) → ltb limit (n + 1) ≡ leb limit n
below_or_not limit n = ground arith

nonzero : (n : ℕ) → (n == 0) ≡ false → 0 < n
nonzero n h = ground arith

one_more :
    {now sec : ℕ} (seconds : List ℕ) (count : ℕ)
    → sec ≡ now
    → count ≡ run_length now seconds
    → count + 1 ≡ run_length sec seconds + 1
one_more seconds count same e = rw same (ap (λ k. k + 1) e)

run_length-next :
    (now count sec : ℕ) (seconds : List ℕ)
    → count ≡ run_length now seconds
    → (if sec == now then (count + 1) else 0) ≡ run_length sec (now ∷ seconds)
unfolding run_length
run_length-next now count sec seconds e = elim (Bool-cases (sec == now)) [
  | inl same ↦ rw same (one_more seconds count (==→eq sec now same) e)
  | inr other ↦ rw other refl
]

module _ (limit : ℕ) (sources : List ℕ) where
  -- The receiver's settings, and its window as the datagrams of `seconds` left it.
  pub record Keeps (seconds : List ℕ) (r : Receiver) : Type 0 where
    pub limit_kept : r.max_packets_per_sec ≡ limit
    pub sources_kept : r.allowed ≡ sources
    pub window :
        (limit == 0) ≡ false
        → (sec : ℕ) → (if sec == r.window_sec then r.window_count else 0) ≡ run_length sec seconds

  pub rate_limit-is_over :
      (r : Receiver) (now : Time) (seconds : List ℕ)
      → Keeps seconds r
      → (rate_limit r now).1 ≡ is_over limit seconds now.sec
  unfolding rate_limit is_over
  rate_limit-is_over r now seconds k = elim (Bool-cases (limit == 0)) [
    | inl e ↦ rw (k.limit_kept, e) refl
    | inr e ↦
        rw (k.limit_kept, e, k.window e now.sec) (below_or_not limit (run_length now.sec seconds))
  ]

  pub rate_limit-Keeps :
      (r : Receiver) (now : Time) (seconds : List ℕ)
      → Keeps seconds r
      → Keeps (now.sec ∷ seconds) (rate_limit r now).0
  unfolding rate_limit
  rate_limit-Keeps r now seconds k = elim (Bool-cases (r.max_packets_per_sec == 0)) [
    | inl e ↦ rw e (record {
      limit_kept = k.limit_kept;
      sources_kept = k.sources_kept;
      window = λ f.
          absurd (omega (arith, ==→eq r.max_packets_per_sec 0 e, k.limit_kept, nonzero limit f));
    })
    | inr e ↦ rw e (record {
      limit_kept = k.limit_kept;
      sources_kept = k.sources_kept;
      window = λ f sec. run_length-next now.sec _ sec seconds (k.window f now.sec);
    })
  ]
