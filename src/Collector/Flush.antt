-- ===== src/Collector/Flush.antt =====
-- What `trace_map_flush` hands out, and what stays.
use dapper_lite.Prelude.{
  ltb, ℕ, zero, suc, ◌+◌, ◌-◌, ◌≤◌, ◌<◌, ◌≡◌, refl, Bool, true, Bool-cases, ◌⊎◌, inl, inr, List, [],
  ◌∷◌, ◌++◌, arith, ◌==◌, if◌then◌else◌, length, length-append, All, All-append,
}
use dapper_lite.Collector.{
  Time, PartialTrace, Chain, TraceMap, timed_out, flush_chain, flush_buckets, trace_map_flush,
}

-- How many traces pass a test, in a chain and in all buckets.
abbrev pub count_in : (PartialTrace → Bool) → Chain → ℕ
count_in p [] = 0
count_in p (pt ∷ chain) = (if p pt then 1 else 0) + count_in p chain

abbrev pub count_all : (PartialTrace → Bool) → List Chain → ℕ
count_all p [] = 0
count_all p (chain ∷ buckets) = count_in p chain + count_all p buckets

pub count_in-append :
    (p : PartialTrace → Bool) (xs ys : Chain)
    → count_in p (xs ++ ys) ≡ count_in p xs + count_in p ys
count_in-append p [] ys = omega arith
count_in-append p (x ∷ xs) ys = omega (arith, count_in-append p xs ys)

abbrev pub Is : Bool → Type 0
Is b = b ≡ true

module _ (now : Time) (timeout : ℕ) where
  abbrev due : PartialTrace → Bool
  due = timed_out now timeout

  flush_chain_out :
      (room : ℕ) (chain : Chain)
      → let (kept, out) = flush_chain now timeout room chain in
        All (λ pt. Is (due pt)) out
        × (length out ≤ room)
        × (length out < room → count_in due kept ≡ 0)
  unfolding flush_chain
  flush_chain_out room [] = (tt, omega arith, λ h. refl)
  flush_chain_out zero (pt ∷ chain) = (tt, omega arith, λ h. absurd (omega arith))
  flush_chain_out (suc room) (pt ∷ chain) =
      let a = flush_chain_out room chain in
      let b = flush_chain_out (suc room) chain in
      elim (Bool-cases (due pt)) [
        | inl e ↦ rw e ((e, a.0), omega (arith, a.1), λ h. a.2 (omega arith))
        | inr e ↦ rw e (b.0, b.1, λ h. rw e (omega (arith, b.2 h)))
      ]

  flush_chain_count :
      (p : PartialTrace → Bool) (room : ℕ) (chain : Chain)
      → let (kept, out) = flush_chain now timeout room chain in
        count_in p kept + count_in p out ≡ count_in p chain
  unfolding flush_chain
  flush_chain_count p room [] = omega arith
  flush_chain_count p zero (pt ∷ chain) = omega arith
  flush_chain_count p (suc room) (pt ∷ chain) =
      let a = flush_chain_count p room chain in
      let b = flush_chain_count p (suc room) chain in
      elim (Bool-cases (due pt)) [
        | inl e ↦ rw e (omega (arith, a))
        | inr e ↦ rw e (omega (arith, b))
      ]

  flush_buckets_out :
      (room : ℕ) (buckets : List Chain)
      → let (kept, out) = flush_buckets now timeout room buckets in
        All (λ pt. Is (due pt)) out
        × (length out ≤ room)
        × (length out < room → count_all due kept ≡ 0)
  unfolding flush_buckets
  flush_buckets_out room [] = (tt, omega arith, λ h. refl)
  flush_buckets_out room (chain ∷ buckets) =
      let c = flush_chain now timeout room chain in
      let a = flush_chain_out room chain in
      let rest = flush_buckets now timeout (room - length c.1) buckets in
      let b = flush_buckets_out (room - length c.1) buckets in
      let l = length-append {A = PartialTrace} c.1 rest.1 in
      (
        All-append (λ pt. Is (due pt)) c.1 rest.1 a.0 b.0,
        omega (arith, l, a.1, b.1),
        λ h. omega (arith, l, a.2 (omega (arith, l)), b.2 (omega (arith, l))),
      )

  flush_buckets_count :
      (p : PartialTrace → Bool) (room : ℕ) (buckets : List Chain)
      → let (kept, out) = flush_buckets now timeout room buckets in
        count_all p kept + count_in p out ≡ count_all p buckets
  unfolding flush_buckets
  flush_buckets_count p room [] = omega arith
  flush_buckets_count p room (chain ∷ buckets) =
      let c = flush_chain now timeout room chain in
      let rest = flush_buckets now timeout (room - length c.1) buckets in
      omega (
        arith,
        flush_chain_count p room chain,
        flush_buckets_count p (room - length c.1) buckets,
        count_in-append p c.1 rest.1,
      )

less_or_all : {A : Type 0} (n m : ℕ) → n ≤ m → (n < m → A) → (n ≡ m) ⊎ A
less_or_all n m h f = elim (Bool-cases (ltb n m)) [
  | inl e ↦ inr (f (ground (arith, e)))
  | inr e ↦ inl (ground (arith, e, h))
]

-- `trace_map_flush` hands out only traces whose time is over, at most `max_out` of them, and it
-- hands out that many or none of those that stay has its time over. No trace is lost, invented or
-- changed: for every test, those that pass it before are those that stay and those that are
-- handed out.
pub trace_map_flush_lem :
    (tm : TraceMap) (max_out timeout : ℕ) (now : Time)
    → let (tm', out) = trace_map_flush tm max_out timeout now in
      All (λ pt. Is (timed_out now timeout pt)) out
      × (length out ≤ max_out)
      × ((length out ≡ max_out) ⊎ (count_all (timed_out now timeout) tm'.buckets ≡ 0))
      × ((p : PartialTrace → Bool)
          → count_all p tm'.buckets + count_in p out ≡ count_all p tm.buckets)
unfolding trace_map_flush
trace_map_flush_lem tm max_out timeout now =
    let o = flush_buckets_out now timeout max_out tm.buckets in
    elim (Bool-cases (max_out == 0)) [
      | inl e ↦ rw e (tt, omega arith, inl (ground (arith, e)), λ p. omega arith)
      | inr e ↦ rw e (
        o.0,
        o.1,
        less_or_all _ max_out o.1 o.2,
        λ p. flush_buckets_count now timeout p max_out tm.buckets,
      )
    ]

-- A property of all traces holds of those that stay and of those that are handed out.
module _ (P : PartialTrace → Type 0) (now : Time) (timeout : ℕ) where
  flush_chain-All :
      (room : ℕ) (chain : Chain)
      → All P chain
      → let (kept, out) = flush_chain now timeout room chain in All P kept × All P out
  unfolding flush_chain
  flush_chain-All room [] h = (tt, tt)
  flush_chain-All zero (pt ∷ chain) h = (h, tt)
  flush_chain-All (suc room) (pt ∷ chain) h =
      let a = flush_chain-All room chain h.1 in
      let b = flush_chain-All (suc room) chain h.1 in
      elim (Bool-cases (timed_out now timeout pt)) [
        | inl e ↦ rw e (a.0, (h.0, a.1))
        | inr e ↦ rw e ((h.0, b.0), b.1)
      ]

  chains-append : (xs ys : Chain) → All P xs → All P ys → All P (xs ++ ys)
  chains-append [] ys h k = k
  chains-append (x ∷ xs) ys h k = (h.0, chains-append xs ys h.1 k)

  flush_buckets-All :
      (room : ℕ) (buckets : List Chain)
      → All (All P) buckets
      → let (kept, out) = flush_buckets now timeout room buckets in All (All P) kept × All P out
  unfolding flush_buckets
  flush_buckets-All room [] h = (tt, tt)
  flush_buckets-All room (chain ∷ buckets) h =
      let c = flush_chain now timeout room chain in
      let rest = flush_buckets now timeout (room - length c.1) buckets in
      let a = flush_chain-All room chain h.0 in
      let b = flush_buckets-All (room - length c.1) buckets h.1 in
      ((a.0, b.0), chains-append c.1 rest.1 a.1 b.1)

  pub trace_map_flush-All :
      (tm : TraceMap) (max_out : ℕ)
      → All (All P) tm.buckets
      → let (tm', out) = trace_map_flush tm max_out timeout now in
        All (All P) tm'.buckets × All P out
  unfolding trace_map_flush
  trace_map_flush-All tm max_out h = elim (Bool-cases (max_out == 0)) [
    | inl e ↦ rw e (h, tt)
    | inr e ↦ rw e (flush_buckets-All max_out tm.buckets h)
  ]
