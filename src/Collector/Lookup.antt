-- ===== src/Collector/Lookup.antt =====
-- Looking a trace up in a table of src/collector/assembler.c of which one entry was updated.
use dapper_lite.Prelude.{
  ℕ, zero, suc, ◌<◌, ◌≡◌, refl, Bool, none, some, List, [], ◌∷◌, arith, ◌==◌, if◌then◌else◌, length,
  set,
}
use mathlib.Core.Option
use dapper_lite.ByteOrder.{Host}
use dapper_lite.Core.{Span}
use dapper_lite.Collector.{
  Time, PartialTrace, partial_trace_create, partial_trace_add_span, Chain, TraceMap, trace_id_hash,
  find_in, update_in, chain_at, insert_span, trace_map_find,
}

-- The hash is taken modulo the number of buckets, all of which exist.
pub record IsTable (tm : TraceMap) : Type 0 where
  pub some_bucket : 0 < tm.num_buckets
  pub all_buckets : length tm.buckets ≡ tm.num_buckets

hash-lt : (host : Host) (id n : ℕ) → 0 < n → trace_id_hash host id n < n
unfolding trace_id_hash
hash-lt host id n h = omega arith

chain_at-set :
    (buckets : List Chain) (i j : ℕ) (c : Chain)
    → i < length buckets
    → chain_at (set buckets i c) j ≡ (if i == j then c else chain_at buckets j)
unfolding chain_at
chain_at-set [] i j c h = absurd (omega arith)
chain_at-set (d ∷ buckets) zero zero c h = refl
chain_at-set (d ∷ buckets) zero (suc j) c h = ground arith
chain_at-set (d ∷ buckets) (suc i) zero c h = ground arith
chain_at-set (d ∷ buckets) (suc i) (suc j) c h = ground (arith, chain_at-set buckets i j c)

-- The entry of `id`, as it is updated.
find_in-update_in :
    (id j : ℕ) (f : PartialTrace → PartialTrace) (chain : Chain)
    → ((p : PartialTrace) → (f p).trace_id ≡ p.trace_id)
    → find_in j (update_in id f chain)
      ≡ (if id == j then Option.map f (find_in j chain) else find_in j chain)
unfolding find_in update_in
find_in-update_in id j f [] h = ground arith
find_in-update_in id j f (p ∷ chain) h = ground (arith, h p, find_in-update_in id j f chain h)

unfoldable pub entry_or_new : Host → TraceMap → ℕ → Time → PartialTrace
entry_or_new host tm id now = elim (trace_map_find host tm id) [
  | some pt ↦ pt
  | none ↦ partial_trace_create id now
]

add-trace_id :
    (p : PartialTrace) (span : Span) (sampled : Bool) (now : Time)
    → (partial_trace_add_span p span sampled now).trace_id ≡ p.trace_id
unfolding partial_trace_add_span
add-trace_id p span sampled now = refl

module _ (host : Host) (tm : TraceMap) (span : Span) (sampled : Bool) (now : Time)
    (v : IsTable tm) where
  abbrev pub id : ℕ
  id = span.trace_id

  abbrev pub bucket : ℕ
  bucket = trace_id_hash host id tm.num_buckets

  abbrev pub add : PartialTrace → PartialTrace
  add p = partial_trace_add_span p span sampled now

  bucket_in : bucket < length tm.buckets
  bucket_in = omega (arith, v.all_buckets, hash-lt host id tm.num_buckets v.some_bucket)

  -- The lookup after the second half of the insertion, of a trace that stands in `chain`.
  pub find-insert_span :
      (n j : ℕ) (chain : Chain) (pt : PartialTrace)
      → find_in id chain ≡ some pt
      → let r = insert_span host (record tm { count = n }) bucket chain pt span sampled now in
        trace_map_find host r.0 j ≡ (
          if trace_id_hash host j tm.num_buckets == bucket
          then (if r.1
              then (if id == j then some (add pt) else find_in j chain)
              else find_in j chain)
          else trace_map_find host tm j)
  unfolding insert_span trace_map_find
  find-insert_span n j chain pt e =
      let h = trace_id_hash host j tm.num_buckets in
      ground (
        arith,
        e,
        chain_at-set tm.buckets bucket h chain bucket_in,
        chain_at-set tm.buckets bucket h (update_in id add chain) bucket_in,
        find_in-update_in id j add chain (λ p. add-trace_id p span sampled now),
      )
