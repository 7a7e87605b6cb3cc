-- ===== src/Daemon/Flush.antt =====
-- `flush_traces` ends, leaves no trace that has timed out, and the log gets all that it takes.
use dapper_lite.Prelude.{
  ℕ, zero, suc, ◌+◌, ◌%◌, ◌^◌, ◌<◌, ◌≤◌, ◌≡◌, refl, sym, ap, ◌∙◌, Bool, true, Bool-cases, ◌⊎◌, inl,
  inr, List, [], ◌∷◌, ◌++◌, arith, append_assoc, append-nil, eq→==, length, All, All-append,
}
use dapper_lite.Prelude.Outcome.{ok, ◌>>=◌}
use dapper_lite.ByteOrder.{Host}
use dapper_lite.Collector.{Time, PartialTrace, Chain, TraceMap, timed_out, trace_map_flush}
use dapper_lite.Collector.Flush.{
  count_in, count_all, count_in-append, trace_map_flush_lem, trace_map_flush-All,
}
use dapper_lite.Storage.{storage_write_trace}
use dapper_lite.Storage.Log.{record_bytes, IsStorable, storage_write_trace_lem}
use dapper_lite.Storage.RoundTrip.{log_bytes, take_whole}
use dapper_lite.Collector.Config.{Config}
use dapper_lite.Daemon.{
  Collector, with_map, batch_size, count_trace, stored, store_batch, flush_loop, waiting,
  flush_traces,
}

pub log_bytes-append : (xs ys : Chain) → log_bytes (xs ++ ys) ≡ log_bytes xs ++ log_bytes ys
unfolding log_bytes
log_bytes-append [] ys = refl
log_bytes-append (x ∷ xs) ys =
    rw (log_bytes-append xs ys) (sym (append_assoc (record_bytes x) (log_bytes xs) (log_bytes ys)))

abbrev every : PartialTrace → Bool
every pt = true

count_in-every : (chain : Chain) → count_in every chain ≡ length chain
count_in-every [] = refl
count_in-every (pt ∷ chain) = omega (arith, count_in-every chain)

count_all-every : (buckets : List Chain) → count_all every buckets ≡ waiting buckets
count_all-every [] = refl
count_all-every (chain ∷ buckets) = omega (arith, count_in-every chain, count_all-every buckets)

batch_size_positive : (config : Config) → 0 < batch_size config
unfolding batch_size
batch_size_positive config = ground arith

-- The collector behind a step that wrote the records of `out` and left the table as it is.
record Wrote (c c' : Collector) (out : Chain) : Type 0 where
  log_grows : c'.log ≡ c.log ++ log_bytes out
  same_map : c'.receiver ≡ c.receiver
  same_config : c'.config ≡ c.config

count_trace_keeps :
    (c : Collector) (pt : PartialTrace)
    → ((count_trace c pt).receiver ≡ c.receiver) × ((count_trace c pt).config ≡ c.config)
unfolding count_trace
count_trace_keeps c pt = elim (Bool-cases pt.has_root) [
  | inl e ↦ rw e (refl, refl)
  | inr e ↦ rw e (refl, refl)
]

-- What `flush_traces` has done: it took `out` out of the table, wrote their records in that order
-- behind the log, and at its last reading of the clock no trace that stayed had timed out.
pub record Flushed (clock : ℕ → Time) (timeout : ℕ) (c c' : Collector) : Type 0 where
  pub out : Chain
  pub out_ok : All IsStorable out
  pub log_grows : c'.log ≡ c.log ++ log_bytes out
  pub all_there :
      (p : PartialTrace → Bool)
      → count_all p c'.receiver.trace_map.buckets + count_in p out
        ≡ count_all p c.receiver.trace_map.buckets
  pub last_turn : ℕ
  pub none_due : count_all (timed_out (clock last_turn) timeout) c'.receiver.trace_map.buckets ≡ 0

module _ (host : Host) (scratch : List ℕ) (written : ℕ → ℕ) (room : 256 ≤ length scratch)
    (whole : (n : ℕ) → written n ≡ n) where
  store_one :
      (c : Collector) (pt : PartialTrace)
      → IsStorable pt
      → (c' : Collector) × (stored
            (count_trace c pt)
            (storage_write_trace host scratch written c.log pt)
          ≡ ok c')
        × (c'.log ≡ c.log ++ record_bytes pt)
        × (c'.receiver ≡ c.receiver)
        × (c'.config ≡ c.config)
  unfolding stored
  store_one c pt s =
      let bytes = record_bytes pt in
      let c0 = count_trace c pt in
      let kept = count_trace_keeps c pt in
      rw
        (
          storage_write_trace_lem host scratch written c.log pt room s,
          whole (length bytes),
          eq→== (length bytes) (length bytes) refl,
          take_whole bytes,
        )
        (
          record c0 { log = c.log ++ bytes; storage_writes = (c0.storage_writes + 1) % 2 ^ 64 },
          refl,
          refl,
          kept.0,
          kept.1,
        )

  store_batch-Wrote :
      (c : Collector) (batch : Chain)
      → All IsStorable batch
      → (c' : Collector) × (store_batch host scratch written c batch ≡ ok c') × Wrote c c' batch
  unfolding store_batch log_bytes
  store_batch-Wrote c [] h =
      (c, refl, record { log_grows = sym (append-nil _); same_map = refl; same_config = refl })
  store_batch-Wrote c (pt ∷ batch) h =
      let (c1, run, log1, map1, config1) = store_one c pt h.0 in
      let (c2, runs, w) = store_batch-Wrote c1 batch h.1 in
      (
        c2,
        rw run runs,
        record {
          log_grows =
              w.log_grows ∙ rw log1 (append_assoc c.log (record_bytes pt) (log_bytes batch));
          same_map = w.same_map ∙ map1;
          same_config = w.same_config ∙ config1;
        },
      )

  -- The facts about one turn that the loop goes on from.
  record Turn (now : Time) (timeout bs : ℕ) (c : Collector) (tm : TraceMap) (batch : Chain)
      : Type 0 where
    kept_ok : All (All IsStorable) tm.buckets
    batch_ok : All IsStorable batch
    exhausted : (length batch ≡ bs) ⊎ (count_all (timed_out now timeout) tm.buckets ≡ 0)
    counts :
        (p : PartialTrace → Bool)
        → count_all p tm.buckets + count_in p batch ≡ count_all p c.receiver.trace_map.buckets

  flush_Turn :
      (now : Time) (timeout : ℕ) (c : Collector)
      → All (All IsStorable) c.receiver.trace_map.buckets
      → let (tm, batch) = trace_map_flush c.receiver.trace_map (batch_size c.config) timeout now in
        Turn now timeout (batch_size c.config) c tm batch
  flush_Turn now timeout c h =
      let bs = batch_size c.config in
      let a = trace_map_flush-All IsStorable now timeout c.receiver.trace_map bs h in
      let l = trace_map_flush_lem c.receiver.trace_map bs timeout now in
      record { kept_ok = a.0; batch_ok = a.1; exhausted = l.2; counts = l.3 }

  flush_loop-Flushed :
      (fuel : ℕ) (clock : ℕ → Time) (timeout : ℕ) (c : Collector)
      → All (All IsStorable) c.receiver.trace_map.buckets
      → waiting c.receiver.trace_map.buckets < fuel
      → (c' : Collector) × (flush_loop host scratch written fuel clock timeout c ≡ ok c')
        × Flushed clock timeout c c'
  unfolding flush_loop
  flush_loop-Flushed zero clock timeout c h l = absurd (omega arith)
  flush_loop-Flushed (suc fuel) clock timeout c h l =
      let q = trace_map_flush c.receiver.trace_map (batch_size c.config) timeout (clock fuel) in
      go q.0 q.1 (flush_Turn (clock fuel) timeout c h)
        (λ c1. flush_loop-Flushed fuel clock timeout c1)
    where
      empty_batch : {A : Type 0} → (0 ≡ batch_size c.config) ⊎ A → A
      empty_batch (inl e) = absurd (omega (arith, e, batch_size_positive c.config))
      empty_batch (inr a) = a

      go :
          (tm : TraceMap) (batch : Chain)
          → Turn (clock fuel) timeout (batch_size c.config) c tm batch
          → ((c1 : Collector)
              → All (All IsStorable) c1.receiver.trace_map.buckets
              → waiting c1.receiver.trace_map.buckets < fuel
              → (c' : Collector) × (flush_loop host scratch written fuel clock timeout c1 ≡ ok c')
                × Flushed clock timeout c1 c')
          → (c' : Collector) × ((elim batch [
            | [] ↦ ok (with_map c tm)
            | pt ∷ rest ↦ store_batch host scratch written (with_map c tm) (pt ∷ rest) >>= λ c'.
                flush_loop host scratch written fuel clock timeout c'
          ])
              ≡ ok c')
            × Flushed clock timeout c c'
      go tm [] t ih = (
        with_map c tm,
        refl,
        record {
          out = [];
          out_ok = tt;
          log_grows = unfold log_bytes in sym (append-nil _);
          all_there = λ p. t.counts p;
          last_turn = fuel;
          none_due = empty_batch t.exhausted;
        },
      )
      go tm (pt ∷ rest) t ih =
          let (c1, stored_all, w) = store_batch-Wrote (with_map c tm) (pt ∷ rest) t.batch_ok in
          let same : c1.receiver.trace_map.buckets ≡ tm.buckets =
            ap (λ r. r.trace_map.buckets) w.same_map in
          let fewer : waiting c1.receiver.trace_map.buckets < fuel = omega (
            arith,
            ap (λ b. waiting b) same,
            t.counts every,
            count_all-every tm.buckets,
            count_all-every c.receiver.trace_map.buckets,
            count_in-every (pt ∷ rest),
            l,
          ) in
          let (c2, runs, f) = ih c1 (rw same t.kept_ok) fewer in
          (
            c2,
            rw stored_all runs,
            record {
              out = (pt ∷ rest) ++ f.out;
              out_ok = All-append IsStorable (pt ∷ rest) f.out t.batch_ok f.out_ok;
              log_grows =
                  f.log_grows
                  ∙ rw (w.log_grows, log_bytes-append (pt ∷ rest) f.out)
                      (append_assoc c.log (log_bytes (pt ∷ rest)) (log_bytes f.out));
              all_there = λ p. omega (
                arith,
                f.all_there p,
                t.counts p,
                ap (λ b. count_all p b) same,
                count_in-append p (pt ∷ rest) f.out,
              );
              last_turn = f.last_turn;
              none_due = f.none_due;
            },
          )

  -- With room for a serialized span, a file that takes all that is written and storable traces in
  -- the table, `flush_traces` ends: in batches it hands out traces until none that stays had timed
  -- out at the last reading of the clock, it loses no trace, and behind the log it writes the
  -- record of every trace that it took, in that order.
  pub flush_traces-Flushed :
      (clock : ℕ → Time) (timeout : ℕ) (c : Collector)
      → All (All IsStorable) c.receiver.trace_map.buckets
      → (c' : Collector) × (flush_traces host scratch written clock timeout c ≡ ok c')
        × Flushed clock timeout c c'
  unfolding flush_traces
  flush_traces-Flushed clock timeout c h =
      flush_loop-Flushed (waiting c.receiver.trace_map.buckets + 1) clock timeout c h (omega arith)
