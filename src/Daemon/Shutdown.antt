-- ===== src/Daemon/Shutdown.antt =====
-- No trace is lost when the collector of src/collector/main.c is destroyed.
use dapper_lite.Prelude.{
  ℕ, ◌+◌, ◌*◌, ◌<◌, ◌≤◌, ◌≡◌, refl, sym, ap, ◌∙◌, Bool, true, false, not, List, [], ◌∷◌, ◌++◌, map,
  arith, length, All, All-append,
}
use dapper_lite.Prelude.Outcome.{ok}
use dapper_lite.ByteOrder.{Host}
use dapper_lite.Collector.{Time, PartialTrace, Chain, timed_out}
use dapper_lite.Collector.Flush.{count_in, count_all}
use dapper_lite.Receiver.Create.{receiver_stop}
use dapper_lite.Storage.{read_eof, query_load_all_status}
use dapper_lite.Storage.Log.{IsStorable}
use dapper_lite.Storage.RoundTrip.{log_bytes, logged, query_load_all-log_bytes}
use dapper_lite.Daemon.{Collector, collector_destroy}
use dapper_lite.Daemon.Flush.{log_bytes-append, flush_traces-Flushed}

-- A clock that reads `now` has reached the time `t`.
pub record Reached (now t : Time) : Type 0 where
  pub proper : now.nsec < 1000000000
  pub ordered : t.sec * 1000000000 + t.nsec ≤ now.sec * 1000000000 + now.nsec

Reached-timed_out :
    (now : Time) (pt : PartialTrace) → Reached now pt.last_update → timed_out now 0 pt ≡ true
Reached-timed_out now pt h = ground (arith, h.proper, h.ordered)

module _ (due : PartialTrace → Bool) where
  abbrev stays : PartialTrace → Bool
  stays pt = not (due pt)

  AllDue : PartialTrace → Type 0
  AllDue pt = due pt ≡ true

  none_stays : (chain : Chain) → All AllDue chain → count_in stays chain ≡ 0
  unfolding AllDue
  none_stays [] h = refl
  none_stays (pt ∷ chain) h = rw h.0 (omega (arith, none_stays chain h.1))

  none_stays_all : (buckets : List Chain) → All (All AllDue) buckets → count_all stays buckets ≡ 0
  none_stays_all [] h = refl
  none_stays_all (chain ∷ buckets) h =
      omega (arith, none_stays chain h.0, none_stays_all buckets h.1)

  -- A trace that passes a test is due or stays.
  count_in-le :
      (p : PartialTrace → Bool) (chain : Chain)
      → count_in p chain ≤ count_in due chain + count_in stays chain
  count_in-le p [] = omega arith
  count_in-le p (pt ∷ chain) = ground (arith, count_in-le p chain)

  count_all-le :
      (p : PartialTrace → Bool) (buckets : List Chain)
      → count_all p buckets ≤ count_all due buckets + count_all stays buckets
  count_all-le p [] = omega arith
  count_all-le p (chain ∷ buckets) = omega (arith, count_in-le p chain, count_all-le p buckets)

module _ (clock : ℕ → Time) where
  Past : PartialTrace → Type 0
  Past pt = (k : ℕ) → Reached (clock k) pt.last_update

  all_due : (k : ℕ) (chain : Chain) → All Past chain → All (AllDue (timed_out (clock k) 0)) chain
  unfolding AllDue Past
  all_due k [] h = tt
  all_due k (pt ∷ chain) h = (Reached-timed_out (clock k) pt (h.0 k), all_due k chain h.1)

  all_buckets_due :
      (k : ℕ) (buckets : List Chain)
      → All (All Past) buckets
      → All (All (AllDue (timed_out (clock k) 0))) buckets
  all_buckets_due k [] h = tt
  all_buckets_due k (chain ∷ buckets) h = (all_due k chain h.0, all_buckets_due k buckets h.1)

-- With room for a serialized span and a file that takes all that is written: if the collector runs,
-- its log has the records of the traces of `before`, all traces in its table are storable, and no
-- reading of the clock is before the last change of one of them, then `collector_destroy` ends,
-- and `query_load_all` reads from the log that it closes the traces of `before` and, behind them,
-- those of the table, each once.
pub query_load_all-collector_destroy :
    (host : Host) (scratch : List ℕ) (written : ℕ → ℕ) (clock : ℕ → Time) (c : Collector)
    (before : Chain)
    → 256 ≤ length scratch
    → ((n : ℕ) → written n ≡ n)
    → c.running ≡ true
    → c.log ≡ log_bytes before
    → All IsStorable before
    → All (All IsStorable) c.receiver.trace_map.buckets
    → All (All (λ pt. (k : ℕ) → Reached (clock k) pt.last_update)) c.receiver.trace_map.buckets
    → (log : List ℕ) × (collector_destroy host scratch written clock c ≡ ok log)
      × (out : Chain) × (query_load_all_status host log ≡ ok (map logged (before ++ out), read_eof))
      × ((p : PartialTrace → Bool) → count_in p out ≡ count_all p c.receiver.trace_map.buckets)
unfolding collector_destroy Past
query_load_all-collector_destroy host scratch written clock c before room whole runs old old_ok
      ok_all past =
    let stopped = record c { receiver = receiver_stop c.receiver; running = false } in
    let (c', ran, f) =
      flush_traces-Flushed host scratch written room whole clock 0 stopped ok_all in
    let due = timed_out (clock f.last_turn) 0 in
    let none_before =
      none_stays_all due c.receiver.trace_map.buckets
        (all_buckets_due clock f.last_turn c.receiver.trace_map.buckets past) in
    (
      c'.log,
      rw (runs, ran) refl,
      f.out,
      ap (query_load_all_status host) (
            f.log_grows
            ∙ ap (λ log. log ++ log_bytes f.out) old
            ∙ sym (log_bytes-append before f.out))
          ∙ query_load_all-log_bytes host (before ++ f.out)
              (All-append IsStorable before f.out old_ok f.out_ok),
      λ p. omega (
        arith,
        f.all_there p,
        count_all-le due p c'.receiver.trace_map.buckets,
        f.none_due,
        f.all_there (stays due),
        none_before,
      ),
    )
