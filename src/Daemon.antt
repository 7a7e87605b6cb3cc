-- ===== src/Daemon.antt =====
-- src/collector/main.c: the collector that owns the receiver, the table and the log, and the
-- flush thread's `flush_traces`. Its calls are taken one at a time.
pub mod Flush
pub mod Creation
pub mod Shutdown
pub mod Lifecycle
use dapper_lite.Prelude.{
  ℕ, zero, suc, ◌+◌, ◌%◌, ◌^◌, Bool, true, false, ◌||◌, Option, none, some, List, [], ◌∷◌, ltb,
  ◌==◌, if◌then◌else◌, length,
}
use dapper_lite.Prelude.Outcome.{Outcome, ok, failed, fault, ◌>>=◌}
use dapper_lite.ByteOrder.{Host}
use dapper_lite.Collector.{
  Time, PartialTrace, Chain, TraceMap, trace_map_create, trace_map_set_limits,
  trace_map_get_drop_stats, trace_map_flush, trace_map_default_buckets, default_max_active_traces,
  default_max_spans_per_trace,
}
use dapper_lite.Receiver.{Receiver}
use dapper_lite.Receiver.Create.{
  Network, or_failed, receiver_create, receiver_start, receiver_stop, receiver_port,
}
use dapper_lite.Prelude.Int.{ℤ, negsuc}
use dapper_lite.Collector.Config.{Config}
use dapper_lite.Storage.{storage_write_trace}

-- The receiver has the table. `log` is what the storage has written to its file.
pub record Collector : Type 0 where
  pub config : Config
  pub receiver : Receiver
  pub log : List ℕ
  pub running : Bool
  pub traces_completed : ℕ
  pub traces_timed_out : ℕ
  pub storage_writes : ℕ
  pub storage_errors : ℕ

pub record CollectorStats : Type 0 where
  pub packets_received : ℕ
  pub packets_invalid : ℕ
  pub packets_unauthorized : ℕ
  pub packets_rate_limited : ℕ
  pub spans_processed : ℕ
  pub spans_dropped : ℕ
  pub traces_dropped : ℕ
  pub traces_completed : ℕ
  pub traces_timed_out : ℕ
  pub storage_writes : ℕ
  pub storage_errors : ℕ

abbrev count_up : ℕ → ℕ
count_up n = (n + 1) % 2 ^ 64

-- `storage_open` gives what the file has, if it can be opened for appending. The other arguments are
-- those of `receiver_create`.
unfoldable pub collector_create :
    (List ℕ → Option (List ℕ)) → (List ℕ → Option ℕ) → Network → Option Config → Outcome Collector
unfolding receiver_create
collector_create storage_open inet_pton network none = failed
collector_create storage_open inet_pton network (some config) = do
  path ← or_failed config.storage_path
  let trace_map =
      trace_map_set_limits (trace_map_create config.map_buckets) config.max_active_traces
        config.max_spans_per_trace
  log ← or_failed (storage_open path)
  receiver ← receiver_create inet_pton network config trace_map
  ok (record {
    config = config;
    receiver = receiver;
    log = log;
    running = false;
    traces_completed = 0;
    traces_timed_out = 0;
    storage_writes = 0;
    storage_errors = 0;
  })

-- The two arguments say whether the threads can be created. The result is 0 or -1.
unfoldable pub collector_start : Bool → Bool → Collector → Collector × Bool
unfolding receiver_start receiver_stop
collector_start receiver_thread flush_thread c =
    let (receiver, started) = receiver_start receiver_thread c.receiver in
    if started
    then if flush_thread
      then (record c { receiver = receiver; running = true }, true)
      else (record c { receiver = receiver_stop receiver; running = false }, false)
    else (record c { receiver = receiver; running = false }, false)

unfoldable pub collector_port : Option Collector → ℤ
collector_port none = negsuc 0
collector_port (some c) = receiver_port (some c.receiver)

unfoldable pub collector_get_stats : Collector → CollectorStats
collector_get_stats c =
    let (traces_dropped, spans_dropped) = trace_map_get_drop_stats c.receiver.trace_map in
    record {
      packets_received = c.receiver.packets_received;
      packets_invalid = c.receiver.packets_invalid;
      packets_unauthorized = c.receiver.packets_unauthorized;
      packets_rate_limited = c.receiver.packets_rate_limited;
      spans_processed = c.receiver.spans_processed;
      spans_dropped = spans_dropped;
      traces_dropped = traces_dropped;
      traces_completed = c.traces_completed;
      traces_timed_out = c.traces_timed_out;
      storage_writes = c.storage_writes;
      storage_errors = c.storage_errors;
    }

abbrev pub max_flush_batch : ℕ
max_flush_batch = 256

abbrev pub with_map : Collector → TraceMap → Collector
with_map c tm = record c { receiver = record c.receiver { trace_map = tm } }

unfoldable pub batch_size : Config → ℕ
batch_size config =
    if config.flush_count == 0 || ltb max_flush_batch config.flush_count
    then max_flush_batch
    else config.flush_count

unfoldable pub count_trace : Collector → PartialTrace → Collector
count_trace c pt =
    if pt.has_root
    then record c { traces_completed = count_up c.traces_completed }
    else record c { traces_timed_out = count_up c.traces_timed_out }

-- What the result of `storage_write_trace` does to the collector.
unfoldable pub stored : Collector → Outcome (List ℕ × Bool) → Outcome Collector
stored c (ok (log, true)) = ok (record c { log = log; storage_writes = count_up c.storage_writes })
stored c (ok (log, false)) = ok (record c { log = log; storage_errors = count_up c.storage_errors })
stored c failed = ok (record c { storage_errors = count_up c.storage_errors })
stored c fault = fault

module _ (host : Host) (scratch : List ℕ) (written : ℕ → ℕ) where
  -- The loop over a batch.
  unfoldable pub store_batch : Collector → Chain → Outcome Collector
  unfolding stored count_trace
  store_batch c [] = ok c
  store_batch c (pt ∷ batch) =
      stored (count_trace c pt) (storage_write_trace host scratch written c.log pt) >>= λ c'.
      store_batch c' batch

  -- The loop over the batches; `clock` has the reading of each turn. `failed` means that the fuel
  -- ran out.
  unfoldable pub flush_loop : ℕ → (ℕ → Time) → ℕ → Collector → Outcome Collector
  flush_loop zero clock timeout c = failed
  flush_loop (suc fuel) clock timeout c =
      let (tm, batch) =
        trace_map_flush c.receiver.trace_map (batch_size c.config) timeout (clock fuel) in
      elim batch [
        | [] ↦ ok (with_map c tm)
        | pt ∷ rest ↦
            store_batch (with_map c tm) (pt ∷ rest) >>= λ c'. flush_loop fuel clock timeout c'
      ]

-- How many traces wait.
abbrev pub waiting : List Chain → ℕ
waiting [] = 0
waiting (chain ∷ buckets) = length chain + waiting buckets

module _ (host : Host) (scratch : List ℕ) (written : ℕ → ℕ) where
  -- Every turn but the last takes one of the waiting traces at least.
  unfoldable pub flush_traces : (ℕ → Time) → ℕ → Collector → Outcome Collector
  flush_traces clock timeout c =
      flush_loop host scratch written (waiting c.receiver.trace_map.buckets + 1) clock timeout c

  -- `collector_stop` once the two threads have ended: all that waits is flushed, with timeout 0.
  unfoldable pub collector_stop : (ℕ → Time) → Collector → Outcome Collector
  unfolding flush_traces receiver_stop
  collector_stop clock c =
      let stopped = record c { receiver = receiver_stop c.receiver; running = false } in
      let flushed = flush_traces clock 0 stopped in if c.running then flushed else ok c

  -- The log that is closed.
  unfoldable pub collector_destroy : (ℕ → Time) → Collector → Outcome (List ℕ)
  unfolding collector_stop
  collector_destroy clock c = collector_stop clock c >>= λ c'. ok c'.log
