-- ===== src/Tests/Collecting.antt =====
-- The theorems on the collector, at a table of two buckets and a log of two traces.
use dapper_lite.Prelude.{
  ℕ, length-append, ◌<◌, ◌≤◌, ◌≡◌, ◌+◌, refl, Bool, true, ◌⊎◌, none, List, [], ◌∷◌, ◌++◌, arith,
  length, replicate, map, take, All, ◌==◌,
}
use dapper_lite.Prelude.Outcome.{ok, Safe}
use dapper_lite.ByteOrder.{be_bytes, little, big}
use dapper_lite.ByteOrder.Laws.{IsByte, length-be_bytes}
use dapper_lite.Wire.Layout.{IsSpan}
use dapper_lite.Collector.{PartialTrace, Chain, timed_out, trace_map_flush, collector_decode_span}
use dapper_lite.Collector.Flush.{Is, count_in, count_all, trace_map_flush_lem}
use dapper_lite.Receiver.{
  Packet, Receiver, Received, interrupted, arrived, broken, receiver_thread_func,
}
use dapper_lite.Receiver.Accounting.{AreBytes, IsBalanced, drops, collector_decode_span-Safe}
use dapper_lite.Receiver.Fates.{fates}
use dapper_lite.Receiver.Counted.{Counted}
use dapper_lite.Receiver.Tally.{receiver_thread_func-Counted}
use dapper_lite.Storage.{storage_write_trace, query_load_all_status, read_eof, read_corrupt}
use dapper_lite.Storage.Log.{spans_bytes, record_bytes, IsStorable, storage_write_trace_lem}
use dapper_lite.Storage.RoundTrip.{write_all, logged, log_bytes, query_load_all-write_all}
use dapper_lite.Storage.Cut.{query_load_all-cut}
use dapper_lite.Storage.Torn.{query_load_all-short_tail}
use dapper_lite.Daemon.{Collector, flush_traces, collector_destroy}
use dapper_lite.Collector.Gathered.{Gathered}
use dapper_lite.Receiver.Gathered.{ReadIn}
use dapper_lite.Daemon.Lifecycle.{Behind, query_load_all-receiver_thread_func}
use dapper_lite.Collector.Config.{collector_default_config}
use dapper_lite.Daemon.Flush.{Flushed, flush_traces-Flushed}
use dapper_lite.Tests.Data.{noon, two_spans, two_spans-IsStorable, small_map}

trace_map_flush_lem_example :
    let (tm', out) = trace_map_flush small_map 2 5 noon in
    All (λ pt. Is (timed_out noon 5 pt)) out
    × (length out ≤ 2)
    × ((length out ≡ 2) ⊎ (count_all (timed_out noon 5) tm'.buckets ≡ 0))
    × ((p : PartialTrace → Bool)
        → count_all p tm'.buckets + count_in p out ≡ count_all p small_map.buckets)
trace_map_flush_lem_example = trace_map_flush_lem small_map 2 5 noon

abbrev datagram : List ℕ
datagram = 0 ∷ 1 ∷ 255 ∷ []

abbrev datagram-AreBytes : All IsByte datagram
datagram-AreBytes = (omega arith, (omega arith, (omega arith, tt)))

collector_decode_span-Safe_example :
    Safe
      (λ r. IsSpan r.0 × (0 < r.0.trace_id) × (0 < r.0.span_id) × (r.0.sampled ≡ r.1))
      (collector_decode_span little datagram 3)
collector_decode_span-Safe_example =
    collector_decode_span-Safe little datagram 3 datagram-AreBytes (omega arith)

-- A receiver that takes datagrams of one source only, two a second.
unfoldable pub fresh_receiver : Receiver
fresh_receiver = record {
  trace_map = small_map;
  port = 7831;
  running = true;
  allowed = 16777343 ∷ [];
  max_packets_per_sec = 2;
  window_sec = 0;
  window_count = 0;
  packets_received = 0;
  packets_invalid = 0;
  packets_unauthorized = 0;
  packets_rate_limited = 0;
  spans_processed = 0;
}

fresh_receiver-IsBalanced : IsBalanced fresh_receiver
unfolding fresh_receiver IsBalanced drops small_map
fresh_receiver-IsBalanced = refl

abbrev packet : Packet
packet = record { bytes = datagram; source = 16777343; now = noon }

abbrev events : List Received
events = interrupted ∷ arrived packet ∷ broken ∷ []

-- Three datagrams of one second, the third over the limit, and an empty one.
abbrev busy_events : List Received
busy_events =
    arrived packet
    ∷ arrived (record packet { bytes = [] })
    ∷ arrived (record packet { source = 1 })
    ∷ arrived packet
    ∷ broken
    ∷ []

receiver_thread_func-Counted_example :
    let fs =
      fates little none fresh_receiver.max_packets_per_sec fresh_receiver.allowed [] busy_events in
    (r' : Receiver) × (receiver_thread_func little none busy_events fresh_receiver ≡ ok r')
    × Counted (length fs) fs fresh_receiver r'
    × IsBalanced r'
unfolding AreBytes
receiver_thread_func-Counted_example =
    receiver_thread_func-Counted little none busy_events fresh_receiver fresh_receiver-IsBalanced
      (datagram-AreBytes, (tt, (datagram-AreBytes, (datagram-AreBytes, (tt, tt)))))

abbrev scratch : List ℕ
scratch = replicate 256 0

-- `fwrite` stops after 100 bytes.
storage_write_trace_lem_example :
    storage_write_trace little scratch (λ n. 100) [] two_spans
    ≡ ok ([] ++ take 100 (record_bytes two_spans), 100 == length (record_bytes two_spans))
storage_write_trace_lem_example =
    storage_write_trace_lem little scratch (λ n. 100) [] two_spans (omega arith)
      two_spans-IsStorable

query_load_all-write_all_example :
    (log : List ℕ) × (write_all big scratch [] (two_spans ∷ two_spans ∷ []) ≡ ok log)
    × (query_load_all_status big log ≡ ok (map logged (two_spans ∷ two_spans ∷ []), read_eof))
query_load_all-write_all_example =
    query_load_all-write_all big scratch (two_spans ∷ two_spans ∷ []) (omega arith)
      (two_spans-IsStorable, (two_spans-IsStorable, tt))

-- One complete trace waits.
unfoldable busy_collector : Collector
busy_collector = record {
  config = collector_default_config;
  receiver = record fresh_receiver {
    trace_map = record small_map {
      buckets = (two_spans ∷ []) ∷ [] ∷ [];
      count = 1;
      max_spans_per_trace = 4096;
    };
  };
  log = [];
  running = true;
  traces_completed = 0;
  traces_timed_out = 0;
  storage_writes = 0;
  storage_errors = 0;
}

all-IsStorable : All (All IsStorable) busy_collector.receiver.trace_map.buckets
unfolding busy_collector
all-IsStorable = ((two_spans-IsStorable, tt), (tt, tt))

flush_traces-Flushed_example :
    (c' : Collector) × (flush_traces little scratch (λ n. n) (λ k. noon) 0 busy_collector ≡ ok c')
    × Flushed (λ k. noon) 0 busy_collector c'
flush_traces-Flushed_example =
    flush_traces-Flushed little scratch (λ n. n) (omega arith) (λ n. refl) (λ k. noon) 0
      busy_collector all-IsStorable

busy : busy_collector.running ≡ true
unfolding busy_collector
busy = refl

empty_log : busy_collector.log ≡ log_bytes []
unfolding busy_collector log_bytes
empty_log = refl

all-Gathered :
    All (All (Gathered (Behind (λ k. noon)) 4096)) busy_collector.receiver.trace_map.buckets
unfolding busy_collector two_spans
all-Gathered = (
  (
    record {
      storable = two_spans-IsStorable;
      counted = refl;
      capped = omega arith;
      changed = λ k. record { proper = omega arith; ordered = omega arith };
    },
    tt,
  ),
  (tt, tt),
)

small_cap : busy_collector.receiver.trace_map.max_spans_per_trace ≡ 4096
unfolding busy_collector
small_cap = refl

query_load_all-receiver_thread_func_example :
    (r : Receiver) × (receiver_thread_func little none events busy_collector.receiver ≡ ok r)
    × (log : List ℕ) × (collector_destroy little scratch
          (λ n. n)
          (λ k. noon)
          (record busy_collector { receiver = r })
        ≡ ok log)
    × (out : Chain) × (query_load_all_status little log ≡ ok (map logged ([] ++ out), read_eof))
    × ((p : PartialTrace → Bool) → count_in p out ≡ count_all p r.trace_map.buckets)
unfolding ReadIn AreBytes
query_load_all-receiver_thread_func_example =
    query_load_all-receiver_thread_func little none scratch (λ n. n) (λ k. noon) busy_collector []
      events 4096 (omega arith) (λ n. refl) (omega arith) (omega arith) busy empty_log tt small_cap
      all-Gathered (tt, ((λ k. record { proper = omega arith; ordered = omega arith }), (tt, tt)))
      (tt, (datagram-AreBytes, (tt, tt)))

query_load_all-short_tail_example :
    query_load_all_status little (log_bytes (two_spans ∷ []) ++ (0 ∷ 0 ∷ 1 ∷ []))
    ≡ ok (map logged (two_spans ∷ []), read_eof)
query_load_all-short_tail_example =
    query_load_all-short_tail little (two_spans ∷ []) (0 ∷ 0 ∷ 1 ∷ []) (two_spans-IsStorable, tt)
      (omega arith)

eleven-lt-record : 11 < length (record_bytes two_spans)
unfolding record_bytes
eleven-lt-record =
    let body =
      be_bytes 4 (length two_spans.spans) ++ spans_bytes two_spans.sampled two_spans.spans in
    omega (
      arith,
      length-append {A = ℕ} (be_bytes 8 two_spans.trace_id) body,
      length-be_bytes 8 two_spans.trace_id,
      length-append {A = ℕ} (be_bytes 4 (length two_spans.spans))
          (spans_bytes two_spans.sampled two_spans.spans),
      length-be_bytes 4 (length two_spans.spans),
    )

query_load_all-cut_example :
    query_load_all_status little (log_bytes (two_spans ∷ []) ++ take 11 (record_bytes two_spans))
    ≡ ok (map logged (two_spans ∷ []), read_corrupt)
query_load_all-cut_example =
    query_load_all-cut little (two_spans ∷ []) two_spans 11 (two_spans-IsStorable, tt)
      two_spans-IsStorable (omega arith) eleven-lt-record
