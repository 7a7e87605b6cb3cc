-- ===== src/Daemon/Lifecycle.antt =====
-- From the datagrams of src/collector/receiver.c to the traces that src/analysis/query.c reads.
use dapper_lite.Prelude.{
  ℕ, ◌^◌, ◌<◌, ◌≤◌, ◌≡◌, Bool, true, Option, List, [], ◌∷◌, ◌++◌, map, length, All,
}
use dapper_lite.Prelude.Outcome.{ok, Returns-value}
use dapper_lite.ByteOrder.{Host}
use dapper_lite.Collector.{Time, PartialTrace, Chain}
use dapper_lite.Collector.Flush.{count_in, count_all}
use dapper_lite.Collector.Gathered.{Gathered}
use dapper_lite.Receiver.{Received, Receiver, receiver_thread_func}
use dapper_lite.Receiver.Accounting.{AreBytes}
use dapper_lite.Receiver.Gathered.{AllGathered, ReadIn, receiver_thread_func-AllGathered}
use dapper_lite.Storage.{read_eof, query_load_all_status}
use dapper_lite.Storage.Log.{IsStorable}
use dapper_lite.Storage.RoundTrip.{log_bytes, logged}
use dapper_lite.Daemon.{Collector, collector_destroy}
use dapper_lite.Daemon.Shutdown.{Reached, query_load_all-collector_destroy}

all-IsStorable :
    (Q : Time → Type 0) (m : ℕ) (chain : Chain) → All (Gathered Q m) chain → All IsStorable chain
all-IsStorable Q m [] h = tt
all-IsStorable Q m (pt ∷ chain) h = (h.0.storable, all-IsStorable Q m chain h.1)

all_last_changes :
    (Q : Time → Type 0) (m : ℕ) (chain : Chain)
    → All (Gathered Q m) chain
    → All (λ pt. Q pt.last_update) chain
all_last_changes Q m [] h = tt
all_last_changes Q m (pt ∷ chain) h = (h.0.changed, all_last_changes Q m chain h.1)

each :
    (P R : Chain → Type 0) (buckets : List Chain)
    → ((chain : Chain) → P chain → R chain)
    → All P buckets
    → All R buckets
each P R [] f h = tt
each P R (chain ∷ buckets) f h = (f chain h.0, each P R buckets f h.1)

-- The clock of the last flush does not read less than the time.
abbrev pub Behind : (ℕ → Time) → Time → Type 0
Behind clock t = (k : ℕ) → Reached (clock k) t

-- With room for a serialized span and a file that takes all that is written: let a collector run
-- whose log has the records of the traces of `before`, with a cap of 1 to 2 ^ 20 spans a trace and a
-- table of traces that keep it. Whatever datagrams its receiver thread then gets, the thread ends
-- without a bad access; and if the clock does not go back, `collector_destroy` then ends, and
-- `query_load_all` reads from the log that it closes the traces of `before` and behind them all
-- that the receiver left in its table, each once.
pub query_load_all-receiver_thread_func :
    (host : Host) (auth : Option (ℕ → List ℕ → Bool)) (scratch : List ℕ) (written : ℕ → ℕ)
    (clock : ℕ → Time) (c : Collector) (before : Chain) (events : List Received) (m : ℕ)
    → 256 ≤ length scratch
    → ((n : ℕ) → written n ≡ n)
    → 0 < m
    → m ≤ 2 ^ 20
    → c.running ≡ true
    → c.log ≡ log_bytes before
    → All IsStorable before
    → c.receiver.trace_map.max_spans_per_trace ≡ m
    → All (All (Gathered (Behind clock) m)) c.receiver.trace_map.buckets
    → All (ReadIn (Behind clock)) events
    → All AreBytes events
    → (r : Receiver) × (receiver_thread_func host auth events c.receiver ≡ ok r)
      × (log : List ℕ) × (collector_destroy host scratch written clock (record c { receiver = r })
          ≡ ok log)
      × (out : Chain) × (query_load_all_status host log ≡ ok (map logged (before ++ out), read_eof))
      × ((p : PartialTrace → Bool) → count_in p out ≡ count_all p r.trace_map.buckets)
query_load_all-receiver_thread_func host auth scratch written clock c before events m room whole
      some_room limit runs old old_ok same_cap all read bytes =
    let Q = Behind clock in
    let kept =
      receiver_thread_func-AllGathered Q m host auth some_room limit events c.receiver read bytes
        (same_cap, all) in
    let (r, ended, gathered) =
      Returns-value (λ r. AllGathered Q m host auth some_room limit r.trace_map)
        (receiver_thread_func host auth events c.receiver) kept in
    let storable =
      each (All (Gathered Q m)) (All IsStorable) r.trace_map.buckets (all-IsStorable Q m)
        gathered.1 in
    let past =
      each (All (Gathered Q m)) (All (λ pt. Q pt.last_update)) r.trace_map.buckets
        (all_last_changes Q m) gathered.1 in
    let (log, destroyed, out, read_back, none_lost) =
      query_load_all-collector_destroy host scratch written clock (record c { receiver = r }) before
        room whole runs old old_ok storable past in
    (r, ended, log, destroyed, out, read_back, none_lost)
