-- ===== src/Receiver/Gathered.antt =====
-- What the thread of src/collector/receiver.c puts into the table can be stored.
use dapper_lite.Prelude.{
  ℕ, ◌+◌, ◌%◌, ◌^◌, ◌<◌, ◌≤◌, ◌≡◌, refl, sym, ◌∙◌, Bool, Bool-cases, Option, inl, inr, List, [],
  ◌∷◌, arith, ◌&&◌, ◌==◌, length, All,
}
use dapper_lite.Prelude.Outcome.{Outcome, ok, failed, fault, Safe, Safe-map, Returns, Returns-bind}
use dapper_lite.ByteOrder.{Host}
use dapper_lite.ByteOrder.Laws.{IsByte}
use dapper_lite.Core.{Span}
use dapper_lite.Wire.Layout.{IsSpan}
use dapper_lite.Collector.{Time, TraceMap, trace_map_insert, collector_decode_span}
use dapper_lite.Collector.Gathered.{Gathered, trace_map_insert-Gathered}
use dapper_lite.Receiver.{
  Packet, Received, interrupted, broken, arrived, Receiver, source_allowed, rate_limit, accept,
  decode, authentic, admit, handle, thread_loop, receiver_thread_func,
}
use dapper_lite.Receiver.Accounting.{AreBytes, collector_decode_span-Safe}

-- The clock reads a time of `Q` at a datagram.
unfoldable pub ReadIn : (Time → Type 0) → Received → Type 0
ReadIn Q (arrived packet) = Q packet.now
ReadIn Q _ = Unit {0}

module _ (Q : Time → Type 0) (m : ℕ) (host : Host) (auth : Option (ℕ → List ℕ → Bool))
    (some_room : 0 < m) (limit : m ≤ 2 ^ 20) where
  -- The table has the cap, and every trace in it can be stored.
  abbrev pub AllGathered : TraceMap → Type 0
  AllGathered tm = (tm.max_spans_per_trace ≡ m) × All (All (Gathered Q m)) tm.buckets

  trace_map_insert-AllGathered :
      (tm : TraceMap) (d : Span × Bool) (now : Time)
      → IsSpan d.0
      → Q now
      → AllGathered tm
      → AllGathered (trace_map_insert host tm d.0 d.1 now).0
  trace_map_insert-AllGathered tm d now s q h =
      let here : All (All (Gathered Q tm.max_spans_per_trace)) tm.buckets = rw (h.0) (h.1) in
      let r =
        trace_map_insert-Gathered Q host tm d.0 d.1 now s q (rw (h.0) some_room) (rw (h.0) limit)
          here in
      (r.0 ∙ h.0, rw (sym (h.0)) (r.1))

  accept-AllGathered :
      (r : Receiver) (d : Span × Bool) (now : Time)
      → IsSpan d.0
      → Q now
      → AllGathered r.trace_map
      → AllGathered (accept host r now d).trace_map
  unfolding accept
  accept-AllGathered r d now s q h = trace_map_insert-AllGathered r.trace_map d now s q h

  abbrev Keeps : Outcome Receiver → Type 0
  Keeps o = Returns (λ r. AllGathered r.trace_map) o

  decode-Keeps :
      (r : Receiver) (packet : Packet) (d : Outcome (Span × Bool))
      → Q packet.now
      → Safe (λ d. IsSpan d.0) d
      → AllGathered r.trace_map
      → Keeps (decode host r packet d)
  unfolding decode
  decode-Keeps r packet (ok d) q s h = accept-AllGathered r d packet.now s q h
  decode-Keeps r packet failed q s h = h
  decode-Keeps r packet fault q s h = absurd s

  admit-Keeps :
      (r : Receiver) (packet : Packet)
      → Q packet.now
      → All IsByte packet.bytes
      → AllGathered r.trace_map
      → Keeps (admit host auth r packet)
  unfolding admit
  admit-Keeps r packet q bytes h =
      let d = collector_decode_span host packet.bytes (length packet.bytes) in
      let s =
        Safe-map _ (λ (d : Span × Bool). IsSpan d.0) d
          (collector_decode_span-Safe host packet.bytes (length packet.bytes) bytes (omega arith))
          (λ a p. p.0) in
      elim (Bool-cases (source_allowed r packet.source && authentic host auth packet)) [
        | inl e ↦ rw e (decode-Keeps r packet d q s h)
        | inr e ↦ rw e h
      ]

  rate_limit_same : (r : Receiver) (now : Time) → (rate_limit r now).0.trace_map ≡ r.trace_map
  unfolding rate_limit
  rate_limit_same r now = elim (Bool-cases (r.max_packets_per_sec == 0)) [
    | inl e ↦ rw e refl
    | inr e ↦ rw e refl
  ]

  handle-Keeps :
      (r : Receiver) (packet : Packet)
      → Q packet.now
      → All IsByte packet.bytes
      → AllGathered r.trace_map
      → Keeps (handle host auth r packet)
  unfolding handle
  handle-Keeps r packet q bytes h =
      let counted = record r { packets_received = (r.packets_received + 1) % 2 ^ 64 } in
      let limit = rate_limit counted packet.now in
      let same = rate_limit_same counted packet.now in
      let still : AllGathered limit.0.trace_map = rw same h in
      elim (Bool-cases (length packet.bytes == 0)) [
        | inl e ↦ rw e h
        | inr e ↦ elim (Bool-cases limit.1) [
          | inl over ↦ rw (e, over) still
          | inr under ↦ rw (e, under) (admit-Keeps limit.0 packet q bytes still)
        ]
      ]

  thread_loop-Keeps :
      (events : List Received) (r : Receiver)
      → All (ReadIn Q) events
      → All AreBytes events
      → AllGathered r.trace_map
      → Keeps (thread_loop host auth events r)
  unfolding thread_loop AreBytes ReadIn
  thread_loop-Keeps [] r q b h = h
  thread_loop-Keeps (interrupted ∷ events) r q b h = thread_loop-Keeps events r q.1 b.1 h
  thread_loop-Keeps (broken ∷ events) r q b h = h
  thread_loop-Keeps (arrived packet ∷ events) r q b h =
      Returns-bind (λ r'. AllGathered r'.trace_map) (λ r'. AllGathered r'.trace_map)
        (handle host auth r packet) _ (handle-Keeps r packet q.0 b.0 h)
        λ r' h'. thread_loop-Keeps events r' q.1 b.1 h'

  pub receiver_thread_func-AllGathered :
      (events : List Received) (r : Receiver)
      → All (ReadIn Q) events
      → All AreBytes events
      → AllGathered r.trace_map
      → Returns (λ r'. AllGathered r'.trace_map) (receiver_thread_func host auth events r)
  unfolding receiver_thread_func
  receiver_thread_func-AllGathered events r q b h =
      thread_loop-Keeps events (record r { window_sec = 0; window_count = 0 }) q b h
