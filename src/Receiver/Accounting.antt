-- ===== src/Receiver/Accounting.antt =====
-- The receiver's counters, and its safety on every datagram.
use dapper_lite.Prelude.{
  ℕ, ◌+◌, ◌%◌, ◌^◌, ◌≤◌, ◌<◌, ◌≡◌, Bool, Bool-cases, Option, inl, inr, List, [], ◌∷◌, arith, ltb,
  ◌==◌, ◌&&◌, if◌then◌else◌, length, All,
}
use dapper_lite.Prelude.Outcome.{Outcome, ok, failed, fault, Safe, Safe-bind, Safe-fail_if}
use dapper_lite.ByteOrder.{Host}
use dapper_lite.ByteOrder.Laws.{IsByte}
use dapper_lite.Core.{Span}
use dapper_lite.Wire.{span_deserialize}
use dapper_lite.Wire.Layout.{IsSpan}
use dapper_lite.Wire.Safety.{span_deserialize-Safe}
use dapper_lite.Collector.{
  Time, TraceMap, PartialTrace, Chain, over, insert_span, trace_map_insert, collector_decode_span,
}
use dapper_lite.Receiver.{
  Packet, Received, interrupted, broken, arrived, thread_loop, receiver_thread_func, Receiver,
  rate_limit, accept, decode, authentic, admit, handle, source_allowed,
}

-- Whatever the datagram, decoding stays inside it, and what is decoded is a well-formed span with
-- a trace and a span number.
pub collector_decode_span-Safe :
    (host : Host) (packet : List ℕ) (len : ℕ)
    → All IsByte packet
    → len ≤ length packet
    → Safe
        (λ r. IsSpan r.0 × (0 < r.0.trace_id) × (0 < r.0.span_id) × (r.0.sampled ≡ r.1))
        (collector_decode_span host packet len)
unfolding collector_decode_span
collector_decode_span-Safe host packet len bytes h =
    let P : Span × Bool → Type 0 =
      λ r. IsSpan r.0 × (0 < r.0.trace_id) × (0 < r.0.span_id) × (r.0.sampled ≡ r.1) in
    Safe-fail_if P (ltb len 48) _ λ _. Safe-fail_if P (ltb 512 len) _ λ _.
      Safe-bind (λ r. IsSpan r.0 × (r.0.sampled ≡ r.1) × (r.2 ≤ len)) P
        (span_deserialize host packet len) _ (span_deserialize-Safe host packet len bytes h)
        λ d p.
          Safe-fail_if P (d.0.trace_id == 0) _
            λ t. Safe-fail_if P (d.0.span_id == 0) _ λ s. (p.0, ground arith, ground arith, p.1)

-- A refused span is counted by one of the table's two counters, and an accepted one by none.
unfoldable pub drops : TraceMap → ℕ
drops tm = tm.traces_dropped + tm.spans_dropped

insert_span-drops :
    (host : Host) (tm : TraceMap) (bucket : ℕ) (chain : Chain) (pt : PartialTrace) (span : Span)
    (sampled : Bool) (now : Time)
    → let r = insert_span host tm bucket chain pt span sampled now in
      drops r.0 % 2 ^ 64 ≡ (if r.1 then drops tm else (drops tm + 1)) % 2 ^ 64
unfolding insert_span drops
insert_span-drops host tm bucket chain pt span sampled now = ground arith

pub trace_map_insert-drops :
    (host : Host) (tm : TraceMap) (span : Span) (sampled : Bool) (now : Time)
    → let r = trace_map_insert host tm span sampled now in
      drops r.0 % 2 ^ 64 ≡ (if r.1 then drops tm else (drops tm + 1)) % 2 ^ 64
unfolding trace_map_insert insert_span drops
trace_map_insert-drops host tm span sampled now = ground arith

-- The counter of datagrams is the sum of those of the ends: over the rate limit, unauthorized,
-- invalid, processed, or a span or a trace without room in the table (counters modulo 2 ^ 64).
unfoldable pub IsBalanced : Receiver → Type 0
unfolding drops
IsBalanced r =
    r.packets_received
    ≡ (r.packets_rate_limited
        + r.packets_unauthorized
        + r.packets_invalid
        + r.spans_processed
        + drops r.trace_map)
      % 2 ^ 64

-- The same while a datagram is on its way.
AllButOne : Receiver → Type 0
unfolding drops
AllButOne r =
    r.packets_received
    ≡ (r.packets_rate_limited
        + r.packets_unauthorized
        + r.packets_invalid
        + r.spans_processed
        + drops r.trace_map
        + 1)
      % 2 ^ 64

decode_balance :
    (host : Host) (r : Receiver) (packet : Packet) (d : Outcome (Span × Bool))
    → AllButOne r
    → Safe (λ x. Unit {0}) d
    → Safe IsBalanced (decode host r packet d)
unfolding decode accept IsBalanced AllButOne
decode_balance host r packet (ok d) b s =
    ground (arith, trace_map_insert-drops host r.trace_map d.0 d.1 packet.now)
decode_balance host r packet failed b s = omega (arith, b)
decode_balance host r packet fault b s = absurd s

pub weaken : {A : Type 0} (P : A → Type 0) (m : Outcome A) → Safe P m → Safe (λ x. Unit {0}) m
weaken P (ok a) h = tt
weaken P failed h = tt
weaken P fault h = h

-- The rate limit touches no counter.
rate_limit_frame :
    (r : Receiver) (now : Time) → (rate_limit r now).0.packets_rate_limited ≡ r.packets_rate_limited
unfolding rate_limit
rate_limit_frame r now = ground arith

rate_limit-AllButOne : (r : Receiver) (now : Time) → AllButOne r → AllButOne (rate_limit r now).0
unfolding rate_limit AllButOne
rate_limit-AllButOne r now b = elim (Bool-cases (r.max_packets_per_sec == 0)) [
  | inl e ↦ rw e b
  | inr e ↦ rw e b
]

unfoldable pub AreBytes : Received → Type 0
AreBytes (arrived packet) = All IsByte packet.bytes
AreBytes _ = Unit {0}

module _ (host : Host) (auth : Option (ℕ → List ℕ → Bool)) where
  admit_balance :
      (r : Receiver) (packet : Packet)
      → AllButOne r
      → All IsByte packet.bytes
      → Safe IsBalanced (admit host auth r packet)
  unfolding admit IsBalanced AllButOne
  admit_balance r packet b bytes =
      let d = collector_decode_span host packet.bytes (length packet.bytes) in
      let s =
        weaken _ d (
          collector_decode_span-Safe host packet.bytes (length packet.bytes) bytes (omega arith)) in
      elim (Bool-cases (source_allowed r packet.source && authentic host auth packet)) [
        | inl e ↦ rw e (decode_balance host r packet d b s)
        | inr e ↦ rw e (omega (arith, b))
      ]

  -- One datagram. An empty one is counted nowhere.
  handle-IsBalanced :
      (r : Receiver) (packet : Packet)
      → IsBalanced r
      → All IsByte packet.bytes
      → Safe IsBalanced (handle host auth r packet)
  unfolding handle IsBalanced AllButOne
  handle-IsBalanced r packet b bytes =
      let counted = record r { packets_received = (r.packets_received + 1) % 2 ^ 64 } in
      let limit = rate_limit counted packet.now in
      let here : AllButOne counted = omega (arith, b) in
      let same = rate_limit_frame counted packet.now in
      let on_way : AllButOne limit.0 = rate_limit-AllButOne counted packet.now here in
      elim (Bool-cases (length packet.bytes == 0)) [
        | inl e ↦ rw e b
        | inr e ↦ elim (Bool-cases limit.1) [
          | inl over ↦ rw (e, over) (omega (arith, on_way, same))
          | inr under ↦ rw (e, under) (admit_balance limit.0 packet on_way bytes)
        ]
      ]

  thread_loop-IsBalanced :
      (events : List Received) (r : Receiver)
      → IsBalanced r
      → All AreBytes events
      → Safe IsBalanced (thread_loop host auth events r)
  unfolding thread_loop AreBytes
  thread_loop-IsBalanced [] r b h = b
  thread_loop-IsBalanced (interrupted ∷ events) r b h = thread_loop-IsBalanced events r b h.1
  thread_loop-IsBalanced (broken ∷ events) r b h = b
  thread_loop-IsBalanced (arrived packet ∷ events) r b h =
      Safe-bind IsBalanced IsBalanced (handle host auth r packet) _
        (handle-IsBalanced r packet b h.0) λ r' b'. thread_loop-IsBalanced events r' b' h.1

  -- If the receiver's counter of datagrams was the sum of the others, the table's two drop counters
  -- among them (modulo 2 ^ 64), it is so when the thread ends.
  pub receiver_thread_func-IsBalanced :
      (events : List Received) (r : Receiver)
      → IsBalanced r
      → All AreBytes events
      → Safe IsBalanced (receiver_thread_func host auth events r)
  unfolding receiver_thread_func IsBalanced
  receiver_thread_func-IsBalanced events r b h =
      thread_loop-IsBalanced events (record r { window_sec = 0; window_count = 0 }) b h
