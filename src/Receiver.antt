-- ===== src/Receiver.antt =====
-- src/collector/receiver.c: what the receiver thread does with each datagram. A datagram comes
-- with the source address and the second of the monotonic clock at which it is looked at; the
-- sockets themselves are outside the model.
pub mod Create
pub mod Allowlist
pub mod Accounting
pub mod Fates
pub mod Counted
pub mod Window
pub mod Datagram
pub mod Tally
pub mod Gathered
use dapper_lite.Prelude.{
  ℕ, ◌+◌, ◌%◌, ◌^◌, Bool, true, false, not, ◌&&◌, ◌||◌, Option, none, some, List, [], ◌∷◌, ltb,
  ◌==◌, if◌then◌else◌, length,
}
use dapper_lite.Prelude.Outcome.{Outcome, ok, failed, fault, ◌>>=◌}
use dapper_lite.ByteOrder.{Host}
use dapper_lite.Core.{Span}
use dapper_lite.Collector.{Time, TraceMap, trace_map_insert, collector_decode_span}

pub record Packet : Type 0 where
  pub bytes : List ℕ
  pub source : ℕ
  pub now : Time

pub data Received : Type 0 where
  interrupted broken : Received
  arrived : Packet → Received

-- `receiver_t` with the two locals of its thread, and the table that it fills.
pub record Receiver : Type 0 where
  pub trace_map : TraceMap
  pub port : ℕ
  pub running : Bool
  pub allowed : List ℕ
  pub max_packets_per_sec : ℕ
  pub window_sec : ℕ
  pub window_count : ℕ
  pub packets_received : ℕ
  pub packets_invalid : ℕ
  pub packets_unauthorized : ℕ
  pub packets_rate_limited : ℕ
  pub spans_processed : ℕ

abbrev pub count_up : ℕ → ℕ
count_up n = (n + 1) % 2 ^ 64

unfoldable pub listed : List ℕ → ℕ → Bool
listed [] source = false
listed (a ∷ allowed) source = a == source || listed allowed source

unfoldable pub source_allowed : Receiver → ℕ → Bool
unfolding listed
source_allowed r source = if length r.allowed == 0 then true else listed r.allowed source

-- The rate limit: the window after this packet, and whether the packet is over the limit.
unfoldable pub rate_limit : Receiver → Time → Receiver × Bool
rate_limit r now =
    if r.max_packets_per_sec == 0
    then (r, false)
    else let before = if now.sec == r.window_sec then r.window_count else 0 in
      (
        record r { window_sec = now.sec; window_count = before + 1 },
        ltb r.max_packets_per_sec (before + 1),
      )

module _ (host : Host) where
  -- `trace_map_insert` and the counter behind it.
  unfoldable pub accept : Receiver → Time → Span × Bool → Receiver
  accept r now decoded =
      let (tm, done) = trace_map_insert host r.trace_map decoded.0 decoded.1 now in
      record r {
        trace_map = tm;
        spans_processed = if done then count_up r.spans_processed else r.spans_processed;
      }

  unfoldable pub decode : Receiver → Packet → Outcome (Span × Bool) → Outcome Receiver
  decode r packet decoded = elim decoded [
    | ok d ↦ ok (accept r packet.now d)
    | failed ↦ ok (record r { packets_invalid = count_up r.packets_invalid })
    | fault ↦ fault
  ]

  -- `auth` is the optional hook, with the text form of the address that `inet_ntop` makes for it.
  module _ (auth : Option (ℕ → List ℕ → Bool)) where
    unfoldable pub authentic : Packet → Bool
    authentic packet = elim auth [ none ↦ true | some f ↦ f packet.source packet.bytes ]

    unfoldable pub admit : Receiver → Packet → Outcome Receiver
    unfolding decode
    admit r packet =
        if source_allowed r packet.source && authentic packet
        then decode r packet (collector_decode_span host packet.bytes (length packet.bytes))
        else ok (record r { packets_unauthorized = count_up r.packets_unauthorized })

    -- The loop's body for a datagram of `recvfrom`; an empty one is passed over.
    unfoldable pub handle : Receiver → Packet → Outcome Receiver
    handle r packet =
        let counted = record r { packets_received = count_up r.packets_received } in
        let (limited, over) = rate_limit counted packet.now in
        if length packet.bytes == 0
        then ok r
        else if over
        then ok (record limited { packets_rate_limited = count_up r.packets_rate_limited })
        else admit limited packet

    -- The loop over what `recvfrom` gives: a timeout or a signal, another error, or a datagram.
    unfoldable pub thread_loop : List Received → Receiver → Outcome Receiver
    unfolding handle
    thread_loop [] r = ok r
    thread_loop (interrupted ∷ events) r = thread_loop events r
    thread_loop (broken ∷ events) r = ok r
    thread_loop (arrived packet ∷ events) r = handle r packet >>= λ r'. thread_loop events r'

    -- `receiver_thread_func` on what it receives until `running` is false.
    unfoldable pub receiver_thread_func : List Received → Receiver → Outcome Receiver
    unfolding thread_loop
    receiver_thread_func events r =
        thread_loop events (record r { window_sec = 0; window_count = 0 })
