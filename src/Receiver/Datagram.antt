-- ===== src/Receiver/Datagram.antt =====
-- One datagram in the thread of src/collector/receiver.c: the counters grow by its fate.
use dapper_lite.Prelude.{
  ℕ, ◌+◌, ◌%◌, ◌^◌, ◌≡◌, refl, Bool, true, false, Bool-cases, ◌&&◌, Option, inl, inr, List, [], ◌∷◌,
  arith, ◌==◌, length, All,
}
use dapper_lite.Prelude.Outcome.{Outcome, ok, failed, fault, Safe}
use dapper_lite.ByteOrder.{Host}
use dapper_lite.ByteOrder.Laws.{IsByte}
use dapper_lite.Core.{Span}
use dapper_lite.Collector.{Time, collector_decode_span}
use dapper_lite.Receiver.{
  Packet, Receiver, rate_limit, accept, decode, admit, handle, source_allowed,
}
use dapper_lite.Receiver.Fates.{
  Fate, refused, permitted, passes, decoded_fate, is_over, fate, is_limited, is_refused,
  is_malformed, is_handed, how_many,
}
use dapper_lite.Receiver.Accounting.{trace_map_insert-drops, collector_decode_span-Safe, weaken}
use dapper_lite.Receiver.Counted.{Counted, permitted_lem, passes_lem}
use dapper_lite.Receiver.Window.{Keeps, rate_limit-is_over, rate_limit-Keeps}

module _ (host : Host) (auth : Option (ℕ → List ℕ → Bool)) (limit : ℕ) (sources : List ℕ) where
  -- The rate limit leaves the counters and the table alone.
  rate_limit-Counted :
      (n : ℕ) (fs : List Fate) (r r' : Receiver) (now : Time)
      → Counted n fs (rate_limit r now).0 r'
      → Counted n fs r r'
  unfolding rate_limit
  rate_limit-Counted n fs r r' now c = elim (Bool-cases (r.max_packets_per_sec == 0)) [
    | inl e ↦ rw e at c
    | inr e ↦ record {
      received = rw e at (c.received);
      over_limit = rw e at (c.over_limit);
      unauthorized = rw e at (c.unauthorized);
      invalid = rw e at (c.invalid);
      in_table = rw e at (c.in_table);
    }
  ]

  decode-Counted :
      (r : Receiver) (packet : Packet) (seconds : List ℕ) (d : Outcome (Span × Bool))
      → Keeps limit sources seconds r
      → Safe (λ x. Unit {0}) d
      → (r' : Receiver) × (decode host r packet d ≡ ok r')
        × Counted 0 (decoded_fate d ∷ []) r r'
        × Keeps limit sources seconds r'
  unfolding decode accept decoded_fate how_many is_limited is_refused is_malformed is_handed
  decode-Counted r packet seconds (ok d) k s = (
    accept host r packet.now d,
    refl,
    record {
      received = omega arith;
      over_limit = omega arith;
      unauthorized = omega arith;
      invalid = omega arith;
      in_table = ground (arith, trace_map_insert-drops host r.trace_map d.0 d.1 packet.now);
    },
    record { limit_kept = k.limit_kept; sources_kept = k.sources_kept; window = k.window },
  )
  decode-Counted r packet seconds failed k s = (
    record r { packets_invalid = (r.packets_invalid + 1) % 2 ^ 64 },
    refl,
    record {
      received = omega arith;
      over_limit = omega arith;
      unauthorized = omega arith;
      invalid = omega arith;
      in_table = omega arith;
    },
    record { limit_kept = k.limit_kept; sources_kept = k.sources_kept; window = k.window },
  )
  decode-Counted r packet seconds fault k s = absurd s

  source_allowed-permitted :
      (r : Receiver) (source : ℕ) (seconds : List ℕ)
      → Keeps limit sources seconds r
      → source_allowed r source ≡ permitted sources source
  unfolding source_allowed
  source_allowed-permitted r source seconds k = rw k.sources_kept (permitted_lem sources source)

  refused_one :
      (r : Receiver) (seconds : List ℕ)
      → Keeps limit sources seconds r
      → let r' = record r { packets_unauthorized = (r.packets_unauthorized + 1) % 2 ^ 64 } in
        (r'' : Receiver) × (◌≡◌ {A = Outcome Receiver} (ok r') (ok r''))
        × Counted 0 (refused ∷ []) r r''
        × Keeps limit sources seconds r''
  unfolding how_many is_limited is_refused is_malformed is_handed
  refused_one r seconds k = (
    record r { packets_unauthorized = (r.packets_unauthorized + 1) % 2 ^ 64 },
    refl,
    record {
      received = omega arith;
      over_limit = omega arith;
      unauthorized = omega arith;
      invalid = omega arith;
      in_table = omega arith;
    },
    record { limit_kept = k.limit_kept; sources_kept = k.sources_kept; window = k.window },
  )

  -- Counting the datagram itself.
  arrival :
      (r r' : Receiver) {f : Fate}
      → Counted 0 (f ∷ []) (record r { packets_received = (r.packets_received + 1) % 2 ^ 64 }) r'
      → Counted 1 (f ∷ []) r r'
  arrival r r' c = record {
    received = omega (arith, c.received);
    over_limit = c.over_limit;
    unauthorized = c.unauthorized;
    invalid = c.invalid;
    in_table = c.in_table;
  }

  -- A datagram behind the rate limit.
  admit-Counted :
      (r : Receiver) (packet : Packet) (before after : List ℕ)
      → Keeps limit sources after r
      → is_over limit before packet.now.sec ≡ false
      → All IsByte packet.bytes
      → (r' : Receiver) × (admit host auth r packet ≡ ok r')
        × Counted 0 (fate host auth limit sources before packet ∷ []) r r'
        × Keeps limit sources after r'
  unfolding admit fate
  admit-Counted r packet before after k under bytes =
      let d = collector_decode_span host packet.bytes (length packet.bytes) in
      let s =
        weaken _ d (
          collector_decode_span-Safe host packet.bytes (length packet.bytes) bytes (omega arith)) in
      let sources_test = source_allowed-permitted r packet.source after k in
      elim (Bool-cases (permitted sources packet.source && passes auth packet)) [
        | inl e ↦
            rw (sources_test, passes_lem host auth packet, e, under)
              (decode-Counted r packet after d k s)
        | inr e ↦ rw (sources_test, passes_lem host auth packet, e, under) (refused_one r after k)
      ]

  limited_one :
      (r : Receiver) (packet : Packet) (seconds : List ℕ)
      → is_over limit seconds packet.now.sec ≡ true
      → Counted 0
          (fate host auth limit sources seconds packet ∷ [])
          r
          (record (rate_limit r packet.now).0 {
            packets_rate_limited = (r.packets_rate_limited + 1) % 2 ^ 64;
          })
  unfolding rate_limit fate how_many is_limited is_refused is_malformed is_handed
  limited_one r packet seconds over = elim (Bool-cases (r.max_packets_per_sec == 0)) [
    | inl e ↦
        rw (over, e)
          (record {
            received = omega arith;
            over_limit = omega arith;
            unauthorized = omega arith;
            invalid = omega arith;
            in_table = omega arith;
          })
    | inr e ↦
        rw (over, e)
          (record {
            received = omega arith;
            over_limit = omega arith;
            unauthorized = omega arith;
            invalid = omega arith;
            in_table = omega arith;
          })
  ]

  -- One datagram that is not empty.
  pub handle-Counted :
      (r : Receiver) (packet : Packet) (seconds : List ℕ)
      → Keeps limit sources seconds r
      → (length packet.bytes == 0) ≡ false
      → All IsByte packet.bytes
      → (r' : Receiver) × (handle host auth r packet ≡ ok r')
        × Counted 1 (fate host auth limit sources seconds packet ∷ []) r r'
        × Keeps limit sources (packet.now.sec ∷ seconds) r'
  unfolding handle
  handle-Counted r packet seconds k some_bytes bytes =
      let counted = record r { packets_received = (r.packets_received + 1) % 2 ^ 64 } in
      let k' : Keeps limit sources seconds counted = record {
        limit_kept = k.limit_kept;
        sources_kept = k.sources_kept;
        window = k.window;
      } in
      let after = rate_limit-Keeps limit sources counted packet.now seconds k' in
      let test = rate_limit-is_over limit sources counted packet.now seconds k' in
      elim (Bool-cases (is_over limit seconds packet.now.sec)) [
        | inl over ↦
            let r' = record (rate_limit counted packet.now).0 {
              packets_rate_limited = (r.packets_rate_limited + 1) % 2 ^ 64;
            } in
            (
              r',
              rw (some_bytes, test, over) refl,
              arrival r r' (limited_one counted packet seconds over),
              record {
                limit_kept = after.limit_kept;
                sources_kept = after.sources_kept;
                window = after.window;
              },
            )
        | inr under ↦
            let (r', e, c, kept) =
              admit-Counted (rate_limit counted packet.now).0 packet seconds
                (packet.now.sec ∷ seconds) after under bytes in
            (
              r',
              rw (some_bytes, test, under) e,
              arrival r _ (rate_limit-Counted _ _ counted r' packet.now c),
              kept,
            )
      ]

  pub handle_empty :
      (r : Receiver) (packet : Packet)
      → (length packet.bytes == 0) ≡ true
      → handle host auth r packet ≡ ok r
  unfolding handle
  handle_empty r packet e = rw e refl
