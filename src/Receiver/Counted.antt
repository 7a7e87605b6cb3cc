-- ===== src/Receiver/Counted.antt =====
-- By how much the counters of the receiver in src/collector/receiver.c grow, and the list of sources
-- and the hook that decide on a datagram.
use dapper_lite.Prelude.{
  ℕ, suc, ◌+◌, ◌%◌, ◌^◌, ◌≡◌, refl, Bool, true, Option, none, some, List, [], ◌∷◌, arith, ◌==◌,
  if◌then◌else◌, length,
}
use dapper_lite.ByteOrder.{Host}
use dapper_lite.Receiver.{Packet, Receiver, authentic, listed}
use dapper_lite.Receiver.Fates.{
  Fate, stands_in, permitted, passes, is_limited, is_refused, is_malformed, is_handed, how_many,
}
use dapper_lite.Receiver.Accounting.{drops}

-- By how much the counters grow from `r` to `r'`, modulo 2 ^ 64: that of all datagrams by `n`, and
-- the others by the numbers of their fates. A span that is handed to the table is counted as
-- processed, or by one of the table's drop counters.
pub record Counted (n : ℕ) (fs : List Fate) (r r' : Receiver) : Type 0 where
  pub received : r'.packets_received % 2 ^ 64 ≡ (r.packets_received + n) % 2 ^ 64
  pub over_limit :
      r'.packets_rate_limited % 2 ^ 64 ≡ (r.packets_rate_limited + how_many is_limited fs) % 2 ^ 64
  pub unauthorized :
      r'.packets_unauthorized % 2 ^ 64 ≡ (r.packets_unauthorized + how_many is_refused fs) % 2 ^ 64
  pub invalid :
      r'.packets_invalid % 2 ^ 64 ≡ (r.packets_invalid + how_many is_malformed fs) % 2 ^ 64
  pub in_table :
      (r'.spans_processed + drops r'.trace_map) % 2 ^ 64
      ≡ (r.spans_processed + drops r.trace_map + how_many is_handed fs) % 2 ^ 64

how_many-cons :
    (p : Fate → Bool) (f : Fate) (fs : List Fate)
    → how_many p (f ∷ fs) ≡ how_many p (f ∷ []) + how_many p fs
unfolding how_many
how_many-cons p f fs = ground arith

pub nothing-Counted : (r : Receiver) → Counted 0 [] r r
unfolding how_many
nothing-Counted r = record {
  received = omega arith;
  over_limit = omega arith;
  unauthorized = omega arith;
  invalid = omega arith;
  in_table = omega arith;
}

pub Counted-cons :
    (n : ℕ) (f : Fate) (fs : List Fate) (r r' r'' : Receiver)
    → Counted 1 (f ∷ []) r r'
    → Counted n fs r' r''
    → Counted (suc n) (f ∷ fs) r r''
Counted-cons n f fs r r' r'' c d = record {
  received = omega (arith, c.received, d.received);
  over_limit = omega (arith, c.over_limit, d.over_limit, how_many-cons is_limited f fs);
  unauthorized = omega (arith, c.unauthorized, d.unauthorized, how_many-cons is_refused f fs);
  invalid = omega (arith, c.invalid, d.invalid, how_many-cons is_malformed f fs);
  in_table = omega (arith, c.in_table, d.in_table, how_many-cons is_handed f fs);
}

listed_lem : (allowed : List ℕ) (source : ℕ) → listed allowed source ≡ stands_in source allowed
unfolding listed stands_in
listed_lem [] source = refl
listed_lem (a ∷ allowed) source = ground (arith, listed_lem allowed source)

pub permitted_lem :
    (allowed : List ℕ) (source : ℕ)
    → (if length allowed == 0 then true else listed allowed source) ≡ permitted allowed source
unfolding permitted
permitted_lem [] source = refl
permitted_lem (a ∷ allowed) source = ground (arith, listed_lem (a ∷ allowed) source)

pub passes_lem :
    (host : Host) (auth : Option (ℕ → List ℕ → Bool)) (packet : Packet)
    → authentic host auth packet ≡ passes auth packet
unfolding authentic passes
passes_lem host none packet = refl
passes_lem host (some hook) packet = refl
