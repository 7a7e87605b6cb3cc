-- ===== src/Receiver/Fates.antt =====
-- What the thread of src/collector/receiver.c is to do with each datagram, from the datagrams alone:
-- the rate limit and the list of sources without the code's variables and tests.
use dapper_lite.Prelude.{
  ℕ, ◌+◌, Bool, true, false, ◌&&◌, Option, none, some, List, [], ◌∷◌, leb, ◌==◌, if◌then◌else◌,
  length,
}
use dapper_lite.Prelude.Outcome.{Outcome, ok}
use dapper_lite.ByteOrder.{Host}
use dapper_lite.Core.{Span}
use dapper_lite.Collector.{collector_decode_span}
use dapper_lite.Receiver.{Packet, Received, interrupted, broken, arrived}

-- The end of a datagram that is not empty: over the rate limit, refused, not a span, or a span that
-- is handed to the table.
pub data Fate : Type 0 where
  limited refused malformed handed : Fate

-- How many of the last datagrams, newest first, came in this second without another in between.
unfoldable pub run_length : ℕ → List ℕ → ℕ
run_length sec [] = 0
run_length sec (s ∷ seconds) =
    let before = run_length sec seconds in if sec == s then (before + 1) else 0

-- The limit 0 is none. Another one is reached when as many datagrams of the second came before.
unfoldable pub is_over : ℕ → List ℕ → ℕ → Bool
unfolding run_length
is_over limit seconds sec = if limit == 0 then false else leb limit (run_length sec seconds)

-- A source is permitted if no list is given or it stands in the list.
unfoldable pub stands_in : ℕ → List ℕ → Bool
stands_in source [] = false
stands_in source (a ∷ more) =
    let later = stands_in source more in if a == source then true else later

unfoldable pub permitted : List ℕ → ℕ → Bool
unfolding stands_in
permitted [] source = true
permitted (a ∷ more) source = stands_in source (a ∷ more)

unfoldable pub passes : Option (ℕ → List ℕ → Bool) → Packet → Bool
passes none packet = true
passes (some hook) packet = hook packet.source packet.bytes

unfoldable pub decoded_fate : Outcome (Span × Bool) → Fate
decoded_fate (ok d) = handed
decoded_fate _ = malformed

module _ (host : Host) (auth : Option (ℕ → List ℕ → Bool)) (limit : ℕ) (sources : List ℕ) where
  unfoldable pub fate : List ℕ → Packet → Fate
  unfolding is_over permitted passes decoded_fate
  fate seconds packet =
      let d = collector_decode_span host packet.bytes (length packet.bytes) in
      if is_over limit seconds packet.now.sec
      then limited
      else if permitted sources packet.source && passes auth packet
      then decoded_fate d
      else refused

  -- The fates of all datagrams that are not empty, up to an error of `recvfrom`. `seconds` are
  -- those in which the earlier ones came, newest first.
  unfoldable pub fates : List ℕ → List Received → List Fate
  unfolding fate
  fates seconds [] = []
  fates seconds (interrupted ∷ events) = fates seconds events
  fates seconds (broken ∷ events) = []
  fates seconds (arrived packet ∷ events) =
      let passed_over = fates seconds events in
      let behind = fates (packet.now.sec ∷ seconds) events in
      if length packet.bytes == 0 then passed_over else (fate seconds packet ∷ behind)

unfoldable pub is_limited : Fate → Bool
is_limited limited = true
is_limited _ = false

unfoldable pub is_refused : Fate → Bool
is_refused refused = true
is_refused _ = false

unfoldable pub is_malformed : Fate → Bool
is_malformed malformed = true
is_malformed _ = false

unfoldable pub is_handed : Fate → Bool
is_handed handed = true
is_handed _ = false

unfoldable pub how_many : (Fate → Bool) → List Fate → ℕ
how_many p [] = 0
how_many p (f ∷ fs) = let rest = how_many p fs in if p f then (rest + 1) else rest
