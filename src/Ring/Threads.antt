-- ===== src/Ring/Threads.antt =====
-- `ring_buffer_push` and `ring_buffer_pop` of src/export/ring_buffer.c in two threads at a time:
-- one thread pushes, the other pops. Each access of an atomic index is a step, and so is each
-- access of the slot. An index that is published with `memory_order_release` brings the bytes of
-- the slot to the thread that reads it with `memory_order_acquire`: the steps see one memory.
pub mod Moves
pub mod Invariant
pub mod Order
use dapper_lite.Prelude.{
  ℕ, ◌+◌, ◌%◌, ◌≡◌, Bool, true, false, List, [], ◌∷◌, ◌++◌, ltb, ◌==◌, if◌then◌else◌, length, set,
  Option, none, some,
}
use dapper_lite.Prelude.Outcome.{Outcome, ok, fault, ◌>>=◌}
use dapper_lite.Memory.{read_bytes}
use dapper_lite.ByteOrder.{Host, object_value}
use dapper_lite.Core.{Span}
use dapper_lite.Wire.Layout.{IsSpan, span_bytes}
use dapper_lite.Ring.{
  Ring, create, slot_at, store_slot, entry_size, max_payload_size, slot_header_size,
}

-- Where the producer is in `ring_buffer_push`, with its local variables.
pub data Producer : Type 0 where
  resting : Producer
  pushing : Span → Bool → Producer
  loaded_w : Span → Bool → ℕ → Producer
  loaded_wr : Span → Bool → ℕ → ℕ → Producer
  writing : Span → Bool → ℕ → Producer
  written : Span → Bool → ℕ → Producer
  push_done : Bool → Producer

-- Where the consumer is in `ring_buffer_pop`.
pub data Consumer : Type 0 where
  waiting : Consumer
  popping : Consumer
  loaded_r : ℕ → Consumer
  loaded_rw : ℕ → ℕ → Consumer
  reading : ℕ → Consumer
  sized : ℕ → ℕ → Consumer
  copied : ℕ → List ℕ → Consumer
  pop_done : Option (List ℕ) → Consumer

abbrev pub clamped : ℕ → ℕ
clamped len = if ltb max_payload_size len then max_payload_size else len

module _ (host : Host) where
  unfoldable pub produce : Ring → Producer → Outcome (Ring × Producer)
  unfolding slot_at
  produce rb resting = ok (rb, resting)
  produce rb (pushing span sampled) = ok (rb, loaded_w span sampled rb.write_index)
  produce rb (loaded_w span sampled w) = ok (rb, loaded_wr span sampled w rb.read_index)
  produce rb (loaded_wr span sampled w r) =
      if (w + 1) % rb.capacity == r
      then ok (rb, push_done false)
      else ok (rb, writing span sampled w)
  produce rb (writing span sampled w) = do
    slot ← slot_at rb.slots w
    slot ← store_slot host slot span sampled
    ok (record rb { slots = set rb.slots w slot }, written span sampled w)
  produce rb (written span sampled w) =
      ok (record rb { write_index = (w + 1) % rb.capacity }, push_done true)
  produce rb (push_done b) = ok (rb, resting)

  -- The length and the bytes are read in two steps.
  unfoldable pub consume : Ring → Consumer → Outcome (Ring × Consumer)
  unfolding slot_at
  consume rb waiting = ok (rb, waiting)
  consume rb popping = ok (rb, loaded_r rb.read_index)
  consume rb (loaded_r r) = ok (rb, loaded_rw r rb.write_index)
  consume rb (loaded_rw r w) = if r == w then ok (rb, pop_done none) else ok (rb, reading r)
  consume rb (reading r) = do
    slot ← slot_at rb.slots r
    prefix ← read_bytes slot 0 slot_header_size
    ok (rb, sized r (clamped (object_value host prefix)))
  consume rb (sized r payload_len) = do
    slot ← slot_at rb.slots r
    output ← read_bytes slot slot_header_size payload_len
    ok (rb, copied r output)
  consume rb (copied r output) =
      ok (record rb { read_index = (r + 1) % rb.capacity }, pop_done (some output))
  consume rb (pop_done o) = ok (rb, waiting)

-- What a step of the producer makes visible, as the layout of the span, and what a step of the
-- consumer takes.
unfoldable pub published : Producer → List (List ℕ)
published resting = []
published (pushing span sampled) = []
published (loaded_w span sampled w) = []
published (loaded_wr span sampled w r) = []
published (writing span sampled w) = []
published (written span sampled w) = span_bytes span sampled max_payload_size ∷ []
published (push_done b) = []

unfoldable pub taken : Consumer → List (List ℕ)
taken waiting = []
taken popping = []
taken (loaded_r r) = []
taken (loaded_rw r w) = []
taken (reading r) = []
taken (sized r payload_len) = []
taken (copied r output) = output ∷ []
taken (pop_done o) = []

-- The ring, its two threads, and what has gone in and out so far.
pub record System : Type 0 where
  pub ring : Ring
  pub producer : Producer
  pub consumer : Consumer
  pub sent : List (List ℕ)
  pub received : List (List ℕ)

-- A thread takes a step or starts a call. While the producer writes a slot, any bytes may be seen
-- in it.
pub data Step (host : Host) (s : System) : System → Type 0 where
  push_call :
      (span : Span) (sampled : Bool)
      → s.producer ≡ resting
      → IsSpan span
      → Step host s (record s { producer = pushing span sampled })
  pop_call : s.consumer ≡ waiting → Step host s (record s { consumer = popping })
  half_written :
      (span : Span) (sampled : Bool) (w : ℕ) (bytes : List ℕ)
      → s.producer ≡ writing span sampled w
      → length bytes ≡ entry_size
      → Step host s (record s { ring = record s.ring { slots = set s.ring.slots w bytes } })
  produces :
      (rb : Ring) (p : Producer)
      → produce host s.ring s.producer ≡ ok (rb, p)
      → Step host s (record s { ring = rb; producer = p; sent = s.sent ++ published s.producer })
  consumes :
      (rb : Ring) (c : Consumer)
      → consume host s.ring s.consumer ≡ ok (rb, c)
      → Step host s
          (record s { ring = rb; consumer = c; received = s.received ++ taken s.consumer })

pub data Reach (host : Host) (capacity : ℕ) : System → Type 0 where
  start :
      (rb : Ring)
      → create capacity ≡ ok rb
      → Reach host capacity
          (record { ring = rb; producer = resting; consumer = waiting; sent = []; received = [] })
  next : {s t : System} → Reach host capacity s → Step host s t → Reach host capacity t
