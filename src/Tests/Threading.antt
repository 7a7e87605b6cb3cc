-- ===== src/Tests/Threading.antt =====
-- The theorems on the two threads of a ring, when the producer has sent a span behind the back of
-- a consumer that has loaded both indices.
use dapper_lite.Prelude.{
  ℕ, ◌<◌, ◌≡◌, ◌≢◌, refl, true, List, [], ◌∷◌, ◌++◌, length, length-replicate, replicate,
}
use dapper_lite.Prelude.Outcome.{ok, fault}
use dapper_lite.ByteOrder.{little}
use dapper_lite.Ring.{Ring, create, slot_at, store_slot}
use dapper_lite.Ring.Slots.{store_slot_lem}
use dapper_lite.Ring.Contents.{contents}
use dapper_lite.Wire.Layout.{span_bytes}
use dapper_lite.Ring.Threads.{
  System, Producer, Consumer, push_call, pop_call, produces, consumes, Reach, start, next, produce,
  consume, published, taken,
}
use dapper_lite.Ring.Threads.Order.{Reach-order, Reach-bounds}
use dapper_lite.Tests.Data.{root_span, root_span-IsSpan, small_ring}

abbrev empty_slot : List ℕ
empty_slot = replicate 256 0

-- The slot that is written.
stored : (slot : List ℕ) × (store_slot little empty_slot root_span true ≡ ok slot)
stored =
    let s =
      store_slot_lem little empty_slot root_span true root_span-IsSpan
        (length-replicate {A = ℕ} 256 0) in
    (s.0, s.1)

abbrev filled : Ring
filled = record {
  slots = stored.0 ∷ empty_slot ∷ empty_slot ∷ [];
  capacity = 3;
  write_index = 0;
  read_index = 0;
}

filled_lem :
    produce little small_ring (Producer.writing root_span true 0)
    ≡ ok (filled, Producer.written root_span true 0)
unfolding produce small_ring slot_at
filled_lem = rw stored.1 refl

abbrev after : System
after = record {
  ring = record filled { write_index = 1 };
  producer = Producer.push_done true;
  consumer = Consumer.loaded_rw 0 0;
  sent = span_bytes root_span true 252 ∷ [];
  received = [];
}

checked : Reach little 3 (record {
  ring = small_ring;
  producer = Producer.writing root_span true 0;
  consumer = Consumer.loaded_rw 0 0;
  sent = [];
  received = [];
})
unfolding create small_ring produce consume published taken
checked =
    next
      (next
        (next
          (next
            (next
              (next (next (start small_ring refl) (push_call root_span true refl root_span-IsSpan))
                (pop_call refl))
              (produces small_ring (Producer.loaded_w root_span true 0) refl))
            (consumes small_ring (Consumer.loaded_r 0) refl))
          (produces small_ring (Producer.loaded_wr root_span true 0 0) refl))
        (consumes small_ring (Consumer.loaded_rw 0 0) refl))
      (produces small_ring (Producer.writing root_span true 0) refl)

reached : Reach little 3 after
unfolding produce published
reached =
    next (next checked (produces filled (Producer.written root_span true 0) filled_lem))
      (produces (record filled { write_index = 1 }) (Producer.push_done true) refl)

Reach-order_example : after.sent ≡ after.received ++ contents little after.ring
Reach-order_example = Reach-order little 3 reached

Reach-bounds_example :
    (length (contents little after.ring) < 3)
    × (produce little after.ring after.producer ≢ fault)
    × (consume little after.ring after.consumer ≢ fault)
Reach-bounds_example = Reach-bounds little 3 reached
