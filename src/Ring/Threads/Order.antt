-- ===== src/Ring/Threads/Order.antt =====
-- What the consumer takes is what the producer has sent, in order, however the steps interleave.
use dapper_lite.Prelude.{
  ℕ, ◌<◌, ◌≡◌, ◌≢◌, refl, sym, ap, ◌∙◌, inl, inr, [], ◌++◌, arith, length, append_assoc,
}
use dapper_lite.Prelude.Outcome.{ok, fault}
use dapper_lite.ByteOrder.{Host}
use dapper_lite.Ring.{Ring, create}
use dapper_lite.Ring.Contents.{IsValid, used-lt, contents, length-contents}
use dapper_lite.Ring.Refine.{create_lem}
use dapper_lite.Ring.Threads.{
  System, Step, push_call, pop_call, half_written, produces, consumes, Reach, start, next, produce,
  consume, published, taken, Producer, Consumer,
}
use dapper_lite.Ring.Threads.Moves.{with_slot, with_slot-IsValid, contents-with_slot, first_kept}
use dapper_lite.Ring.Threads.Invariant.{Knows, Sees, Sees-kept, produce-Step, consume-Step}

record Inv (host : Host) (capacity : ℕ) (s : System) : Type 0 where
  valid : IsValid s.ring
  size : s.ring.capacity ≡ capacity
  knows : Knows host s.ring s.producer
  sees : Sees host s.ring s.consumer
  order : s.sent ≡ s.received ++ contents host s.ring

abbrev initial : Ring → System
initial rb = record {
  ring = rb;
  producer = Producer.resting;
  consumer = Consumer.waiting;
  sent = [];
  received = [];
}

initial-Inv :
    (host : Host) (capacity : ℕ) (rb : Ring)
    → create capacity ≡ ok rb
    → Inv host capacity (initial rb)
initial-Inv host capacity rb h = elim (create_lem host capacity) [
  | inl (_, f) ↦ cc
  | inr (rb', e, v, c, n) ↦
      let same : rb' ≡ rb = ground (arith, e, h) in
      record {
        valid = rw (← same) v;
        size = rw (← same) n;
        knows = tt;
        sees = tt;
        order = rw (← same) (sym c);
      }
]

same_result : {A B : Type 0} {p q : A × B} → ok p ≡ ok q → (p.0 ≡ q.0) × (p.1 ≡ q.1)
same_result {A} {B} {p} {q} h = let e : p ≡ q = cc in (ap (λ r. r.0) e, ap (λ r. r.1) e)

module _ (host : Host) (capacity : ℕ) where
  Step-Inv : {s t : System} → Step host s t → Inv host capacity s → Inv host capacity t
  Step-Inv {s} (push_call span sampled e h) i = record {
    valid = i.valid;
    size = i.size;
    knows = h;
    sees = i.sees;
    order = i.order;
  }
  Step-Inv {s} (pop_call e) i = record {
    valid = i.valid;
    size = i.size;
    knows = i.knows;
    sees = tt;
    order = i.order;
  }
  Step-Inv {s} (half_written span sampled w bytes e h) i =
      let k : Knows host s.ring (Producer.writing span sampled w) = rw e at i.knows in
      rw k.1 (record {
        valid = with_slot-IsValid i.valid bytes h;
        size = i.size;
        knows = rw (e, k.1) (k.0, refl, k.2);
        sees =
            Sees-kept host s.ring (with_slot s.ring bytes) s.consumer refl (λ q. q)
              (first_kept i.valid bytes) i.sees;
        order = rw (contents-with_slot i.valid host bytes) i.order;
      })
  Step-Inv {s} (produces rb p e) i =
      let (rb', p', run, v, k, c, o, r, more, kept) =
        produce-Step host s.ring i.valid s.producer i.knows in
      let (same_ring, same_producer) = same_result (sym run ∙ e) in
      rw (← same_ring, ← same_producer)
        (record {
          valid = v;
          size = c ∙ i.size;
          knows = k;
          sees = Sees-kept host s.ring rb' s.consumer r more kept i.sees;
          order =
              ap (λ l. l ++ published s.producer) i.order
              ∙ append_assoc s.received (contents host s.ring) (published s.producer)
              ∙ ap (λ l. s.received ++ l) (sym o);
        })
  Step-Inv {s} (consumes rb c e) i =
      let (rb', c', run, v, k, n, o, kept) = consume-Step host s.ring i.valid s.consumer i.sees in
      let (same_ring, same_consumer) = same_result (sym run ∙ e) in
      rw (← same_ring, ← same_consumer)
        (record {
          valid = v;
          size = n ∙ i.size;
          knows = kept s.producer i.knows;
          sees = k;
          order =
              i.order
              ∙ ap (λ l. s.received ++ l) o
              ∙ sym (append_assoc s.received (taken s.consumer) (contents host rb'));
        })

  Reach-Inv : {s : System} → Reach host capacity s → Inv host capacity s
  Reach-Inv (start rb h) = initial-Inv host capacity rb h
  Reach-Inv (next r step) = Step-Inv step (Reach-Inv r)

-- However the steps of the two threads interleave from a new ring on, what has been taken from it
-- and then what waits in it is all that has been sent, in the order of sending: nothing is
-- lost, doubled, reordered or read while it is half written.
pub Reach-order :
    (host : Host) (capacity : ℕ) {s : System}
    → Reach host capacity s
    → s.sent ≡ s.received ++ contents host s.ring
Reach-order host capacity r = (Reach-Inv host capacity r).order

-- However the steps interleave, fewer entries than the capacity wait, and the next step of
-- either thread reads and writes inside the slots.
pub Reach-bounds :
    (host : Host) (capacity : ℕ) {s : System}
    → Reach host capacity s
    → (length (contents host s.ring) < capacity)
      × (produce host s.ring s.producer ≢ fault)
      × (consume host s.ring s.consumer ≢ fault)
Reach-bounds host capacity {s} r =
    let i = Reach-Inv host capacity r in
    let p = produce-Step host s.ring i.valid s.producer i.knows in
    let c = consume-Step host s.ring i.valid s.consumer i.sees in
    (
      omega (arith, length-contents host s.ring, used-lt i.valid, i.size),
      rw p.2 (λ h. cc),
      rw c.2 (λ h. cc),
    )
