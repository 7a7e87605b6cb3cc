-- ===== src/Ring/Threads/Invariant.antt =====
-- What holds of the ring and its two threads between any two steps.
use dapper_lite.Prelude.{
  ℕ, ◌+◌, ◌%◌, ◌<◌, ◌≤◌, ◌≡◌, refl, sym, ap, ◌∙◌, true, false, Bool-cases, inl, inr, List, [], ◌++◌,
  arith, ◌==◌, length, take, drop, none, some, append-nil,
}
use dapper_lite.Prelude.Outcome.{Outcome, ok}
use dapper_lite.Memory.{read_bytes_lem}
use dapper_lite.ByteOrder.{Host, object_value}
use dapper_lite.Wire.Layout.{IsSpan, span_bytes}
use dapper_lite.Ring.{Ring, entry_size}
use dapper_lite.Ring.Slots.{payload, payload_lem, store_slot_lem}
use dapper_lite.Ring.Contents.{
  IsValid, used-lt, nth, contents, slot_at_lem, nth_sized, nth-set_self,
}
use dapper_lite.Ring.Advance.{full_iff, popped, contents-popped}
use dapper_lite.Ring.Threads.{
  Producer, resting, pushing, loaded_w, loaded_wr, writing, written, push_done, Consumer, waiting,
  popping, loaded_r, loaded_rw, reading, sized, copied, pop_done, clamped, produce, consume,
  published, taken,
}
use dapper_lite.Ring.Threads.Moves.{
  HasRoom, HasSome, with_slot, with_slot-IsValid, contents-with_slot, first_kept, advance_write,
  advance_write-IsValid, used-advance_write, contents-advance_write, popped-IsValid, not_empty,
  HasRoom-popped,
}

-- What the producer knows. It is not undone by the consumer.
abbrev pub Knows : Host → Ring → Producer → Type 0
Knows host rb resting = Unit {0}
Knows host rb (pushing span sampled) = IsSpan span
Knows host rb (loaded_w span sampled w) = IsSpan span × (w ≡ rb.write_index)
Knows host rb (loaded_wr span sampled w r) =
    IsSpan span × (w ≡ rb.write_index) × (((w + 1) % rb.capacity == r) ≡ false → HasRoom rb)
Knows host rb (writing span sampled w) = IsSpan span × (w ≡ rb.write_index) × HasRoom rb
Knows host rb (written span sampled w) =
    (w ≡ rb.write_index)
    × HasRoom rb
    × (payload host (nth rb.slots rb.write_index) ≡ span_bytes span sampled 252)
Knows host rb (push_done b) = Unit {0}

-- What the consumer knows. It is not undone by the producer.
abbrev pub Sees : Host → Ring → Consumer → Type 0
Sees host rb waiting = Unit {0}
Sees host rb popping = Unit {0}
Sees host rb (loaded_r r) = r ≡ rb.read_index
Sees host rb (loaded_rw r w) = (r ≡ rb.read_index) × ((r == w) ≡ false → HasSome rb)
Sees host rb (reading r) = (r ≡ rb.read_index) × HasSome rb
Sees host rb (sized r n) =
    (r ≡ rb.read_index)
    × HasSome rb
    × (n ≡ clamped (object_value host (take 4 (nth rb.slots rb.read_index))))
Sees host rb (copied r output) =
    (r ≡ rb.read_index) × HasSome rb × (output ≡ payload host (nth rb.slots rb.read_index))
Sees host rb (pop_done o) = Unit {0}

-- A step of the other thread, as far as it concerns the one.
Knows-popped :
    (host : Host) (rb : Ring) (p : Producer)
    → IsValid rb
    → HasSome rb
    → Knows host rb p
    → Knows host (popped rb) p
Knows-popped host rb resting v h k = tt
Knows-popped host rb (pushing span sampled) v h k = k
Knows-popped host rb (loaded_w span sampled w) v h k = k
Knows-popped host rb (loaded_wr span sampled w r) v h (s, e, f) =
    (s, e, λ q. HasRoom-popped v h (f q))
Knows-popped host rb (writing span sampled w) v h (s, e, r) = (s, e, HasRoom-popped v h r)
Knows-popped host rb (written span sampled w) v h (e, r, s) = (e, HasRoom-popped v h r, s)
Knows-popped host rb (push_done b) v h k = tt

-- The slots may change but for the one that is read, and more may wait.
pub Sees-kept :
    (host : Host) (rb rb' : Ring) (c : Consumer)
    → rb'.read_index ≡ rb.read_index
    → (HasSome rb → HasSome rb')
    → (HasSome rb → nth rb'.slots rb.read_index ≡ nth rb.slots rb.read_index)
    → Sees host rb c
    → Sees host rb' c
Sees-kept host rb rb' waiting e more kept k = tt
Sees-kept host rb rb' popping e more kept k = tt
Sees-kept host rb rb' (loaded_r r) e more kept k = k ∙ sym e
Sees-kept host rb rb' (loaded_rw r w) e more kept (k, f) = (k ∙ sym e, λ q. more (f q))
Sees-kept host rb rb' (reading r) e more kept (k, h) = (k ∙ sym e, more h)
Sees-kept host rb rb' (sized r n) e more kept (k, h, z) = (k ∙ sym e, more h, rw (e, kept h) z)
Sees-kept host rb rb' (copied r output) e more kept (k, h, z) =
    (k ∙ sym e, more h, rw (e, kept h) z)
Sees-kept host rb rb' (pop_done o) e more kept k = tt

-- A step of the producer does not fault, appends to what waits what it publishes, and the
-- consumer knows what it knew.
abbrev pub ProducerStep : Host → Ring → Producer → Outcome (Ring × Producer) → Type 0
ProducerStep host rb p r =
    (rb' : Ring) × (p' : Producer) × (r ≡ ok (rb', p'))
    × IsValid rb'
    × Knows host rb' p'
    × (rb'.capacity ≡ rb.capacity)
    × (contents host rb' ≡ contents host rb ++ published p)
    × (rb'.read_index ≡ rb.read_index)
    × (HasSome rb → HasSome rb')
    × (HasSome rb → nth rb'.slots rb.read_index ≡ nth rb.slots rb.read_index)

module _ (host : Host) (rb : Ring) (v : IsValid rb) where
  -- A step that only changes where the producer is.
  stays :
      (p p' : Producer) → published p ≡ [] → Knows host rb p' → ProducerStep host rb p (ok (rb, p'))
  stays p p' e k = (
    rb,
    p',
    refl,
    v,
    k,
    refl,
    rw e (sym (append-nil (contents host rb))),
    refl,
    (λ h. h),
    (λ h. refl),
  )

  pub produce-Step : (p : Producer) → Knows host rb p → ProducerStep host rb p (produce host rb p)
  unfolding produce published
  produce-Step resting k = stays resting resting refl tt
  produce-Step (pushing span sampled) k =
      stays (pushing span sampled) (loaded_w span sampled rb.write_index) refl (k, refl)
  produce-Step (loaded_w span sampled w) (s, e) =
      stays (loaded_w span sampled w) (loaded_wr span sampled w rb.read_index) refl
        (s, e, λ q. ground (arith, full_iff v, used-lt v, e, q))
  produce-Step (loaded_wr span sampled w r) (s, e, f) =
      elim (Bool-cases ((w + 1) % rb.capacity == r)) [
        | inl full ↦ rw full (stays (loaded_wr span sampled w r) (push_done false) refl tt)
        | inr q ↦
            rw q (stays (loaded_wr span sampled w r) (writing span sampled w) refl (s, e, f q))
      ]
  produce-Step (writing span sampled w) (s, e, r) =
      let inside : rb.write_index < length rb.slots = omega (arith, v.write_in, v.count) in
      let old = nth rb.slots rb.write_index in
      let (slot, run, size, holds) =
        store_slot_lem host old span sampled s (nth_sized rb.slots rb.write_index inside v.sized) in
      rw (e, slot_at_lem rb.slots rb.write_index inside, run)
        (
          with_slot rb slot,
          written span sampled rb.write_index,
          refl,
          with_slot-IsValid v slot size,
          (refl, r, rw (nth-set_self rb.slots rb.write_index slot inside) holds),
          refl,
          contents-with_slot v host slot ∙ sym (append-nil (contents host rb)),
          refl,
          (λ h. h),
          first_kept v slot,
        )
  produce-Step (written span sampled w) (e, r, holds) = rw e (
    advance_write rb,
    push_done true,
    refl,
    advance_write-IsValid v,
    tt,
    refl,
    rw (← holds) (contents-advance_write v host r),
    refl,
    (λ h. omega (arith, used-advance_write v r)),
    (λ h. refl),
  )
  produce-Step (push_done b) k = stays (push_done b) resting refl tt

-- A step of the consumer does not fault, takes from the front of what waits, and the producer
-- knows what it knew.
abbrev pub ConsumerStep : Host → Ring → Consumer → Outcome (Ring × Consumer) → Type 0
ConsumerStep host rb c r =
    (rb' : Ring) × (c' : Consumer) × (r ≡ ok (rb', c'))
    × IsValid rb'
    × Sees host rb' c'
    × (rb'.capacity ≡ rb.capacity)
    × (contents host rb ≡ taken c ++ contents host rb')
    × ((p : Producer) → Knows host rb p → Knows host rb' p)

module _ (host : Host) (rb : Ring) (v : IsValid rb) where
  rests : (c c' : Consumer) → taken c ≡ [] → Sees host rb c' → ConsumerStep host rb c (ok (rb, c'))
  rests c c' e k = (rb, c', refl, v, k, refl, rw e refl, (λ p h. h))

  inside : rb.read_index < length rb.slots
  inside = omega (arith, v.read_in, v.count)

  abbrev slot : List ℕ
  slot = nth rb.slots rb.read_index

  slot_size : length slot ≡ entry_size
  slot_size = nth_sized rb.slots rb.read_index inside v.sized

  pub consume-Step : (c : Consumer) → Sees host rb c → ConsumerStep host rb c (consume host rb c)
  unfolding consume taken
  consume-Step waiting k = rests waiting waiting refl tt
  consume-Step popping k = rests popping (loaded_r rb.read_index) refl refl
  consume-Step (loaded_r r) e =
      rests (loaded_r r) (loaded_rw r rb.write_index) refl (e, λ q. ground (arith, v, e, q))
  consume-Step (loaded_rw r w) (e, f) = elim (Bool-cases (r == w)) [
    | inl none_waits ↦ rw none_waits (rests (loaded_rw r w) (pop_done none) refl tt)
    | inr q ↦ rw q (rests (loaded_rw r w) (reading r) refl (e, f q))
  ]
  consume-Step (reading r) (e, h) =
      let n = clamped (object_value host (take 4 slot)) in
      rw
        (
          e,
          slot_at_lem rb.slots rb.read_index inside,
          read_bytes_lem slot 0 4 (omega (arith, slot_size)),
        )
        (rests (reading rb.read_index) (sized rb.read_index n) refl (refl, h, refl))
  consume-Step (sized r n) (e, h, z) =
      let small : 4 + n ≤ length slot = ground (arith, slot_size, z) in
      let all : take n (drop 4 slot) ≡ payload host slot =
        ap (λ k. take k (drop 4 slot)) z ∙ sym (payload_lem host slot slot_size) in
      rw (e, slot_at_lem rb.slots rb.read_index inside, read_bytes_lem slot 4 n small)
        (rests (sized rb.read_index n) (copied rb.read_index (take n (drop 4 slot))) refl
          (refl, h, all))
  consume-Step (copied r output) (e, h, z) =
      rw (e, z)
        (
          popped rb,
          pop_done (some (payload host slot)),
          refl,
          popped-IsValid v,
          tt,
          refl,
          contents-popped host v (not_empty v h),
          (λ p k. Knows-popped host rb p v h k),
        )
  consume-Step (pop_done o) k = rests (pop_done o) waiting refl tt
