-- ===== src/Receiver/Tally.antt =====
-- The counters of `receiver_thread_func` of src/collector/receiver.c against the fates of the
-- datagrams.
use dapper_lite.Prelude.{
  ℕ, ◌≡◌, refl, Bool, Bool-cases, Option, inl, inr, List, [], ◌∷◌, arith, ◌==◌, length, All,
}
use dapper_lite.Prelude.Outcome.{Outcome, ok, Safe}
use dapper_lite.ByteOrder.{Host}
use dapper_lite.Receiver.{
  Received, interrupted, broken, arrived, thread_loop, receiver_thread_func, Receiver,
}
use dapper_lite.Receiver.Fates.{run_length, fates}
use dapper_lite.Receiver.Accounting.{AreBytes, IsBalanced, receiver_thread_func-IsBalanced}
use dapper_lite.Receiver.Counted.{Counted, nothing-Counted, Counted-cons}
use dapper_lite.Receiver.Window.{Keeps}
use dapper_lite.Receiver.Datagram.{handle-Counted, handle_empty}

module _ (host : Host) (auth : Option (ℕ → List ℕ → Bool)) (limit : ℕ) (sources : List ℕ) where
  thread_loop-Counted :
      (events : List Received) (r : Receiver) (seconds : List ℕ)
      → Keeps limit sources seconds r
      → All AreBytes events
      → let fs = fates host auth limit sources seconds events in
        (r' : Receiver) × (thread_loop host auth events r ≡ ok r') × Counted (length fs) fs r r'
  unfolding thread_loop fates AreBytes
  thread_loop-Counted [] r seconds k h = (r, refl, nothing-Counted r)
  thread_loop-Counted (interrupted ∷ events) r seconds k h =
      thread_loop-Counted events r seconds k h.1
  thread_loop-Counted (broken ∷ events) r seconds k h = (r, refl, nothing-Counted r)
  thread_loop-Counted (arrived packet ∷ events) r seconds k h =
      elim (Bool-cases (length packet.bytes == 0)) [
        | inl e ↦
            let (r', f, c) = thread_loop-Counted events r seconds k h.1 in
            (r', rw (handle_empty host auth limit sources r packet e) f, rw e c)
        | inr e ↦
            let (r1, f, c, kept) =
              handle-Counted host auth limit sources r packet seconds k e h.0 in
            let (r', g, d) = thread_loop-Counted events r1 (packet.now.sec ∷ seconds) kept h.1 in
            (r', rw f g, rw e (Counted-cons _ _ _ r r1 r' c d))
      ]

Safe-ok : {A : Type 0} (P : A → Type 0) (m : Outcome A) (a : A) → m ≡ ok a → Safe P m → P a
Safe-ok P m a e s = rw e at s

-- Whatever the thread receives, it ends without an access out of bounds. The datagrams that are not
-- empty, up to an error of `recvfrom`, are then counted: each one as received, and besides by its
-- fate, which `fates` finds from the limit, the list of sources, the hook and the datagrams: as
-- over the rate limit, as unauthorized, as invalid, or, if its span is handed to the table, as
-- processed or by one of the table's two drop counters (all modulo 2 ^ 64). Empty datagrams are
-- counted nowhere. So the counter of datagrams stays the sum of the others, if it was.
pub receiver_thread_func-Counted :
    (host : Host) (auth : Option (ℕ → List ℕ → Bool)) (events : List Received) (r : Receiver)
    → IsBalanced r
    → All AreBytes events
    → let fs = fates host auth r.max_packets_per_sec r.allowed [] events in
      (r' : Receiver) × (receiver_thread_func host auth events r ≡ ok r')
      × Counted (length fs) fs r r'
      × IsBalanced r'
unfolding receiver_thread_func run_length
receiver_thread_func-Counted host auth events r balanced bytes =
    let start = record r { window_sec = 0; window_count = 0 } in
    let kept : Keeps r.max_packets_per_sec r.allowed [] start = record {
      limit_kept = refl;
      sources_kept = refl;
      window = λ e sec. ground arith;
    } in
    let (r', e, c) =
      thread_loop-Counted host auth r.max_packets_per_sec r.allowed events start [] kept bytes in
    (
      r',
      e,
      record {
        received = c.received;
        over_limit = c.over_limit;
        unauthorized = c.unauthorized;
        invalid = c.invalid;
        in_table = c.in_table;
      },
      Safe-ok IsBalanced (receiver_thread_func host auth events r) r' e
          (receiver_thread_func-IsBalanced host auth events r balanced bytes),
    )
