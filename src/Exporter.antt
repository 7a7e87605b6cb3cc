-- ===== src/Exporter.antt =====
-- src/export/exporter_thread.c, file_sink.c and udp_sink.c: spans are submitted by the program and
-- sent on by the exporter thread. What one turn of the thread does is `export_next`; the calls of
-- both sides are taken one at a time.
pub mod Accounting
pub mod Delivery
use dapper_lite.Prelude.{
  ℕ, zero, suc, ◌+◌, ◌%◌, ◌^◌, Bool, true, false, List, [], ◌∷◌, ◌++◌, ◌==◌, if◌then◌else◌, length,
}
use dapper_lite.Prelude.Outcome.{Outcome, ok, failed, fault, ◌>>=◌, ◌>>◌, fail_if}
use dapper_lite.ByteOrder.{Host, object_bytes}
use dapper_lite.Core.{Span}
use dapper_lite.Ring
use dapper_lite.Ring.{Ring}

abbrev pub ring_buffer_default_capacity : ℕ
ring_buffer_default_capacity = 4096

pub data SinkType : Type 0 where
  file udp : SinkType

-- `sent` has what left the process, oldest first: the records of a file, or datagrams.
pub record Sink : Type 0 where
  pub kind : SinkType
  pub attempts : ℕ
  pub sent : List (List ℕ)

pub record Exporter : Type 0 where
  pub ring : Ring
  pub sink : Sink
  pub running : Bool
  pub started : Bool
  pub spans_submitted : ℕ
  pub spans_exported : ℕ
  pub spans_dropped : ℕ

-- `atomic_fetch_add(&counter, 1)` on a `uint64_t`.
abbrev pub count_up : ℕ → ℕ
count_up n = (n + 1) % 2 ^ 64

unfoldable pub submit_result : Exporter → Outcome Ring → Outcome Exporter
submit_result exp pushed =
    let counted = record exp { spans_submitted = count_up exp.spans_submitted } in
    elim pushed [
      | ok rb ↦ ok (record counted { ring = rb })
      | failed ↦ ok (record counted { spans_dropped = count_up exp.spans_dropped })
      | fault ↦ fault
    ]

module _ (host : Host) where
  -- A record of the file is its length, in host order, and the bytes; a datagram is the bytes.
  unfoldable pub frame : SinkType → List ℕ → List ℕ
  frame file bytes = object_bytes host 4 (length bytes % 2 ^ 32) ++ bytes
  frame udp bytes = bytes

  -- `accepts n` says whether the `n`-th write to the operating system succeeds.
  module _ (accepts : ℕ → Bool) where
    -- `sink->write`, with `true` for its result 0. A write that fails leaves nothing in `sent`; the
    -- file sink may already have written the 4 bytes of the length in front.
    unfoldable pub sink_write : Sink → List ℕ → Sink × Bool
    sink_write sink bytes =
        if length bytes == 0
        then (sink, false)
        else if accepts sink.attempts
        then (
          record sink {
            attempts = sink.attempts + 1;
            sent = sink.sent ++ (frame sink.kind bytes ∷ []);
          },
          true,
        )
        else (record sink { attempts = sink.attempts + 1 }, false)

    -- The body of `if (ring_buffer_pop(...))`.
    unfoldable pub export_bytes : Exporter → List ℕ × Ring → Exporter
    export_bytes exp popped =
        let (sink, done) = sink_write exp.sink popped.0 in
        record exp {
          ring = popped.1;
          sink = sink;
          spans_exported = if done then count_up exp.spans_exported else exp.spans_exported;
        }

    -- One turn of the thread's loop. On an empty ring it sleeps.
    unfoldable pub export_next : Exporter → Outcome Exporter
    export_next exp = elim (Ring.pop host exp.ring) [
      | ok popped ↦ ok (export_bytes exp popped)
      | failed ↦ ok exp
      | fault ↦ fault
    ]

    -- The loop after `running` is false; `failed` means that the fuel ran out.
    unfoldable pub drain : ℕ → Exporter → Outcome Exporter
    drain zero exp = failed
    drain (suc fuel) exp = elim (Ring.pop host exp.ring) [
      | ok popped ↦ drain fuel (export_bytes exp popped)
      | failed ↦ ok exp
      | fault ↦ fault
    ]

    -- `exporter_stop`: the thread empties the ring before it is joined. A turn of the drain frees
    -- one of the waiting slots, fewer than `capacity`, and a last one finds none.
    unfoldable pub stop : Exporter → Outcome Exporter
    stop exp =
        if exp.started
        then (drain exp.ring.capacity (record exp { running = false }) >>= λ e.
            ok (record e { started = false }))
        else ok exp

    -- What the sink has sent when it is closed.
    unfoldable pub destroy : Exporter → Outcome (List (List ℕ))
    unfolding stop
    destroy exp = if exp.started then (stop exp >>= λ e. ok e.sink.sent) else ok exp.sink.sent

  unfoldable pub create_with_sink : Sink → Outcome Exporter
  create_with_sink sink = do
    rb ← Ring.create ring_buffer_default_capacity
    ok (record {
      ring = rb;
      sink = sink;
      running = false;
      started = false;
      spans_submitted = 0;
      spans_exported = 0;
      spans_dropped = 0;
    })

  -- `created` says whether `pthread_create` succeeds.
  unfoldable pub start : Bool → Exporter → Outcome Exporter
  start created exp =
      if exp.started
      then failed
      else if created
      then ok (record exp { running = true; started = true })
      else failed

  -- What `ring_buffer_push` returned decides the second counter.
  unfoldable pub submit : Exporter → Span → Outcome Exporter
  unfolding submit_result
  submit exp span = submit_result exp (Ring.push host exp.ring span span.sampled)

pub record ExporterStats : Type 0 where
  pub spans_submitted : ℕ
  pub spans_exported : ℕ
  pub spans_dropped : ℕ

unfoldable pub get_stats : Exporter → ExporterStats
get_stats exp = record {
  spans_submitted = exp.spans_submitted;
  spans_exported = exp.spans_exported;
  spans_dropped = exp.spans_dropped;
}
