-- ===== src/Context/RoundTrip.antt =====
-- A context that one process injects is the context that another extracts, whatever the byte
-- order of the two machines.
use dapper_lite.Prelude.{
  ℕ, ◌<◌, ◌≤◌, ◌^◌, ◌≡◌, refl, Bool, true, false, List, [], ◌∷◌, ◌++◌, arith, length, drop,
  append_assoc, if◌then◌else◌,
}
use dapper_lite.Prelude.Outcome.{ok, ◌>>=◌}
use dapper_lite.ByteOrder.{Host, be_bytes}
use dapper_lite.ByteOrder.Laws.{length-be_bytes, object_bytes-hton64, ntoh64-be_bytes}
use dapper_lite.Core.{Span}
use dapper_lite.Context.{trace_context_flag_sampled, flag_set, context_inject, context_extract}
use dapper_lite.Wire.Cursor.{Cursor, not_beyond, write_bytes-Writes}
use dapper_lite.Wire.Reader.{Stands, part, behind, read_bytes-Stands}

flag_byte : Span → List ℕ
flag_byte span = (if span.sampled then trace_context_flag_sampled else 0) ∷ []

-- What `context_inject` writes.
pub context_bytes : Span → List ℕ
unfolding flag_byte
context_bytes span = be_bytes 8 span.trace_id ++ (be_bytes 8 span.span_id ++ flag_byte span)

module _ (span : Span) (buffer : List ℕ) (bufsize : ℕ) (t_fits : span.trace_id < 2 ^ 64)
    (s_fits : span.span_id < 2 ^ 64) (room : 17 ≤ bufsize) (inside : bufsize ≤ length buffer) where
  pub context_inject_lem :
      (host : Host)
      → (rest : List ℕ) × (context_inject host span buffer bufsize
          ≡ ok (context_bytes span ++ rest))
  unfolding context_inject context_bytes flag_byte
  context_inject_lem host =
      let start : Cursor [] buffer 0 bufsize = record { at = refl; room = omega (arith, inside) } in
      let w1 =
        write_bytes-Writes _ _ (be_bytes 8 span.trace_id) 8 _ _ start
          (length-be_bytes 8 span.trace_id) (omega (arith, room)) in
      let w2 =
        write_bytes-Writes _ _ (be_bytes 8 span.span_id) 8 _ _ w1.1 (length-be_bytes 8 span.span_id)
          (omega (arith, room)) in
      let w3 = write_bytes-Writes _ _ (flag_byte span) 1 _ _ w2.1 refl (omega (arith, room)) in
      (
        drop 1 (drop 8 (drop 8 buffer)),
        rw
            (
              not_beyond bufsize 17 room,
              object_bytes-hton64 host span.trace_id t_fits,
              object_bytes-hton64 host span.span_id s_fits,
              w1.0,
              w2.0,
              w3.0,
            )
            (simp append_assoc),
      )

flag_set-flag_byte : (span : Span) → flag_set (flag_byte span) ≡ span.sampled
unfolding flag_byte flag_set
flag_set-flag_byte span = go span.sampled
  where
    go : (b : Bool) → flag_set ((if b then trace_context_flag_sampled else 0) ∷ []) ≡ b
    go true = refl
    go false = refl

context_extract_lem :
    (host : Host) (span : Span) (rest : List ℕ) (bufsize : ℕ)
    → span.trace_id < 2 ^ 64
    → span.span_id < 2 ^ 64
    → 17 ≤ bufsize
    → context_extract host (context_bytes span ++ rest) bufsize
      ≡ ok (record { trace_id = span.trace_id; span_id = span.span_id; sampled = span.sampled })
unfolding context_extract context_bytes
context_extract_lem host span rest bufsize t_fits s_fits room =
    let st : Stands (context_bytes span ++ rest) (context_bytes span) rest 0 = record {
      front = [];
      split = refl;
      at = refl;
    } in
    let b1 =
      behind 8 (be_bytes 8 span.trace_id) _ st (omega (arith, length-be_bytes 8 span.trace_id)) in
    let b2 =
      behind 16 (be_bytes 8 span.span_id) _ b1 (omega (arith, length-be_bytes 8 span.span_id)) in
    rw
      (
        not_beyond bufsize 17 room,
        read_bytes-Stands 8 (part (be_bytes 8 span.trace_id) _ st)
            (length-be_bytes 8 span.trace_id),
        read_bytes-Stands 8 (part (be_bytes 8 span.span_id) _ b1) (length-be_bytes 8 span.span_id),
        read_bytes-Stands 1 b2 refl,
        ntoh64-be_bytes host span.trace_id t_fits,
        ntoh64-be_bytes host span.span_id s_fits,
        flag_set-flag_byte span,
      )
      refl

-- With a buffer of at least 17 bytes, `context_inject` on one machine succeeds, and
-- `context_extract` on another, of the same or of the other byte order, succeeds on the result
-- and gives the span's trace id, its span id and its sampling decision.
pub context_extract-context_inject :
    (sender receiver : Host) (span : Span) (buffer : List ℕ) (bufsize : ℕ)
    → span.trace_id < 2 ^ 64
    → span.span_id < 2 ^ 64
    → 17 ≤ bufsize
    → bufsize ≤ length buffer
    → (context_inject sender span buffer bufsize >>= λ b. context_extract receiver b bufsize)
      ≡ ok (record { trace_id = span.trace_id; span_id = span.span_id; sampled = span.sampled })
context_extract-context_inject sender receiver span buffer bufsize t_fits s_fits room inside =
    let written = context_inject_lem span buffer bufsize t_fits s_fits room inside sender in
    rw written.1 (context_extract_lem receiver span written.0 bufsize t_fits s_fits room)
