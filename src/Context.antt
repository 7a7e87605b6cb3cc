-- ===== src/Context.antt =====
-- src/core/context.c and include/dapper/context.h: the trace context that crosses processes.
pub mod RoundTrip
use dapper_lite.Prelude.{ℕ, ◌%◌, Bool, true, false, List, [], ◌∷◌, ltb, ◌==◌, not, if◌then◌else◌}
use dapper_lite.Prelude.Outcome.{Outcome, ok, fail_if, ◌>>=◌, ◌>>◌}
use dapper_lite.Memory.{write_bytes, read_bytes}
use dapper_lite.ByteOrder.{Host, object_bytes, object_value, dapper_hton64, dapper_ntoh64}
use dapper_lite.Core.{Span}

pub record TraceContext : Type 0 where
  pub trace_id : ℕ
  pub span_id : ℕ
  pub sampled : Bool

abbrev pub trace_context_wire_size : ℕ
trace_context_wire_size = 17

abbrev pub trace_context_flag_sampled : ℕ
trace_context_flag_sampled = 1

-- The buffer after the call; the count that is returned is the wire size.
unfoldable pub context_inject : Host → Span → List ℕ → ℕ → Outcome (List ℕ)
context_inject host span buffer bufsize = do
  fail_if (ltb bufsize trace_context_wire_size)
  buffer ← write_bytes buffer 0 (object_bytes host 8 (dapper_hton64 host span.trace_id))
  buffer ← write_bytes buffer 8 (object_bytes host 8 (dapper_hton64 host span.span_id))
  write_bytes buffer 16 ((if span.sampled then trace_context_flag_sampled else 0) ∷ [])

-- `flags & TRACE_CONTEXT_FLAG_SAMPLED` of a byte, and the test that it is not 0.
unfoldable pub flag_set : List ℕ → Bool
flag_set [] = false
flag_set (flags ∷ rest) = not (flags % 2 == 0)

unfoldable pub context_extract : Host → List ℕ → ℕ → Outcome TraceContext
unfolding flag_set
context_extract host buffer bufsize = do
  fail_if (ltb bufsize trace_context_wire_size)
  trace_id_net ← read_bytes buffer 0 8
  span_id_net ← read_bytes buffer 8 8
  flags ← read_bytes buffer 16 1
  ok (record {
    trace_id = dapper_ntoh64 host (object_value host trace_id_net);
    span_id = dapper_ntoh64 host (object_value host span_id_net);
    sampled = flag_set flags;
  })
