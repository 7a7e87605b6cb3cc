-- ===== src/Collector.antt =====
-- src/collector/assembler.c and protocol.c: partial traces in a hash table, and what may enter it.
-- `mutex` locking brackets each call, so a call is one step. Allocations succeed. A time is the
-- pair of `struct timespec`, and the clock's reading is an argument.
pub mod Config
pub mod Lookup
pub mod Extended
pub mod Table
pub mod Flush
pub mod Gathered
use dapper_lite.Prelude.{
  ℕ, zero, suc, ◌+◌, ◌-◌, ◌*◌, ◌%◌, ◌^◌, Bool, true, false, not, ◌&&◌, ◌||◌, Option, none, some,
  List, [], ◌∷◌, ◌++◌, ltb, leb, ◌==◌, if◌then◌else◌, length, get_elem?, set, replicate,
}
use Prim.Native.Nat.{bit_xor}
use dapper_lite.Prelude.Outcome.{Outcome, ok, failed, fault, ◌>>=◌, ◌>>◌, fail_if}
use dapper_lite.ByteOrder.{Host, object_bytes}
use dapper_lite.Core.{Span}
use dapper_lite.Wire.{span_deserialize, span_wire_header_size}

abbrev pub collector_udp_max_packet : ℕ
collector_udp_max_packet = 512

abbrev pub trace_map_default_buckets : ℕ
trace_map_default_buckets = 1024

abbrev pub default_max_active_traces : ℕ
default_max_active_traces = 65536

abbrev pub default_max_spans_per_trace : ℕ
default_max_spans_per_trace = 4096

pub record Time : Type 0 where
  pub sec : ℕ
  pub nsec : ℕ

-- Spans are kept newest first.
pub record PartialTrace : Type 0 where
  pub trace_id : ℕ
  pub spans : List Span
  pub span_count : ℕ
  pub sampled : Bool
  pub has_root : Bool
  pub last_update : Time

unfoldable pub partial_trace_create : ℕ → Time → PartialTrace
partial_trace_create id now = record {
  trace_id = id;
  spans = [];
  span_count = 0;
  sampled = false;
  has_root = false;
  last_update = now;
}

abbrev pub unlinked : Span → Span
unlinked span = record span {
  parent = none;
  first_child = none;
  next_sibling = none;
  owner_next = none;
}

unfoldable pub partial_trace_add_span : PartialTrace → Span → Bool → Time → PartialTrace
partial_trace_add_span pt span sampled now = record pt {
  spans = unlinked span ∷ pt.spans;
  span_count = pt.span_count + 1;
  has_root = pt.has_root || span.parent_span_id == 0;
  sampled = if pt.span_count + 1 == 1 then sampled else pt.sampled;
  last_update = now;
}

-- A chain of a bucket, first entry first.
abbrev pub Chain : Type 0
Chain = List PartialTrace

pub record TraceMap : Type 0 where
  pub buckets : List Chain
  pub num_buckets : ℕ
  pub count : ℕ
  pub max_traces : ℕ
  pub max_spans_per_trace : ℕ
  pub traces_dropped : ℕ
  pub spans_dropped : ℕ

unfoldable pub trace_map_create : ℕ → TraceMap
trace_map_create n =
    let num = if n == 0 then trace_map_default_buckets else n in
    record {
      buckets = replicate num [];
      num_buckets = num;
      count = 0;
      max_traces = default_max_active_traces;
      max_spans_per_trace = default_max_spans_per_trace;
      traces_dropped = 0;
      spans_dropped = 0;
    }

unfoldable pub trace_map_set_limits : TraceMap → ℕ → ℕ → TraceMap
trace_map_set_limits tm max_traces max_spans = record tm {
  max_traces = max_traces;
  max_spans_per_trace = max_spans;
}

unfoldable pub trace_map_get_drop_stats : TraceMap → ℕ × ℕ
trace_map_get_drop_stats tm = (tm.traces_dropped, tm.spans_dropped)

-- FNV-1a over the bytes of the id as they lie in memory.
unfoldable pub fnv_loop : ℕ → List ℕ → ℕ
fnv_loop hash [] = hash
fnv_loop hash (b ∷ bytes) = fnv_loop (bit_xor hash b * 1099511628211 % 2 ^ 64) bytes

unfoldable pub trace_id_hash : Host → ℕ → ℕ → ℕ
unfolding fnv_loop
trace_id_hash host id num_buckets =
    fnv_loop 14695981039346656037 (object_bytes host 8 id) % num_buckets

-- The search along a chain.
unfoldable pub find_in : ℕ → Chain → Option PartialTrace
find_in id [] = none
find_in id (pt ∷ chain) = if pt.trace_id == id then some pt else find_in id chain

-- The trace that the search found, replaced by what `add` makes of it.
unfoldable pub update_in : ℕ → (PartialTrace → PartialTrace) → Chain → Chain
update_in id f [] = []
update_in id f (pt ∷ chain) =
    if pt.trace_id == id then (f pt ∷ chain) else (pt ∷ update_in id f chain)

unfoldable pub chain_at : List Chain → ℕ → Chain
chain_at buckets i = elim (get_elem? buckets i) [ none ↦ [] | some c ↦ c ]

-- The return value 0 is `true`, -1 is `false`.
abbrev pub over : ℕ → ℕ → Bool
over limit n = ltb 0 limit && leb limit n

module _ (host : Host) where
  -- From the second `if` of `trace_map_insert` on: `pt` is the trace of the span, in the chain.
  unfoldable pub insert_span :
      TraceMap → ℕ → Chain → PartialTrace → Span → Bool → Time → TraceMap × Bool
  insert_span tm bucket chain pt span sampled now =
      if over tm.max_spans_per_trace pt.span_count
      then (
        record tm {
          buckets = set tm.buckets bucket chain;
          spans_dropped = (tm.spans_dropped + 1) % 2 ^ 64;
        },
        false,
      )
      else (
        record tm {
          buckets =
              set tm.buckets bucket
                (update_in span.trace_id (λ p. partial_trace_add_span p span sampled now) chain);
        },
        true,
      )

  unfoldable pub trace_map_insert : TraceMap → Span → Bool → Time → TraceMap × Bool
  unfolding insert_span
  trace_map_insert tm span sampled now =
      let bucket = trace_id_hash host span.trace_id tm.num_buckets in
      let chain = chain_at tm.buckets bucket in
      let fresh = partial_trace_create span.trace_id now in
      elim (find_in span.trace_id chain) [
        | some pt ↦ insert_span tm bucket chain pt span sampled now
        | none ↦
            if over tm.max_traces tm.count
            then (record tm { traces_dropped = (tm.traces_dropped + 1) % 2 ^ 64 }, false)
            else insert_span (record tm { count = tm.count + 1 }) bucket (fresh ∷ chain) fresh span
                sampled now
      ]

  unfoldable pub trace_map_find : TraceMap → ℕ → Option PartialTrace
  trace_map_find tm id = find_in id (chain_at tm.buckets (trace_id_hash host id tm.num_buckets))

  -- protocol.c
  unfoldable pub collector_decode_span : List ℕ → ℕ → Outcome (Span × Bool)
  collector_decode_span packet len = do
    fail_if (ltb len span_wire_header_size)
    fail_if (ltb collector_udp_max_packet len)
    (span, sampled, consumed) ← span_deserialize host packet len
    fail_if (span.trace_id == 0)
    fail_if (span.span_id == 0)
    ok (span, sampled)

-- `elapsed_sec >= timeout_sec`. The difference is a signed number there; here what is taken from
-- `now.sec` stands on the other side.
abbrev pub timed_out : Time → ℕ → PartialTrace → Bool
timed_out now timeout pt =
    let borrow = if ltb now.nsec pt.last_update.nsec then 1 else 0 in
    leb (pt.last_update.sec + borrow + timeout) now.sec

-- The walk along one chain: what stays, and what goes to the caller. `room` is `max_out - flushed`, and
-- where it is 0 the loops leave all that follows as it is.
unfoldable pub flush_chain : Time → ℕ → ℕ → Chain → Chain × Chain
flush_chain now timeout room [] = ([], [])
flush_chain now timeout zero (pt ∷ chain) = (pt ∷ chain, [])
flush_chain now timeout (suc room) (pt ∷ chain) =
    let out = flush_chain now timeout room chain in
    let stay = flush_chain now timeout (suc room) chain in
    if timed_out now timeout pt then (out.0, pt ∷ out.1) else (pt ∷ stay.0, stay.1)

unfoldable pub flush_buckets : Time → ℕ → ℕ → List Chain → List Chain × Chain
unfolding flush_chain
flush_buckets now timeout room [] = ([], [])
flush_buckets now timeout room (chain ∷ buckets) =
    let (kept, out) = flush_chain now timeout room chain in
    let rest = flush_buckets now timeout (room - length out) buckets in
    (kept ∷ rest.0, out ++ rest.1)

unfoldable pub trace_map_flush : TraceMap → ℕ → ℕ → Time → TraceMap × Chain
unfolding flush_buckets
trace_map_flush tm max_out timeout now =
    if max_out == 0
    then (tm, [])
    else let (kept, out) = flush_buckets now timeout max_out tm.buckets in
      (record tm { buckets = kept; count = tm.count - length out }, out)
