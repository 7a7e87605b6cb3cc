-- ===== src/Collector/Table.antt =====
-- What the table holds after `trace_map_insert`.
use dapper_lite.Prelude.{ℕ, ◌≡◌, Bool, none, some, ◌==◌, if◌then◌else◌}
use dapper_lite.ByteOrder.{Host}
use dapper_lite.Core.{Span}
use dapper_lite.Collector.{
  Time, PartialTrace, partial_trace_create, partial_trace_add_span, TraceMap, trace_id_hash,
  trace_map_find,
}
use dapper_lite.Collector.Extended.{has_room}
use dapper_lite.Collector.Lookup.{IsTable, entry_or_new}

module _ (host : Host) (tm : TraceMap) (span : Span) (sampled : Bool) (now : Time)
    (v : IsTable tm) where
  abbrev pub id : ℕ
  id = span.trace_id

  abbrev bucket : ℕ
  bucket = trace_id_hash host id tm.num_buckets

  abbrev add : PartialTrace → PartialTrace
  add p = partial_trace_add_span p span sampled now

  abbrev After : ℕ → TraceMap × Bool → Type 0
  After j r = trace_map_find host r.0 j ≡ (
      if r.1
      then (if id == j then some (add (entry_or_new host tm id now)) else trace_map_find host tm j)
      else trace_map_find host tm j)

  fresh : PartialTrace
  fresh = partial_trace_create id now

  -- A trace of the table has room below the cap of its spans, and a new trace below the cap of the
  -- traces.
  unfoldable pub admits : Bool
  admits = elim (trace_map_find host tm id) [
    | some pt ↦ has_room tm.max_spans_per_trace pt.span_count
    | none ↦ has_room tm.max_traces tm.count
  ]
