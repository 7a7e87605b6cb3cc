-- ===== src/Tests/Data.antt =====
-- Test data: a span, an annotated trace of two spans, an empty ring and table.
use dapper_lite.Prelude.{ℕ, zero, suc, refl, true, [], ◌∷◌, arith, replicate, All, length-replicate}
use dapper_lite.Core.{Span, zeroed_annotation, zeroed_span}
use dapper_lite.Core.Strings.{c_array, c_array-IsString}
use dapper_lite.Collector.{Time, PartialTrace, TraceMap}
use dapper_lite.Storage.Log.{IsStorable}
use dapper_lite.Ring.{Ring}
use dapper_lite.Ring.Contents.{IsValid}
use dapper_lite.Ring.Refine.{zeroed_sized}
use dapper_lite.Exporter.{Exporter, file}
use dapper_lite.Wire.Layout.{IsAnnotation, IsSpan}

abbrev pub noon : Time
noon = record { sec = 43200; nsec = 0 }

unfoldable pub root_span : Span
root_span = record zeroed_span {
  trace_id = 7;
  span_id = 1;
  name = c_array 128 (103 ∷ 101 ∷ 116 ∷ []);
  monotonic_start_ns = 1000;
  monotonic_end_ns = 5000;
  wall_start_us = 12;
  sampled = true;
}

unfoldable pub child_span : Span
unfolding root_span
child_span = record root_span { span_id = 2; parent_span_id = 1 }

zeroed_IsAnnotation : IsAnnotation zeroed_annotation
unfolding c_array
zeroed_IsAnnotation = (c_array-IsString 64 [] (omega arith), c_array-IsString 192 [] (omega arith))

slots_ok : (n : ℕ) → All IsAnnotation (replicate n zeroed_annotation)
slots_ok zero = tt
slots_ok (suc n) = (zeroed_IsAnnotation, slots_ok n)

pub root_span-IsSpan : IsSpan root_span
unfolding root_span
root_span-IsSpan = record {
  trace_id_fits = omega arith;
  span_id_fits = omega arith;
  parent_fits = omega arith;
  start_fits = omega arith;
  end_fits = omega arith;
  name_ok = c_array-IsString 128 (103 ∷ 101 ∷ 116 ∷ []) (omega arith);
  annotations_ok = slots_ok 16;
  slots = length-replicate 16 zeroed_annotation;
  count_fits = omega arith;
}

pub child_span-IsSpan : IsSpan child_span
unfolding child_span
child_span-IsSpan = record {
  trace_id_fits = omega arith;
  span_id_fits = omega arith;
  parent_fits = omega arith;
  start_fits = omega arith;
  end_fits = omega arith;
  name_ok = c_array-IsString 128 (103 ∷ 101 ∷ 116 ∷ []) (omega arith);
  annotations_ok = slots_ok 16;
  slots = length-replicate 16 zeroed_annotation;
  count_fits = omega arith;
}

unfoldable pub two_spans : PartialTrace
two_spans = record {
  trace_id = 7;
  spans = child_span ∷ root_span ∷ [];
  span_count = 2;
  sampled = true;
  has_root = true;
  last_update = noon;
}

pub two_spans-IsStorable : IsStorable two_spans
unfolding two_spans
two_spans-IsStorable = record {
  id_fits = omega arith;
  some_span = omega arith;
  few_spans = omega arith;
  spans_ok = (child_span-IsSpan, (root_span-IsSpan, tt));
}

unfoldable pub small_ring : Ring
small_ring = record {
  slots = replicate 3 (replicate 256 0);
  capacity = 3;
  write_index = 0;
  read_index = 0;
}

pub small_ring-IsValid : IsValid small_ring
unfolding small_ring
small_ring-IsValid = record {
  write_in = omega arith;
  read_in = omega arith;
  count = refl;
  sized = zeroed_sized 3;
}

unfoldable pub file_exporter : Exporter
file_exporter = record {
  ring = small_ring;
  sink = record { kind = file; attempts = 0; sent = [] };
  running = true;
  started = true;
  spans_submitted = 0;
  spans_exported = 0;
  spans_dropped = 0;
}

-- A table of two buckets.
unfoldable pub small_map : TraceMap
small_map = record {
  buckets = [] ∷ [] ∷ [];
  num_buckets = 2;
  count = 0;
  max_traces = 2;
  max_spans_per_trace = 1;
  traces_dropped = 0;
  spans_dropped = 0;
}
