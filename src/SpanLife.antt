-- ===== src/SpanLife.antt =====
-- src/core/span.c: annotating a span, finishing it and its duration. The pointers that the
-- functions take are not NULL; `clock_monotonic_ns` is a reading of the clock, an argument.
pub mod Laws
use dapper_lite.Prelude.{
  ℕ, ◌+◌, ◌-◌, ◌%◌, ◌^◌, Option, none, some, List, leb, ◌==◌, if◌then◌else◌, get_elem?, set,
}
use dapper_lite.Prelude.Outcome.{Outcome, ok, fault}
use dapper_lite.Core.{
  Annotation, Span, max_annotations, annotation_key_max_length, annotation_value_max_length,
}
use dapper_lite.Core.Strings.{safe_strncpy}

-- The writes through `ann = &span->annotations[span->annotation_count]`.
unfoldable pub fill_slot : Span → List ℕ → List ℕ → Option Annotation → Outcome Span
fill_slot span key value none = fault
fill_slot span key value (some ann) = ok (record span {
  annotations = set span.annotations span.annotation_count (record {
    key = safe_strncpy ann.key key annotation_key_max_length;
    value = safe_strncpy ann.value value annotation_value_max_length;
  });
  annotation_count = span.annotation_count + 1;
})

unfoldable pub span_annotate : Span → List ℕ → List ℕ → Outcome Span
unfolding fill_slot
span_annotate span key value =
    let filled = fill_slot span key value (get_elem? span.annotations span.annotation_count) in
    if leb max_annotations span.annotation_count then ok span else filled

unfoldable pub span_finish : ℕ → Span → Span
span_finish now span =
    if span.monotonic_end_ns == 0 then record span { monotonic_end_ns = now } else span

-- The subtraction of two `uint64_t` wraps.
unfoldable pub span_duration_ns : Span → ℕ
span_duration_ns span =
    if span.monotonic_end_ns == 0
    then 0
    else (span.monotonic_end_ns + 2 ^ 64 - span.monotonic_start_ns) % 2 ^ 64
