-- ===== src/Core.antt =====
-- include/dapper/types.h: spans and traces, and the C strings that they hold in fixed arrays.
pub mod Strings
pub mod Copies
use dapper_lite.Prelude.{ℕ, Bool, false, Option, none, List, replicate}

abbrev pub span_name_max_length : ℕ
span_name_max_length = 128

abbrev pub max_annotations : ℕ
max_annotations = 16

abbrev pub annotation_key_max_length : ℕ
annotation_key_max_length = 64

abbrev pub annotation_value_max_length : ℕ
annotation_value_max_length = 192

-- A `char` array is the list of all its bytes.
pub record Annotation : Type 0 where
  pub key : List ℕ
  pub value : List ℕ

-- A pointer to a span is an address, or `none` for NULL.
abbrev pub SpanPtr : Type 0
SpanPtr = Option ℕ

pub record Span : Type 0 where
  pub trace_id : ℕ
  pub span_id : ℕ
  pub parent_span_id : ℕ
  pub name : List ℕ
  pub monotonic_start_ns : ℕ
  pub monotonic_end_ns : ℕ
  pub wall_start_us : ℕ
  pub sampled : Bool
  pub annotations : List Annotation
  pub annotation_count : ℕ
  pub parent : SpanPtr
  pub first_child : SpanPtr
  pub next_sibling : SpanPtr
  pub owner_next : SpanPtr

abbrev pub zeroed_annotation : Annotation
zeroed_annotation = record {
  key = replicate annotation_key_max_length 0;
  value = replicate annotation_value_max_length 0;
}

-- What `calloc` or `memset(span, 0, sizeof(span_t))` leaves.
abbrev pub zeroed_span : Span
zeroed_span = record {
  trace_id = 0;
  span_id = 0;
  parent_span_id = 0;
  name = replicate span_name_max_length 0;
  monotonic_start_ns = 0;
  monotonic_end_ns = 0;
  wall_start_us = 0;
  sampled = false;
  annotations = replicate max_annotations zeroed_annotation;
  annotation_count = 0;
  parent = none;
  first_child = none;
  next_sibling = none;
  owner_next = none;
}
