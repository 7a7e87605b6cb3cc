-- ===== src/Collector/Extended.antt =====
-- What an insertion into the table of src/collector/assembler.c is to do to a trace, and when,
-- written without the code's operations.
use dapper_lite.Prelude.{
  ℕ, ◌+◌, ◌≡◌, refl, Bool, true, false, not, ◌||◌, Option, none, some, [], ◌∷◌, arith, ltb, ◌==◌,
  if◌then◌else◌,
}
use dapper_lite.Core.{Span}
use dapper_lite.Collector.{Time, PartialTrace, partial_trace_create, partial_trace_add_span, over}

-- What a trace holds of a span and when it came: the trace that was there with the span in front,
-- or a new trace with this span only. The links of the span are cleared. The decision is that of
-- the first span, and one span without a parent gives the trace its root.
unfoldable pub extended : Option PartialTrace → Span → Bool → Time → PartialTrace
extended none span sampled now = record {
  trace_id = span.trace_id;
  spans =
      record span { parent = none; first_child = none; next_sibling = none; owner_next = none }
      ∷ [];
  span_count = 1;
  sampled = sampled;
  has_root = span.parent_span_id == 0;
  last_update = now;
}
extended (some pt) span sampled now = record {
  trace_id = pt.trace_id;
  spans =
      record span { parent = none; first_child = none; next_sibling = none; owner_next = none }
      ∷ pt.spans;
  span_count = pt.span_count + 1;
  sampled = if pt.span_count == 0 then sampled else pt.sampled;
  has_root = if pt.has_root then true else (span.parent_span_id == 0);
  last_update = now;
}

-- A cap of 0 is none, and another one leaves room below it.
unfoldable pub has_room : ℕ → ℕ → Bool
has_room cap n = if cap == 0 then true else ltb n cap

pub over_lem : (cap n : ℕ) → over cap n ≡ not (has_room cap n)
unfolding has_room
over_lem cap n = ground arith

pub not_twice : (b : Bool) → not (not b) ≡ b
not_twice true = refl
not_twice false = refl

or_else : (b c : Bool) → (b || c) ≡ (if b then true else c)
or_else true c = refl
or_else false c = refl

first_decision : (n : ℕ) → (n + 1 == 1) ≡ (n == 0)
first_decision n = ground arith

-- Adding a span to the trace that was found, or to a new one.
pub partial_trace_add_span-extended :
    (found : Option PartialTrace) (span : Span) (sampled : Bool) (now : Time)
    → let pt : PartialTrace = elim found [
      | some p ↦ p
      | none ↦ partial_trace_create span.trace_id now
    ] in
      partial_trace_add_span pt span sampled now ≡ extended found span sampled now
unfolding partial_trace_add_span partial_trace_create extended
partial_trace_add_span-extended none span sampled now = refl
partial_trace_add_span-extended (some pt) span sampled now =
    rw (first_decision pt.span_count, or_else pt.has_root (span.parent_span_id == 0)) refl
