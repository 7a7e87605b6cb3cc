-- ===== src/Collector/Gathered.antt =====
-- The table of src/collector/assembler.c under a cap on the spans of a trace.
use dapper_lite.Prelude.{
  ℕ, zero, suc, ◌+◌, ◌^◌, ◌<◌, ◌≤◌, ◌≡◌, refl, Bool, true, false, Bool-cases, eq→==, Option,
  Option-cases, none, some, inl, inr, List, [], ◌∷◌, arith, ◌==◌, if◌then◌else◌, length, set, All,
}
use dapper_lite.ByteOrder.{Host}
use dapper_lite.Core.{Span}
use dapper_lite.Collector.{
  Time, PartialTrace, Chain, TraceMap, unlinked, partial_trace_create, partial_trace_add_span,
  trace_id_hash, find_in, update_in, chain_at, over, insert_span, trace_map_insert,
}
use dapper_lite.Storage.Log.{IsStorable}
use dapper_lite.Wire.Layout.{IsSpan}

-- A trace in the table: it can be stored, its counter is right and within the cap `m`, and its
-- last change satisfies `Q`.
pub record Gathered (Q : Time → Type 0) (m : ℕ) (pt : PartialTrace) : Type 0 where
  pub storable : IsStorable pt
  pub counted : pt.span_count ≡ length pt.spans
  pub capped : length pt.spans ≤ m
  pub changed : Q pt.last_update

unlinked-IsSpan : (span : Span) → IsSpan span → IsSpan (unlinked span)
unlinked-IsSpan span s = record {
  trace_id_fits = s.trace_id_fits;
  span_id_fits = s.span_id_fits;
  parent_fits = s.parent_fits;
  start_fits = s.start_fits;
  end_fits = s.end_fits;
  name_ok = s.name_ok;
  annotations_ok = s.annotations_ok;
  slots = s.slots;
  count_fits = s.count_fits;
}

module _ (Q : Time → Type 0) (m : ℕ) (span : Span) (sampled : Bool) (now : Time)
    (limit : m ≤ 2 ^ 20) (s : IsSpan span) (q : Q now) where
  abbrev G : PartialTrace → Type 0
  G = Gathered Q m

  abbrev add : PartialTrace → PartialTrace
  add p = partial_trace_add_span p span sampled now

  add-Gathered : (pt : PartialTrace) → G pt → pt.span_count < m → G (add pt)
  unfolding partial_trace_add_span
  add-Gathered pt g room = record {
    storable = record {
      id_fits = g.storable.id_fits;
      some_span = omega arith;
      few_spans = omega (arith, limit, room, g.counted);
      spans_ok = (unlinked-IsSpan span s, g.storable.spans_ok);
    };
    counted = omega (arith, g.counted);
    capped = omega (arith, room, g.counted);
    changed = q;
  }

  new-Gathered : 0 < m → G (add (partial_trace_create span.trace_id now))
  unfolding partial_trace_add_span partial_trace_create
  new-Gathered room = record {
    storable = record {
      id_fits = s.trace_id_fits;
      some_span = omega arith;
      few_spans = omega arith;
      spans_ok = (unlinked-IsSpan span s, tt);
    };
    counted = refl;
    capped = omega (arith, room);
    changed = q;
  }

  -- The trace that the search finds has room for a span.
  abbrev HasRoom : Option PartialTrace → Type 0
  HasRoom none = Unit {0}
  HasRoom (some pt) = pt.span_count < m

  update_step :
      (here : Bool) (p : PartialTrace) (found : Option PartialTrace) (chain updated : Chain)
      → HasRoom (if here then some p else found)
      → All G (p ∷ chain)
      → (HasRoom found → All G updated)
      → All G (if here then (add p ∷ chain) else (p ∷ updated))
  update_step true p found chain updated room h k = (add-Gathered p h.0 room, h.1)
  update_step false p found chain updated room h k = (h.0, k room)

  update_in-Gathered :
      (chain : Chain)
      → HasRoom (find_in span.trace_id chain)
      → All G chain
      → All G (update_in span.trace_id add chain)
  unfolding find_in update_in
  update_in-Gathered [] room h = tt
  update_in-Gathered (p ∷ chain) room h =
      update_step (p.trace_id == span.trace_id) p (find_in span.trace_id chain) chain _ room h
        (λ r. update_in-Gathered chain r h.1)

  -- The chain of a new trace.
  new_in-Gathered :
      (chain : Chain)
      → 0 < m
      → All G chain
      → All G (update_in span.trace_id add (partial_trace_create span.trace_id now ∷ chain))
  unfolding update_in partial_trace_create
  new_in-Gathered chain room h =
      let same : (span.trace_id == span.trace_id) ≡ true = eq→== span.trace_id span.trace_id refl in
      rw same (new-Gathered room, h)

chain_at-All :
    (P : PartialTrace → Type 0) (buckets : List Chain) (i : ℕ)
    → All (All P) buckets
    → All P (chain_at buckets i)
unfolding chain_at
chain_at-All P [] i h = tt
chain_at-All P (chain ∷ buckets) zero h = h.0
chain_at-All P (chain ∷ buckets) (suc i) h = chain_at-All P buckets i h.1

set-All :
    (P : PartialTrace → Type 0) (buckets : List Chain) (i : ℕ) (chain : Chain)
    → All (All P) buckets
    → All P chain
    → All (All P) (set buckets i chain)
set-All P [] i chain h k = tt
set-All P (c ∷ buckets) zero chain h k = (k, h.1)
set-All P (c ∷ buckets) (suc i) chain h k = (h.0, set-All P buckets i chain h.1 k)

module _ (Q : Time → Type 0) (host : Host) (tm : TraceMap) (span : Span) (sampled : Bool)
    (now : Time) where
  abbrev GatheredMap : TraceMap → Type 0
  GatheredMap t =
      (t.max_spans_per_trace ≡ tm.max_spans_per_trace)
      × All (All (Gathered Q tm.max_spans_per_trace)) t.buckets

  insert_span-Gathered :
      (count bucket : ℕ) (chain : Chain) (pt : PartialTrace)
      → 0 < tm.max_spans_per_trace
      → All (All (Gathered Q tm.max_spans_per_trace)) tm.buckets
      → (over tm.max_spans_per_trace pt.span_count ≡ true
          → All (Gathered Q tm.max_spans_per_trace) chain)
      → (pt.span_count < tm.max_spans_per_trace
          → All
              (Gathered Q tm.max_spans_per_trace)
              (update_in span.trace_id (λ p. partial_trace_add_span p span sampled now) chain))
      → GatheredMap
          (insert_span host (record tm { count = count }) bucket chain pt span sampled now).0
  unfolding insert_span
  insert_span-Gathered count bucket chain pt some_room h kept added =
      elim (Bool-cases (over tm.max_spans_per_trace pt.span_count)) [
        | inl full ↦ rw full (
          refl,
          set-All (Gathered Q tm.max_spans_per_trace) tm.buckets bucket chain h (kept full),
        )
        | inr free ↦ rw free (
          refl,
          set-All (Gathered Q tm.max_spans_per_trace) tm.buckets bucket _ h
              (added (ground (arith, free, some_room))),
        )
      ]

  pub trace_map_insert-Gathered :
      IsSpan span
      → Q now
      → 0 < tm.max_spans_per_trace
      → tm.max_spans_per_trace ≤ 2 ^ 20
      → All (All (Gathered Q tm.max_spans_per_trace)) tm.buckets
      → GatheredMap (trace_map_insert host tm span sampled now).0
  unfolding trace_map_insert partial_trace_create
  trace_map_insert-Gathered s q some_room limit h =
      let m = tm.max_spans_per_trace in
      let bucket = trace_id_hash host span.trace_id tm.num_buckets in
      let chain = chain_at tm.buckets bucket in
      let here = chain_at-All (Gathered Q m) tm.buckets bucket h in
      let fresh = partial_trace_create span.trace_id now in
      elim (Option-cases (find_in span.trace_id chain)) [
        | inl e ↦ elim (Bool-cases (over tm.max_traces tm.count)) [
          | inl full ↦ rw (e, full, trace_map_insert) (refl, h)
          | inr free ↦
              rw (e, free, trace_map_insert)
                (insert_span-Gathered (tm.count + 1) bucket (fresh ∷ chain) fresh some_room h
                  (λ f. absurd (ground (arith, f, some_room)))
                  (λ r. new_in-Gathered Q m span sampled now limit s q chain some_room here))
        ]
        | inr (pt, e) ↦
            rw (e, trace_map_insert)
              (insert_span-Gathered tm.count bucket chain pt some_room h (λ f. here)
                (λ r. update_in-Gathered Q m span sampled now limit s q chain (rw e r) here))
      ]
