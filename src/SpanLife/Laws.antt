-- ===== src/SpanLife/Laws.antt =====
-- The span that the API makes is one that the wire format can carry, and it keeps its first end.
use dapper_lite.Prelude.{
  ℕ, zero, suc, ◌+◌, ◌-◌, ◌^◌, ◌<◌, ◌≤◌, ◌≡◌, ◌≢◌, refl, ◌∙◌, true, false, Bool-cases, inl, inr,
  some, List, [], ◌∷◌, ◌++◌, leb, arith, ◌==◌, ==→eq, if◌then◌else◌, get_elem?, set, length, take,
  drop, replicate, All, length-append, length-take, length-drop, length-replicate, length-set,
}
use dapper_lite.Prelude.Outcome.{ok}
use dapper_lite.Core.{
  Annotation, Span, zeroed_annotation, max_annotations, annotation_key_max_length,
  annotation_value_max_length,
}
use dapper_lite.Core.Strings.{strlen, strncpy, safe_strncpy, IsString}
use dapper_lite.SpanLife.{fill_slot, span_annotate, span_finish, span_duration_ns}
use dapper_lite.Wire.Layout.{IsAnnotation, IsSpan}

strlen-set : (a : List ℕ) (i : ℕ) → i < length a → strlen (set a i 0) ≤ i
unfolding strlen
strlen-set [] i h = absurd (omega arith)
strlen-set (b ∷ a) zero h = omega arith
strlen-set (b ∷ a) (suc i) h = ground (arith, strlen-set a i (omega arith))

length-strncpy :
    (dest src : List ℕ) (n : ℕ) → n ≤ length dest → length (strncpy dest src n) ≡ length dest
unfolding strncpy
length-strncpy dest src n h = omega (
  arith,
  length-append {A = ℕ} (take n src ++ replicate (n - length src) 0) (drop n dest),
  length-append {A = ℕ} (take n src) (replicate (n - length src) 0),
  length-take {A = ℕ} n src,
  length-replicate {A = ℕ} (n - length src) 0,
  length-drop {A = ℕ} n dest,
)

safe_strncpy_lem :
    (dest src : List ℕ) (n : ℕ) → safe_strncpy dest src (suc n) ≡ set (strncpy dest src n) n 0
unfolding safe_strncpy
safe_strncpy_lem dest src n =
    let positive : (suc n == 0) ≡ false = ground arith in
    let last : suc n - 1 ≡ n = omega arith in rw (positive, last) refl

-- Whatever is copied, the array keeps its size and is terminated.
pub safe_strncpy-IsString :
    (dest src : List ℕ) (n : ℕ)
    → length dest ≡ suc n
    → IsString (suc n) (safe_strncpy dest src (suc n))
safe_strncpy-IsString dest src n h =
    let l : length (strncpy dest src n) ≡ suc n = omega (arith, length-strncpy dest src n, h) in
    rw (safe_strncpy_lem dest src n) (record {
      size = omega (arith, length-set (strncpy dest src n) n 0, l);
      short = omega (arith, strlen-set (strncpy dest src n) n, l);
    })

All-set :
    (P : Annotation → Type 0) (xs : List Annotation) (i : ℕ) {v : Annotation}
    → All P xs
    → P v
    → All P (set xs i v)
All-set P [] i h p = h
All-set P (x ∷ xs) zero h p = (p, h.1)
All-set P (x ∷ xs) (suc i) h p = (h.0, All-set P xs i h.1 p)

slot_in :
    (P : Annotation → Type 0) (xs : List Annotation) (i : ℕ)
    → All P xs
    → i < length xs
    → (a : Annotation) × (get_elem? xs i ≡ some a) × P a
slot_in P [] i h l = absurd (omega arith)
slot_in P (x ∷ xs) zero h l = (x, refl, h.0)
slot_in P (x ∷ xs) (suc i) h l = slot_in P xs i h.1 (omega arith)

abbrev filled : Span → List ℕ → List ℕ → Annotation → Span
filled span key value ann = record span {
  annotations = set span.annotations span.annotation_count (record {
    key = safe_strncpy ann.key key annotation_key_max_length;
    value = safe_strncpy ann.value value annotation_value_max_length;
  });
  annotation_count = span.annotation_count + 1;
}

fill_slot_lem :
    (span : Span) (key value : List ℕ) (ann : Annotation)
    → fill_slot span key value (some ann) ≡ ok (filled span key value ann)
unfolding fill_slot
fill_slot_lem span key value ann = refl

-- What `span_annotate` leaves of a span: one that still fits the wire format, with one annotation
-- more, in the next slot, as long as there was room, and no other change to its annotations.
pub record Annotated (span after : Span) : Type 0 where
  pub fits : IsSpan after
  pub count : after.annotation_count ≡ (
      if leb max_annotations span.annotation_count
      then span.annotation_count
      else (span.annotation_count + 1))
  pub slot : Annotation
  pub written : after.annotations ≡ (
      if leb max_annotations span.annotation_count
      then span.annotations
      else set span.annotations span.annotation_count slot)

-- On a span that fits the wire format `span_annotate` writes inside its array of annotations,
-- whatever the lengths of key and value, and the span after it is `Annotated`.
pub span_annotate-Annotated :
    (span : Span) (key value : List ℕ)
    → IsSpan span
    → (after : Span) × (span_annotate span key value ≡ ok after) × Annotated span after
unfolding span_annotate
span_annotate-Annotated span key value s =
    elim (Bool-cases (leb max_annotations span.annotation_count)) [
      | inl full ↦ rw full (span, refl, kept full)
      | inr room ↦
          let slot =
            slot_in IsAnnotation span.annotations span.annotation_count s.annotations_ok
              (ground (arith, s.slots)) in
          rw (room, slot.1, fill_slot_lem span key value slot.0)
            (filled span key value slot.0, refl, added room slot.0 slot.2)
    ]
  where
    kept : leb max_annotations span.annotation_count ≡ true → Annotated span span
    kept full = record {
      fits = s;
      count = rw full refl;
      slot = zeroed_annotation;
      written = rw full refl;
    }

    added :
        leb max_annotations span.annotation_count ≡ false
        → (ann : Annotation) → IsAnnotation ann
        → Annotated span (filled span key value ann)
    added room ann a = record {
      fits = record {
        trace_id_fits = s.trace_id_fits;
        span_id_fits = s.span_id_fits;
        parent_fits = s.parent_fits;
        start_fits = s.start_fits;
        end_fits = s.end_fits;
        name_ok = s.name_ok;
        annotations_ok =
            All-set IsAnnotation span.annotations span.annotation_count s.annotations_ok (
              safe_strncpy-IsString ann.key key 63 a.0.size,
              safe_strncpy-IsString ann.value value 191 a.1.size,
            );
        slots = length-set span.annotations span.annotation_count _ ∙ s.slots;
        count_fits = ground arith;
      };
      count = rw room refl;
      slot = record {
        key = safe_strncpy ann.key key annotation_key_max_length;
        value = safe_strncpy ann.value value annotation_value_max_length;
      };
      written = rw room refl;
    }

-- `span_finish` takes the time only once: on a span that is not finished and started at or before
-- the reading `now`, with `now` not 0 and a `uint64_t`, a second call changes nothing, and the
-- duration is the time between start and `now`.
pub span_finish_once :
    (span : Span) (now later : ℕ)
    → span.monotonic_end_ns ≡ 0
    → span.monotonic_start_ns ≤ now
    → now ≢ 0
    → now < 2 ^ 64
    → (span_finish later (span_finish now span) ≡ span_finish now span)
      × (span_duration_ns (span_finish now span) ≡ now - span.monotonic_start_ns)
unfolding span_finish span_duration_ns
span_finish_once span now later fresh order ticking fits =
    let unset : (span.monotonic_end_ns == 0) ≡ true = ground arith in
    let set_now : (now == 0) ≡ false = elim (Bool-cases (now == 0)) [
      | inl e ↦ absurd (ticking (==→eq now 0 e))
      | inr e ↦ e
    ] in
    rw (unset, set_now) (refl, omega arith)
