-- ===== src/Wire/Layout.antt =====
-- The wire format of include/dapper/wire.h as a list of bytes, independent of the code.
use dapper_lite.Prelude.{
  ℕ, zero, suc, ◌+◌, ◌-◌, ◌/◌, min, ◌<◌, ◌≤◌, ◌^◌, ◌≡◌, Bool, List, [], ◌∷◌, ◌++◌, arith, ltb,
  if◌then◌else◌, length, take, length-append, All,
}
use dapper_lite.ByteOrder.{be_bytes}
use dapper_lite.ByteOrder.Laws.{length-be_bytes}
use dapper_lite.Core.{
  Annotation, Span, span_name_max_length, max_annotations, annotation_key_max_length,
  annotation_value_max_length,
}
use dapper_lite.Core.Strings.{c_str, IsString}

-- The whole microseconds from start to end, 0 when the end is not behind the start.
unfoldable pub elapsed_us : Span → ℕ
elapsed_us span = (span.monotonic_end_ns - span.monotonic_start_ns) / 1000

-- How much of the name is sent: at most 127 bytes, and what a buffer has room for behind the 48
-- bytes of the header.
unfoldable pub name_room : Span → ℕ → ℕ
name_room span bufsize = min (min (length (c_str span.name)) 127) (bufsize - 48)

-- The bytes of an annotation: two strings, each behind a two-byte length.
abbrev pub annotation_length : Annotation → ℕ
annotation_length a = (2 + length (c_str a.key)) + (2 + length (c_str a.value))

-- A two-byte length and the bytes.
unfoldable pub string_bytes : List ℕ → List ℕ
string_bytes s = be_bytes 2 (length s) ++ s

unfoldable pub annotations_bytes : ℕ → List Annotation → List ℕ
annotations_bytes zero anns = []
annotations_bytes (suc n) [] = []
annotations_bytes (suc n) (a ∷ anns) =
    string_bytes (c_str a.key) ++ (string_bytes (c_str a.value) ++ annotations_bytes n anns)

unfoldable pub header_bytes : Span → Bool → ℕ → ℕ → List ℕ
header_bytes span sampled name_len n =
    be_bytes 8 span.trace_id
    ++ (be_bytes 8 span.span_id
        ++ (be_bytes 8 span.parent_span_id
            ++ (be_bytes 8 span.wall_start_us
                ++ (be_bytes 8 (elapsed_us span)
                    ++ (((if sampled then 1 else 0) ∷ [])
                        ++ ((0 ∷ [])
                            ++ (be_bytes 2 name_len ++ (be_bytes 2 n ++ be_bytes 2 0))))))))

-- How many of the annotations fit behind `pos`, taken in order.
unfoldable pub fitting : ℕ → List Annotation → ℕ → ℕ → ℕ
fitting zero anns bufsize pos = 0
fitting (suc n) [] bufsize pos = 0
fitting (suc n) (a ∷ anns) bufsize pos =
    let rest = fitting n anns bufsize (pos + annotation_length a) in
    if ltb bufsize (pos + annotation_length a) then 0 else suc rest

abbrev pub fitting_in : Span → ℕ → ℕ
fitting_in span bufsize =
    fitting span.annotation_count span.annotations bufsize (48 + name_room span bufsize)

unfoldable pub span_bytes : Span → Bool → ℕ → List ℕ
span_bytes span sampled bufsize =
    let name_len = name_room span bufsize in
    let n = fitting_in span bufsize in
    header_bytes span sampled name_len n
    ++ (take name_len span.name ++ annotations_bytes n span.annotations)

abbrev pub IsAnnotation : Annotation → Type 0
IsAnnotation a =
    IsString annotation_key_max_length a.key × IsString annotation_value_max_length a.value

-- The spans that the program makes: every number fits its field, and every array its string.
pub record IsSpan (s : Span) : Type 0 where
  pub trace_id_fits : s.trace_id < 2 ^ 64
  pub span_id_fits : s.span_id < 2 ^ 64
  pub parent_fits : s.parent_span_id < 2 ^ 64
  pub start_fits : s.wall_start_us < 2 ^ 64
  pub end_fits : s.monotonic_end_ns < 2 ^ 64
  pub name_ok : IsString span_name_max_length s.name
  pub annotations_ok : All IsAnnotation s.annotations
  pub slots : length s.annotations ≡ max_annotations
  pub count_fits : s.annotation_count ≤ max_annotations

pub length-string_bytes : (s : List ℕ) → length (string_bytes s) ≡ 2 + length s
unfolding string_bytes
length-string_bytes s =
    omega (arith, length-append {A = ℕ} (be_bytes 2 (length s)) s, length-be_bytes 2 (length s))
