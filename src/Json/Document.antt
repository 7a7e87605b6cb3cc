-- ===== src/Json/Document.antt =====
-- src/analysis/export_json.c: `write_span_json`, `collect_span_into_array`, `export_trace_json` and
-- `export_trace_json_string`, with the text as the bytes that are written to the file.
use dapper_lite.Prelude.{
  ℕ, zero, suc, ◌+◌, ◌*◌, ◌/◌, ◌%◌, Bool, true, false, Option, none, some, List, [], ◌∷◌, ◌++◌, ltb,
  leb, if◌then◌else◌, length,
}
use dapper_lite.Prelude.Text.{codes}
use dapper_lite.Prelude.Outcome.{Outcome, ok, failed, fault, ◌>>=◌}
use dapper_lite.Core.{Span, Annotation}
use dapper_lite.CriticalPath.{
  SpanTree, null, node, span_duration_us, span_tree_walk_preorder, compute_critical_path,
}
use dapper_lite.Json.{write_json_string}

-- `%llu`. A number has fewer digits than its value and one.
unfoldable pub digits : ℕ → ℕ → List ℕ
digits zero n = []
digits (suc fuel) n =
    let high = digits fuel (n / 10) in
    if ltb n 10 then (48 + n) ∷ [] else high ++ ((48 + n % 10) ∷ [])

unfoldable pub decimal : ℕ → List ℕ
unfolding digits
decimal n = digits (suc n) n

-- `if (i < count - 1) fputc(',', fp);`, where `more` elements follow.
abbrev pub comma_before : ℕ → List ℕ
comma_before zero = []
comma_before (suc more) = codes ","

-- The loop over `annotations[i]`, `annotations[i + 1]`, ..., for `rounds` rounds.
unfoldable pub write_annotations : List ℕ → ℕ → List Annotation → Outcome (List ℕ)
unfolding write_json_string
write_annotations indent zero slots = ok []
write_annotations indent (suc rounds) [] = fault
write_annotations indent (suc rounds) (a ∷ slots) =
    write_annotations indent rounds slots >>= λ rest. ok (
      (indent ++ codes "    ")
      ++ (write_json_string a.key
          ++ (codes ": "
              ++ (write_json_string a.value ++ (comma_before rounds ++ (codes "\n" ++ rest))))))

-- `if (span->annotation_count > 0) ...`
unfoldable pub write_annotation_part : List ℕ → ℕ → List Annotation → Outcome (List ℕ)
unfolding write_annotations
write_annotation_part indent zero slots = ok []
write_annotation_part indent (suc n) slots = write_annotations indent (suc n) slots >>= λ lines.
    ok (
      codes ",\n"
      ++ (indent ++ (codes "  \"annotations\": {\n" ++ (lines ++ (indent ++ codes "  }")))))

unfoldable pub write_span_head : Span → List ℕ → List ℕ
unfolding decimal write_json_string span_duration_us
write_span_head span indent =
    indent
    ++ (codes "{\n"
        ++ (indent
            ++ (codes "  \"span_id\": \""
                ++ (decimal span.span_id
                    ++ (codes "\",\n"
                        ++ (indent
                            ++ (codes "  \"parent_span_id\": \""
                                ++ (decimal span.parent_span_id
                                    ++ (codes "\",\n"
                                        ++ (indent
                                            ++ (codes "  \"name\": "
                                                ++ (write_json_string span.name
                                                    ++ (codes ",\n"
                                                        ++ (indent
                                                            ++ (codes "  \"start_ts\": "
                                                            ++ (decimal span.wall_start_us
                                                            ++ (codes ",\n"
                                                            ++ (indent
                                                            ++ (codes "  \"duration_us\": "
                                                            ++ decimal (
                                                            span_duration_us
                                                            span))))))))))))))))))))

unfoldable pub write_span_json : Span → List ℕ → Outcome (List ℕ)
unfolding write_span_head write_annotation_part
write_span_json span indent =
    write_annotation_part indent span.annotation_count span.annotations >>= λ annotations.
    ok (write_span_head span indent ++ (annotations ++ (codes "\n" ++ (indent ++ codes "}"))))

-- `span_array_t`: the spans in `arr` below `count`.
pub record SpanArray : Type 0 where
  pub arr : List Span
  pub capacity : ℕ

-- Which requests for memory succeed: that for the array, and that for it with a new capacity. The
-- capacity stays below `2 ^ 31`.
pub record Memory : Type 0 where
  pub first_array : Bool
  pub larger_array : ℕ → Bool

unfoldable pub collect_span_into_array : Memory → SpanArray → Span → SpanArray
collect_span_into_array memory a span =
    if leb a.capacity (length a.arr)
    then if memory.larger_array (a.capacity * 2)
      then record { arr = a.arr ++ (span ∷ []); capacity = a.capacity * 2 }
      else a
    else (record a { arr = a.arr ++ (span ∷ []) })

-- The visitor at each span of a walk.
unfoldable pub collect_all : Memory → SpanArray → List Span → SpanArray
unfolding collect_span_into_array
collect_all memory a [] = a
collect_all memory a (span ∷ spans) =
    collect_all memory (collect_span_into_array memory a span) spans

unfoldable pub collected : Memory → SpanTree → List Span
unfolding collect_all span_tree_walk_preorder
collected memory root =
    if memory.first_array
    then (collect_all memory (record { arr = []; capacity = 32 })
        (span_tree_walk_preorder root)).arr
    else []

unfoldable pub write_spans : List Span → Outcome (List ℕ)
unfolding write_span_json
write_spans [] = ok []
write_spans (span ∷ spans) = write_span_json span (codes "    ") >>= λ text.
    write_spans spans >>= λ rest. ok (text ++ (comma_before (length spans) ++ (codes "\n" ++ rest)))

unfoldable pub write_path : List Span → List ℕ
unfolding decimal
write_path [] = []
write_path (span ∷ []) = codes "\"" ++ (decimal span.span_id ++ codes "\"")
write_path (span ∷ next ∷ path) =
    codes "\"" ++ (decimal span.span_id ++ (codes "\", " ++ write_path (next ∷ path)))

-- `trace_t` with the tree below its root.
pub record TraceTree : Type 0 where
  pub id : ℕ
  pub sampled : Bool
  pub root_span : SpanTree

abbrev pub root_duration_us : SpanTree → ℕ
root_duration_us null = 0
root_duration_us (node span first_child next_sibling) = span_duration_us span

abbrev pub write_bool : Bool → List ℕ
write_bool true = codes "true"
write_bool false = codes "false"

unfoldable pub write_trace_head : TraceTree → List ℕ
unfolding decimal
write_trace_head trace =
    codes "{\n  \"trace_id\": \""
    ++ (decimal trace.id
        ++ (codes "\",\n  \"sampled\": "
            ++ (write_bool trace.sampled
                ++ (codes ",\n  \"duration_us\": "
                    ++ (decimal (root_duration_us trace.root_span)
                        ++ codes ",\n  \"spans\": [\n")))))

unfoldable pub export_trace_json : Memory → TraceTree → Outcome (List ℕ)
unfolding write_trace_head collected write_spans compute_critical_path write_path
export_trace_json memory trace = write_spans (collected memory trace.root_span) >>= λ spans. ok (
    write_trace_head trace
    ++ (spans
        ++ (codes "  ],\n  \"critical_path\": ["
            ++ (write_path (compute_critical_path trace.root_span) ++ codes "]\n}\n"))))

-- `stream` says whether `open_memstream` succeeds; `trace` may be NULL.
unfoldable pub export_trace_json_string : Memory → Bool → Option TraceTree → Outcome (List ℕ)
unfolding export_trace_json
export_trace_json_string memory stream none = failed
export_trace_json_string memory false (some trace) = failed
export_trace_json_string memory true (some trace) = export_trace_json memory trace
