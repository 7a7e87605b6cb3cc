-- ===== src/Json/Traces.antt =====
-- A reader of JSON gets back the trace that `export_trace_json` of src/analysis/export_json.c
-- writes.
use dapper_lite.Prelude.{ℕ, ◌≡◌, refl, Bool, true, false, some, List, [], ◌∷◌, ◌++◌, length, All}
use dapper_lite.Prelude.Text.{codes}
use dapper_lite.Prelude.Outcome.{Outcome, ok, map_ok}
use dapper_lite.Core.{Span}
use dapper_lite.CriticalPath.{span_tree_walk_preorder, compute_critical_path}
use dapper_lite.Json.Document.{
  decimal, comma_before, write_spans, write_path, write_bool, write_trace_head, Memory, collected,
  TraceTree, root_duration_us, export_trace_json, export_trace_json_string,
}
use dapper_lite.Json.Lexer.{
  Token, Mode, left_brace, right_brace, left_bracket, right_bracket, colon, comma, string_token,
  number_token, boolean_token, between, in_number, run, lex,
}
use dapper_lite.Json.Parser.{
  Json, next_value, first_value, no_elements, in_object, finished, feed, read_json, no_members,
  member, text, boolean, number, array,
}
use dapper_lite.Json.Runs.{Runs, Runs-append, Runs-literal, Runs-nil, feed-last}
use dapper_lite.Json.Numbers.{decimal-Runs, decimal-Runs_quoted}
use dapper_lite.Json.Spans.{Writes, end_line-Runs, write_span_json-Writes}
use dapper_lite.Json.Collected.{Prefix, All-take, collected-Prefix}
use dapper_lite.Json.Values.{
  span_elements, trace_document, spans_tokens, path_tokens, Counted, feed-spans_array,
  feed-path_array,
}

write_spans-Writes :
    (spans : List Span)
    → All Counted spans
    → Writes (write_spans spans) between (spans_tokens spans) between
unfolding write_spans spans_tokens Counted
write_spans-Writes [] h = record { bytes = []; wrote = refl; reads = Runs-nil }
write_spans-Writes (span ∷ spans) h =
    let first = write_span_json-Writes span h.0 in
    let rest = write_spans-Writes spans h.1 in
    record {
      bytes = first.bytes ++ (comma_before (length spans) ++ (codes "\n" ++ rest.bytes));
      wrote = rw (first.wrote, rest.wrote) refl;
      reads = Runs-append first.reads (end_line-Runs (length spans) rest.reads);
    }

write_path-Runs : (path : List Span) → Runs between (write_path path) (path_tokens path) between
unfolding write_path path_tokens run
write_path-Runs [] = Runs-nil
write_path-Runs (span ∷ []) =
    Runs-literal (codes "\"") refl (decimal-Runs_quoted span.span_id Runs-nil)
write_path-Runs (span ∷ next ∷ path) =
    let rest = Runs-literal {m = between} (codes ", ") refl (write_path-Runs (next ∷ path)) in
    Runs-literal (codes "\"") refl (decimal-Runs_quoted span.span_id rest)

write_bool-Runs :
    (b : Bool) {rest : List ℕ} {ts : List Token} {m : Mode}
    → Runs between rest ts m
    → Runs between (write_bool b ++ (44 ∷ rest)) (boolean_token b ∷ comma ∷ ts) m
unfolding run
write_bool-Runs true h = Runs-literal (codes "true,") refl h
write_bool-Runs false h = Runs-literal (codes "false,") refl h

unfoldable head_tokens : TraceTree → List Token
head_tokens trace =
    left_brace
    ∷ string_token (codes "trace_id")
    ∷ colon
    ∷ string_token (decimal trace.id)
    ∷ comma
    ∷ string_token (codes "sampled")
    ∷ colon
    ∷ boolean_token trace.sampled
    ∷ comma
    ∷ string_token (codes "duration_us")
    ∷ colon
    ∷ number_token (root_duration_us trace.root_span)
    ∷ comma
    ∷ string_token (codes "spans")
    ∷ colon
    ∷ left_bracket
    ∷ []

write_trace_head-Runs :
    (trace : TraceTree) → Runs between (write_trace_head trace) (head_tokens trace) between
unfolding write_trace_head head_tokens run
write_trace_head-Runs trace =
    let d = root_duration_us trace.root_span in
    let listed : Runs (in_number d) (codes ",\n  \"spans\": [\n")
        (number_token d ∷ comma ∷ string_token (codes "spans") ∷ colon ∷ left_bracket ∷ [])
        between =
      record { runs = refl } in
    let duration = Runs-append (decimal-Runs d) listed in
    let sampled =
      write_bool-Runs trace.sampled
        (Runs-literal {m = between} (codes "\n  \"duration_us\": ") refl duration) in
    let id =
      decimal-Runs_quoted trace.id
        (Runs-literal {m = between} (codes ",\n  \"sampled\": ") refl sampled) in
    Runs-literal (codes "{\n  \"trace_id\": \"") refl id

unfoldable trace_tokens : TraceTree → List Span → List Token
unfolding spans_tokens path_tokens head_tokens
trace_tokens trace spans =
    head_tokens trace
    ++ (spans_tokens spans
        ++ (right_bracket
            ∷ comma
            ∷ string_token (codes "critical_path")
            ∷ colon
            ∷ left_bracket
            ∷ (path_tokens (compute_critical_path trace.root_span)
                ++ (right_bracket ∷ right_brace ∷ []))))

export_trace_json-Writes :
    (memory : Memory) (trace : TraceTree)
    → All Counted (collected memory trace.root_span)
    → Writes
        (export_trace_json memory trace)
        between
        (trace_tokens trace (collected memory trace.root_span))
        between
unfolding export_trace_json trace_tokens run
export_trace_json-Writes memory trace h =
    let spans = write_spans-Writes (collected memory trace.root_span) h in
    let path = compute_critical_path trace.root_span in
    let end : Runs between (codes "]\n}\n") (right_bracket ∷ right_brace ∷ []) between = record {
      runs = refl;
    } in
    let tail =
      Runs-literal {m = between} (codes "  ],\n  \"critical_path\": [") refl
        (Runs-append (write_path-Runs path) end) in
    record {
      bytes =
          write_trace_head trace
          ++ (spans.bytes
              ++ (codes "  ],\n  \"critical_path\": [" ++ (write_path path ++ codes "]\n}\n")));
      wrote = rw (spans.wrote) refl;
      reads = Runs-append (write_trace_head-Runs trace) (Runs-append spans.reads tail);
    }

feed-trace_tokens :
    (trace : TraceTree) (spans : List Span)
    → All Counted spans
    → feed (next_value []) (trace_tokens trace spans) ≡ some (finished (trace_document trace spans))
unfolding feed trace_tokens trace_document head_tokens
feed-trace_tokens trace spans h =
    let path = compute_critical_path trace.root_span in
    let id = member no_members (codes "trace_id") (text (decimal trace.id)) in
    let sampled = member id (codes "sampled") (boolean trace.sampled) in
    let duration =
      member sampled (codes "duration_us") (number (root_duration_us trace.root_span)) in
    let listed = member duration (codes "spans") (array (span_elements no_elements spans)) in
    feed-last (first_value (in_object duration (codes "spans") ∷ [])) _ _ (spans_tokens spans)
      right_bracket
      (comma
        ∷ string_token (codes "critical_path")
        ∷ colon
        ∷ left_bracket
        ∷ (path_tokens path ++ (right_bracket ∷ right_brace ∷ [])))
      (feed-spans_array spans (in_object duration (codes "spans") ∷ []) h)
      (feed-last (first_value (in_object listed (codes "critical_path") ∷ [])) _ _
        (path_tokens path) right_bracket (right_brace ∷ [])
        (feed-path_array path (in_object listed (codes "critical_path") ∷ [])) refl)

-- The text is read to its end, between two tokens.
Writes-read :
    (written : Outcome (List ℕ)) (ts : List Token) (v : Json)
    → Writes written between ts between
    → feed (next_value []) ts ≡ some (finished v)
    → map_ok read_json written ≡ ok (some v)
unfolding read_json lex
Writes-read written ts v w f = rw (w.wrote, w.reads.runs, f) refl

-- If every span of the tree has as many annotations as it counts, `export_trace_json_string`
-- returns a text, without a fault, whichever of its requests for an array of spans fail, and that
-- text is JSON: a reader of JSON gets back the object of the trace, with its numbers, the names
-- and annotations of its spans and its critical path. The spans in it are the first ones of the
-- walk in preorder, and all of them unless a request for memory was refused.
pub read_json-export_trace_json_string :
    (memory : Memory) (trace : TraceTree)
    → All Counted (span_tree_walk_preorder trace.root_span)
    → let spans = collected memory trace.root_span in
      (map_ok read_json (export_trace_json_string memory true (some trace))
        ≡ ok (some (trace_document trace spans)))
      × Prefix memory [] (span_tree_walk_preorder trace.root_span) spans
unfolding export_trace_json_string Counted
read_json-export_trace_json_string memory trace h =
    let prefix = collected-Prefix memory trace.root_span in
    let counted : All Counted (collected memory trace.root_span) =
      rw (prefix.first)
        (All-take Counted prefix.count (span_tree_walk_preorder trace.root_span) h) in
    (
      Writes-read _ _ _ (export_trace_json-Writes memory trace counted)
          (feed-trace_tokens trace (collected memory trace.root_span) counted),
      prefix,
    )
