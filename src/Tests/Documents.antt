-- ===== src/Tests/Documents.antt =====
-- The documents of small traces.
use dapper_lite.Prelude.{◌≡◌, refl, true, false, some, [], ◌∷◌, arith, All}
use dapper_lite.Prelude.Text.{codes}
use dapper_lite.Prelude.Outcome.{ok, map_ok}
use dapper_lite.Core.{Span}
use dapper_lite.Core.Strings.{c_array, c_str}
use dapper_lite.CriticalPath.{null, node, span_tree_walk_preorder, critical_path_depth}
use dapper_lite.Json.Document.{
  Memory, TraceTree, collected, export_trace_json, export_trace_json_string,
}
use dapper_lite.Json.Parser.{read_json}
use dapper_lite.Json.Values.{Counted, trace_document}
use dapper_lite.Json.Collected.{Prefix}
use dapper_lite.Json.Traces.{read_json-export_trace_json_string}
use dapper_lite.Tests.Data.{root_span, child_span}

abbrev noted_span : Span
noted_span = record root_span {
  annotations = (record { key = c_array 8 (codes "key"); value = c_array 8 (codes "a\"b") }) ∷ [];
  annotation_count = 1;
}

abbrev noted_trace : TraceTree
noted_trace = record {
  id = 7;
  sampled = true;
  root_span = node noted_span (node child_span null null) null;
}

abbrev plenty : Memory
plenty = record { first_array = true; larger_array = λ n. true }

-- There is no memory for a larger array.
abbrev scarce : Memory
scarce = record { first_array = true; larger_array = λ n. false }

abbrev one_span : TraceTree
one_span = record { id = 7; sampled = false; root_span = node noted_span null null }

exported_text :
    export_trace_json plenty one_span
    ≡ ok (
        codes
          "{\n  \"trace_id\": \"7\",\n  \"sampled\": false,\n  \"duration_us\": 4,\n  \"spans\": [\n    {\n      \"span_id\": \"1\",\n      \"parent_span_id\": \"0\",\n      \"name\": \"get\",\n      \"start_ts\": 12,\n      \"duration_us\": 4,\n      \"annotations\": {\n        \"key\": \"a\\\"b\"\n      }\n    }\n  ],\n  \"critical_path\": [\"1\"]\n}\n")
unfolding export_trace_json root_span c_array c_str critical_path_depth
exported_text = refl

noted_trace-Counted : All Counted (span_tree_walk_preorder noted_trace.root_span)
unfolding Counted span_tree_walk_preorder root_span child_span
noted_trace-Counted = (omega arith, (omega arith, tt))

read_json-export_trace_json_string_example :
    let spans = collected scarce noted_trace.root_span in
    (map_ok read_json (export_trace_json_string scarce true (some noted_trace))
      ≡ ok (some (trace_document noted_trace spans)))
    × Prefix scarce [] (span_tree_walk_preorder noted_trace.root_span) spans
read_json-export_trace_json_string_example =
    read_json-export_trace_json_string scarce noted_trace noted_trace-Counted
