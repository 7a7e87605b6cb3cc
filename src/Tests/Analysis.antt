-- ===== src/Tests/Analysis.antt =====
-- The theorems on JSON strings and on the grouping of spans, at small inputs.
use dapper_lite.Prelude.{ℕ, ◌≤◌, ◌≡◌, ◌⊎◌, true, false, some, List, [], ◌∷◌, ◌++◌, length, take}
use dapper_lite.Core.Strings.{c_str, c_array}
use dapper_lite.CriticalPath.{SpanTree, null, node, span_tree_walk_preorder, walk_siblings}
use dapper_lite.Json.{write_json_string}
use dapper_lite.Json.RoundTrip.{read_json_string, read_json_string-write_json_string}
use dapper_lite.Aggregation.{collect_traces, max_samples, max_groups}
use dapper_lite.Aggregation.Visit.{samples, has_group}
use dapper_lite.Aggregation.Reference.{durations_of, all_visits, collect_traces-durations_of}
use dapper_lite.Tests.Data.{root_span, child_span, root_span-IsSpan, child_span-IsSpan}

-- A quote, a line feed and a control character.
abbrev odd_name : List ℕ
odd_name = c_array 8 (34 ∷ 10 ∷ 1 ∷ [])

read_json_string-write_json_string_example :
    read_json_string (write_json_string odd_name ++ (44 ∷ [])) ≡ some (c_str odd_name, 44 ∷ [])
read_json_string-write_json_string_example = read_json_string-write_json_string odd_name (44 ∷ [])

abbrev tree : SpanTree
tree = node root_span (node child_span null null) null

abbrev get_name : List ℕ
get_name = 103 ∷ 101 ∷ 116 ∷ []

abbrev same : ℕ → ℕ
same n = n

collect_traces-durations_of_example :
    let groups = collect_traces same [] (tree ∷ []) in
    (length groups ≤ max_groups)
    × ((has_group groups get_name ≡ true)
          × (samples groups get_name
              ≡ take max_samples (durations_of same (all_visits same (tree ∷ [])) get_name))
        ⊎ (has_group groups get_name ≡ false)
          × ((length groups ≡ max_groups)
              ⊎ (durations_of same (all_visits same (tree ∷ [])) get_name ≡ [])))
unfolding all_visits span_tree_walk_preorder walk_siblings
collect_traces-durations_of_example =
    collect_traces-durations_of same (tree ∷ []) get_name
      (root_span-IsSpan.name_ok, (child_span-IsSpan.name_ok, tt))
