-- ===== src/Json/Values.antt =====
-- The values that the spans and the trace of src/analysis/export_json.c stand for as documents,
-- and how they are read from tokens.
use dapper_lite.Prelude.{
  ℕ, zero, suc, ◌≤◌, ◌≡◌, refl, some, List, [], ◌∷◌, ◌++◌, arith, length, take, All,
}
use dapper_lite.Prelude.Text.{codes}
use dapper_lite.Core.{Span, Annotation}
use dapper_lite.Core.Strings.{c_str}
use dapper_lite.CriticalPath.{span_duration_us, compute_critical_path}
use dapper_lite.Json.Document.{decimal, TraceTree, root_duration_us}
use dapper_lite.Json.Lexer.{Token, left_brace, right_brace, right_bracket, comma, string_token}
use dapper_lite.Json.Parser.{
  Json, text, number, boolean, array, object, Elements, no_elements, element, Members, no_members,
  member, Frame, in_array, in_object, State, first_value, next_value, first_key, next_key,
  next_colon, after_value, after_member, complete, step, feed,
}
use dapper_lite.Json.Runs.{feed-both}
use dapper_lite.Json.Spans.{comma_tokens, annotation_tokens, part_tokens, head_tokens, span_tokens}

abbrev pub annotation_members : Members → List Annotation → Members
annotation_members ms [] = ms
annotation_members ms (a ∷ slots) =
    annotation_members (member ms (c_str a.key) (text (c_str a.value))) slots

abbrev pub with_annotations : Members → ℕ → List Annotation → Members
with_annotations ms zero slots = ms
with_annotations ms (suc n) slots =
    member ms (codes "annotations") (object (annotation_members no_members (take (suc n) slots)))

abbrev pub plain_members : Span → Members
plain_members span =
    let id = member no_members (codes "span_id") (text (decimal span.span_id)) in
    let parent = member id (codes "parent_span_id") (text (decimal span.parent_span_id)) in
    let name = member parent (codes "name") (text (c_str span.name)) in
    let start = member name (codes "start_ts") (number span.wall_start_us) in
    member start (codes "duration_us") (number (span_duration_us span))

-- The object of a span. Its annotations are a member if there are any.
unfoldable pub span_document : Span → Json
span_document span =
    object (with_annotations (plain_members span) span.annotation_count span.annotations)

abbrev pub span_elements : Elements → List Span → Elements
span_elements es [] = es
span_elements es (span ∷ spans) = span_elements (element es (span_document span)) spans

abbrev pub id_elements : Elements → List Span → Elements
id_elements es [] = es
id_elements es (span ∷ spans) = id_elements (element es (text (decimal span.span_id))) spans

-- The object of a trace of which some spans are listed.
unfoldable pub trace_document : TraceTree → List Span → Json
unfolding span_document
trace_document trace spans =
    let id = member no_members (codes "trace_id") (text (decimal trace.id)) in
    let sampled = member id (codes "sampled") (boolean trace.sampled) in
    let duration =
      member sampled (codes "duration_us") (number (root_duration_us trace.root_span)) in
    let listed = member duration (codes "spans") (array (span_elements no_elements spans)) in
    let path = array (id_elements no_elements (compute_critical_path trace.root_span)) in
    object (member listed (codes "critical_path") path)

unfoldable pub spans_tokens : List Span → List Token
spans_tokens [] = []
spans_tokens (span ∷ spans) =
    span_tokens span ++ (comma_tokens (length spans) ++ spans_tokens spans)

unfoldable pub path_tokens : List Span → List Token
path_tokens [] = []
path_tokens (span ∷ []) = string_token (decimal span.span_id) ∷ []
path_tokens (span ∷ next ∷ path) =
    string_token (decimal span.span_id) ∷ comma ∷ path_tokens (next ∷ path)

feed-annotation_tokens :
    (n : ℕ) (slots : List Annotation) (s : State) (ms : Members) (frames : List Frame)
    → suc n ≤ length slots
    → ((key : List ℕ) → step s (string_token key) ≡ some (next_colon ms key frames))
    → feed s (annotation_tokens (suc n) slots)
      ≡ some (after_member (annotation_members ms (take (suc n) slots)) frames)
unfolding feed annotation_tokens
feed-annotation_tokens n [] s ms frames h k = absurd (omega arith)
feed-annotation_tokens zero (a ∷ slots) s ms frames h k = rw (k (c_str a.key)) refl
feed-annotation_tokens (suc n) (a ∷ slots) s ms frames h k =
    let more = member ms (c_str a.key) (text (c_str a.value)) in
    let rest =
      feed-annotation_tokens n slots (next_key more frames) more frames (omega arith)
        (λ key. refl) in
    rw (k (c_str a.key)) rest

feed-part_tokens :
    (n : ℕ) (slots : List Annotation) (ms : Members) (frames : List Frame)
    → n ≤ length slots
    → feed (after_member ms frames) (part_tokens n slots ++ (right_brace ∷ []))
      ≡ some (complete (object (with_annotations ms n slots)) frames)
unfolding feed part_tokens
feed-part_tokens zero slots ms frames h = refl
feed-part_tokens (suc n) slots ms frames h =
    let inner = in_object ms (codes "annotations") ∷ frames in
    let ts = annotation_tokens (suc n) slots in
    let all = feed-annotation_tokens n slots (first_key inner) no_members inner h (λ key. refl) in
    feed-both (first_key inner) _ _ (ts ++ (right_brace ∷ [])) (right_brace ∷ [])
      (feed-both (first_key inner) _ _ ts (right_brace ∷ []) all refl) refl

feed-span_tokens :
    (span : Span) (s : State) (frames : List Frame)
    → span.annotation_count ≤ length span.annotations
    → step s left_brace ≡ some (first_key frames)
    → feed s (span_tokens span) ≡ some (complete (span_document span) frames)
unfolding feed span_tokens span_document head_tokens
feed-span_tokens span s frames h k =
    rw k (feed-part_tokens span.annotation_count span.annotations (plain_members span) frames h)

unfoldable pub Counted : Span → Type 0
Counted span = span.annotation_count ≤ length span.annotations

feed-spans_tokens :
    (span : Span) (spans : List Span) (s : State) (es : Elements) (frames : List Frame)
    → All Counted (span ∷ spans)
    → step s left_brace ≡ some (first_key (in_array es ∷ frames))
    → feed s (spans_tokens (span ∷ spans))
      ≡ some (after_value (span_elements es (span ∷ spans)) frames)
unfolding feed spans_tokens Counted
feed-spans_tokens span [] s es frames h k =
    feed-both s _ _ (span_tokens span) ([] ++ [])
      (feed-span_tokens span s (in_array es ∷ frames) h.0 k) refl
feed-spans_tokens span (next ∷ spans) s es frames h k =
    let more = element es (span_document span) in
    feed-both s _ _ (span_tokens span) (comma ∷ spans_tokens (next ∷ spans))
      (feed-span_tokens span s (in_array es ∷ frames) h.0 k)
      (feed-spans_tokens next spans (next_value (in_array more ∷ frames)) more frames h.1 refl)

pub feed-spans_array :
    (spans : List Span) (frames : List Frame)
    → All Counted spans
    → feed (first_value frames) (spans_tokens spans ++ (right_bracket ∷ []))
      ≡ some (complete (array (span_elements no_elements spans)) frames)
unfolding feed spans_tokens
feed-spans_array [] frames h = refl
feed-spans_array (span ∷ spans) frames h =
    feed-both _ _ _ (spans_tokens (span ∷ spans)) (right_bracket ∷ [])
      (feed-spans_tokens span spans (first_value frames) no_elements frames h refl) refl

feed-path_tokens :
    (span : Span) (path : List Span) (s : State) (es : Elements) (frames : List Frame)
    → ((t : List ℕ) → step s (string_token t) ≡ some (after_value (element es (text t)) frames))
    → feed s (path_tokens (span ∷ path)) ≡ some (after_value (id_elements es (span ∷ path)) frames)
unfolding feed path_tokens
feed-path_tokens span [] s es frames k = rw (k (decimal span.span_id)) refl
feed-path_tokens span (next ∷ path) s es frames k =
    let more = element es (text (decimal span.span_id)) in
    let rest =
      feed-path_tokens next path (next_value (in_array more ∷ frames)) more frames (λ t. refl) in
    rw (k (decimal span.span_id)) rest

pub feed-path_array :
    (path : List Span) (frames : List Frame)
    → feed (first_value frames) (path_tokens path ++ (right_bracket ∷ []))
      ≡ some (complete (array (id_elements no_elements path)) frames)
unfolding feed path_tokens
feed-path_array [] frames = refl
feed-path_array (span ∷ path) frames =
    feed-both _ _ _ (path_tokens (span ∷ path)) (right_bracket ∷ [])
      (feed-path_tokens span path (first_value frames) no_elements frames (λ t. refl)) refl
