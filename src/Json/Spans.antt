-- ===== src/Json/Spans.antt =====
-- The tokens of what `write_span_json` of src/analysis/export_json.c writes.
use dapper_lite.Prelude.{ℕ, zero, suc, ◌≤◌, ◌≡◌, refl, ap, ◌∙◌, List, [], ◌∷◌, ◌++◌, arith, length}
use dapper_lite.Prelude.Text.{codes}
use dapper_lite.Prelude.Outcome.{ok, failed, fault, Outcome, ◌>>=◌, map_ok}
use dapper_lite.Core.{Span, Annotation}
use dapper_lite.Core.Strings.{c_str}
use dapper_lite.CriticalPath.{span_duration_us}
use dapper_lite.Json.Document.{
  decimal, comma_before, write_annotations, write_annotation_part, write_span_head, write_span_json,
}
use dapper_lite.Json.Lexer.{
  Token, Mode, left_brace, right_brace, colon, comma, string_token, number_token, between,
  in_number, run,
}
use dapper_lite.Json.Runs.{Runs, Runs-nil, Runs-append, Runs-literal}
use dapper_lite.Json.RoundTrip.{write_json_string-Runs}
use dapper_lite.Json.Numbers.{decimal-Runs, decimal-Runs_quoted}

unfoldable pub head_tokens : Span → List Token
head_tokens span =
    left_brace
    ∷ string_token (codes "span_id")
    ∷ colon
    ∷ string_token (decimal span.span_id)
    ∷ comma
    ∷ string_token (codes "parent_span_id")
    ∷ colon
    ∷ string_token (decimal span.parent_span_id)
    ∷ comma
    ∷ string_token (codes "name")
    ∷ colon
    ∷ string_token (c_str span.name)
    ∷ comma
    ∷ string_token (codes "start_ts")
    ∷ colon
    ∷ number_token span.wall_start_us
    ∷ comma
    ∷ string_token (codes "duration_us")
    ∷ colon
    ∷ []

abbrev pub indent : List ℕ
indent = codes "    "

write_span_head-Runs :
    (span : Span)
    → Runs between
        (write_span_head span indent)
        (head_tokens span)
        (in_number (span_duration_us span))
unfolding write_span_head head_tokens run
write_span_head-Runs span =
    let duration : Runs (in_number span.wall_start_us)
        (codes ",\n"
          ++ (indent ++ (codes "  \"duration_us\": " ++ decimal (span_duration_us span))))
        (number_token span.wall_start_us ∷ comma ∷ string_token (codes "duration_us") ∷ colon ∷ [])
        (in_number (span_duration_us span)) =
      Runs-literal (codes ",\n      \"duration_us\": ") refl
        (decimal-Runs (span_duration_us span)) in
    let start = Runs-append (decimal-Runs span.wall_start_us) duration in
    let name =
      Runs-append (write_json_string-Runs span.name)
        (Runs-literal {m = between} (codes ",\n      \"start_ts\": ") refl start) in
    let parent =
      decimal-Runs_quoted span.parent_span_id
        (Runs-literal {m = between} (codes ",\n      \"name\": ") refl name) in
    let id =
      decimal-Runs_quoted span.span_id
        (Runs-literal {m = between} (codes ",\n      \"parent_span_id\": \"") refl parent) in
    Runs-literal (codes "    {\n      \"span_id\": \"") refl id

-- The text is written without a fault, and read as the tokens.
pub record Writes (written : Outcome (List ℕ)) (m : Mode) (ts : List Token) (n : Mode)
    : Type 0 where
  pub bytes : List ℕ
  pub wrote : written ≡ ok bytes
  pub reads : Runs m bytes ts n

abbrev pub comma_tokens : ℕ → List Token
comma_tokens zero = []
comma_tokens (suc more) = comma ∷ []

-- The line's end behind an element, with a comma unless it is the last one.
pub end_line-Runs :
    (more : ℕ) {rest : List ℕ} {ts : List Token} {m : Mode}
    → Runs between rest ts m
    → Runs between (comma_before more ++ (codes "\n" ++ rest)) (comma_tokens more ++ ts) m
unfolding run
end_line-Runs zero h = Runs-literal (codes "\n") refl h
end_line-Runs (suc more) h = Runs-literal (codes ",\n") refl h

unfoldable pub annotation_tokens : ℕ → List Annotation → List Token
annotation_tokens zero slots = []
annotation_tokens (suc rounds) [] = []
annotation_tokens (suc rounds) (a ∷ slots) =
    string_token (c_str a.key)
    ∷ colon
    ∷ string_token (c_str a.value)
    ∷ (comma_tokens rounds ++ annotation_tokens rounds slots)

write_annotations-Writes :
    (rounds : ℕ) (slots : List Annotation)
    → rounds ≤ length slots
    → Writes
        (write_annotations indent rounds slots)
        between
        (annotation_tokens rounds slots)
        between
unfolding write_annotations annotation_tokens run
write_annotations-Writes zero slots h = record { bytes = []; wrote = refl; reads = Runs-nil }
write_annotations-Writes (suc rounds) [] h = absurd (omega arith)
write_annotations-Writes (suc rounds) (a ∷ slots) h =
    let rest = write_annotations-Writes rounds slots (omega arith) in
    let value = Runs-append (write_json_string-Runs a.value) (end_line-Runs rounds rest.reads) in
    let key = Runs-append (write_json_string-Runs a.key) (Runs-literal (codes ": ") refl value) in
    record {
      bytes = _;
      wrote = rw (rest.wrote) refl;
      reads = Runs-literal {m = between} (codes "        ") refl key;
    }

unfoldable pub part_tokens : ℕ → List Annotation → List Token
unfolding annotation_tokens
part_tokens zero slots = []
part_tokens (suc n) slots =
    comma
    ∷ string_token (codes "annotations")
    ∷ colon
    ∷ left_brace
    ∷ (annotation_tokens (suc n) slots ++ (right_brace ∷ []))

unfoldable pub span_tokens : Span → List Token
unfolding head_tokens part_tokens
span_tokens span =
    head_tokens span
    ++ (number_token (span_duration_us span)
        ∷ (part_tokens span.annotation_count span.annotations ++ (right_brace ∷ [])))

-- The part with the annotations and the end, behind the duration.
write_span_tail-Writes :
    (d n : ℕ) (slots : List Annotation)
    → n ≤ length slots
    → Writes
        (write_annotation_part indent n slots >>= λ part.
          ok (part ++ (codes "\n" ++ (indent ++ codes "}"))))
        (in_number d)
        (number_token d ∷ (part_tokens n slots ++ (right_brace ∷ [])))
        between
unfolding write_annotation_part part_tokens run
write_span_tail-Writes d zero slots h = record {
  bytes = _;
  wrote = refl;
  reads = record { runs = refl };
}
write_span_tail-Writes d (suc n) slots h =
    let lines = write_annotations-Writes (suc n) slots h in
    record {
      bytes =
          (codes ",\n      \"annotations\": {\n" ++ (lines.bytes ++ codes "      }"))
          ++ codes "\n    }";
      wrote = rw (lines.wrote) refl;
      reads =
          Runs-append
            (Runs-literal (codes ",\n      \"annotations\": {\n") refl
              (Runs-append lines.reads (record { runs = refl })))
            (record { runs = refl });
    }

bind-map :
    (f g : List ℕ → List ℕ) (o : Outcome (List ℕ))
    → (o >>= λ text. ok (f (g text))) ≡ map_ok f (o >>= λ text. ok (g text))
bind-map f g (ok text) = refl
bind-map f g failed = refl
bind-map f g fault = refl

pub write_span_json-Writes :
    (span : Span)
    → span.annotation_count ≤ length span.annotations
    → Writes (write_span_json span indent) between (span_tokens span) between
unfolding write_span_json span_tokens
write_span_json-Writes span h =
    let tail =
      write_span_tail-Writes (span_duration_us span) span.annotation_count span.annotations h in
    record {
      bytes = write_span_head span indent ++ tail.bytes;
      wrote =
          bind-map (λ text. write_span_head span indent ++ text) _
            (write_annotation_part indent span.annotation_count span.annotations)
          ∙ ap (map_ok (λ text. write_span_head span indent ++ text)) tail.wrote;
      reads = Runs-append (write_span_head-Runs span) tail.reads;
    }
