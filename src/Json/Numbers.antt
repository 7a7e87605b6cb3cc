-- ===== src/Json/Numbers.antt =====
-- The numbers that src/analysis/export_json.c prints, with quotes around them and without.
use dapper_lite.Prelude.{
  ℕ, zero, suc, ◌+◌, ◌*◌, ◌/◌, ◌%◌, ◌<◌, ◌≤◌, ◌≡◌, refl, ap, ◌∙◌, sym, Bool-cases, inl, inr, some,
  List, [], ◌∷◌, ◌++◌, leb, arith, leb→le, ap₂, append_assoc,
}
use dapper_lite.Json.{escaped, escape}
use dapper_lite.Json.Document.{digits, decimal}
use dapper_lite.Json.Lexer.{
  Token, Mode, string_token, between, in_string, in_number, inside, reverse_onto, goes, begin,
  next_move, run,
}
use dapper_lite.Json.Runs.{Runs, Runs-append}
use dapper_lite.Json.RoundTrip.{escape-Runs, reverse_onto_twice}

begin-digit : (d : ℕ) → d < 10 → begin (48 + d) ≡ goes (in_number d)
unfolding begin
begin-digit d h = ground arith

go_on-digit :
    (v d : ℕ) → 1 ≤ v → d < 10 → next_move (in_number v) (48 + d) ≡ goes (in_number (v * 10 + d))
unfolding next_move
go_on-digit v d h k = ground arith

escaped-digit : (d : ℕ) → d < 10 → escaped (48 + d) ≡ (48 + d) ∷ []
unfolding escaped
escaped-digit d h = ground arith

digits-small : (fuel n : ℕ) → n < 10 → digits (suc fuel) n ≡ (48 + n) ∷ []
unfolding digits
digits-small fuel n h = ground arith

digits-large :
    (fuel n : ℕ) → 10 ≤ n → digits (suc fuel) n ≡ digits fuel (n / 10) ++ ((48 + n % 10) ∷ [])
unfolding digits
digits-large fuel n h = ground arith

Runs-one : {m n : Mode} (a : List ℕ) (c : ℕ) → a ≡ c ∷ [] → next_move m c ≡ goes n → Runs m a [] n
unfolding run
Runs-one {m = m} {n = n} a c e h =
    let one : run m (c ∷ []) ≡ goes n = rw h refl in record { runs = ap (run m) e ∙ one }

digits-Runs : (fuel n : ℕ) → n < fuel → Runs between (digits fuel n) [] (in_number n)
unfolding next_move
digits-Runs zero n h = absurd (omega arith)
digits-Runs (suc fuel) n h = elim (Bool-cases (leb 10 n)) [
  | inl large ↦
      let le = leb→le 10 n large in
      let high = digits-Runs fuel (n / 10) (omega arith) in
      let value : (n / 10) * 10 + n % 10 ≡ n = omega arith in
      let low : Runs (in_number (n / 10)) ((48 + n % 10) ∷ []) [] (in_number n) =
        Runs-one _ _ refl (
          go_on-digit (n / 10) (n % 10) (omega arith) (omega arith)
          ∙ ap (λ k. goes (in_number k)) value) in
      record { runs = ap (run between) (digits-large fuel n le) ∙ (Runs-append high low).runs }
  | inr small ↦ Runs-one _ _ (digits-small fuel n (ground arith)) (begin-digit n (ground arith))
]

-- A printed number that is not finished yet.
pub decimal-Runs : (n : ℕ) → Runs between (decimal n) [] (in_number n)
unfolding decimal
decimal-Runs n = digits-Runs (suc n) n (omega arith)

escape-append : (a b : List ℕ) → escape (a ++ b) ≡ escape a ++ escape b
unfolding escape
escape-append [] b = refl
escape-append (c ∷ a) b =
    ap (λ s. escaped c ++ s) (escape-append a b)
    ∙ sym (append_assoc (escaped c) (escape a) (escape b))

escape_one : (d : ℕ) → d < 10 → escape ((48 + d) ∷ []) ≡ (48 + d) ∷ []
unfolding escape
escape_one d h = ap (λ s. s ++ []) (escaped-digit d h)

escape-digits : (fuel n : ℕ) → escape (digits fuel n) ≡ digits fuel n
unfolding digits escape
escape-digits zero n = refl
escape-digits (suc fuel) n = elim (Bool-cases (leb 10 n)) [
  | inl large ↦
      let e = digits-large fuel n (leb→le 10 n large) in
      let last = (48 + n % 10) ∷ [] in
      ap escape e
      ∙ escape-append (digits fuel (n / 10)) last
      ∙ ap₂ (λ a b. a ++ b) (escape-digits fuel (n / 10)) (escape_one (n % 10) (omega arith))
      ∙ sym e
  | inr small ↦
      let e = digits-small fuel n (ground arith) in
      ap escape e ∙ escape_one n (ground arith) ∙ sym e
]

-- A printed number behind an opening quote, with its closing quote and what follows.
pub decimal-Runs_quoted :
    {m : Mode} (n : ℕ) {rest : List ℕ} {ts : List Token}
    → Runs between rest ts m
    → Runs (in_string inside []) (decimal n ++ (34 ∷ rest)) (string_token (decimal n) ∷ ts) m
unfolding decimal run
decimal-Runs_quoted n h =
    let d = decimal n in
    let body : Runs (in_string inside []) d [] (in_string inside (reverse_onto d [])) = record {
      runs =
          ap (run (in_string inside [])) (sym (escape-digits (suc n) n)) ∙ (escape-Runs d []).runs;
    } in
    let quote : Runs (in_string inside (reverse_onto d [])) (34 ∷ []) (string_token d ∷ [])
        between =
      record { runs = ap (λ s. some (string_token s ∷ [], between)) (reverse_onto_twice d) } in
    Runs-append body (Runs-append quote h)
