-- ===== src/Json/RoundTrip.antt =====
-- A reader of JSON strings gets back what was written.
use dapper_lite.Prelude.{
  ℕ, ◌+◌, ◌*◌, ◌/◌, ◌%◌, ◌<◌, ◌≡◌, refl, sym, ap, ◌∙◌, true, false, Bool-cases, inl, inr, Option,
  none, some, List, [], ◌∷◌, ◌++◌, ltb, ◌==◌, ==→eq, if◌then◌else◌, arith, append_assoc, append-nil,
}
use dapper_lite.Core.Strings.{c_str}
use dapper_lite.Json.{hex_digit, escaped, escape, write_json_string}
use dapper_lite.Json.Lexer.{
  Token, string_token, Mode, Move, between, in_string, inside, reverse_onto, digit_value, goes,
  and_then, put_all, next_move, run,
}
use dapper_lite.Json.Runs.{Runs, Runs-append, Runs-nil, put_all-nil}

-- The first token and the bytes behind it.
abbrev read_on : Move → List ℕ → (Mode → Option (Token × List ℕ)) → Option (Token × List ℕ)
read_on none bytes f = none
read_on (some ([], m)) bytes f = f m
read_on (some (t ∷ ts, m)) bytes f = some (t, bytes)

unfoldable first_token : Mode → List ℕ → Option (Token × List ℕ)
unfolding next_move
first_token m [] = none
first_token m (c ∷ bytes) = read_on (next_move m c) bytes (λ n. first_token n bytes)

abbrev only_string : Option (Token × List ℕ) → Option (List ℕ × List ℕ)
only_string (some (string_token s, rest)) = some (s, rest)
only_string _ = none

-- The JSON string that a text begins with, and what follows it.
unfoldable pub read_json_string : List ℕ → Option (List ℕ × List ℕ)
unfolding first_token
read_json_string [] = none
read_json_string (c ∷ bytes) =
    if c == 34 then only_string (first_token (in_string inside []) bytes) else none

digit_value-hex_digit : (d : ℕ) → d < 16 → digit_value (hex_digit d) ≡ some d
unfolding digit_value
digit_value-hex_digit d h = ground arith

escaped-code :
    (b : ℕ) (chars : List ℕ)
    → b < 32
    → run
        (in_string inside chars)
        (92 ∷ 117 ∷ 48 ∷ 48 ∷ hex_digit (b / 16) ∷ hex_digit (b % 16) ∷ [])
      ≡ goes (in_string inside (b ∷ chars))
unfolding run digit_value
escaped-code b chars h =
    let high = digit_value-hex_digit (b / 16) (omega arith) in
    let low = digit_value-hex_digit (b % 16) (omega arith) in
    let value : (0 * 16 + b / 16) * 16 + b % 16 ≡ b = omega arith in
    let small : ltb b 128 ≡ true = ground arith in rw (high, low, value, small) refl

escaped-plain :
    (b : ℕ) (chars : List ℕ)
    → (b == 34) ≡ false
    → (b == 92) ≡ false
    → ltb b 32 ≡ false
    → run (in_string inside chars) (b ∷ []) ≡ goes (in_string inside (b ∷ chars))
unfolding run
escaped-plain b chars quote backslash control = rw (quote, backslash, control) refl

run-escaped :
    (b : ℕ) (chars : List ℕ)
    → run (in_string inside chars) (escaped b) ≡ goes (in_string inside (b ∷ chars))
unfolding run escaped
run-escaped b chars = elim (Bool-cases (b == 92)) [
  | inl e ↦ let q : b ≡ 92 = ==→eq b 92 e in rw q refl
  | inr backslash ↦ elim (Bool-cases (b == 34)) [
    | inl e ↦ let q : b ≡ 34 = ==→eq b 34 e in rw q refl
    | inr quote ↦ elim (Bool-cases (b == 10)) [
      | inl e ↦ let q : b ≡ 10 = ==→eq b 10 e in rw q refl
      | inr newline ↦ elim (Bool-cases (b == 13)) [
        | inl e ↦ let q : b ≡ 13 = ==→eq b 13 e in rw q refl
        | inr return ↦ elim (Bool-cases (b == 9)) [
          | inl e ↦ let q : b ≡ 9 = ==→eq b 9 e in rw q refl
          | inr tab ↦ elim (Bool-cases (ltb b 32)) [
            | inl low ↦
                rw (backslash, quote, newline, return, tab, low)
                  (escaped-code b chars (ground arith))
            | inr high ↦
                rw (backslash, quote, newline, return, tab, high)
                  (escaped-plain b chars quote backslash high)
          ]
        ]
      ]
    ]
  ]
]

pub escape-Runs :
    (s chars : List ℕ)
    → Runs (in_string inside chars) (escape s) [] (in_string inside (reverse_onto s chars))
unfolding escape
escape-Runs [] chars = Runs-nil
escape-Runs (b ∷ s) chars =
    Runs-append (record { runs = run-escaped b chars }) (escape-Runs s (b ∷ chars))

reverse_onto-reverse_onto :
    (s chars done : List ℕ)
    → reverse_onto (reverse_onto s chars) done ≡ reverse_onto chars (s ++ done)
reverse_onto-reverse_onto [] chars done = refl
reverse_onto-reverse_onto (b ∷ s) chars done = reverse_onto-reverse_onto s (b ∷ chars) done

pub reverse_onto_twice : (s : List ℕ) → reverse_onto (reverse_onto s []) [] ≡ s
reverse_onto_twice s = reverse_onto-reverse_onto s [] [] ∙ append-nil s

-- A string that is written is read as one token.
pub write_json_string-Runs :
    (str : List ℕ) → Runs between (write_json_string str) (string_token (c_str str) ∷ []) between
unfolding write_json_string run
write_json_string-Runs str =
    let body = escape-Runs (c_str str) [] in
    let end : Runs (in_string inside (reverse_onto (c_str str) [])) (34 ∷ [])
        (string_token (c_str str) ∷ []) between =
      record {
        runs = ap (λ s. some (string_token s ∷ [], between)) (reverse_onto_twice (c_str str));
      } in
    let quote : Runs between (34 ∷ []) [] (in_string inside []) = record { runs = refl } in
    Runs-append quote (Runs-append body end)

abbrev mode_of : Move → Mode
mode_of none = between
mode_of (some (ts, m)) = m

no_move : {m : Mode} → none ≡ goes m → ⊥
no_move e = cc

no_token : {t : Token} {ts : List Token} {m n : Mode} → some (t ∷ ts, m) ≡ goes n → ⊥
no_token e = ground arith

-- The bytes of an unfinished token.
module _ (n : Mode) (a b : List ℕ) where
  move-append :
      (move : Move)
      → ((m : Mode) → run m a ≡ goes n → first_token m (a ++ b) ≡ first_token n b)
      → and_then move (λ m. run m a) ≡ goes n
      → read_on move (a ++ b) (λ m. first_token m (a ++ b)) ≡ first_token n b
  move-append none h e = absurd (no_move e)
  move-append (some ([], m)) h e = h m (sym (put_all-nil (run m a)) ∙ e)
  move-append (some (t ∷ ts, m)) h e = absurd (finished_token (run m a) e)
    where
      finished_token : (move : Move) → put_all (t ∷ ts) move ≡ goes n → ⊥
      finished_token none e = no_move e
      finished_token (some (us, k)) e = no_token e

first_token-append :
    (m n : Mode) (a b : List ℕ) → run m a ≡ goes n → first_token m (a ++ b) ≡ first_token n b
unfolding first_token run
first_token-append m n [] b h = ap (λ move. first_token (mode_of move) b) h
first_token-append m n (c ∷ a) b h =
    move-append n a b (next_move m c) (λ k e. first_token-append k n a b e) h

-- What is written for the string in an array is a JSON string that stands for it, whatever its
-- bytes, and ends where it ends: in any text behind it, a reader of JSON strings that refuses
-- control characters gets back the string and that text.
pub read_json_string-write_json_string :
    (str rest : List ℕ) → read_json_string (write_json_string str ++ rest) ≡ some (c_str str, rest)
unfolding read_json_string write_json_string first_token
read_json_string-write_json_string str rest =
    let s = c_str str in
    ap (λ text. only_string (first_token (in_string inside []) text))
      (append_assoc (escape s) (34 ∷ []) rest)
    ∙ ap only_string
        (first_token-append (in_string inside []) _ (escape s) (34 ∷ rest) (escape-Runs s []).runs)
    ∙ ap (λ t. some (t, rest)) (reverse_onto_twice s)
