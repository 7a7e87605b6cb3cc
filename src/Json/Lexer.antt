-- ===== src/Json/Lexer.antt =====
-- A reader of the tokens of RFC 8259, to read what src/analysis/export_json.c writes. It goes over
-- the bytes once, and never looks ahead.
use dapper_lite.Prelude.{
  ℕ, ◌+◌, ◌-◌, ◌*◌, Bool, true, false, Option, none, some, List, [], ◌∷◌, ◌++◌, ltb, leb, ◌==◌,
  ◌&&◌, ◌||◌, if◌then◌else◌,
}
use dapper_lite.Prelude.Text.{codes}

pub data Token : Type 0 where
  left_brace : Token
  right_brace : Token
  left_bracket : Token
  right_bracket : Token
  colon : Token
  comma : Token
  string_token : List ℕ → Token
  number_token : ℕ → Token
  boolean_token : Bool → Token

-- Where the reader is in a string: among its characters, behind a backslash, or among the digits
-- of a code, with those that are left and the value so far.
pub data Reader : Type 0 where
  inside : Reader
  behind_backslash : Reader
  in_code : ℕ → ℕ → Reader

-- Where it is in a text. It has the characters of an unfinished string or word, the last first, or
-- the value of an unfinished number.
pub data Mode : Type 0 where
  between : Mode
  in_string : Reader → List ℕ → Mode
  in_number : ℕ → Mode
  in_word : List ℕ → Mode

-- A move reads a byte. It finishes tokens and leads to a mode.
abbrev pub Move : Type 0
Move = Option (List Token × Mode)

abbrev pub goes : Mode → Move
goes m = some ([], m)

-- The value of a hexadecimal digit of either case.
unfoldable pub digit_value : ℕ → Option ℕ
digit_value c =
    if leb 48 c && leb c 57
    then some (c - 48)
    else if leb 97 c && leb c 102
    then some (c - 87)
    else if leb 65 c && leb c 70
    then some (c - 55)
    else none

-- The character behind a backslash, but for `u`.
unfoldable unescaped : ℕ → Option ℕ
unescaped c =
    if c == 34 || c == 92 || c == 47
    then some c
    else if c == 98
    then some 8
    else if c == 102
    then some 12
    else if c == 110
    then some 10
    else if c == 114
    then some 13
    else if c == 116
    then some 9
    else none

abbrev take_char : List ℕ → Option ℕ → Move
take_char chars none = none
take_char chars (some b) = goes (in_string inside (b ∷ chars))

-- Codes from 128 on are left out: a byte of UTF-8 stands for itself.
abbrev take_digit : List ℕ → ℕ → ℕ → Option ℕ → Move
take_digit chars left v none = none
take_digit chars left v (some d) =
    let w = v * 16 + d in
    if left == 1
    then if ltb w 128 then goes (in_string inside (w ∷ chars)) else none
    else goes (in_string (in_code (left - 1) w) chars)

abbrev pub reverse_onto : List ℕ → List ℕ → List ℕ
reverse_onto [] done = done
reverse_onto (c ∷ chars) done = reverse_onto chars (c ∷ done)

-- RFC 8259, section 7. A control character must be escaped.
unfoldable string_move : Reader → List ℕ → ℕ → Move
unfolding digit_value unescaped
string_move inside chars c =
    if c == 34
    then some (string_token (reverse_onto chars []) ∷ [], between)
    else if c == 92
    then goes (in_string behind_backslash chars)
    else if ltb c 32
    then none
    else goes (in_string inside (c ∷ chars))
string_move behind_backslash chars c =
    if c == 117 then goes (in_string (in_code 4 0) chars) else take_char chars (unescaped c)
string_move (in_code left v) chars c = take_digit chars left v (digit_value c)

abbrev is_white : ℕ → Bool
is_white c = c == 32 || c == 9 || c == 10 || c == 13

abbrev is_digit : ℕ → Bool
is_digit c = leb 48 c && leb c 57

abbrev is_letter : ℕ → Bool
is_letter c = leb 97 c && leb c 122

abbrev sign : Token → Move
sign t = some (t ∷ [], between)

-- The move outside of all tokens. A number has neither sign nor fraction.
unfoldable pub begin : ℕ → Move
begin c =
    if is_white c
    then goes between
    else if c == 34
    then goes (in_string inside [])
    else if c == 44
    then sign comma
    else if c == 58
    then sign colon
    else if c == 91
    then sign left_bracket
    else if c == 93
    then sign right_bracket
    else if c == 123
    then sign left_brace
    else if c == 125
    then sign right_brace
    else if is_digit c
    then goes (in_number (c - 48))
    else if is_letter c
    then goes (in_word (c ∷ []))
    else none

abbrev put_first : Token → Move → Move
put_first t none = none
put_first t (some (ts, m)) = some (t ∷ ts, m)

abbrev equal : List ℕ → List ℕ → Bool
equal [] [] = true
equal (a ∷ xs) (b ∷ ys) = a == b && equal xs ys
equal _ ys = false

-- The words `true` and `false`, which are read backwards.
abbrev word_token : List ℕ → Option Token
word_token chars =
    if equal chars (codes "eurt")
    then some (boolean_token true)
    else if equal chars (codes "eslaf")
    then some (boolean_token false)
    else none

abbrev end_word : Option Token → Move → Move
end_word none move = none
end_word (some t) move = put_first t move

-- A number does not begin with a zero, unless it is zero.
unfoldable pub next_move : Mode → ℕ → Move
unfolding string_move begin
next_move between c = begin c
next_move (in_string reader chars) c = string_move reader chars c
next_move (in_number v) c =
    if is_digit c
    then if v == 0 then none else goes (in_number (v * 10 + (c - 48)))
    else put_first (number_token v) (begin c)
next_move (in_word chars) c =
    if is_letter c then goes (in_word (c ∷ chars)) else end_word (word_token chars) (begin c)

abbrev pub put_all : List Token → Move → Move
put_all ts none = none
put_all ts (some (us, m)) = some (ts ++ us, m)

abbrev pub and_then : Move → (Mode → Move) → Move
and_then none f = none
and_then (some (ts, m)) f = put_all ts (f m)

unfoldable pub run : Mode → List ℕ → Move
unfolding next_move
run m [] = goes m
run m (c ∷ bytes) = and_then (next_move m c) (λ n. run n bytes)

-- The tokens of a whole text that ends with white space or a sign.
abbrev at_end : Move → Option (List Token)
at_end (some (ts, between)) = some ts
at_end _ = none

unfoldable pub lex : List ℕ → Option (List Token)
unfolding run
lex bytes = at_end (run between bytes)
