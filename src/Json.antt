-- ===== src/Json.antt =====
-- `write_json_string` of src/analysis/export_json.c.
pub mod Document
pub mod Lexer
pub mod Parser
pub mod Runs
pub mod RoundTrip
pub mod Numbers
pub mod Spans
pub mod Values
pub mod Collected
pub mod Traces
use dapper_lite.Prelude.{ℕ, ◌+◌, ◌/◌, ◌%◌, List, [], ◌∷◌, ◌++◌, ltb, ◌==◌, if◌then◌else◌}
use dapper_lite.Core.Strings.{c_str}

-- A digit of `%04x`.
abbrev pub hex_digit : ℕ → ℕ
hex_digit d = if ltb d 10 then 48 + d else (87 + d)

-- What is written for a byte: `\\`, `\"`, `\n`, `\r`, `\t`, `\u00..` or the byte itself.
unfoldable pub escaped : ℕ → List ℕ
escaped b =
    if b == 92
    then 92 ∷ 92 ∷ []
    else if b == 34
    then 92 ∷ 34 ∷ []
    else if b == 10
    then 92 ∷ 110 ∷ []
    else if b == 13
    then 92 ∷ 114 ∷ []
    else if b == 9
    then 92 ∷ 116 ∷ []
    else if ltb b 32
    then 92 ∷ 117 ∷ 48 ∷ 48 ∷ hex_digit (b / 16) ∷ hex_digit (b % 16) ∷ []
    else b ∷ []

unfoldable pub escape : List ℕ → List ℕ
unfolding escaped
escape [] = []
escape (b ∷ bytes) = escaped b ++ escape bytes

-- The bytes that are written for the string in an array.
unfoldable pub write_json_string : List ℕ → List ℕ
unfolding escape
write_json_string str = 34 ∷ (escape (c_str str) ++ (34 ∷ []))
