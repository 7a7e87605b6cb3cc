-- ===== src/Json/Parser.antt =====
-- A reader of the values of RFC 8259, to read what src/analysis/export_json.c writes: it takes
-- the tokens one by one, with the open arrays and objects on a stack.
use dapper_lite.Prelude.{ℕ, Bool, Option, none, some, List, [], ◌∷◌}
use dapper_lite.Json.Lexer.{
  Token, left_brace, right_brace, left_bracket, right_bracket, colon, comma, string_token,
  number_token, boolean_token, lex,
}

-- Elements and members are in the order of the text, with the last one outermost.
mutual
  pub data Json : Type 0 where
    text : List ℕ → Json
    number : ℕ → Json
    boolean : Bool → Json
    array : Elements → Json
    object : Members → Json

  pub data Elements : Type 0 where
    no_elements : Elements
    element : Elements → Json → Elements

  pub data Members : Type 0 where
    no_members : Members
    member : Members → List ℕ → Json → Members

-- An open array with its elements so far, or an open object with the key of the value to come.
pub data Frame : Type 0 where
  in_array : Elements → Frame
  in_object : Members → List ℕ → Frame

-- What comes next, in which frames. The first value of an array and the first key of an object may
-- be missing.
pub data State : Type 0 where
  first_value : List Frame → State
  next_value : List Frame → State
  first_key : List Frame → State
  next_key : Members → List Frame → State
  next_colon : Members → List ℕ → List Frame → State
  after_value : Elements → List Frame → State
  after_member : Members → List Frame → State
  finished : Json → State

-- The state behind a value.
abbrev pub complete : Json → List Frame → State
complete v [] = finished v
complete v (in_array es ∷ frames) = after_value (element es v) frames
complete v (in_object ms key ∷ frames) = after_member (member ms key v) frames

abbrev start_value : Token → List Frame → Option State
start_value left_brace frames = some (first_key frames)
start_value left_bracket frames = some (first_value frames)
start_value (string_token s) frames = some (complete (text s) frames)
start_value (number_token n) frames = some (complete (number n) frames)
start_value (boolean_token b) frames = some (complete (boolean b) frames)
start_value _ frames = none

unfoldable pub step : State → Token → Option State
step (first_value frames) right_bracket = some (complete (array no_elements) frames)
step (first_value frames) t = start_value t (in_array no_elements ∷ frames)
step (next_value frames) t = start_value t frames
step (first_key frames) (string_token key) = some (next_colon no_members key frames)
step (first_key frames) right_brace = some (complete (object no_members) frames)
step (next_key ms frames) (string_token key) = some (next_colon ms key frames)
step (next_colon ms key frames) colon = some (next_value (in_object ms key ∷ frames))
step (after_value es frames) comma = some (next_value (in_array es ∷ frames))
step (after_value es frames) right_bracket = some (complete (array es) frames)
step (after_member ms frames) comma = some (next_key ms frames)
step (after_member ms frames) right_brace = some (complete (object ms) frames)
step _ t = none

abbrev pub then_state : Option State → (State → Option State) → Option State
then_state none f = none
then_state (some s) f = f s

unfoldable pub feed : State → List Token → Option State
unfolding step
feed s [] = some s
feed s (t ∷ ts) = then_state (step s t) (λ next. feed next ts)

abbrev value_of : Option State → Option Json
value_of (some (finished v)) = some v
value_of _ = none

abbrev parse : Option (List Token) → Option Json
parse none = none
parse (some ts) = value_of (feed (next_value []) ts)

-- The value that a whole text stands for.
unfoldable pub read_json : List ℕ → Option Json
unfolding lex feed
read_json bytes = parse (lex bytes)
