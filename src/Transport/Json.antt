-- ===== src/Transport/Json.antt =====
-- `JSON.stringify` and `JSON.parse` of the language at arrays of strings, as
-- Transport/messages/content/UpdateAnswer.js, LeaveRequest.js and PingRequest.js call them.
pub mod RoundTrip
use reloadjs.Base.{
  ℕ, zero, suc, ◌+◌, ◌-◌, ◌*◌, ◌/◌, ◌%◌, ◌==◌, ltb, leb, Bool, ◌&&◌, ◌||◌, List, [], ◌∷◌, Option,
  none, some, if◌then◌else◌, length, Text,
}

unfoldable pub digit_code : ℕ → ℕ
digit_code d = if ltb d 10 then b'0' + d else b'a' + (d - 10)

unfoldable pub digit_value : ℕ → Option ℕ
digit_value c =
    if leb b'0' c && leb c b'9'
    then some (c - b'0')
    else if leb b'a' c && leb c b'f'
    then some (c - b'a' + 10)
    else if leb b'A' c && leb c b'F'
    then some (c - b'A' + 10)
    else none

-- What a character is written as, before the text that follows.
unfoldable pub escape : ℕ → Text → Text
unfolding digit_code
escape c rest =
    if c == b'"' || c == b'\\'
    then b'\\' ∷ c ∷ rest
    else if c == 8
    then b'\\' ∷ b'b' ∷ rest
    else if c == 9
    then b'\\' ∷ b't' ∷ rest
    else if c == 10
    then b'\\' ∷ b'n' ∷ rest
    else if c == 12
    then b'\\' ∷ b'f' ∷ rest
    else if c == 13
    then b'\\' ∷ b'r' ∷ rest
    else if ltb c 32
    then b'\\' ∷ b'u' ∷ b'0' ∷ b'0' ∷ digit_code (c / 16) ∷ digit_code (c % 16) ∷ rest
    else c ∷ rest

-- A string behind its first quotation mark.
unfoldable pub quoted : Text → Text → Text
unfolding escape
quoted [] rest = b'"' ∷ rest
quoted (c ∷ cs) rest = escape c (quoted cs rest)

-- The strings behind the first one, and the end of the array.
unfoldable pub more : List Text → Text
unfolding quoted
more [] = b']' ∷ []
more (s ∷ ss) = b',' ∷ b'"' ∷ quoted s (more ss)

unfoldable pub stringify : List Text → Text
unfolding quoted more
stringify [] = b'[' ∷ b']' ∷ []
stringify (s ∷ ss) = b'[' ∷ b'"' ∷ quoted s (more ss)

-- Where the reader of a string is: between escapes, behind a backslash, or in `\u` with so many
-- digits to come.
pub data Mode : Type 0 where
  plain escaped : Mode
  hex : ℕ → ℕ → Mode

-- What it does at a character.
pub data Action : Type 0 where
  close throw : Action
  go_on : Mode → Action
  emit : ℕ → Action

unfoldable pub hex_step : ℕ → ℕ → Option ℕ → Action
hex_step left value none = throw
hex_step zero value (some d) = emit (value * 16 + d)
hex_step (suc left) value (some d) = go_on (hex left (value * 16 + d))

unfoldable pub step : Mode → ℕ → Action
unfolding hex_step digit_value
step plain c =
    if c == b'"'
    then close
    else if c == b'\\'
    then go_on escaped
    else if ltb c 32
    then throw
    else emit c
step escaped c =
    if c == b'"' || c == b'\\' || c == b'/'
    then emit c
    else if c == b'b'
    then emit 8
    else if c == b't'
    then emit 9
    else if c == b'n'
    then emit 10
    else if c == b'f'
    then emit 12
    else if c == b'r'
    then emit 13
    else if c == b'u'
    then go_on (hex 3 0)
    else throw
step (hex left value) c = hex_step left value (digit_value c)

abbrev pub push : ℕ → Option (Text × Text) → Option (Text × Text)
push c none = none
push c (some (s, rest)) = some (c ∷ s, rest)

-- A string from a mode to its quotation mark, with the text behind it.
unfoldable pub read_string : Mode → Text → Option (Text × Text)
unfolding step
read_string mode [] = none
read_string mode (c ∷ cs) = elim (step mode c) [
  | close ↦ some ([], cs)
  | throw ↦ none
  | go_on next_mode ↦ read_string next_mode cs
  | emit x ↦ push x (read_string plain cs)
]

-- A token behind white space.
unfoldable pub expect : ℕ → Text → Option Text
expect token [] = none
expect token (c ∷ cs) =
    let later = expect token cs in
    if c == token then some cs else if c == 32 || c == 9 || c == 10 || c == 13 then later else none

unfoldable pub end_of_text : Text → Bool
end_of_text [] = Bool.true
end_of_text (c ∷ cs) = (c == 32 || c == 9 || c == 10 || c == 13) && end_of_text cs

-- A string and the ones behind it, to the end of the text; for at most so many strings.
unfoldable pub read_items : ℕ → Text → Option (List Text)
unfolding expect read_string end_of_text
read_items zero text = none
read_items (suc rounds) text = elim (expect b'"' text) [
  | none ↦ none
  | some start ↦ elim (read_string plain start) [
    | none ↦ none
    | some (s, rest) ↦ elim (expect b']' rest) [
      | some left ↦ if end_of_text left then some (s ∷ []) else none
      | none ↦ elim (expect b',' rest) [
        | none ↦ none
        | some left ↦ elim (read_items rounds left) [ none ↦ none | some ss ↦ some (s ∷ ss) ]
      ]
    ]
  ]
]

-- `none` stands for an exception, and for a value that is not an array of strings.
unfoldable pub parse : Text → Option (List Text)
unfolding expect read_items end_of_text
parse text = elim (expect b'[' text) [
  | none ↦ none
  | some rest ↦ elim (expect b']' rest) [
    | some left ↦ if end_of_text left then some [] else none
    | none ↦ read_items (length rest) rest
  ]
]
