-- ===== src/Json.antt =====
-- src/json/json.h and the first half of src/json/json.c: values, and the parts of a text that are not
-- nested. A text is the list of the characters between `begin` and `end`; a `double` is its 64 bits as
-- a number. Reading the byte at `end` is the outcome `overrun`.
pub mod Objects
pub mod Reader
pub mod Strings
pub mod Total
pub mod Printer
pub mod Separators
pub mod RoundTrip
pub mod Fetch
mod Runs
use prog_dir.Base.{
  ℕ, ◌+◌, Bool, false, ◌&&◌, ◌||◌, Option, none, some, [], ◌∷◌, ltb, leb, ◌==◌, if◌then◌else◌,
  bytes_eq, Bytes, length, take, drop,
}
use prog_dir.Paren.{isspace}
use prog_dir.Base.Results.{Result, ok, failed, overrun, out_of_fuel}

-- `json_type`
pub data JsonType : Type 0 where
  json_null json_number json_true json_false json_string json_array json_object json_badtype :
      JsonType

-- `json_value`, with `json_array` and the members of a `json_object` in the order they were included.
mutual
  pub data JsonValue : Type 0 where
    null_value true_value false_value : JsonValue
    number_value : ℕ → JsonValue
    string_value : Bytes → JsonValue
    array_value : JsonArray → JsonValue
    object_value : JsonObject → JsonValue

  pub data JsonArray : Type 0 where
    no_items : JsonArray
    item : JsonValue → JsonArray → JsonArray

  pub data JsonObject : Type 0 where
    no_members : JsonObject
    member : Bytes → JsonValue → JsonObject → JsonObject

-- `_skip_whitespace`; it returns false when nothing is left.
unfoldable pub skip_whitespace : Bytes → Bytes
skip_whitespace [] = []
skip_whitespace (c ∷ text) = let rest = skip_whitespace text in if isspace c then rest else c ∷ text

-- The `switch` of `_identify_next`.
unfoldable pub type_of_char : ℕ → JsonType
type_of_char c =
    if c == b'"'
    then json_string
    else if c == b'{'
    then json_object
    else if c == b'['
    then json_array
    else if c == b't'
    then json_true
    else if c == b'f'
    then json_false
    else if c == b'n'
    then json_null
    else if c == b'-' || (leb b'0' c && leb c b'9')
    then json_number
    else json_badtype

abbrev pub type_at : Bytes → JsonType
type_at [] = json_badtype
type_at (c ∷ _) = type_of_char c

-- The type, and the text without the whitespace in front.
abbrev pub identify_next : Bytes → JsonType × Bytes
identify_next text = let at = skip_whitespace text in (type_at at, at)

-- The character that a letter behind a backslash stands for.
unfoldable pub unescape : ℕ → Option ℕ
unescape c =
    if c == b'"'
    then some b'"'
    else if c == b'\\'
    then some b'\\'
    else if c == b'/'
    then some b'/'
    else if c == b'b'
    then some 8
    else if c == b'f'
    then some 12
    else if c == b'n'
    then some 10
    else if c == b'r'
    then some 13
    else if c == b't'
    then some 9
    else none

abbrev pub add_char : ℕ → Result (Bytes × Bytes) → Result (Bytes × Bytes)
add_char c (ok (string, rest)) = ok (c ∷ string, rest)
add_char c failed = failed
add_char c overrun = overrun
add_char c out_of_fuel = out_of_fuel

-- The loop of `_read_string`: the characters put into the buffer, and what is behind the quote.
unfoldable pub string_loop : Bool → Bytes → Result (Bytes × Bytes)
string_loop escape [] = failed
string_loop escape (c ∷ text) =
    let rest = string_loop (c == b'\\') text in
    if c == b'\\'
    then rest
    else if escape
    then elim (unescape c) [ none ↦ failed | some d ↦ add_char d rest ]
    else if c == b'"'
    then ok ([], text)
    else add_char c rest

-- `_read_string`. Its two callers have checked for the quote that it asserts.
abbrev pub read_string : Bytes → Result (Bytes × Bytes)
read_string text = string_loop false (drop 1 text)

-- `_skip_string`, which wants one character more than the word has.
unfoldable pub skip_string : Bytes → Bytes → Result Bytes
skip_string text word =
    if ltb (length text) (length word + 1)
    then failed
    else if bytes_eq (take (length word) text) word
    then ok (drop (length word) text)
    else failed
