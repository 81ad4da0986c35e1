-- ===== src/Json/Reader.antt =====
-- src/json/json.c: the reader of values, arrays and objects. `strtod` is a parameter: the bits of the
-- number and how many characters it has taken, 0 when there is no number. Each call takes a unit of
-- fuel; `out_of_fuel` never comes up in `json_parse_value`.
use prog_dir.Base.{
  ℕ, zero, suc, ◌+◌, ◌*◌, Bool, false, [], ◌∷◌, ltb, ◌==◌, if◌then◌else◌, Bytes, length, drop,
  codes, c_string,
}
use prog_dir.Json.{
  JsonValue, json_null, json_number, json_true, json_false, json_string, json_array, json_object,
  json_badtype, null_value, true_value, false_value, number_value, string_value, array_value,
  object_value, JsonArray, no_items, item, JsonObject, no_members, skip_whitespace, identify_next,
  read_string, skip_string, JsonType,
}
use prog_dir.Base.Results.{Result, bind, ok, failed, overrun, out_of_fuel}
use prog_dir.Json.Objects.{include_member}

abbrev pub read_word : JsonValue → Bytes → Bytes → Result (JsonValue × Bytes)
read_word value text word = bind (skip_string text word) λ rest. ok (value, rest)

-- Whitespace and the character behind it, which is there only when the text has not ended.
abbrev pub next_char {ℓ} : {A : Type ℓ} → Bytes → (ℕ → Bytes → Result A) → Result A
next_char text f = elim (skip_whitespace text) [ [] ↦ overrun | c ∷ more ↦ f c more ]

-- The loop of `_read_array` once around, with the reader of a value and the rest of the loop: the items
-- from here on.
abbrev pub array_round :
    (Bytes → Result (JsonValue × Bytes))
    → (Bool → Bytes → Result (JsonArray × Bytes))
    → Bool
    → ℕ
    → Bytes
    → Result (JsonArray × Bytes)
array_round value more passed_comma c text =
    if c == b']'
    then if passed_comma then failed else ok (no_items, text)
    else bind (value (c ∷ text)) λ (read, rest). next_char rest λ d behind.
      bind (more (d == b',') (if d == b',' then behind else d ∷ behind))
        λ (items, end). ok (item read items, end)

-- A pair of `_read_object`, and the rest of the loop.
abbrev pub object_pair :
    (Bytes → Result (JsonValue × Bytes))
    → (Bool → JsonObject → Bytes → Result (JsonObject × Bytes))
    → JsonObject
    → Bytes
    → Result (JsonObject × Bytes)
object_pair value more object at = bind (read_string at) λ (key, rest). next_char rest λ c behind.
    let pair = bind (value behind) λ (read, after). next_char after λ d beyond.
      more (d == b',') (include_member object (c_string key) read)
        (if d == b',' then beyond else d ∷ beyond) in
    if c == b':' then pair else failed

abbrev pub object_end : Bool → JsonObject → ℕ → Bytes → Result (JsonObject × Bytes)
object_end expect_pair object c text =
    if c == b'}' then if expect_pair then failed else ok (object, text) else failed

-- The loop of `_read_object` once around; `object` has the members included so far.
abbrev pub object_round :
    (Bytes → Result (JsonValue × Bytes))
    → (Bool → JsonObject → Bytes → Result (JsonObject × Bytes))
    → Bool
    → JsonObject
    → JsonType
    → Bytes
    → Result (JsonObject × Bytes)
object_round value more expect_pair object json_string at = object_pair value more object at
object_round value more expect_pair object _ at = next_char at (object_end expect_pair object)

module _ (strtod : Bytes → ℕ × ℕ) where
  -- `_read_number`
  abbrev pub read_number : Bytes → Result (JsonValue × Bytes)
  read_number text =
      let (bits, count) = strtod text in
      if count == 0
      then failed
      else if ltb (length text) count
      then overrun
      else ok (number_value bits, drop count text)

  -- The `switch` of `_read_value`, with the readers behind the bracket of an array and an object.
  abbrev pub value_of :
      (Bytes → Result (JsonArray × Bytes))
      → (Bytes → Result (JsonObject × Bytes))
      → JsonType
      → Bytes
      → Result (JsonValue × Bytes)
  value_of array object json_object at =
      bind (object (drop 1 at)) λ (read, rest). ok (object_value read, rest)
  value_of array object json_string at =
      bind (read_string at) λ (string, rest). ok (string_value (c_string string), rest)
  value_of array object json_array at =
      bind (array (drop 1 at)) λ (read, rest). ok (array_value read, rest)
  value_of array object json_number at = read_number at
  value_of array object json_false at = read_word false_value at (codes "false")
  value_of array object json_true at = read_word true_value at (codes "true")
  value_of array object json_null at = read_word null_value at (codes "null")
  value_of array object json_badtype at = failed

  unfoldable mutual
    -- `_read_value`
    pub read_value : ℕ → Bytes → Result (JsonValue × Bytes)
    read_value zero text = out_of_fuel
    read_value (suc fuel) text =
        let (type, at) = identify_next text in
        value_of (read_array fuel false) (read_object fuel false no_members) type at

    -- `_read_array` behind the bracket
    pub read_array : ℕ → Bool → Bytes → Result (JsonArray × Bytes)
    read_array zero passed_comma text = out_of_fuel
    read_array (suc fuel) passed_comma text =
        next_char text (array_round (read_value fuel) (read_array fuel) passed_comma)

    -- `_read_object` behind the bracket
    pub read_object : ℕ → Bool → JsonObject → Bytes → Result (JsonObject × Bytes)
    read_object zero expect_pair object text = out_of_fuel
    read_object (suc fuel) expect_pair object text =
        let (type, at) = identify_next text in
        object_round (read_value fuel) (read_object fuel) expect_pair object type at

  -- The call of `_read_value` in `json_parse`, which is all that `json_parse` does for a text that is
  -- read: the value, and the text behind it. What `json_free` does after a failure is not here.
  unfoldable pub json_parse_value : Bytes → Result (JsonValue × Bytes)
  json_parse_value text = read_value (2 * length text + 1) text
