-- ===== src/Json/RoundTrip.antt =====
-- src/json/json.c: printing a value and reading it.
use prog_dir.Base.{
  ℕ, zero, suc, ◌+◌, ◌*◌, ◌<◌, ◌≡◌, refl, sym, ap, ◌∙◌, inl, inr, Bool, true, false, not, ◌&&◌, ◌∷◌,
  ◌++◌, arith, ltb, ◌==◌, if◌then◌else◌, List-cases, le→ltb, and-false, Bytes, length, drop,
  length-append, drop-append, codes,
}
use prog_dir.Paren.{isspace}
use prog_dir.Json.{
  JsonValue, json_number, JsonObject, no_members, member, skip_whitespace, type_of_char, null_value,
  true_value, false_value, number_value, string_value, array_value, object_value, JsonArray,
  no_items, item, type_at,
}
use prog_dir.Json.Objects.{include_member}
use prog_dir.Json.Reader.{
  next_char, read_value, read_number, read_array, read_object, json_parse_value,
}
use prog_dir.Json.Printer.{
  separate, Distinct, ends_value, StartsNumber, ReadsNumbers, print_value, is_last, print_items,
  print_members, CanPrintString, is_last_member, CanPrint, CanPrintItems, CanPrintMembers,
}
use prog_dir.Base.Results.{Result, ok, bind, Ends}
use mathlib.Core.Path.{subst}
use prog_dir.Json.Strings.{print_string, string_loop-print_string, c_string_lem, skip_string-append}
use prog_dir.Json.Total.{read_value-Leaves}
use prog_dir.Json.Separators.{
  Starts, include_members, include_members-append, skip_whitespace-Starts, next_char-separate,
  number_char,
}

module _ (strtod : Bytes → ℕ × ℕ) (print_number : ℕ → Bytes) (comma : Bool) (IsNumber : ℕ → Type 0)
    (numbers : ReadsNumbers strtod print_number IsNumber) where
  abbrev printed : JsonValue → Bytes → Bytes
  printed = print_value print_number comma

  print_number-Starts :
      (n : ℕ) (rest : Bytes)
      → (c : ℕ) × (text : Bytes) × (print_number n ≡ c ∷ text) × (type_of_char c ≡ json_number)
  print_number-Starts n rest = elim (List-cases (print_number n)) [
    | inl e ↦ absurd (subst StartsNumber e (numbers.starts n))
    | inr (c, text, e) ↦ (c, text, e, subst StartsNumber e (numbers.starts n))
  ]

  read_value-number :
      (fuel : ℕ) (text : Bytes)
      → skip_whitespace text ≡ text
      → type_at text ≡ json_number
      → read_value strtod (suc fuel) text ≡ read_number strtod text
  unfolding read_value
  read_value-number fuel text s t = rw (s, t) refl

  read_number-exact :
      (text : Bytes) (bits count : ℕ)
      → strtod text ≡ (bits, count)
      → (count == 0) ≡ false
      → ltb (length text) count ≡ false
      → read_number strtod text ≡ ok (number_value bits, drop count text)
  read_number-exact text bits count e z l = rw (read_number, e, z, l) refl

  read_number-print :
      (fuel n c : ℕ) (rest : Bytes)
      → IsNumber n
      → ends_value c ≡ true
      → read_value strtod (suc fuel) (print_number n ++ (c ∷ rest)) ≡ ok (number_value n, c ∷ rest)
  read_number-print fuel n c rest h e =
      let (d, text, same, t) = print_number-Starts n rest in
      let (s, k, b) = number_char d t in
      let whole = print_number n ++ (c ∷ rest) in
      let front : whole ≡ d ∷ (text ++ (c ∷ rest)) = rw same refl in
      let count = length (print_number n) in
      let long : count ≡ suc (length text) = rw same refl in
      let some_chars : (count == 0) ≡ false = ground (arith, long) in
      let fits : ltb (length whole) count ≡ false =
        le→ltb _ _ (omega (arith, length-append (print_number n) (c ∷ rest))) in
      read_value-number fuel whole (skip_whitespace-Starts whole (subst Starts (sym front) (s, k)))
        (ap type_at front ∙ t)
      ∙ read_number-exact whole n count (numbers.reads n c rest h e) some_chars fits
      ∙ ap (λ r. ok (number_value n, r)) (drop-append (print_number n) (c ∷ rest))

  -- The text of a value starts no list's end.
  printed-Starts :
      (v : JsonValue) (rest : Bytes)
      → (c : ℕ) × (text : Bytes) × (printed v rest ≡ c ∷ text)
        × (isspace c ≡ false)
        × ((c == b',') ≡ false)
        × ((c == b']') ≡ false)
  unfolding print_value
  printed-Starts (number_value n) rest =
      let (c, text, e, t) = print_number-Starts n rest in
      let (s, k, b) = number_char c t in (c, text ++ rest, rw e refl, s, k, b)
  printed-Starts null_value rest = (_, _, refl, refl, refl, refl)
  printed-Starts true_value rest = (_, _, refl, refl, refl, refl)
  printed-Starts false_value rest = (_, _, refl, refl, refl, refl)
  printed-Starts (string_value s) rest = (_, _, refl, refl, refl, refl)
  printed-Starts (array_value others) rest = (_, _, refl, refl, refl, refl)
  printed-Starts (object_value others) rest = (_, _, refl, refl, refl, refl)

  items-Starts :
      (others : JsonArray) (rest : Bytes) → Starts (print_items print_number comma others rest)
  unfolding print_items
  items-Starts no_items rest = (refl, refl)
  items-Starts (item v others) rest =
      let (c, text, e, s, k, b) =
        printed-Starts v
          (separate comma (is_last others) (print_items print_number comma others rest)) in
      subst Starts (sym e) (s, k)

  members-Starts :
      (others : JsonObject) (rest : Bytes) → Starts (print_members print_number comma others rest)
  unfolding print_members
  members-Starts no_members rest = (refl, refl)
  members-Starts (member k v others) rest = (refl, refl)

  -- What follows an item or a member ends it.
  separator_ends : ends_value (if comma then b',' else 32) ≡ true
  separator_ends = ground arith

  items_behind :
      (others : JsonArray) (rest : Bytes)
      → (d : ℕ) × (more : Bytes) × (separate comma
            (is_last others)
            (print_items print_number comma others rest)
          ≡ d ∷ more)
        × (ends_value d ≡ true)
  unfolding print_items
  items_behind no_items rest = (b']', rest, refl, refl)
  items_behind (item v others) rest = (_, _, refl, separator_ends)

  members_behind :
      (others : JsonObject) (rest : Bytes)
      → (d : ℕ) × (more : Bytes) × (separate comma
            (is_last_member others)
            (print_members print_number comma others rest)
          ≡ d ∷ more)
        × (ends_value d ≡ true)
  unfolding print_members
  members_behind no_members rest = (b'}', rest, refl, refl)
  members_behind (member k v others) rest = (_, _, refl, separator_ends)

  abbrev add_item : JsonValue → Result (JsonArray × Bytes) → Result (JsonArray × Bytes)
  add_item v r = bind r λ (others, end). ok (item v others, end)

  array_step :
      (fuel : ℕ) (passed_comma last : Bool) (more : Bytes) (v : JsonValue) (c : ℕ) (tail : Bytes)
      → isspace c ≡ false
      → (c == b']') ≡ false
      → read_value strtod fuel (c ∷ tail) ≡ ok (v, separate comma last more)
      → Starts more
      → read_array strtod (suc fuel) passed_comma (c ∷ tail)
        ≡ add_item v (read_array strtod fuel (not last && comma) more)
  unfolding read_array skip_whitespace
  array_step fuel passed_comma last more v c tail s b r h =
      rw (next_char, s, b, r)
        (next_char-separate comma last more (λ p t. add_item v (read_array strtod fuel p t)) h)

  abbrev object_of_printed : Bytes → JsonValue → Bytes → Bytes
  object_of_printed k v text = b'"' ∷ (print_string k ++ (b'"' ∷ (b':' ∷ printed v text)))

  object_step :
      (fuel : ℕ) (expect_pair last : Bool) (object : JsonObject) (more : Bytes) (k : Bytes)
      (v : JsonValue)
      → CanPrintString k
      → read_value strtod fuel (printed v (separate comma last more))
        ≡ ok (v, separate comma last more)
      → Starts more
      → read_object strtod
          (suc fuel)
          expect_pair
          object
          (object_of_printed k v (separate comma last more))
        ≡ read_object strtod fuel (not last && comma) (include_member object k v) more
  unfolding read_object skip_whitespace type_of_char
  object_step fuel expect_pair last object more k v h r t =
      let key = string_loop-print_string k (b':' ∷ printed v (separate comma last more)) h in
      let name = c_string_lem k h in
      let go : Bytes → Result (JsonObject × Bytes) = λ q.
        next_char (separate comma last more) λ d at.
          read_object strtod fuel (d == b',') (include_member object q v)
            (if d == b',' then at else d ∷ at) in
      rw (next_char, key, r)
        (ap go name
          ∙ next_char-separate comma last more
              (λ p at. read_object strtod fuel p (include_member object k v) at) t)

  -- What is read leaves less than the text.
  left_of :
      (fuel : ℕ) (text : Bytes) (v : JsonValue) (rest : Bytes)
      → 2 * length text < fuel
      → read_value strtod fuel text ≡ ok (v, rest)
      → length rest < length text
  left_of fuel text v rest h e =
      subst (λ r. Ends (λ x. length x.1 < length text) r) e (read_value-Leaves strtod fuel text h)

  length-separate :
      (last : Bool) (text : Bytes) → length text < suc (length (separate comma last text))
  length-separate true text = omega arith
  length-separate false text = omega arith

  not_last : (last : Bool) → ((not last && comma) && last) ≡ false
  not_last true = refl
  not_last false = and-false comma

  mutual
    unfolding read_value print_value CanPrint skip_whitespace type_of_char

    read_value-print :
        (v : JsonValue) (fuel c : ℕ) (rest : Bytes)
        → CanPrint IsNumber v
        → ends_value c ≡ true
        → 2 * length (printed v (c ∷ rest)) < fuel
        → read_value strtod fuel (printed v (c ∷ rest)) ≡ ok (v, c ∷ rest)
    read_value-print v zero c rest h e l = absurd (omega arith)
    read_value-print null_value (suc fuel) c rest h e l =
        rw (skip_string-append (codes "null") c rest) refl
    read_value-print true_value (suc fuel) c rest h e l =
        rw (skip_string-append (codes "true") c rest) refl
    read_value-print false_value (suc fuel) c rest h e l =
        rw (skip_string-append (codes "false") c rest) refl
    read_value-print (number_value n) (suc fuel) c rest h e l = read_number-print fuel n c rest h e
    read_value-print (string_value s) (suc fuel) c rest h e l =
        rw (string_loop-print_string s (c ∷ rest) h, c_string_lem s h) refl
    read_value-print (array_value others) (suc fuel) c rest h e l =
        rw (read_array-print others fuel false (c ∷ rest) h refl (omega arith)) refl
    read_value-print (object_value others) (suc fuel) c rest (d, h) e l =
        rw (read_object-print others fuel false no_members (c ∷ rest) d h refl (omega arith))
          (ap (λ o. ok (object_value o, c ∷ rest)) (include_members-append no_members others d))

    read_array-print :
        (others : JsonArray) (fuel : ℕ) (passed_comma : Bool) (rest : Bytes)
        → CanPrintItems IsNumber others
        → (passed_comma && is_last others) ≡ false
        → suc (2 * length (print_items print_number comma others rest)) < fuel
        → read_array strtod fuel passed_comma (print_items print_number comma others rest)
          ≡ ok (others, rest)
    read_array-print others zero passed_comma rest h p l = absurd (omega arith)
    read_array-print no_items (suc fuel) true rest h p l = cc
    read_array-print no_items (suc fuel) false rest h p l = refl
    read_array-print (item v others) (suc fuel) passed_comma rest (h, hs) p l =
        let last = is_last others in
        let more = print_items print_number comma others rest in
        let after = separate comma last more in
        let (d, text, front, ends) = items_behind others rest in
        let read : read_value strtod fuel (printed v after) ≡ ok (v, after) =
          subst
            (λ t.
              2 * length (printed v t) < fuel → read_value strtod fuel (printed v t) ≡ ok (v, t))
            (sym front) (read_value-print v fuel d text h ends) (omega arith) in
        let left = left_of fuel (printed v after) v after (omega arith) read in
        let (c, tail, e, s, k, b) = printed-Starts v after in
        subst
          (λ t.
            read_value strtod fuel t ≡ ok (v, after)
            → read_array strtod (suc fuel) passed_comma t
              ≡ add_item v (read_array strtod fuel (not last && comma) more))
          (sym e)
          (λ r. array_step fuel passed_comma last more v c tail s b r (items-Starts others rest))
          read
        ∙ ap (add_item v) (
            read_array-print others fuel (not last && comma) rest hs (not_last last)
              (omega (arith, left, length-separate last more)))

    read_object-print :
        (others : JsonObject) (fuel : ℕ) (expect_pair : Bool) (object : JsonObject) (rest : Bytes)
        → Distinct object others
        → CanPrintMembers IsNumber others
        → (expect_pair && is_last_member others) ≡ false
        → suc (2 * length (print_members print_number comma others rest)) < fuel
        → read_object strtod fuel expect_pair object (print_members print_number comma others rest)
          ≡ ok (include_members object others, rest)
    read_object-print others zero expect_pair object rest d h p l = absurd (omega arith)
    read_object-print no_members (suc fuel) true object rest d h p l = cc
    read_object-print no_members (suc fuel) false object rest d h p l = refl
    read_object-print (member k v others) (suc fuel) expect_pair object rest (d, ds) (hk, h, hs) p
          l =
        let last = is_last_member others in
        let more = print_members print_number comma others rest in
        let after = separate comma last more in
        let (c, text, front, ends) = members_behind others rest in
        let key = length-append (print_string k) (b'"' ∷ (b':' ∷ printed v after)) in
        let read : read_value strtod fuel (printed v after) ≡ ok (v, after) =
          subst
            (λ t.
              2 * length (printed v t) < fuel → read_value strtod fuel (printed v t) ≡ ok (v, t))
            (sym front) (read_value-print v fuel c text h ends) (omega (arith, key)) in
        let left = left_of fuel (printed v after) v after (omega (arith, key)) read in
        object_step fuel expect_pair last object more k v hk read (members-Starts others rest)
        ∙ read_object-print others fuel (not last && comma) (include_member object k v) rest ds hs
            (not_last last) (omega (arith, key, left, length-separate last more))

  -- A value that is printed, with commas or only with spaces between the items, and with a character
  -- behind it that ends a number, is what the reader of `json_parse` gives for the text, and this
  -- character and what follows is left; its strings and keys have no backslash and no null byte, the keys
  -- of an object are distinct, and `strtod` reads the numbers in it as printed.
  pub json_parse_value-print :
      (v : JsonValue) (c : ℕ) (rest : Bytes)
      → CanPrint IsNumber v
      → ends_value c ≡ true
      → json_parse_value strtod (print_value print_number comma v (c ∷ rest)) ≡ ok (v, c ∷ rest)
  unfolding json_parse_value
  json_parse_value-print v c rest h e =
      read_value-print v (2 * length (printed v (c ∷ rest)) + 1) c rest h e (omega arith)
