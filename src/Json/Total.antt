-- ===== src/Json/Total.antt =====
-- src/json/json.c: the reader comes to an end within its fuel, and takes characters of the text.
use prog_dir.Base.{
  ℕ, zero, suc, ◌+◌, ◌*◌, ◌<◌, Bool, true, false, [], ◌∷◌, arith, ltb, ◌==◌, if◌then◌else◌,
  le_of_ltb, bytes_eq, Bytes, length, take, drop, length-drop, codes,
}
use prog_dir.Base.Results.{Ends, Result, overrun, bind-Ends, if-Ends, ok, failed, out_of_fuel}
use prog_dir.Json.{
  JsonValue, skip_whitespace, skip_string, JsonObject, type_at, JsonType, json_null, json_number,
  json_true, json_false, json_string, json_array, json_object, json_badtype, JsonArray, read_string,
  null_value, true_value, false_value, no_members, type_of_char,
}
use prog_dir.Json.Reader.{
  next_char, read_number, read_word, value_of, read_value, read_array, read_object, object_pair,
  object_end, object_round, json_parse_value,
}
use prog_dir.Json.Strings.{read_string_lem}

length-skip_whitespace : (text : Bytes) → length (skip_whitespace text) < suc (length text)
unfolding skip_whitespace
length-skip_whitespace [] = omega arith
length-skip_whitespace (c ∷ text) = ground (arith, length-skip_whitespace text)

-- The text that is left is shorter than `n`.
abbrev pub Leaves {ℓ} : {A : Type ℓ} → ℕ → Result (A × Bytes) → Type 0
Leaves n r = Ends (λ x. length x.1 < n) r

length-drop_1 : (text : Bytes) (n : ℕ) → length text < n → length (drop 1 text) < n
length-drop_1 [] n h = h
length-drop_1 (c ∷ text) n h = omega arith

skip_string-Ends :
    (text word : Bytes)
    → Ends (λ rest. length rest + length word < suc (length text)) (skip_string text word)
unfolding skip_string
skip_string-Ends text word =
    if-Ends _ (ltb (length text) (length word + 1)) _ _ (λ _. tt)
      λ h.
        if-Ends _ (bytes_eq (take (length word) text) word) _ _
          (λ _. omega (arith, length-drop (length word) text, le_of_ltb _ _ h)) λ _. tt

next_char-Ends {ℓ} :
    {A : Type ℓ} (P : A → Type 0) (text : Bytes) (f : ℕ → Bytes → Result A)
    → ((c : ℕ) (more : Bytes) → length more < length text → Ends P (f c more))
    → Ends P (next_char text f)
next_char-Ends P text f k = from (skip_whitespace text) (length-skip_whitespace text)
  where
    from :
        (at : Bytes)
        → length at < suc (length text)
        → Ends P (elim at [ [] ↦ overrun | c ∷ more ↦ f c more ])
    from [] l = tt
    from (c ∷ more) l = k c more (omega arith)

read_word-Ends :
    (value : JsonValue) (text word : Bytes)
    → 0 < length word
    → Leaves (length text) (read_word value text word)
read_word-Ends value text word w =
    bind-Ends _ _ (skip_string text word) _ (skip_string-Ends text word) λ rest l. omega arith

length-comma :
    (comma : Bool) (d : ℕ) (behind : Bytes)
    → length (if comma then behind else d ∷ behind) < suc (suc (length behind))
length-comma true d behind = omega arith
length-comma false d behind = omega arith

Ends-less {ℓ} :
    {A : Type ℓ} (n : ℕ) (text : Bytes) (r : Result (A × Bytes))
    → length text < suc n
    → Leaves (length text) r
    → Leaves n r
Ends-less n text (ok x) h l = omega arith
Ends-less n text failed h l = tt
Ends-less n text overrun h l = tt
Ends-less n text out_of_fuel h l = l

module _ (n : ℕ) (value : Bytes → Result (JsonValue × Bytes))
    (more : Bool → JsonObject → Bytes → Result (JsonObject × Bytes))
    (value-Leaves : (text : Bytes) → length text < n → Leaves (length text) (value text))
    (more-Leaves : (comma : Bool) (object : JsonObject) (text : Bytes)
      → length text < n
      → Leaves (length text) (more comma object text)) where
  object_pair-Leaves :
      (object : JsonObject) (at : Bytes)
      → length at < suc n
      → Leaves n (object_pair value more object at)
  object_pair-Leaves object at h =
      bind-Ends _ _ (read_string at) _ (read_string_lem at) λ (key, rest) (_, l).
        next_char-Ends _ rest _ λ c behind l₁.
          if-Ends _ (c == b':') _ _
            (λ _.
              bind-Ends _ _ (value behind) _ (value-Leaves behind (omega arith)) λ (read, after) l₂.
                next_char-Ends _ after _ λ d beyond l₃.
                  let left = length-comma (d == b',') d beyond in
                  Ends-less n _ _ (omega (arith, left))
                    (more-Leaves (d == b',') _ _ (omega (arith, left))))
            λ _. tt

  object_end-Leaves :
      (expect_pair : Bool) (object : JsonObject) (at : Bytes)
      → length at < suc n
      → Leaves n (next_char at (object_end expect_pair object))
  object_end-Leaves expect_pair object at h = next_char-Ends _ at _ λ c text l.
      if-Ends _ (c == b'}') _ _ (λ _. if-Ends _ expect_pair _ _ (λ _. tt) λ _. omega arith) λ _. tt

  object_round-Leaves :
      (expect_pair : Bool) (object : JsonObject) (type : JsonType) (at : Bytes)
      → length at < suc n
      → Leaves n (object_round value more expect_pair object type at)
  object_round-Leaves expect_pair object json_string at h = object_pair-Leaves object at h
  object_round-Leaves expect_pair object _ at h = object_end-Leaves expect_pair object at h

module _ (strtod : Bytes → ℕ × ℕ) where
  read_number-Ends : (text : Bytes) → Leaves (length text) (read_number strtod text)
  read_number-Ends text =
      let (bits, count) = strtod text in
      if-Ends _ (count == 0) _ _ (λ _. tt)
        λ z.
          if-Ends _ (ltb (length text) count) _ _ (λ _. tt)
            λ h. ground (arith, length-drop count text, le_of_ltb _ _ h)

  value_of-Leaves :
      (n : ℕ) (array : Bytes → Result (JsonArray × Bytes))
      (object : Bytes → Result (JsonObject × Bytes)) (type : JsonType) (c : ℕ) (at : Bytes)
      → length at < n
      → Leaves n (array at)
      → Leaves n (object at)
      → Leaves n (value_of strtod array object type (c ∷ at))
  value_of-Leaves n array object json_object c at h a o = bind-Ends _ _ (object at) _ o λ x l. l
  value_of-Leaves n array object json_string c at h a o =
      bind-Ends _ _ (read_string (c ∷ at)) _ (read_string_lem (c ∷ at)) λ x (_, l). omega arith
  value_of-Leaves n array object json_array c at h a o = bind-Ends _ _ (array at) _ a λ x l. l
  value_of-Leaves n array object json_number c at h a o =
      Ends-less n (c ∷ at) (read_number strtod (c ∷ at)) (omega arith) (read_number-Ends (c ∷ at))
  value_of-Leaves n array object json_false c at h a o =
      Ends-less n (c ∷ at) (read_word false_value (c ∷ at) (codes "false")) (omega arith)
        (read_word-Ends false_value (c ∷ at) (codes "false") (omega arith))
  value_of-Leaves n array object json_true c at h a o =
      Ends-less n (c ∷ at) (read_word true_value (c ∷ at) (codes "true")) (omega arith)
        (read_word-Ends true_value (c ∷ at) (codes "true") (omega arith))
  value_of-Leaves n array object json_null c at h a o =
      Ends-less n (c ∷ at) (read_word null_value (c ∷ at) (codes "null")) (omega arith)
        (read_word-Ends null_value (c ∷ at) (codes "null") (omega arith))
  value_of-Leaves n array object json_badtype c at h a o = tt

  at_type-Leaves :
      (n : ℕ) (array : Bytes → Result (JsonArray × Bytes))
      (object : Bytes → Result (JsonObject × Bytes)) (at : Bytes)
      → length at < suc n
      → ((rest : Bytes) → length rest < n → Leaves n (array rest) × Leaves n (object rest))
      → Leaves n (value_of strtod array object (type_at at) at)
  at_type-Leaves n array object [] l k = tt
  at_type-Leaves n array object (c ∷ at) l k =
      let (a, o) = k at (omega arith) in
      value_of-Leaves n array object (type_of_char c) c at (omega arith) a o

  -- One induction on the fuel: each call leaves less of the text, so that the fuel stays enough.
  mutual
    unfolding read_value

    pub read_value-Leaves :
        (fuel : ℕ) (text : Bytes)
        → 2 * length text < fuel
        → Leaves (length text) (read_value strtod fuel text)
    read_value-Leaves zero text h = absurd (omega arith)
    read_value-Leaves (suc fuel) text h =
        at_type-Leaves (length text) (read_array strtod fuel false)
          (read_object strtod fuel false no_members) (skip_whitespace text)
          (length-skip_whitespace text)
          λ rest l. (
            Ends-less (length text) rest _ (omega arith)
                (read_array-Leaves fuel false rest (omega arith)),
            Ends-less (length text) rest _ (omega arith)
                (read_object-Leaves fuel false no_members rest (omega arith)),
          )

    read_array-Leaves :
        (fuel : ℕ) (passed_comma : Bool) (text : Bytes)
        → suc (2 * length text) < fuel
        → Leaves (length text) (read_array strtod fuel passed_comma text)
    read_array-Leaves zero passed_comma text h = absurd (omega arith)
    read_array-Leaves (suc fuel) passed_comma text h = next_char-Ends _ text _ λ c more l.
        if-Ends _ (c == b']') _ _ (λ _. if-Ends _ passed_comma _ _ (λ _. tt) λ _. l)
          λ _.
            bind-Ends _ _ (read_value strtod fuel (c ∷ more)) _
              (read_value-Leaves fuel (c ∷ more) (omega arith))
              λ (read, rest) l₁. next_char-Ends _ rest _ λ d behind l₂.
                let left = length-comma (d == b',') d behind in
                bind-Ends _ _ (read_array strtod fuel (d == b',') _) _
                  (Ends-less (length text) _ _ (omega (arith, left))
                    (read_array-Leaves fuel (d == b',') _ (omega (arith, left))))
                  λ x l₃. l₃

    read_object-Leaves :
        (fuel : ℕ) (expect_pair : Bool) (object : JsonObject) (text : Bytes)
        → suc (2 * length text) < fuel
        → Leaves (length text) (read_object strtod fuel expect_pair object text)
    read_object-Leaves zero expect_pair object text h = absurd (omega arith)
    read_object-Leaves (suc fuel) expect_pair object text h =
        object_round-Leaves (length text) (read_value strtod fuel) (read_object strtod fuel)
          (λ rest l. read_value-Leaves fuel rest (omega arith))
          (λ comma members rest l. read_object-Leaves fuel comma members rest (omega arith))
          expect_pair object (type_at (skip_whitespace text)) (skip_whitespace text)
          (length-skip_whitespace text)

  -- Reading a value, as `json_parse` does it, comes to an end on any text: with a value and less of the
  -- text left, with a failure, or by reading the byte behind the text.
  pub json_parse_value-Ends :
      (text : Bytes)
      → Ends (λ (value, rest). length rest < length text) (json_parse_value strtod text)
  unfolding json_parse_value
  json_parse_value-Ends text = read_value-Leaves (2 * length text + 1) text (omega arith)
