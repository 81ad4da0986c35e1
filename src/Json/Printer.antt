-- ===== src/Json/Printer.antt =====
-- src/json/json.c: a text for each value, and the values that have one.
use prog_dir.Base.{
  ℕ, ◌≡◌, ◌≢◌, Bool, true, false, ◌||◌, none, [], ◌∷◌, ◌++◌, ◌==◌, if◌then◌else◌, Bytes, length,
  All, codes,
}
use prog_dir.Paren.{isspace}
use prog_dir.Json.{
  JsonValue, json_number, null_value, true_value, false_value, number_value, string_value,
  array_value, object_value, JsonArray, no_items, item, JsonObject, no_members, member,
  type_of_char,
}
use prog_dir.Json.Strings.{print_string}
use prog_dir.Json.Objects.{find_member, include_member}

-- What stands behind a number: a space, a comma or a closing bracket.
abbrev pub ends_value : ℕ → Bool
ends_value c = isspace c || (c == b',' || (c == b']' || c == b'}'))

abbrev pub StartsNumber : Bytes → Type 0
StartsNumber [] = ⊥
StartsNumber (c ∷ _) = type_of_char c ≡ json_number

-- `strtod` reads what `print_number` has written for the bits of a number, up to the character that ends
-- it.
pub record ReadsNumbers (strtod : Bytes → ℕ × ℕ) (print_number : ℕ → Bytes) (IsNumber : ℕ → Type 0)
    : Type 0 where
  pub starts : (n : ℕ) → StartsNumber (print_number n)
  pub reads :
      (n c : ℕ) (rest : Bytes)
      → IsNumber n
      → ends_value c ≡ true
      → strtod (print_number n ++ (c ∷ rest)) ≡ (n, length (print_number n))

abbrev pub is_last : JsonArray → Bool
is_last no_items = true
is_last (item v others) = false

abbrev pub is_last_member : JsonObject → Bool
is_last_member no_members = true
is_last_member (member k v others) = false

-- What is between two items: a comma, or only a space.
abbrev pub separate : Bool → Bool → Bytes → Bytes
separate comma true text = text
separate comma false text = (if comma then b',' else 32) ∷ text

-- The text of a value in front of another text.
module _ (print_number : ℕ → Bytes) (comma : Bool) where
  unfoldable mutual
    pub print_value : JsonValue → Bytes → Bytes
    print_value null_value rest = codes "null" ++ rest
    print_value true_value rest = codes "true" ++ rest
    print_value false_value rest = codes "false" ++ rest
    print_value (number_value n) rest = print_number n ++ rest
    print_value (string_value s) rest = b'"' ∷ (print_string s ++ (b'"' ∷ rest))
    print_value (array_value others) rest = b'[' ∷ print_items others rest
    print_value (object_value others) rest = b'{' ∷ print_members others rest

    pub print_items : JsonArray → Bytes → Bytes
    print_items no_items rest = b']' ∷ rest
    print_items (item v others) rest =
        print_value v (separate comma (is_last others) (print_items others rest))

    pub print_members : JsonObject → Bytes → Bytes
    print_members no_members rest = b'}' ∷ rest
    print_members (member k v others) rest =
        b'"'
        ∷ (print_string k
            ++ (b'"'
                ∷ (b':'
                    ∷ print_value v
                        (separate comma (is_last_member others) (print_members others rest)))))

abbrev pub CanPrintString : Bytes → Type 0
CanPrintString s = All (λ c. (c ≢ b'\\') × (c ≢ 0)) s

-- No key of the members comes twice, or is a key of the object.
abbrev pub Distinct : JsonObject → JsonObject → Type 0
Distinct object no_members = Unit
Distinct object (member k v others) =
    (find_member object k ≡ none) × Distinct (include_member object k v) others

-- The values that a text can stand for, when `IsNumber` says for which bits there is a text.
module _ (IsNumber : ℕ → Type 0) where
  unfoldable mutual
    pub CanPrint : JsonValue → Type 0
    CanPrint (number_value n) = IsNumber n
    CanPrint (string_value s) = CanPrintString s
    CanPrint (array_value others) = CanPrintItems others
    CanPrint (object_value others) = Distinct no_members others × CanPrintMembers others
    CanPrint _ = Unit

    pub CanPrintItems : JsonArray → Type 0
    CanPrintItems no_items = Unit
    CanPrintItems (item v others) = CanPrint v × CanPrintItems others

    pub CanPrintMembers : JsonObject → Type 0
    CanPrintMembers no_members = Unit
    CanPrintMembers (member k v others) = CanPrintString k × CanPrint v × CanPrintMembers others
