-- ===== src/Json/Runs.antt =====
-- Runs of src/json/json.c on small texts, and instances of the theorems about it.
use prog_dir.Base.{
  ℕ, zero, suc, ◌-◌, ◌^◌, ◌<◌, ◌≡◌, refl, ap, ◌≢◌, true, false, none, some, [], ◌∷◌, ◌++◌, arith,
  ◌==◌, if◌then◌else◌, Bytes, length, replicate, length-replicate, All, codes,
}
use prog_dir.Base.Results.{Ends, ok, failed, overrun}
use prog_dir.Json.{
  JsonValue, null_value, number_value, string_value, array_value, object_value, no_items, item,
  no_members, member, skip_whitespace, type_of_char, read_string, skip_string,
}
use prog_dir.Json.Reader.{json_parse_value, read_value}
use prog_dir.Json.RoundTrip.{json_parse_value-print}
use prog_dir.Json.Total.{json_parse_value-Ends}
use prog_dir.Json.Strings.{read_string_lem}
use prog_dir.Json.Objects.{find_member, include_member, json_lookup}
use prog_dir.Json.Fetch.{json_get_number}
use prog_dir.Json.Printer.{ends_value, ReadsNumbers, print_value, CanPrint}

-- A number is written as one more 1 than its bits say.
unfoldable ones : Bytes → ℕ
ones [] = 0
ones (c ∷ text) = let rest = ones text in if c == b'1' then suc rest else 0

abbrev strtod : Bytes → ℕ × ℕ
strtod text = (ones text - 1, ones text)

abbrev print_number : ℕ → Bytes
print_number n = replicate (suc n) b'1'

ones-print_number :
    (n c : ℕ) (rest : Bytes) → ends_value c ≡ true → ones (replicate n b'1' ++ (c ∷ rest)) ≡ n
unfolding ones
ones-print_number zero c rest e = ground arith
ones-print_number (suc n) c rest e = ap suc (ones-print_number n c rest e)

-- The bits that are printed here.
abbrev Below : ℕ → Type 0
Below n = n < 2 ^ 64

numbers : ReadsNumbers strtod print_number Below
unfolding type_of_char
numbers = record {
  starts = λ n. refl;
  reads = λ n c rest h e.
      rw (ones-print_number (suc n) c rest e, length-replicate {A = ℕ} (suc n) b'1')
        (ap (λ m. (m, suc n)) {y = n} (omega arith));
}

abbrev sample : JsonValue
sample = object_value (
    member (codes "a") (array_value (item (number_value 2) (item null_value no_items)))
      (member (codes "b") (string_value (codes "x\"y")) no_members))

sample-CanPrint : CanPrint Below sample
unfolding CanPrint find_member include_member
sample-CanPrint = ground arith

json_parse_value-print_example :
    json_parse_value strtod (print_value print_number false sample (codes "\n"))
    ≡ ok (sample, codes "\n")
json_parse_value-print_example =
    json_parse_value-print strtod print_number false Below numbers sample 10 [] sample-CanPrint refl

json_parse_value-Ends_example :
    Ends (λ (value, rest). length rest < 5) (json_parse_value strtod (codes "[1, {"))
json_parse_value-Ends_example = json_parse_value-Ends strtod (codes "[1, {")

read_string_lem_example :
    Ends
      (λ (string, rest). All (λ d. d ≢ b'\\') string × (length rest < 6))
      (read_string (codes "\"a\\\\n\""))
read_string_lem_example = read_string_lem (codes "\"a\\\\n\"")

-- An array needs no commas, but its end must be in the text.
no_commas :
    json_parse_value strtod (codes "[1 11]")
    ≡ ok (array_value (item (number_value 0) (item (number_value 1) no_items)), [])
unfolding json_parse_value read_value skip_whitespace type_of_char ones
no_commas = refl

hanging_comma : json_parse_value strtod (codes "[1,]") ≡ failed
unfolding json_parse_value read_value skip_whitespace type_of_char ones
hanging_comma = refl

open_array : json_parse_value strtod (codes "[1") ≡ overrun
unfolding json_parse_value read_value skip_whitespace type_of_char ones
open_array = refl

-- A fixed word at the very end of the text is refused.
bare_word : json_parse_value strtod (codes "true") ≡ failed
unfolding json_parse_value read_value skip_whitespace type_of_char skip_string
bare_word = refl

-- A number that was included is fetched, and a member that is missing is a crash also when it is
-- optional.
fetched :
    json_get_number record {
      parent = include_member no_members (codes "a") (number_value 7);
      key = codes "a";
      optional = true;
      default_value = 3;
    }
    ≡ some (7, true)
unfolding json_get_number json_lookup find_member include_member
fetched = refl

missing :
    json_get_number record {
      parent = include_member no_members (codes "a") (number_value 7);
      key = codes "b";
      optional = true;
      default_value = 3;
    }
    ≡ none
unfolding json_get_number json_lookup find_member include_member
missing = refl
