-- ===== src/Json/Objects.antt =====
-- src/json/json.c: the members of an object, as the table of src/table/ gives them.
use prog_dir.Base.{
  ◌≡◌, refl, inl, inr, true, false, Option, none, some, if◌then◌else◌, Bool-cases, bytes_eq,
  bytes_eq_sound, Bytes,
}
use prog_dir.Json.{JsonValue, JsonObject, no_members, member}

-- `table_string_include` and the value set at the item it returns.
unfoldable pub include_member : JsonObject → Bytes → JsonValue → JsonObject
include_member no_members key value = member key value no_members
include_member (member k v rest) key value =
    let more = include_member rest key value in
    if bytes_eq k key then member k value rest else member k v more

-- The item of a key in its bucket
unfoldable pub find_member : JsonObject → Bytes → Option JsonValue
find_member no_members key = none
find_member (member k v rest) key =
    let more = find_member rest key in if bytes_eq k key then some v else more

-- `json_lookup`: the null pointer inside is a key that is not there. `none` is the remainder by 0 buckets,
-- which an object has that no member was included in.
unfoldable pub json_lookup : JsonObject → Bytes → Option (Option JsonValue)
json_lookup no_members key = none
json_lookup (member k v rest) key = some (find_member (member k v rest) key)

other_key :
    (k key other : Bytes)
    → bytes_eq k key ≡ false
    → bytes_eq k other ≡ true
    → bytes_eq key other ≡ false
other_key k key other h e = elim (Bool-cases (bytes_eq key other)) [
  | inl t ↦ cc (h, bytes_eq_sound key other t, e)
  | inr f ↦ f
]

-- A member that was set is found with the value that was set last, and any other key is found as
-- before.
pub find_member-include_member :
    (object : JsonObject) (key other : Bytes) (value : JsonValue)
    → find_member (include_member object key value) other
      ≡ (if bytes_eq key other then some value else find_member object other)
unfolding find_member include_member
find_member-include_member no_members key other value = refl
find_member-include_member (member k v rest) key other value = elim (Bool-cases (bytes_eq k key)) [
  | inl e ↦
      let same : k ≡ key = bytes_eq_sound k key e in
      rw (e, same) elim (Bool-cases (bytes_eq key other)) [ inl f ↦ rw f refl | inr f ↦ rw f refl ]
  | inr e ↦ rw e elim (Bool-cases (bytes_eq k other)) [
    | inl f ↦
        let apart : bytes_eq key other ≡ false = other_key k key other e f in rw (f, apart) refl
    | inr f ↦ rw (f, find_member-include_member rest key other value) refl
  ]
]
