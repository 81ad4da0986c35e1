-- ===== src/Json/Fetch.antt =====
-- src/json/json.c: the functions that fetch a member of a known type. `none` is a null pointer that is
-- dereferenced, or the remainder by 0 buckets; the flag is false when `*arg.success` is set to false.
use prog_dir.Base.{ℕ, Bool, true, false, Option, none, some, if◌then◌else◌, ◌>>=◌, Bytes}
use prog_dir.Json.{
  JsonValue, null_value, number_value, string_value, array_value, object_value, JsonArray,
  JsonObject,
}
use prog_dir.Json.Objects.{json_lookup}

pub record JsonGetNumberArg : Type 0 where
  pub parent : JsonObject
  pub key : Bytes
  pub optional : Bool
  pub default_value : ℕ

pub record JsonGetStringArg : Type 0 where
  pub parent : JsonObject
  pub key : Bytes
  pub optional : Bool
  pub default_value : Option Bytes

pub record JsonGetObjectArg : Type 0 where
  pub parent : JsonObject
  pub key : Bytes
  pub optional : Bool

-- What follows the lookup in `_json_get_number`.
abbrev pub number_of : JsonGetNumberArg → JsonValue → ℕ × Bool
number_of arg null_value = if arg.optional then (arg.default_value, true) else (0, false)
number_of arg (number_value n) = (n, true)
number_of arg _ = (0, false)

unfoldable pub json_get_number : JsonGetNumberArg → Option (ℕ × Bool)
json_get_number arg =
    json_lookup arg.parent arg.key >>= λ found. found >>= λ value. some (number_of arg value)

-- The default of an optional string only counts when it is not the null pointer.
abbrev pub string_of : JsonGetStringArg → JsonValue → Option Bytes × Bool
string_of arg null_value =
    if arg.optional
    then elim arg.default_value [ none ↦ (none, false) | some s ↦ (some s, true) ]
    else (none, false)
string_of arg (string_value s) = (some s, true)
string_of arg _ = (none, false)

unfoldable pub json_get_string : JsonGetStringArg → Option (Option Bytes × Bool)
json_get_string arg =
    json_lookup arg.parent arg.key >>= λ found. found >>= λ value. some (string_of arg value)

abbrev pub array_of : JsonValue → Option JsonArray
array_of (array_value items) = some items
array_of _ = none

unfoldable pub json_get_array : JsonObject → Bytes → Option (Option JsonArray)
json_get_array parent key =
    json_lookup parent key >>= λ found. found >>= λ value. some (array_of value)

abbrev pub object_of : JsonValue → Option JsonObject
object_of (object_value object) = some object
object_of _ = none

-- `optional` only decides about a message.
unfoldable pub json_get_object : JsonGetObjectArg → Option (Option JsonObject)
json_get_object arg =
    json_lookup arg.parent arg.key >>= λ found. found >>= λ value. some (object_of value)
