-- ===== src/Json/Separators.antt =====
-- src/json/json.c: members included one after another, and what stands between printed items.
use prog_dir.Base.{
  ℕ, ◌≡◌, refl, sym, ap, ◌∙◌, inl, inr, Bool, true, false, not, ◌&&◌, none, some, [], ◌∷◌, arith,
  ◌==◌, if◌then◌else◌, Bool-cases, bytes_eq, Bytes,
}
use prog_dir.Paren.{isspace}
use prog_dir.Json.{
  JsonValue, json_number, JsonObject, no_members, member, skip_whitespace, type_of_char,
}
use prog_dir.Json.Objects.{find_member, include_member}
use prog_dir.Json.Reader.{next_char}
use prog_dir.Json.Printer.{separate, Distinct}
use prog_dir.Base.Results.{Result}

abbrev append_members : JsonObject → JsonObject → JsonObject
append_members no_members more = more
append_members (member k v others) more = member k v (append_members others more)

abbrev pub include_members : JsonObject → JsonObject → JsonObject
include_members object no_members = object
include_members object (member k v others) = include_members (include_member object k v) others

include_member-append :
    (object : JsonObject) (key : Bytes) (value : JsonValue) (more : JsonObject)
    → find_member object key ≡ none
    → append_members (include_member object key value) more
      ≡ append_members object (member key value more)
unfolding include_member find_member
include_member-append no_members key value more h = refl
include_member-append (member k v rest) key value more h = elim (Bool-cases (bytes_eq k key)) [
  | inl e ↦ let bad : some v ≡ none = rw e at h in cc
  | inr e ↦ rw e (ap (member k v) (include_member-append rest key value more (rw e at h)))
]

append_members-nil : (others : JsonObject) → append_members others no_members ≡ others
append_members-nil no_members = refl
append_members-nil (member k v others) = ap (member k v) (append_members-nil others)

pub include_members-append :
    (object others : JsonObject)
    → Distinct object others
    → include_members object others ≡ append_members object others
include_members-append object no_members d = sym (append_members-nil object)
include_members-append object (member k v others) (h, d) =
    include_members-append (include_member object k v) others d
    ∙ include_member-append object k v others h

-- What starts a value or a key is no space, no comma and no closing bracket.
abbrev pub Starts : Bytes → Type 0
Starts [] = ⊥
Starts (c ∷ _) = (isspace c ≡ false) × ((c == b',') ≡ false)

pub skip_whitespace-Starts : (text : Bytes) → Starts text → skip_whitespace text ≡ text
unfolding skip_whitespace
skip_whitespace-Starts [] h = refl
skip_whitespace-Starts (c ∷ text) (h, _) = rw h refl

-- The character between two items is passed, and only a comma counts as one.
pub next_char-separate {ℓ} :
    {A : Type ℓ} (comma last : Bool) (text : Bytes) (f : Bool → Bytes → Result A)
    → Starts text
    → next_char
        (separate comma last text)
        (λ d behind. f (d == b',') (if d == b',' then behind else d ∷ behind))
      ≡ f (not last && comma) text
unfolding skip_whitespace
next_char-separate comma last [] f h = absurd h
next_char-separate comma true (c ∷ text) f (s, n) = rw (next_char, separate, s, n) refl
next_char-separate true false (c ∷ text) f (s, n) = refl
next_char-separate false false (c ∷ text) f (s, n) = rw (next_char, separate, s, n) refl

pub number_char :
    (c : ℕ)
    → type_of_char c ≡ json_number
    → (isspace c ≡ false) × ((c == b',') ≡ false) × ((c == b']') ≡ false)
unfolding type_of_char
number_char c h = ground arith
