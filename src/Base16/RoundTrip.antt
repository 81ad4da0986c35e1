-- ===== src/Base16/RoundTrip.antt =====
-- src/base16/base16.c: decoding what was encoded, and what decoding accepts.
use prog_dir.Base.{
  ℕ, ◌+◌, ◌-◌, ◌*◌, ◌/◌, ◌%◌, ◌≤◌, ◌<◌, ◌≡◌, refl, sym, ap, ◌∙◌, ◌↔◌, ◌⊎◌, inl, inr, Bool, true,
  false, some, [], ◌∷◌, ◌++◌, append-nil, append_assoc, arith, leb, if◌then◌else◌, Option-cases,
  Bytes, IsByte, length, length-append, All, All-append,
}
use prog_dir.Base16.{hex_digit, base16_encode, hex_value, hex_byte, base16_decode}

-- The digits that stand for one byte.
abbrev pair : Bool → ℕ → Bytes
pair little_endian c =
    if little_endian
    then hex_digit (c % 16) ∷ hex_digit (c / 16) ∷ []
    else hex_digit (c / 16) ∷ hex_digit (c % 16) ∷ []

hex_value-hex_digit : (r : ℕ) → r < 16 → hex_value (hex_digit r) ≡ some r
unfolding hex_value hex_digit
hex_value-hex_digit r h = ground arith

decode_pair :
    (little_endian : Bool) (c : ℕ) (output rest : Bytes)
    → c < 256
    → base16_decode output (pair little_endian c ++ rest) little_endian
      ≡ base16_decode (output ++ c ∷ []) rest little_endian
unfolding base16_decode hex_byte
decode_pair true c output rest h =
    ground (arith, hex_value-hex_digit (c % 16), hex_value-hex_digit (c / 16))
decode_pair false c output rest h =
    ground (arith, hex_value-hex_digit (c % 16), hex_value-hex_digit (c / 16))

pub base16_encode-append :
    (input output : Bytes) (little_endian : Bool)
    → base16_encode output input little_endian ≡ output ++ base16_encode [] input little_endian
unfolding base16_encode
base16_encode-append [] output e = sym (append-nil output)
base16_encode-append (c ∷ input) output e =
    base16_encode-append input (output ++ pair e c) e
    ∙ append_assoc output (pair e c) (base16_encode [] input e)
    ∙ ap (◌++◌ output) (sym (base16_encode-append input (pair e c) e))

encode-cons :
    (c : ℕ) (input : Bytes) (little_endian : Bool)
    → base16_encode [] (c ∷ input) little_endian
      ≡ pair little_endian c ++ base16_encode [] input little_endian
unfolding base16_encode
encode-cons c input e = base16_encode-append input (pair e c) e

-- In either byte order, decoding what `base16_encode` wrote succeeds and appends the input bytes.
pub base16_decode-base16_encode :
    (input output : Bytes) (little_endian : Bool)
    → All IsByte input
    → base16_decode output (base16_encode [] input little_endian) little_endian
      ≡ record { success = true; output = output ++ input }
base16_decode-base16_encode [] output e bytes =
    rw append-nil (unfold base16_encode base16_decode in refl)
base16_decode-base16_encode (c ∷ input) output e (h, bytes) = rw encode-cons (
    decode_pair e c output (base16_encode [] input e) h
    ∙ base16_decode-base16_encode input (output ++ c ∷ []) e bytes
    ∙ rw append_assoc)

-- What an accepted string may hold.
abbrev pub IsHex : ℕ → Type 0
IsHex c = ((b'0' ≤ c) × (c ≤ b'9')) ⊎ (((b'a' ≤ c) × (c ≤ b'f')) ⊎ ((b'A' ≤ c) × (c ≤ b'F')))

-- The value of a digit of either case.
abbrev hex_of : ℕ → ℕ
hex_of c = if leb c b'9' then c - b'0' else if leb c b'F' then c - b'A' + 10 else c - b'a' + 10

hex_value_accepts : (c : ℕ) → IsHex c → hex_value c ≡ some (hex_of c)
unfolding hex_value
hex_value_accepts c h = ground arith

hex_value_sound : (c x : ℕ) → hex_value c ≡ some x → IsHex c × (x < 16)
unfolding hex_value
hex_value_sound c x h = ground arith

decode_accepts :
    (input output : Bytes) (little_endian : Bool)
    → All IsHex input
    → (base16_decode output input little_endian).success ≡ true
unfolding base16_decode
decode_accepts [] output e h = refl
decode_accepts (a ∷ []) output e (ha, h) = ground (arith, hex_value_accepts a ha)
decode_accepts (a ∷ b ∷ input) output e (ha, (hb, h)) = ground (
  arith,
  hex_value_accepts a ha,
  hex_value_accepts b hb,
  decode_accepts input (output ++ hex_byte e (hex_of a) (hex_of b) ∷ []) e h,
)

decode_sound :
    (input output : Bytes) (little_endian : Bool)
    → (base16_decode output input little_endian).success ≡ true
    → All IsHex input
unfolding base16_decode
decode_sound [] output e h = tt
decode_sound (a ∷ []) output e h = elim (Option-cases (hex_value a)) [
  | inl p ↦ ground arith
  | inr (x, p) ↦ ((hex_value_sound a x p).0, tt)
]
decode_sound (a ∷ b ∷ input) output e h = elim (Option-cases (hex_value a)) [
  | inl p ↦ ground arith
  | inr (x, p) ↦ elim (Option-cases (hex_value b)) [
    | inl q ↦ ground arith
    | inr (y, q) ↦ (
      (hex_value_sound a x p).0,
      (
        (hex_value_sound b y q).0,
        decode_sound input (output ++ hex_byte e x y ∷ []) e (ground arith),
      ),
    )
  ]
]

-- `base16_decode` succeeds exactly on strings of hexadecimal digits of either case, of any length.
pub base16_decode_accepts :
    (output input : Bytes) (little_endian : Bool)
    → ((base16_decode output input little_endian).success ≡ true) ↔ All IsHex input
base16_decode_accepts output input e = (decode_sound input output e, decode_accepts input output e)

hex_digit-IsHex : (r : ℕ) → r < 16 → IsHex (hex_digit r)
unfolding hex_digit
hex_digit-IsHex r h = ground arith

pair-IsHex : (little_endian : Bool) (c : ℕ) → c < 256 → All IsHex (pair little_endian c)
pair-IsHex true c h =
    (hex_digit-IsHex (c % 16) (omega arith), (hex_digit-IsHex (c / 16) (omega arith), tt))
pair-IsHex false c h =
    (hex_digit-IsHex (c / 16) (omega arith), (hex_digit-IsHex (c % 16) (omega arith), tt))

-- `base16_encode` writes exactly two characters for each byte, all of them hexadecimal digits.
pub base16_encode_shape :
    (input : Bytes) (little_endian : Bool)
    → All IsByte input
    → All IsHex (base16_encode [] input little_endian)
      × (length (base16_encode [] input little_endian) ≡ 2 * length input)
base16_encode_shape [] e bytes = unfold base16_encode in (tt, omega arith)
base16_encode_shape (c ∷ input) e (h, bytes) =
    let (hex, l) = base16_encode_shape input e bytes in
    let two : length (pair e c) ≡ 2 = ground arith in
    rw encode-cons (
      All-append IsHex (pair e c) (base16_encode [] input e) (pair-IsHex e c h) hex,
      omega (arith, length-append (pair e c) (base16_encode [] input e)),
    )
