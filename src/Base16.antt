-- ===== src/Base16.antt =====
-- src/base16/base16.c: two hexadecimal digits a byte.
-- A buffer is the list of its bytes. `tolower` is the C locale's, on ASCII.
pub mod RoundTrip
mod Runs
use prog_dir.Base.{
  ℕ, ◌+◌, ◌-◌, ◌*◌, ◌/◌, ◌%◌, Bool, true, false, ◌&&◌, Option, none, some, [], ◌∷◌, ◌++◌, leb,
  if◌then◌else◌, ◌>>=◌, Bytes,
}

-- The inner loop of `base16_encode`.
unfoldable pub hex_digit : ℕ → ℕ
hex_digit r = if leb r 9 then r + b'0' else r + (b'a' - 10)

-- `result[!little_endian]`, then `result[little_endian]`; `result[0]` is the low digit.
unfoldable pub base16_encode : Bytes → Bytes → Bool → Bytes
unfolding hex_digit
base16_encode output [] little_endian = output
base16_encode output (c ∷ rest) little_endian =
    let low = hex_digit (c % 16) in
    let high = hex_digit (c / 16) in
    base16_encode (output ++ (if little_endian then low ∷ high ∷ [] else high ∷ low ∷ [])) rest
      little_endian

pub tolower : ℕ → ℕ
tolower c = if leb b'A' c && leb c b'Z' then c + 32 else c

-- One character of the inner loop of `base16_decode`; `none` is the jump to `fail`.
hex_value : ℕ → Option ℕ
unfolding tolower
hex_value c =
    if leb b'0' c && leb c b'9'
    then some (c - b'0')
    else if leb b'a' (tolower c) && leb (tolower c) b'f'
    then some (10 + (tolower c - b'a'))
    else none

-- `inchar_result[!little_endian] + inchar_result[little_endian] * 16`, stored in a byte.
hex_byte : Bool → ℕ → ℕ → ℕ
hex_byte little_endian first second =
    (if little_endian then first + second * 16 else second + first * 16) % 256

-- What `base16_decode` returns, with what the output buffer holds then.
pub record Base16Decode : Type 0 where
  pub success : Bool
  pub output : Bytes

-- A character past the end counts as 0.
pub base16_decode : Bytes → Bytes → Bool → Base16Decode
unfolding hex_value hex_byte
base16_decode output [] little_endian = record { success = true; output = output }
base16_decode output (a ∷ []) little_endian = elim (hex_value a) [
  | none ↦ record { success = false; output = output }
  | some x ↦ record { success = true; output = output ++ hex_byte little_endian x 0 ∷ [] }
]
base16_decode output (a ∷ b ∷ rest) little_endian =
    elim (do x ← hex_value a; y ← hex_value b; some (hex_byte little_endian x y)) [
      | none ↦ record { success = false; output = output }
      | some byte ↦ base16_decode (output ++ byte ∷ []) rest little_endian
    ]
