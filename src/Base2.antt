-- ===== src/Base2.antt =====
-- src/base2/base2.c: eight binary digits a byte, lowest first.
-- A buffer is the list of its bytes. `char byte` and `char bit` are kept as bit patterns.
pub mod RoundTrip
pub mod Accepts
mod Runs
-- One round of `base2_encode`'s inner loop: the digit for `bit`.
use prog_dir.Base.{
  ℕ, zero, suc, ◌+◌, ◌*◌, ◌%◌, bit_and, bit_or, Bool, true, false, not, ◌||◌, Option, none, some,
  [], ◌∷◌, ◌++◌, ◌==◌, if◌then◌else◌, Bytes, length,
}

bit_char : ℕ → ℕ → ℕ
bit_char c bit = if bit_and c bit == 0 then b'0' else b'1'

-- `for (bit = 1; bit < 256; bit <<= 1)`, on the rounds that are left.
encode_bits : ℕ → ℕ → ℕ → Bytes → Bytes
unfolding bit_char
encode_bits zero c bit output = output
encode_bits (suc rounds) c bit output =
    encode_bits rounds c (bit * 2) (output ++ bit_char c bit ∷ [])

pub base2_encode : Bytes → Bytes → Bytes
unfolding encode_bits
base2_encode output [] = output
base2_encode output (c ∷ rest) = base2_encode (encode_bits 8 c 1 output) rest

-- What `base2_decode` returns, with what the output buffer holds then.
pub record Base2Decode : Type 0 where
  pub success : Bool
  pub output : Bytes

-- The `for_range` of `base2_decode`, at `position` in the input; `byte_index`, `byte` and `bit`
-- hold what the last round left. The assertion behind the loop aborts: that is `none`.
pub base2_decode_loop : Bytes → Bytes → ℕ → ℕ → ℕ → ℕ → Option Base2Decode
base2_decode_loop output [] position byte_index byte bit =
    if byte_index == 7 then some (record { success = true; output = output }) else none
base2_decode_loop output (c ∷ rest) position byte_index byte bit =
    let index = position % 8 in
    let byte₀ = if index == 0 then 0 else byte in
    let bit₀ = if index == 0 then 1 else bit in
    let byte₁ = if c == b'1' then bit_or byte₀ bit₀ % 256 else byte₀ in
    let next =
      base2_decode_loop (if index == 7 then output ++ byte₁ ∷ [] else output) rest (position + 1)
        index byte₁ (if index == 7 then bit₀ else bit₀ * 2 % 256) in
    if c == b'1' || c == b'0' then next else some (record { success = false; output = output })

pub base2_decode : Bytes → Bytes → Option Base2Decode
unfolding base2_decode_loop
base2_decode output input =
    if not (length input % 8 == 0)
    then some (record { success = false; output = output })
    else base2_decode_loop output input 0 0 0 0
