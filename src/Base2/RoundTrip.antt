-- ===== src/Base2/RoundTrip.antt =====
-- src/base2/base2.c: decoding what was encoded.
use prog_dir.Base.{
  ℕ, ◌+◌, ◌*◌, ◌%◌, ◌<◌, bit_or, ◌≡◌, refl, sym, ap, ◌∙◌, ◌≢◌, ◌⊎◌, inl, inr, true, some, [], ◌∷◌,
  ◌++◌, append-nil, append_assoc, arith, ◌==◌, if◌then◌else◌, Bytes, IsByte, length, length-append,
  All,
}
use prog_dir.Base.Bits.{same_below, same_below_sound}
use prog_dir.Base2.{bit_char, encode_bits, base2_decode_loop, base2_encode, base2_decode}

-- The eight digits of one byte.
abbrev digits : ℕ → Bytes
digits c =
    bit_char c 1
    ∷ bit_char c 2
    ∷ bit_char c 4
    ∷ bit_char c 8
    ∷ bit_char c 16
    ∷ bit_char c 32
    ∷ bit_char c 64
    ∷ bit_char c 128
    ∷ []

encode_bits-digits : (c : ℕ) (output : Bytes) → encode_bits 8 c 1 output ≡ output ++ digits c
unfolding encode_bits bit_char
encode_bits-digits c output = simp append_assoc

-- What one digit makes of the byte so far.
abbrev add_digit : ℕ → ℕ → ℕ → ℕ
add_digit d bit byte = if d == b'1' then bit_or byte bit % 256 else byte

abbrev read_digits : ℕ → ℕ
read_digits c = add_digit (bit_char c 128) 128 (
    add_digit (bit_char c 64) 64 (
      add_digit (bit_char c 32) 32 (
        add_digit (bit_char c 16) 16 (
          add_digit (bit_char c 8) 8 (
            add_digit (bit_char c 4) 4
              (add_digit (bit_char c 2) 2 (add_digit (bit_char c 1) 1 0)))))))

read_digits_lem : (c : ℕ) → c < 256 → read_digits c ≡ c
unfolding same_below bit_char
read_digits_lem = same_below_sound _ _ 256 refl

-- One round of the loop, on the digit at `i` of a byte.
module _ (c last : ℕ) (output rest : Bytes) where
  first_digit :
      (p bit₀ byte bit : ℕ)
      → p % 8 ≡ 0
      → base2_decode_loop output (bit_char c bit₀ ∷ rest) p last byte bit
        ≡ base2_decode_loop output rest (p + 1) 0 (add_digit (bit_char c bit₀) 1 0) 2
  unfolding base2_decode_loop bit_char
  first_digit p bit₀ byte bit h = ground arith

  inner_digit :
      (p i bit₀ byte bit : ℕ)
      → (p % 8 ≡ i) × (0 < i) × (i < 7) × (bit < 128)
      → base2_decode_loop output (bit_char c bit₀ ∷ rest) p last byte bit
        ≡ base2_decode_loop output rest (p + 1) i (add_digit (bit_char c bit₀) bit byte) (bit * 2)
  unfolding base2_decode_loop bit_char
  inner_digit p i bit₀ byte bit h = ground arith

  last_digit :
      (p bit₀ byte bit : ℕ)
      → p % 8 ≡ 7
      → base2_decode_loop output (bit_char c bit₀ ∷ rest) p last byte bit
        ≡ base2_decode_loop
            (output ++ add_digit (bit_char c bit₀) bit byte ∷ [])
            rest
            (p + 1)
            7
            (add_digit (bit_char c bit₀) bit byte)
            bit
  unfolding base2_decode_loop bit_char
  last_digit p bit₀ byte bit h = ground arith

-- The loop on the digits of one byte, from a position that is a multiple of 8.
decode_digits :
    (c p last byte bit : ℕ) (output rest : Bytes)
    → c < 256
    → p % 8 ≡ 0
    → base2_decode_loop output (digits c ++ rest) p last byte bit
      ≡ base2_decode_loop (output ++ c ∷ []) rest (p + 8) 7 c 128
decode_digits c p last byte bit output rest h aligned =
    first_digit c last output _ p 1 byte bit aligned
    ∙ inner_digit c 0 output _ (p + 1) 1 2 _ 2 (omega arith)
    ∙ inner_digit c 1 output _ (p + 1 + 1) 2 4 _ 4 (omega arith)
    ∙ inner_digit c 2 output _ (p + 1 + 1 + 1) 3 8 _ 8 (omega arith)
    ∙ inner_digit c 3 output _ (p + 1 + 1 + 1 + 1) 4 16 _ 16 (omega arith)
    ∙ inner_digit c 4 output _ (p + 1 + 1 + 1 + 1 + 1) 5 32 _ 32 (omega arith)
    ∙ inner_digit c 5 output _ (p + 1 + 1 + 1 + 1 + 1 + 1) 6 64 _ 64 (omega arith)
    ∙ last_digit c 6 output _ (p + 1 + 1 + 1 + 1 + 1 + 1 + 1) 128 _ 128 (omega arith)
    ∙ rw (read_digits_lem c h, position) refl
  where
    position : p + 1 + 1 + 1 + 1 + 1 + 1 + 1 + 1 ≡ p + 8
    position = omega arith

pub base2_encode-append :
    (input output : Bytes) → base2_encode output input ≡ output ++ base2_encode [] input
unfolding base2_encode
base2_encode-append [] output = sym (append-nil output)
base2_encode-append (c ∷ input) output = rw encode_bits-digits (
    base2_encode-append input (output ++ digits c)
    ∙ append_assoc output (digits c) (base2_encode [] input)
    ∙ ap (◌++◌ output) (sym (base2_encode-append input (digits c))))

encode-cons :
    (c : ℕ) (input : Bytes) → base2_encode [] (c ∷ input) ≡ digits c ++ base2_encode [] input
unfolding base2_encode
encode-cons c input = rw encode_bits-digits (base2_encode-append input (digits c))

decode_loop-encode :
    (input output : Bytes) (p last byte bit : ℕ)
    → All IsByte input
    → p % 8 ≡ 0
    → last ≡ 7 ⊎ (input ≢ [])
    → base2_decode_loop output (base2_encode [] input) p last byte bit
      ≡ some (record { success = true; output = output ++ input })
decode_loop-encode [] output p last byte bit bytes aligned ok =
    rw append-nil (unfold base2_encode base2_decode_loop in ground arith)
decode_loop-encode (c ∷ input) output p last byte bit (h, bytes) aligned ok = rw encode-cons (
    decode_digits c p last byte bit output (base2_encode [] input) h aligned
    ∙ decode_loop-encode input (output ++ c ∷ []) (p + 8) 7 c 128 bytes (omega arith) (inl refl)
    ∙ rw append_assoc)

length-encode : (input : Bytes) → length (base2_encode [] input) ≡ 8 * length input
length-encode [] = unfold base2_encode in omega arith
length-encode (c ∷ input) =
    rw encode-cons
      (omega (arith, length-append (digits c) (base2_encode [] input), length-encode input))

-- Decoding the digits of any non-empty sequence of bytes succeeds and appends these bytes.
pub base2_decode-base2_encode :
    (input output : Bytes)
    → All IsByte input
    → input ≢ []
    → base2_decode output (base2_encode [] input)
      ≡ some (record { success = true; output = output ++ input })
unfolding base2_decode
base2_decode-base2_encode input output bytes ne =
    let aligned : length (base2_encode [] input) % 8 ≡ 0 = omega (arith, length-encode input) in
    rw aligned (decode_loop-encode input output 0 0 0 0 bytes (omega arith) (inr ne))
