-- ===== src/Metabase.antt =====
-- src/metabase: text with a first character that names its encoding. An id is the number of its
-- enumerator, and a name the bytes of its string.
pub mod RoundTrip
pub mod Mbti
mod Runs
use prog_dir.Base.{
  ℕ, ◌/◌, ◌%◌, bit_and, Bool, false, ◌||◌, Option, none, some, List, [], ◌∷◌, ◌++◌, ◌==◌,
  if◌then◌else◌, ◌>>=◌, Bytes, codes, switch, find_name,
}
use prog_dir.Base16.{base16_encode, base16_decode}
use prog_dir.Base2.{base2_encode, base2_decode}

-- What a decoder returns, and what the output buffer holds then.
abbrev pub Decoded : Type 0
Decoded = Bool × Bytes

abbrev pub metabase_identity : ℕ
metabase_identity = 0

abbrev pub metabase_base2 : ℕ
metabase_base2 = b'0'

abbrev pub metabase_base16 : ℕ
metabase_base16 = b'f'

abbrev pub metabase_base16upper : ℕ
metabase_base16upper = b'F'

abbrev pub metabase_mbti : ℕ
metabase_mbti = b'P'

-- The decoders read the first character of an empty range, which is outside of it: `none`.
unfoldable pub metabase_decode_base16 : Bytes → Bytes → Option Decoded
metabase_decode_base16 output [] = none
metabase_decode_base16 output (c ∷ text) =
    if c == metabase_base16 || c == metabase_base16upper
    then some ((base16_decode output text false).success, (base16_decode output text false).output)
    else some (false, output)

unfoldable pub metabase_encode_base16 : Bytes → Bytes → Bytes
metabase_encode_base16 output input = base16_encode (output ++ metabase_base16 ∷ []) input false

abbrev pub print_mbti_personality : Bytes → ℕ → Bytes
print_mbti_personality output input =
    output
    ++ (if bit_and input 1 == 0 then b'I' else b'E')
      ∷ (if bit_and input 2 == 0 then b'N' else b'S')
      ∷ (if bit_and input 4 == 0 then b'T' else b'F')
      ∷ (if bit_and input 8 == 0 then b'P' else b'J')
      ∷ []

abbrev pub mbti_loop : Bytes → Bytes → Bytes
mbti_loop output [] = output
mbti_loop output (c ∷ input) =
    mbti_loop (print_mbti_personality (print_mbti_personality output (c % 16)) (c / 16)) input

unfoldable pub metabase_encode_mbti : Bytes → Bytes → Bytes
metabase_encode_mbti output input = mbti_loop (output ++ metabase_mbti ∷ []) input

unfoldable pub metabase_encode_base2 : Bytes → Bytes → Bytes
metabase_encode_base2 output input = base2_encode (output ++ metabase_base2 ∷ []) input

unfoldable pub metabase_decode_base2 : Bytes → Bytes → Option Decoded
metabase_decode_base2 output [] = none
metabase_decode_base2 output (c ∷ text) =
    if c == metabase_base2
    then (do r ← base2_decode output text; some (r.success, r.output))
    else some (false, output)

-- The enumerators of `metabase_id` and their names.
abbrev pub metabase_names : List (ℕ × Bytes)
metabase_names =
    (0, codes "NIL")
    ∷ (b'0', codes "base2")
    ∷ (b'7', codes "base8")
    ∷ (b'9', codes "base10")
    ∷ (b'f', codes "base16")
    ∷ (b'F', codes "base16-upper")
    ∷ (b'v', codes "base32-hex")
    ∷ (b'V', codes "base32-hex-upper")
    ∷ (b't', codes "base32-hex-pad")
    ∷ (b'T', codes "base32-hex-pad-upper")
    ∷ (b'b', codes "base32")
    ∷ (b'B', codes "base32-upper")
    ∷ (b'c', codes "base32-pad")
    ∷ (b'C', codes "base32-pad-upper")
    ∷ (b'h', codes "base32-z")
    ∷ (b'Z', codes "base58-flickr")
    ∷ (b'z', codes "base58-btc")
    ∷ (b'm', codes "base64")
    ∷ (b'M', codes "base64-pad")
    ∷ (b'u', codes "base64-url")
    ∷ (b'U', codes "base64-url-pad")
    ∷ (b'P', codes "MBTI")
    ∷ []

unfoldable pub metabase_name : ℕ → Bytes
metabase_name id = switch id metabase_names (codes "invalid")

unfoldable pub metabase_decode : Bytes → Bytes → Option Decoded
unfolding metabase_decode_base16 metabase_decode_base2
metabase_decode output [] = none
metabase_decode output (c ∷ text) =
    if c == metabase_base16
    then metabase_decode_base16 output (c ∷ text)
    else if c == metabase_base2
    then metabase_decode_base2 output (c ∷ text)
    else some (false, output)

unfoldable pub metabase_identify_name : Bytes → ℕ
metabase_identify_name name =
    find_name name ((codes "base16", metabase_base16) ∷ (codes "base2", metabase_base2) ∷ [])
      metabase_identity

-- `metabase_encoder`: what it appends to the output for an input.
abbrev pub MetabaseEncoder : Type 0
MetabaseEncoder = Bytes → Bytes → Bytes

-- `none` is the null pointer.
unfoldable pub metabase_select_encoder : ℕ → Option MetabaseEncoder
metabase_select_encoder id =
    if id == metabase_base16
    then some metabase_encode_base16
    else if id == metabase_base2
    then some metabase_encode_base2
    else none
