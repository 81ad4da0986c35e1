-- ===== src/Base16/Runs.antt =====
-- Runs of the code of src/base16/base16.c, and the theorems at concrete inputs.
use prog_dir.Base.{◌≡◌, refl, true, false, [], ◌∷◌, arith}
use prog_dir.Base16.{base16_encode, base16_decode}
use prog_dir.Base16.RoundTrip.{base16_decode-base16_encode}

encode_1f : base16_encode [] (0x1f ∷ []) false ≡ b'1' ∷ b'f' ∷ []
unfolding base16_encode
encode_1f = refl

-- An odd digit is the high half of a byte.
decode_odd : base16_decode [] (b'A' ∷ []) false ≡ record { success = true; output = 160 ∷ [] }
unfolding base16_decode
decode_odd = refl

base16_decode-base16_encode_example :
    base16_decode (7 ∷ []) (base16_encode [] (0x1f ∷ 0xa0 ∷ []) true) true
    ≡ record { success = true; output = 7 ∷ 0x1f ∷ 0xa0 ∷ [] }
base16_decode-base16_encode_example =
    base16_decode-base16_encode (0x1f ∷ 0xa0 ∷ []) (7 ∷ []) true (omega arith)
