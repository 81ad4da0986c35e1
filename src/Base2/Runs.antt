-- ===== src/Base2/Runs.antt =====
-- Runs of the code of src/base2/base2.c, and the theorems at concrete inputs.
use prog_dir.Base.{◌≡◌, refl, true, some, [], ◌∷◌, arith}
use prog_dir.Base2.{base2_encode, base2_decode}
use prog_dir.Base2.RoundTrip.{base2_decode-base2_encode}

encode_5 : base2_encode [] (5 ∷ []) ≡ b'1' ∷ b'0' ∷ b'1' ∷ b'0' ∷ b'0' ∷ b'0' ∷ b'0' ∷ b'0' ∷ []
unfolding base2_encode
encode_5 = refl

base2_decode-base2_encode_example :
    base2_decode (7 ∷ []) (base2_encode [] (5 ∷ 200 ∷ []))
    ≡ some (record { success = true; output = 7 ∷ 5 ∷ 200 ∷ [] })
base2_decode-base2_encode_example =
    base2_decode-base2_encode (5 ∷ 200 ∷ []) (7 ∷ []) (omega arith) (λ q. cc)
