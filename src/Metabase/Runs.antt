-- ===== src/Metabase/Runs.antt =====
-- Runs of the encoders, the decoder and the names of src/metabase.
use prog_dir.Base.{◌≡◌, refl, true, some, [], ◌∷◌, arith, Bytes, IsByte, All, codes}
use prog_dir.Metabase.{
  metabase_decode, metabase_base16, metabase_encode_base16, metabase_encode_mbti,
  metabase_select_encoder,
}
use prog_dir.Metabase.RoundTrip.{metabase_decode-metabase_select_encoder}
use prog_dir.Base16.{base16_encode}

abbrev two_bytes : Bytes
two_bytes = 5 ∷ 255 ∷ []

two_bytes-IsByte : All IsByte two_bytes
two_bytes-IsByte = (omega arith, (omega arith, tt))

encode_run : metabase_encode_base16 [] two_bytes ≡ codes "f05ff"
unfolding metabase_encode_base16 base16_encode
encode_run = refl

mbti_run : metabase_encode_mbti [] (5 ∷ []) ≡ codes "PENFPINTP"
unfolding metabase_encode_mbti
mbti_run = refl

selects_base16 : metabase_select_encoder metabase_base16 ≡ some metabase_encode_base16
unfolding metabase_select_encoder
selects_base16 = refl

metabase_decode-metabase_select_encoder_example :
    metabase_decode [] (metabase_encode_base16 [] two_bytes) ≡ some (true, two_bytes)
metabase_decode-metabase_select_encoder_example =
    metabase_decode-metabase_select_encoder metabase_base16 metabase_encode_base16 [] two_bytes
      selects_base16 two_bytes-IsByte (λ e. cc)
