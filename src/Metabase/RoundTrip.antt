-- ===== src/Metabase/RoundTrip.antt =====
-- src/metabase/metabase.c: names, encoders and the decoder fit each other.
use prog_dir.Base.{
  ℕ, ◌%◌, ◌≡◌, refl, sym, ap, ◌∙◌, ◌≢◌, ◌↔◌, ◌⊎◌, inl, inr, true, false, Option, none, some, [],
  ◌∷◌, ◌++◌, arith, ◌==◌, Bool-cases, eq_of_test, ne_of_test, ◌>>=◌, bytes_eq, bytes_eq_refl,
  bytes_eq_sound, Bytes, IsByte, length, All, codes,
}
use prog_dir.Base16.RoundTrip.{
  base16_encode-append, base16_decode-base16_encode, IsHex, base16_decode_accepts,
}
use prog_dir.Metabase.{
  metabase_decode, metabase_identity, metabase_base2, metabase_base16, metabase_encode_base16,
  metabase_encode_base2, metabase_name, metabase_identify_name, MetabaseEncoder,
  metabase_select_encoder, Decoded,
}
use prog_dir.Base2.RoundTrip.{base2_encode-append, base2_decode-base2_encode}
use prog_dir.Base2.Accepts.{IsBinary, Succeeds, base2_decode_accepts}
use prog_dir.Base2.{Base2Decode, base2_decode}

decode-encode_base16 :
    (output input : Bytes)
    → All IsByte input
    → metabase_decode output (metabase_encode_base16 [] input) ≡ some (true, output ++ input)
unfolding metabase_decode metabase_encode_base16
decode-encode_base16 output input bytes =
    rw
      (
        base16_encode-append input (metabase_base16 ∷ []) false,
        base16_decode-base16_encode input output false bytes,
      )
      refl

decode-encode_base2 :
    (output input : Bytes)
    → All IsByte input
    → input ≢ []
    → metabase_decode output (metabase_encode_base2 [] input) ≡ some (true, output ++ input)
unfolding metabase_decode metabase_encode_base2
decode-encode_base2 output input bytes ne =
    rw
      (
        base2_encode-append input (metabase_base2 ∷ []),
        base2_decode-base2_encode input output bytes ne,
      )
      refl

-- What the selected encoder writes, and nothing without one.
abbrev run : Option MetabaseEncoder → Bytes → Bytes
run none input = []
run (some encoder) input = encoder [] input

decode-run :
    (id : ℕ) (output input : Bytes)
    → metabase_select_encoder id ≢ none
    → All IsByte input
    → input ≢ []
    → metabase_decode output (run (metabase_select_encoder id) input) ≡ some (true, output ++ input)
unfolding metabase_select_encoder
decode-run id output input selects bytes ne = elim (Bool-cases (id == metabase_base16)) [
  | inl f ↦ rw (f) (decode-encode_base16 output input bytes)
  | inr f ↦ elim (Bool-cases (id == metabase_base2)) [
    | inl g ↦ rw (f, g) (decode-encode_base2 output input bytes ne)
    | inr g ↦ absurd (selects (rw (f, g) refl))
  ]
]

-- Whatever encoder is selected, `metabase_decode` reads back what it writes of one byte or more, and
-- appends these bytes.
pub metabase_decode-metabase_select_encoder :
    (id : ℕ) (encoder : MetabaseEncoder) (output input : Bytes)
    → metabase_select_encoder id ≡ some encoder
    → All IsByte input
    → input ≢ []
    → metabase_decode output (encoder [] input) ≡ some (true, output ++ input)
metabase_decode-metabase_select_encoder id encoder output input e bytes ne =
    ap (λ o. metabase_decode output (run o input)) (sym e)
    ∙ decode-run id output input (λ n. cc) bytes ne

differs : (known name : Bytes) → bytes_eq known name ≡ false → name ≢ known
differs known name e = λ q. cc (e, q, bytes_eq_refl known)

-- The decoder returned true.
abbrev pub IsDecoded : Option Decoded → Type 0
IsDecoded none = ⊥
IsDecoded (some r) = r.0 ≡ true

-- A name that `metabase_identify_name` knows is the one that `metabase_name` gives for the id, and
-- an encoder can be selected by the id; for any name but
-- "base16" and "base2" the id is the one that selects none.
pub metabase_identify_name_lem :
    (name : Bytes)
    → ((metabase_name (metabase_identify_name name) ≡ name)
        × (metabase_select_encoder (metabase_identify_name name) ≢ none))
      ⊎ ((metabase_identify_name name ≡ metabase_identity)
          × (name ≢ codes "base16")
          × (name ≢ codes "base2")
          × (metabase_select_encoder metabase_identity ≡ none))
unfolding metabase_identify_name metabase_name metabase_select_encoder
metabase_identify_name_lem name = elim (Bool-cases (bytes_eq (codes "base16") name)) [
  | inl e ↦ rw (e) (inl (bytes_eq_sound (codes "base16") name e, λ n. cc))
  | inr e ↦ elim (Bool-cases (bytes_eq (codes "base2") name)) [
    | inl f ↦ rw (e, f) (inl (bytes_eq_sound (codes "base2") name f, λ n. cc))
    | inr f ↦
        rw (e, f)
          (inr (refl, differs (codes "base16") name e, differs (codes "base2") name f, refl))
  ]
]

IsDecoded-base2_decode :
    (r : Option Base2Decode) → IsDecoded (do d ← r; some (d.success, d.output)) ↔ Succeeds r
IsDecoded-base2_decode none = (λ h. h, λ h. h)
IsDecoded-base2_decode (some d) = (λ h. h, λ h. h)

-- `metabase_decode` returns true exactly on `f` before hexadecimal digits and `0` before binary ones,
-- one byte or more of them.
pub metabase_decode_accepts :
    (output text : Bytes) (c : ℕ)
    → IsDecoded (metabase_decode output (c ∷ text)) ↔ (
        ((c ≡ metabase_base16) × All IsHex text)
        ⊎ ((c ≡ metabase_base2) × (text ≢ []) × (length text % 8 ≡ 0) × All IsBinary text))
unfolding metabase_decode
metabase_decode_accepts output text c = elim (Bool-cases (c == metabase_base16)) [
  | inl e ↦
      let hex = base16_decode_accepts output text false in
      let is_f = eq_of_test c metabase_base16 e in
      rw (e) (
        λ s. inl (is_f, hex.0 s),
        λ h. elim h [ inl (_, digits) ↦ hex.1 digits | inr (is_0, _, _, _) ↦ absurd (omega arith) ],
      )
  | inr e ↦ elim (Bool-cases (c == metabase_base2)) [
    | inl f ↦
        let binary = base2_decode_accepts output text in
        let r = IsDecoded-base2_decode (base2_decode output text) in
        rw (e, f)
          (
            λ s.
                let (ne, aligned, digits) = binary.0 (r.0 s) in
                inr (eq_of_test c metabase_base2 f, ne, aligned, digits),
            λ h. elim h [
              | inl (is_f, _) ↦ absurd (ne_of_test c metabase_base16 e is_f)
              | inr (_, ne, aligned, digits) ↦ r.1 (binary.1 (ne, aligned, digits))
            ],
          )
    | inr f ↦
        rw (e, f)
          (
            λ s. cc,
            λ h. elim h [
              | inl (is_f, _) ↦ absurd (ne_of_test c metabase_base16 e is_f)
              | inr (is_0, _, _, _) ↦ absurd (ne_of_test c metabase_base2 f is_0)
            ],
          )
  ]
]
