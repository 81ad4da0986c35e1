-- ===== src/Base2/Accepts.antt =====
-- src/base2/base2.c, base2_decode: which strings it accepts, and on which it aborts.
use prog_dir.Base.{
  ℕ, ◌+◌, ◌%◌, ◌≡◌, refl, ◌≢◌, ◌↔◌, ◌⊎◌, inl, inr, Bool, true, false, ◌||◌, Option, none, some, [],
  ◌∷◌, arith, ◌==◌, if◌then◌else◌, Bool-cases, Bytes, length, All,
}
use native.Mathlib.Decide.{ℕ_discrete}
use prog_dir.Base2.{base2_decode_loop, Base2Decode, base2_decode}

abbrev pub IsBinary : ℕ → Type 0
IsBinary c = (c ≡ b'0') ⊎ (c ≡ b'1')

-- The call returned true.
abbrev pub Succeeds : Option Base2Decode → Type 0
Succeeds none = ⊥
Succeeds (some r) = r.success ≡ true

-- The index that the assertion behind the loop reads is 7 after a whole number of bytes.
abbrev Aligned : Bytes → ℕ → ℕ → Type 0
Aligned input p last = ((p + length input) % 8 ≡ 0) × ((last ≡ (p + 7) % 8) ⊎ (input ≢ []))

abbrev is_digit : ℕ → Bool
is_digit c = c == b'1' || c == b'0'

-- A round either refuses its character or goes on, with some buffer and byte.
loop_round :
    (c : ℕ) (input output : Bytes) (p last byte bit : ℕ)
    → (output' : Bytes) × (byte' : ℕ) × (bit' : ℕ) × (base2_decode_loop output
          (c ∷ input)
          p
          last
          byte
          bit
        ≡ (if is_digit c
            then base2_decode_loop output' input (p + 1) (p % 8) byte' bit'
            else some (record { success = false; output = output })))
unfolding base2_decode_loop
loop_round c input output p last byte bit = (_, _, _, refl)

loop_accepts :
    (input output : Bytes) (p last byte bit : ℕ)
    → Aligned input p last
    → All IsBinary input
    → Succeeds (base2_decode_loop output input p last byte bit)
loop_accepts [] output p last byte bit h bin = unfold base2_decode_loop in ground arith
loop_accepts (c ∷ input) output p last byte bit h (b, bin) =
    let (o, y, t, e) = loop_round c input output p last byte bit in
    let test : is_digit c ≡ true = ground arith in
    rw (e, test) (loop_accepts input o (p + 1) (p % 8) y t (omega arith, inl (omega arith)) bin)

loop_sound :
    (input output : Bytes) (p last byte bit : ℕ)
    → Succeeds (base2_decode_loop output input p last byte bit)
    → All IsBinary input
loop_sound [] output p last byte bit s = tt
loop_sound (c ∷ input) output p last byte bit s =
    let (o, y, t, e) = loop_round c input output p last byte bit in
    elim (Bool-cases (is_digit c)) [
      | inl d ↦ (ground arith, loop_sound input o (p + 1) (p % 8) y t (rw (e, d) at s))
      | inr d ↦ cc (rw (e, d) at s)
    ]

loop-ne-none :
    (input output : Bytes) (p last byte bit : ℕ)
    → Aligned input p last
    → base2_decode_loop output input p last byte bit ≢ none
loop-ne-none [] output p last byte bit h = unfold base2_decode_loop in ground arith
loop-ne-none (c ∷ input) output p last byte bit h =
    let (o, y, t, e) = loop_round c input output p last byte bit in
    let rest = loop-ne-none input o (p + 1) (p % 8) y t (omega arith, inl (omega arith)) in
    elim (Bool-cases (is_digit c)) [ inl d ↦ rw (e, d) rest | inr d ↦ rw (e, d) (λ q. cc) ]

decode_whole :
    (output input : Bytes)
    → length input % 8 ≡ 0
    → base2_decode output input ≡ base2_decode_loop output input 0 0 0 0
unfolding base2_decode
decode_whole output input h = ground arith

decode_part :
    (output input : Bytes)
    → length input % 8 ≢ 0
    → base2_decode output input ≡ some (record { success = false; output = output })
unfolding base2_decode
decode_part output input h = ground arith

-- `base2_decode` returns true exactly on the non-empty strings of the digits 0 and 1 whose length
-- is a multiple of 8.
pub base2_decode_accepts :
    (output input : Bytes)
    → Succeeds (base2_decode output input)
      ↔ ((input ≢ []) × (length input % 8 ≡ 0) × All IsBinary input)
base2_decode_accepts output [] =
    unfold base2_decode base2_decode_loop in (λ s. absurd s, λ h. absurd (h.0 refl))
base2_decode_accepts output (c ∷ input) = elim (ℕ_discrete (length (c ∷ input) % 8) 0) [
  | yes h ↦ (
    λ s. (
      λ q. cc,
      h,
      loop_sound (c ∷ input) output 0 0 0 0 (rw (decode_whole output (c ∷ input) h) at s),
    ),
    λ k.
        rw (decode_whole output (c ∷ input) h)
          (loop_accepts (c ∷ input) output 0 0 0 0 (omega arith, inr k.0) k.2),
  )
  | no h ↦ (λ s. cc (rw (decode_part output (c ∷ input) h) at s), λ k. absurd (h k.1))
]

-- The closing assertion of `base2_decode` aborts the program exactly on the empty string.
pub base2_decode_aborts : (output input : Bytes) → (base2_decode output input ≡ none) ↔ (input ≡ [])
base2_decode_aborts output [] = unfold base2_decode base2_decode_loop in (λ _. refl, λ _. refl)
base2_decode_aborts output (c ∷ input) = (λ e. absurd (survives e), λ q. cc)
  where
    survives : base2_decode output (c ∷ input) ≢ none
    survives = elim (ℕ_discrete (length (c ∷ input) % 8) 0) [
      | yes h ↦
          rw (decode_whole output (c ∷ input) h)
            (loop-ne-none (c ∷ input) output 0 0 0 0 (omega arith, inr (λ q. cc)))
      | no h ↦ rw (decode_part output (c ∷ input) h) (λ q. cc)
    ]
