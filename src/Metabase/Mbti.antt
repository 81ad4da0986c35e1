-- ===== src/Metabase/Mbti.antt =====
-- src/metabase/metabase.c, metabase_encode_mbti: no two inputs have the same text.
use prog_dir.Base.{
  ℕ, ◌+◌, ◌*◌, ◌/◌, ◌%◌, ◌<◌, ◌≡◌, refl, sym, ap, ◌∙◌, [], ◌∷◌, ◌++◌, append-nil, append_assoc,
  arith, ◌==◌, if◌then◌else◌, Bytes, IsByte, drop, All,
}
use prog_dir.Base.Bits.{same_below_sound, same_below}
use prog_dir.Metabase.{print_mbti_personality, metabase_mbti, mbti_loop, metabase_encode_mbti}

-- The four letters of a personality, read back.
abbrev letters_value : ℕ → ℕ → ℕ → ℕ → ℕ
letters_value e s f j =
    (if e == b'E' then 1 else 0)
    + (if s == b'S' then 2 else 0)
    + (if f == b'F' then 4 else 0)
    + (if j == b'J' then 8 else 0)

abbrev letters : ℕ → Bytes
letters n = print_mbti_personality [] n

abbrev value_of_letters : Bytes → ℕ
value_of_letters (e ∷ s ∷ f ∷ j ∷ _) = letters_value e s f j
value_of_letters _ = 0

value-letters : (n : ℕ) → n < 16 → value_of_letters (letters n) ≡ n
unfolding same_below
value-letters = same_below_sound (λ n. value_of_letters (letters n)) (λ n. n) 16 refl

-- The bytes that a text of letters stands for.
abbrev read_letters : Bytes → Bytes
read_letters (a ∷ b ∷ c ∷ d ∷ e ∷ f ∷ g ∷ h ∷ rest) =
    let tail = read_letters rest in (letters_value a b c d + 16 * letters_value e f g h) ∷ tail
read_letters _ = []

mbti-append : (input output : Bytes) → mbti_loop output input ≡ output ++ mbti_loop [] input
mbti-append [] output = sym (append-nil output)
mbti-append (c ∷ input) output =
    mbti-append input ((output ++ letters (c % 16)) ++ letters (c / 16))
    ∙ append_assoc (output ++ letters (c % 16)) (letters (c / 16)) (mbti_loop [] input)
    ∙ append_assoc output (letters (c % 16)) (letters (c / 16) ++ mbti_loop [] input)
    ∙ ap (◌++◌ output) (sym (mbti-append input (letters (c % 16) ++ letters (c / 16))))

read-mbti : (input : Bytes) → All IsByte input → read_letters (mbti_loop [] input) ≡ input
read-mbti [] bytes = refl
read-mbti (c ∷ input) (h, bytes) =
    let byte : value_of_letters (letters (c % 16)) + 16 * value_of_letters (letters (c / 16)) ≡ c =
      omega (arith, value-letters (c % 16) (omega arith), value-letters (c / 16) (omega arith)) in
    rw (mbti-append input (letters (c % 16) ++ letters (c / 16)))
      (ap (λ t. t ∷ read_letters (mbti_loop [] input)) byte ∙ ap (◌∷◌ c) (read-mbti input bytes))

-- Different sequences of bytes have different texts, of four letters for each half of a byte.
pub metabase_encode_mbti_injective :
    (a b : Bytes)
    → All IsByte a
    → All IsByte b
    → metabase_encode_mbti [] a ≡ metabase_encode_mbti [] b
    → a ≡ b
unfolding metabase_encode_mbti
metabase_encode_mbti_injective a b p q e =
    sym (read-mbti a p)
    ∙ ap (λ t. read_letters (drop 1 t))
        (sym (mbti-append a (metabase_mbti ∷ [])) ∙ e ∙ mbti-append b (metabase_mbti ∷ []))
    ∙ read-mbti b q
