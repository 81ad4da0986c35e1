-- ===== src/Array/Range/Decimal.antt =====
-- src/array/range_atozd.c: the number that is read is the one the digits stand for.
use prog_dir.Base.{
  ℕ, suc, ◌+◌, ◌-◌, ◌*◌, ◌/◌, ◌%◌, ◌^◌, ◌<◌, ◌≡◌, refl, ap, ◌∙◌, true, false, [], ◌∷◌, ◌++◌, arith,
  Bytes, length, All,
}
use native.Mathlib.Nat.{pow-suc, mul_comm}
use prog_dir.Array.Range.{isdigit, atozd_loop, range_atozd}
use prog_dir.Vluint.{u64_mod}

-- The number that decimal digits, the first the highest, stand for.
abbrev pub decimal_value : Bytes → ℕ
decimal_value [] = 0
decimal_value (d ∷ digits) = d * 10 ^ length digits + decimal_value digits

abbrev pub digit_chars : Bytes → Bytes
digit_chars [] = []
digit_chars (d ∷ digits) = (d + 48) ∷ digit_chars digits

-- The text ends, or goes on with a character that is no digit.
abbrev pub EndsDigits : Bytes → Type 0
EndsDigits [] = Unit
EndsDigits (c ∷ _) = isdigit c ≡ false

-- Reducing an intermediate result does not change the reduced end result.
pub mod_mul_add : (x p v : ℕ) → (x % u64_mod * p + v) % u64_mod ≡ (x * p + v) % u64_mod
mod_mul_add x p v =
    let split : x * p ≡ u64_mod * (x / u64_mod * p) + x % u64_mod * p =
      ap (λ t. t * p) {y = u64_mod * (x / u64_mod) + x % u64_mod} (omega arith) ∙ omega arith in
    omega (arith, split)

one_digit :
    (output d p q v : ℕ)
    → q ≡ 10 * p
    → (10 * output + (d + 48 - 48)) * p + v ≡ output * q + (d * p + v)
one_digit output d p q v e =
    ap (λ t. (10 * output + t) * p + v) {y = d} (omega arith) ∙ rw (e) (omega arith)

pub pair_eq {ℓ κ} :
    {A : Type ℓ} {B : Type κ} {a b : A} {c d : B} → a ≡ b → c ≡ d → ◌≡◌ {A = A × B} (a, c) (b, d)
pair_eq p q = cc

atozd_stop :
    (rest : Bytes) (output i : ℕ) → EndsDigits rest → atozd_loop rest output i ≡ (output, i)
unfolding atozd_loop
atozd_stop [] output i h = refl
atozd_stop (c ∷ rest) output i h = rw (h) refl

isdigit_char : (d : ℕ) → d < 10 → isdigit (d + 48) ≡ true
isdigit_char d h = ground arith

atozd_go :
    (digits rest : Bytes) (output i : ℕ)
    → All (λ d. d < 10) digits
    → EndsDigits rest
    → output < u64_mod
    → atozd_loop (digit_chars digits ++ rest) output i
      ≡ ((output * 10 ^ length digits + decimal_value digits) % u64_mod, i + length digits)
unfolding atozd_loop
atozd_go [] rest output i small ends fits =
    atozd_stop rest output i ends ∙ pair_eq (omega (arith, fits)) (omega arith)
atozd_go (d ∷ digits) rest output i (h, small) ends fits = rw (isdigit_char d h) (
    atozd_go digits rest ((10 * output + (d + 48 - 48)) % u64_mod) (i + 1) small ends (omega arith)
    ∙ pair_eq
        (mod_mul_add (10 * output + (d + 48 - 48)) (10 ^ length digits) (decimal_value digits)
          ∙ ap (λ t. t % u64_mod)
              (one_digit output d (10 ^ length digits) (10 ^ suc (length digits))
                (decimal_value digits)
                (pow-suc 10 (length digits) ∙ mul_comm (10 ^ length digits) 10)))
        (omega arith))

-- `range_atozd` of digits, and then an end or another character: the output is the number that the
-- digits stand for, reduced to 64 bits, and the result the count of the digits.
pub range_atozd_lem :
    (digits rest : Bytes)
    → All (λ d. d < 10) digits
    → EndsDigits rest
    → range_atozd (digit_chars digits ++ rest) ≡ (decimal_value digits % u64_mod, length digits)
unfolding range_atozd
range_atozd_lem digits rest small ends =
    atozd_go digits rest 0 0 small ends (omega arith)
    ∙ pair_eq (ap (λ t. t % u64_mod) (omega arith)) (omega arith)
