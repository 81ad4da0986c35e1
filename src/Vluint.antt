-- ===== src/Vluint.antt =====
-- src/vluint/vluint.c: numbers of seven bits a byte, lowest first.
-- A buffer is the list of its bytes, a range likewise; `size_t` has 64 bits.
pub mod Groups
pub mod RoundTrip
mod Runs
use prog_dir.Base.{
  ℕ, ◌+◌, ◌*◌, ◌/◌, ◌%◌, ◌^◌, ◌<◌, bit_and, bit_or, Option, none, some, [], ◌∷◌, ◌++◌, arith, ◌==◌,
  if◌then◌else◌, Bytes,
}
use mathlib.Core.Logic.{dite}
use mathlib.Core.WellFounded.{Acc}
use native.Mathlib.Decide.{dec_le}
use prog_dir.Base.Order.{lt_wf}

abbrev pub vluint_char_max : ℕ
vluint_char_max = 128

abbrev pub u64_mod : ℕ
u64_mod = 2 ^ 64

-- What a successful `vluint_read` stores: the number, its bytes and what follows them.
pub record VluintRead : Type 0 where
  pub result : ℕ
  pub vluint : Bytes
  pub rest : Bytes

-- The `for_range` of `vluint_read`, with the bytes already passed in `seen`.
-- `c & ~128` keeps the lower seven bits.
pub vluint_read_loop : Bytes → Bytes → ℕ → ℕ → Option VluintRead
vluint_read_loop seen [] result power = none
vluint_read_loop seen (c ∷ rest) result power =
    let result' = (result + power * bit_and c 127 % u64_mod) % u64_mod in
    let more = vluint_read_loop (seen ++ c ∷ []) rest result' (power * vluint_char_max % u64_mod) in
    if bit_and c vluint_char_max == 0
    then some (record { result = result'; vluint = seen ++ c ∷ []; rest = rest })
    else more

unfoldable pub vluint_read : Bytes → Option VluintRead
unfolding vluint_read_loop
vluint_read input = vluint_read_loop [] input 0 1

pub vluint_write_loop : Bytes → (n : ℕ) → Acc ◌<◌ n → Bytes
vluint_write_loop output n (Acc.intro _ smaller) =
    dite (dec_le vluint_char_max n)
      (λ h.
        vluint_write_loop (output ++ bit_or (n % vluint_char_max) vluint_char_max ∷ []) (n / 2 ^ 7)
          (smaller (n / 2 ^ 7) (omega arith)))
      (λ _. output ++ n ∷ [])

unfoldable pub vluint_write : Bytes → ℕ → Bytes
unfolding vluint_write_loop lt_wf dec_le
vluint_write output n = vluint_write_loop output n (lt_wf.apply n)
