-- ===== src/Base/Bits.antt =====
-- Masks on one byte as arithmetic: each law is a table of at most 256 entries, read by evaluation.
use Prim.Native.Nat.{ℕ, zero, suc, ◌+◌, ◌*◌, ◌/◌, ◌%◌, ◌<◌, bit_and, bit_or}
use mathlib.Core.Path.{◌≡◌, refl}
use mathlib.Core.Bool.{Bool, true, ◌&&◌}
use native.Mathlib.Omega.{arith}
use prog_dir.Base.Tests.{◌==◌}

module _ (f g : ℕ → ℕ) where
  unfoldable pub same_below : ℕ → Bool
  same_below zero = true
  same_below (suc n) = f n == g n && same_below n

  pub same_below_sound : (n : ℕ) → same_below n ≡ true → (i : ℕ) → i < n → f i ≡ g i
  unfolding same_below
  same_below_sound zero e i h = absurd (omega arith)
  same_below_sound (suc n) e i h = ground (arith, same_below_sound n (ground arith) i)

-- `b & ~128`, `b & 128` and `b | 128`.
pub bit_and_127 : (b : ℕ) → b < 256 → bit_and b 127 ≡ b % 128
unfolding same_below
bit_and_127 = same_below_sound _ _ 256 refl

pub bit_and_128 : (b : ℕ) → b < 256 → bit_and b 128 ≡ b / 128 * 128
unfolding same_below
bit_and_128 = same_below_sound _ _ 256 refl

pub bit_or_128 : (b : ℕ) → b < 128 → bit_or b 128 ≡ b + 128
unfolding same_below
bit_or_128 = same_below_sound _ _ 128 refl
