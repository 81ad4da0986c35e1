-- ===== src/Vluint/Groups.antt =====
-- src/vluint/vluint.c, vluint_write: the bytes that it appends, without its accumulator.
use prog_dir.Base.{
  ℕ, zero, suc, ◌+◌, ◌/◌, ◌%◌, ◌^◌, ◌≤◌, ◌<◌, ◌≡◌, [], ◌∷◌, ◌++◌, append_assoc, arith, leb,
  if◌then◌else◌, Bytes, IsByte, length, All,
}
use mathlib.Core.WellFounded.{Acc}
use prog_dir.Base.Order.{lt_wf}
use prog_dir.Base.Bits.{bit_or_128}
use prog_dir.Vluint.{vluint_write_loop, vluint_write, u64_mod}

-- At most `k + 1` groups of seven bits, lowest first, the top bit set on all but the last.
unfoldable pub groups : ℕ → ℕ → Bytes
groups zero n = n ∷ []
groups (suc k) n =
    let more = groups k (n / 128) in if leb 128 n then (n % 128 + 128) ∷ more else n ∷ []

write_loop-groups :
    (k n : ℕ) (output : Bytes) (w : Acc ◌<◌ n)
    → n < 128 ^ suc k
    → vluint_write_loop output n w ≡ output ++ groups k n
unfolding vluint_write_loop groups
write_loop-groups zero n output (Acc.intro _ smaller) h = ground arith
write_loop-groups (suc k) n output (Acc.intro _ smaller) h =
    let top = (n % 128 + 128) ∷ [] in
    grind (
      arith,
      bit_or_128 (n % 128),
      λ (w : Acc ◌<◌ (n / 128)). write_loop-groups k (n / 128) (output ++ top) w (omega arith),
      append_assoc output top (groups k (n / 128)),
    )

pub vluint_write-groups :
    (output : Bytes) (n : ℕ) → n < u64_mod → vluint_write output n ≡ output ++ groups 9 n
unfolding vluint_write
vluint_write-groups output n h = write_loop-groups 9 n output (lt_wf.apply n) (omega arith)

pub groups-IsByte : (k n : ℕ) → n < 128 ^ suc k → All IsByte (groups k n)
unfolding groups
groups-IsByte zero n h = omega arith
groups-IsByte (suc k) n h = ground (arith, groups-IsByte k (n / 128) (omega arith))

pub length-groups : (k n : ℕ) → (1 ≤ length (groups k n)) × (length (groups k n) ≤ k + 1)
unfolding groups
length-groups zero n = omega arith
length-groups (suc k) n = ground (arith, length-groups k (n / 128))
