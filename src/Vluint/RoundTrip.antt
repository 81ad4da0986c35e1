-- ===== src/Vluint/RoundTrip.antt =====
-- src/vluint/vluint.c: `vluint_read` on what `vluint_write` wrote, and on any bytes.
use prog_dir.Base.{
  ℕ, zero, suc, ◌+◌, ◌*◌, ◌/◌, ◌%◌, ◌^◌, ◌≤◌, ◌<◌, bit_and, ◌≡◌, refl, sym, ap, ◌∙◌, ◌↔◌, none,
  some, [], ◌∷◌, ◌++◌, append_assoc, arith, Bytes, IsByte, length, length-append, All, All-append,
}
use prog_dir.Base.Bits.{bit_and_127, bit_and_128}
use prog_dir.Vluint.{
  VluintRead, vluint_read_loop, vluint_read, vluint_write, u64_mod, vluint_char_max,
}
use prog_dir.Vluint.Groups.{groups, vluint_write-groups, groups-IsByte, length-groups}

-- One round of the loop on a byte without, and on one with, the top bit.
read_last :
    (c result power : ℕ) (seen rest : Bytes)
    → c < 128
    → result + power * c < u64_mod
    → vluint_read_loop seen (c ∷ rest) result power
      ≡ some (record { result = result + power * c; vluint = seen ++ c ∷ []; rest = rest })
unfolding vluint_read_loop
read_last c result power seen rest h fits = ground (arith, bit_and_127 c, bit_and_128 c)

read_inner :
    (g result power : ℕ) (seen rest : Bytes)
    → g < 128
    → result + power * g < u64_mod
    → power * 128 < u64_mod
    → vluint_read_loop seen ((g + 128) ∷ rest) result power
      ≡ vluint_read_loop (seen ++ (g + 128) ∷ []) rest (result + power * g) (power * 128)
unfolding vluint_read_loop
read_inner g result power seen rest h fits room =
    ground (arith, bit_and_127 (g + 128), bit_and_128 (g + 128))

room : (n power : ℕ) → 128 ≤ n → power * 128 ≤ power * n
room n power h = grind arith

-- The lowest group and the higher ones add up to the number.
split_groups : (n power : ℕ) → power * n ≡ power * (n % 128) + power * 128 * (n / 128)
split_groups n power =
    let e : n ≡ n % 128 + 128 * (n / 128) = omega arith in
    omega (arith, ap (λ (t : ℕ). power * t) e)

read_loop-groups :
    (k n result power : ℕ) (seen rest : Bytes)
    → n < 128 ^ suc k
    → result + power * n < u64_mod
    → vluint_read_loop seen (groups k n ++ rest) result power
      ≡ some (record { result = result + power * n; vluint = seen ++ groups k n; rest = rest })
unfolding groups
read_loop-groups zero n result power seen rest h fits = read_last n result power seen rest h fits
read_loop-groups (suc k) n result power seen rest h fits = ground (
  arith,
  read_last n result power seen rest,
  split_groups n power,
  room n power,
  append_assoc seen ((n % 128 + 128) ∷ []) (groups k (n / 128)),
  read_inner (n % 128) result power seen (groups k (n / 128) ++ rest),
  read_loop-groups k (n / 128) (result + power * (n % 128)) (power * 128)
      (seen ++ (n % 128 + 128) ∷ []) rest (omega arith),
)

-- `vluint_read` finds the number that `vluint_write` wrote, its bytes, and what follows them.
pub vluint_read-vluint_write :
    (n : ℕ) (rest : Bytes)
    → n < u64_mod
    → vluint_read (vluint_write [] n ++ rest)
      ≡ some (record { result = n; vluint = vluint_write [] n; rest = rest })
unfolding vluint_read
vluint_read-vluint_write n rest h =
    rw (vluint_write-groups [] n h) (ground (arith, read_loop-groups 9 n 0 1 [] rest))

read_loop_shape :
    (input seen : Bytes) (result power : ℕ) (r : VluintRead)
    → vluint_read_loop seen input result power ≡ some r
    → (r.vluint ++ r.rest ≡ seen ++ input) × (r.result < u64_mod) × (length r.rest < length input)
unfolding vluint_read_loop
read_loop_shape [] seen result power r e = cc
read_loop_shape (c ∷ input) seen result power r e = ground (
  arith,
  append_assoc seen (c ∷ []) input,
  read_loop_shape input (seen ++ c ∷ []) ((result + power * bit_and c 127 % u64_mod) % u64_mod)
      (power * vluint_char_max % u64_mod) r,
)

-- Whatever `vluint_read` accepts, the bytes of the number and the rest make up the input, at least
-- one byte is taken, and the result fits `size_t`.
pub vluint_read_shape :
    (input : Bytes) (r : VluintRead)
    → vluint_read input ≡ some r
    → (r.vluint ++ r.rest ≡ input) × (r.result < u64_mod) × (length r.rest < length input)
unfolding vluint_read
vluint_read_shape input r e = read_loop_shape input [] 0 1 r e

-- `vluint_write` keeps what the buffer holds and appends one to ten bytes.
pub vluint_write_shape :
    (output : Bytes) (n : ℕ)
    → n < u64_mod
    → All IsByte output
    → All IsByte (vluint_write output n)
      × (length output + 1 ≤ length (vluint_write output n))
      × (length (vluint_write output n) ≤ length output + 10)
      × (vluint_write output n ≡ output ++ vluint_write [] n)
vluint_write_shape output n h bytes =
    let e = vluint_write-groups output n h in
    let (lo, hi) = length-groups 9 n in
    let l = length-append output (groups 9 n) in
    rw (e, vluint_write-groups [] n h)
      (
        All-append IsByte output _ bytes (groups-IsByte 9 n (omega arith)),
        omega arith,
        omega arith,
        refl,
      )

-- `vluint_read` fails exactly on the inputs that end inside a number: all bytes have the top bit.
read_loop_truncated :
    (input seen : Bytes) (result power : ℕ)
    → All IsByte input
    → (vluint_read_loop seen input result power ≡ none) ↔ All (λ c. 128 ≤ c) input
unfolding vluint_read_loop
read_loop_truncated [] seen result power bytes = (λ _. tt, λ _. refl)
read_loop_truncated (c ∷ input) seen result power (b, bytes) =
    let ih =
      read_loop_truncated input (seen ++ c ∷ [])
        ((result + power * bit_and c 127 % u64_mod) % u64_mod) (power * vluint_char_max % u64_mod)
        bytes in
    (
      λ e. (ground (arith, bit_and_128 c b), ih.0 (ground (arith, bit_and_128 c b))),
      λ h. ground (arith, bit_and_128 c b, ih.1 h.1),
    )

-- `vluint_read` fails exactly on the inputs in which every byte has its top bit set.
pub vluint_read_truncated :
    (input : Bytes) → All IsByte input → (vluint_read input ≡ none) ↔ All (λ c. 128 ≤ c) input
unfolding vluint_read
vluint_read_truncated input bytes = read_loop_truncated input [] 0 1 bytes

pub vluint_write-append :
    (output : Bytes) (n : ℕ) → n < u64_mod → vluint_write output n ≡ output ++ vluint_write [] n
vluint_write-append output n h =
    vluint_write-groups output n h ∙ ap (◌++◌ output) (sym (vluint_write-groups [] n h))
