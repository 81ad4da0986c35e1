-- ===== src/Tar/Blocks.antt =====
-- src/tar/read.c: blocks that are all zero.
use prog_dir.Base.{
  ℕ, zero, suc, ◌+◌, ◌*◌, ◌<◌, ◌≡◌, refl, sym, ◌∙◌, ◌≢◌, ◌↔◌, inl, inr, true, false, [], ◌∷◌, arith,
  ◌==◌, Bool-cases, eq_of_test, Bytes, get_or, take, drop, All, All-append,
}
use prog_dir.Base.Slices.{take-add, take-nil, get_or-take}
use prog_dir.Tar.Read.{block_is_zero, word_of}
use mathlib.Core.Path.{subst}

abbrev pub AllZero : Bytes → Type 0
AllZero bytes = All (λ b. b ≡ 0) bytes

word_of-zero : (bytes : Bytes) → word_of bytes ≡ 0 → AllZero bytes
word_of-zero [] h = tt
word_of-zero (b ∷ bytes) h = (omega arith, word_of-zero bytes (omega arith))

zero-word_of : (bytes : Bytes) → AllZero bytes → word_of bytes ≡ 0
zero-word_of [] h = refl
zero-word_of (b ∷ bytes) (z, h) = omega (arith, zero-word_of bytes h)

All-take-drop :
    (i n : ℕ) (bytes : Bytes)
    → AllZero (take i bytes)
    → AllZero (take n (drop i bytes))
    → AllZero (take (i + n) bytes)
All-take-drop i n bytes p q =
    subst AllZero (sym (take-add i n bytes))
      (All-append _ (take i bytes) (take n (drop i bytes)) p q)

All-split :
    (i n : ℕ) (bytes : Bytes)
    → AllZero (take (i + n) bytes)
    → AllZero (take i bytes) × AllZero (take n (drop i bytes))
All-split zero n bytes h = (tt, subst (λ k. AllZero (take k bytes)) {y = n} (omega arith) h)
All-split (suc i) n [] h = (tt, subst AllZero (sym (take-nil n)) tt)
All-split (suc i) n (b ∷ bytes) h =
    let (z, rest) : (b ≡ 0) × AllZero (take (i + n) bytes) =
      subst (λ k. AllZero (take k (b ∷ bytes))) {y = suc (i + n)} (omega arith) h in
    let (front, behind) = All-split i n bytes rest in ((z, front), behind)

block_zeros :
    (words : ℕ) (bytes : Bytes)
    → block_is_zero words bytes ≡ true
    → AllZero (take (words * 8) bytes)
unfolding block_is_zero
block_zeros zero bytes h = tt
block_zeros (suc words) bytes h = elim (Bool-cases (word_of (take 8 bytes) == 0)) [
  | inl e ↦
      subst (λ k. AllZero (take k bytes)) {y = suc words * 8} (omega arith)
        (All-take-drop 8 (words * 8) bytes (word_of-zero (take 8 bytes) (eq_of_test _ _ e))
          (block_zeros words (drop 8 bytes) (rw e at h)))
  | inr e ↦ let bad : false ≡ true = rw e at h in cc
]

zeros_block :
    (words : ℕ) (bytes : Bytes)
    → AllZero (take (words * 8) bytes)
    → block_is_zero words bytes ≡ true
unfolding block_is_zero
zeros_block zero bytes h = refl
zeros_block (suc words) bytes h =
    let (front, rest) =
      All-split 8 (words * 8) bytes
        (subst (λ k. AllZero (take k bytes)) {y = 8 + words * 8} (omega arith) h) in
    rw (zero-word_of (take 8 bytes) front) (zeros_block words (drop 8 bytes) rest)

-- The test of a block word by word holds exactly when all its bytes are zero.
pub block_is_zero_lem :
    (words : ℕ) (bytes : Bytes)
    → (block_is_zero words bytes ≡ true) ↔ All (λ b. b ≡ 0) (take (words * 8) bytes)
block_is_zero_lem words bytes = (block_zeros words bytes, zeros_block words bytes)

get_or-zeros : (bytes : Bytes) (i : ℕ) → AllZero bytes → get_or bytes i 0 ≡ 0
get_or-zeros [] i h = refl
get_or-zeros (b ∷ bytes) zero (z, h) = z
get_or-zeros (b ∷ bytes) (suc i) (z, h) = get_or-zeros bytes i h

-- A block with a byte that is not zero is not taken for the end.
pub block_is_zero-get_or :
    (words : ℕ) (bytes : Bytes) (i : ℕ)
    → i < words * 8
    → get_or bytes i 0 ≢ 0
    → block_is_zero words bytes ≡ false
block_is_zero-get_or words bytes i l n = elim (Bool-cases (block_is_zero words bytes)) [
  | inl e ↦
      absurd (
        n (
          sym (get_or-take i (words * 8) bytes 0 l) ∙ get_or-zeros _ i (block_zeros words bytes e)))
  | inr e ↦ e
]
