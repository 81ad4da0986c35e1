-- ===== src/Libc/Copy.antt =====
-- src/libc/memcpy, src/libc/strcpy and src/libc/strncpy: what is in the destination.
use prog_dir.Base.{
  ℕ, zero, suc, ◌+◌, ◌-◌, ◌*◌, ◌≤◌, ◌<◌, ◌≡◌, refl, sym, ap, ◌∙◌, inl, inr, Bool, false, ◌||◌, some,
  [], ◌∷◌, ◌++◌, arith, ltb, Bool-cases, le→ltb, lt_of_ltb, le_of_ltb, Bytes, length, take, drop,
  replicate, length-replicate, length-take, take-append,
}
use prog_dir.Base.Slices.{take-add, drop-drop, drop-append_add, store_at, take-all}
use prog_dir.Libc.{memcpy, copy_loop, word_size, to_word, copy_align, strcpy, strncpy}

-- A state of the copy of `n` bytes of a source: some are copied, and the rest is still to come.
abbrev Copies : Bytes → ℕ → Bytes × Bytes × ℕ → Type 0
Copies src n (copied, rest, left) =
    (k : ℕ) × (k + left ≡ n) × (copied ≡ take k src) × (rest ≡ drop k src)

copy_loop-Copies :
    (fuel piece least : ℕ) (src : Bytes) (n : ℕ) (copied rest : Bytes) (left : ℕ)
    → piece ≤ suc least
    → Copies src n (copied, rest, left)
    → Copies src n (copy_loop fuel piece least copied rest left)
unfolding copy_loop
copy_loop-Copies zero piece least src n copied rest left p h = h
copy_loop-Copies (suc fuel) piece least src n copied rest left p (k, e, c, r) =
    elim (Bool-cases (ltb least left)) [
      | inl l ↦
          (rw l (
            copy_loop-Copies fuel piece least src n (copied ++ take piece rest) (drop piece rest)
              (left - piece) p
              (
                k + piece,
                omega (arith, e, lt_of_ltb least left l),
                rw (c, r) (sym (take-add k piece src)),
                ap (drop piece) r ∙ drop-drop piece k src,
              )))
      | inr l ↦ (rw l (k, e, c, r))
    ]

-- The last loop copies all that is left.
copy_loop-done :
    (fuel : ℕ) (copied rest : Bytes) (left : ℕ)
    → left ≤ fuel
    → (copy_loop fuel 1 0 copied rest left).2 ≡ 0
unfolding copy_loop
copy_loop-done zero copied rest left h = omega arith
copy_loop-done (suc fuel) copied rest left h = elim (Bool-cases (ltb 0 left)) [
  | inl l ↦
      (rw l (copy_loop-done fuel (copied ++ take 1 rest) (drop 1 rest) (left - 1) (omega arith)))
  | inr l ↦ (rw l (omega (arith, le_of_ltb 0 left l)))
]

-- Copying in words gives the first `n` bytes of the source in front of the rest of the destination,
-- wherever the source starts.
pub memcpy_lem :
    (address : ℕ) (dest src : Bytes) (n : ℕ)
    → n ≤ length src
    → memcpy address dest src n ≡ take n src ++ drop n dest
unfolding memcpy
memcpy_lem address dest src n h =
    let (first, rest, left) = copy_align address src n in
    let (second, rest₂, left₂) = copy_loop left (4 * word_size) (4 * word_size) first rest left in
    let (third, rest₃, left₃) = copy_loop left₂ word_size word_size second rest₂ left₂ in
    let (copied, rest₄, left₄) = copy_loop left₃ 1 0 third rest₃ left₃ in
    let start : Copies src n ([], src, n) = (0, omega arith, refl, refl) in
    let one = copy_loop-Copies (to_word address) 1 0 src n [] src n (omega arith) start in
    let two =
      copy_loop-Copies left (4 * word_size) (4 * word_size) src n first rest left (omega arith)
        one in
    let three =
      copy_loop-Copies left₂ word_size word_size src n second rest₂ left₂ (omega arith) two in
    let (k, e, c, r) = copy_loop-Copies left₃ 1 0 src n third rest₃ left₃ (omega arith) three in
    let through = copy_loop-done left₃ third rest₃ left₃ (omega arith) in
    let whole : copied ≡ take n src =
      c ∙ ap (λ m. take m src) {y = n} (omega (arith, e, through)) in
    let long : length (take n src) ≡ n = length-take n src ∙ omega arith in
    ap (λ t. t ++ drop (0 + length t) dest) whole
    ∙ ap (λ m. take n src ++ drop m dest) {y = n} (omega (arith, long))

or-false : (a b : Bool) → a ≡ false → b ≡ false → (a || b) ≡ false
or-false a b h k = rw (h, k) refl

store_behind :
    (src tail bytes : Bytes)
    → store_at (src ++ tail) (length src) bytes ≡ src ++ (bytes ++ drop (length bytes) tail)
store_behind src tail bytes =
    rw (take-append src tail)
      (ap (λ t. src ++ (bytes ++ t)) (drop-append_add src tail (length bytes)))

-- All of a source in front of the rest of the destination.
memcpy-all :
    (address : ℕ) (dest src : Bytes)
    → memcpy address dest src (length src) ≡ src ++ drop (length src) dest
memcpy-all address dest src =
    memcpy_lem address dest src (length src) (omega arith)
    ∙ ap (λ t. t ++ drop (length src) dest) (take-all (length src) src (omega arith))

-- A string is copied with its null byte, and what is behind it in the destination stays.
pub strcpy_lem :
    (address : ℕ) (dest src : Bytes)
    → length src < length dest
    → strcpy address dest src ≡ some (src ++ (0 ∷ drop (length src + 1) dest))
unfolding strcpy
strcpy_lem address dest src h =
    let fits : ltb (length dest) (length src + 1) ≡ false = le→ltb _ _ (omega arith) in
    rw (fits, memcpy-all address dest src)
      (ap some (
        store_behind src (drop (length src) dest) (0 ∷ [])
        ∙ ap (λ t. src ++ (0 ∷ t)) (drop-drop 1 (length src) dest)))

-- A string that fits is copied and padded with null bytes to the size that is given, and what is behind
-- in the destination stays.
pub strncpy_lem :
    (address : ℕ) (dest src : Bytes) (n : ℕ)
    → length src ≤ n
    → n ≤ length dest
    → strncpy address dest src n ≡ some (src ++ (replicate (n - length src) 0 ++ drop n dest))
unfolding strncpy
strncpy_lem address dest src n h l =
    let fits : (ltb (length dest) (length src) || ltb (length dest) n) ≡ false =
      or-false _ _ (le→ltb _ _ (omega arith)) (le→ltb _ _ l) in
    let pad : Bytes = replicate (n - length src) 0 in
    let end : length src + length pad ≡ n =
      omega (arith, length-replicate {A = ℕ} (n - length src) 0) in
    rw (fits, memcpy-all address dest src)
      (ap some (
        store_behind src (drop (length src) dest) pad
        ∙ ap (λ t. src ++ (pad ++ t))
            (drop-drop (length pad) (length src) dest ∙ ap (λ m. drop m dest) end)))
