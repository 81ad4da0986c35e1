-- ===== src/Libc.antt =====
-- src/libc/: copying memory, and strings. A word (`uint_fast32_t`) has 8 bytes. A C string is given
-- without the null byte that ends it.
pub mod Compare
pub mod Copy
mod Runs
use prog_dir.Base.{
  ℕ, zero, suc, ◌+◌, ◌-◌, ◌*◌, ◌%◌, ◌||◌, Option, none, some, [], ◌∷◌, ◌++◌, ltb, ◌==◌,
  if◌then◌else◌, Bytes, length, take, drop, replicate,
}
use prog_dir.Base.Slices.{store_at}

abbrev pub word_size : ℕ
word_size = 8

-- How far an address is from the next word.
abbrev pub to_word : ℕ → ℕ
to_word address = (word_size - address % word_size) % word_size

-- A loop of `memcpy` that copies pieces of some bytes while more than `least` are left; what has been
-- copied, the source from there on, and the number of bytes left.
unfoldable pub copy_loop : ℕ → ℕ → ℕ → Bytes → Bytes → ℕ → Bytes × Bytes × ℕ
copy_loop zero piece least copied src n = (copied, src, n)
copy_loop (suc fuel) piece least copied src n =
    let next = copy_loop fuel piece least (copied ++ take piece src) (drop piece src) (n - piece) in
    if ltb least n then next else (copied, src, n)

-- The loop up to a word of the source.
abbrev pub copy_align : ℕ → Bytes → ℕ → Bytes × Bytes × ℕ
copy_align address src n = copy_loop (to_word address) 1 0 [] src n

-- The destination after `memcpy`: four words, one word, one byte at a time.
unfoldable pub memcpy : ℕ → Bytes → Bytes → ℕ → Bytes
memcpy address dest src_orig n_orig =
    let (first, src, n) = copy_align address src_orig n_orig in
    let (second, src₂, n₂) = copy_loop n (4 * word_size) (4 * word_size) first src n in
    let (third, src₃, n₃) = copy_loop n₂ word_size word_size second src₂ n₂ in
    let (copied, src₄, n₄) = copy_loop n₃ 1 0 third src₃ n₃ in store_at dest 0 copied

-- `strcmp`: the two characters whose difference it returns.
unfoldable pub strcmp : Bytes → Bytes → ℕ × ℕ
strcmp [] [] = (0, 0)
strcmp [] (d ∷ t) = (0, d)
strcmp (c ∷ s) [] = (c, 0)
strcmp (c ∷ s) (d ∷ t) = let rest = strcmp s t in if c == d then rest else (c, d)

-- `strcpy`: the destination, which must have a place for the null byte; `none` is a write behind it.
unfoldable pub strcpy : ℕ → Bytes → Bytes → Option Bytes
strcpy address dest src =
    if ltb (length dest) (length src + 1)
    then none
    else some (store_at (memcpy address dest src (length src)) (length src) (0 ∷ []))

-- `strdup` of a string, when there is memory.
unfoldable pub strdup : ℕ → Bytes → Option Bytes
strdup address input = strcpy address (replicate (length input + 1) 0) input

-- `strncpy`, which copies the whole source even when it is longer than `n`.
unfoldable pub strncpy : ℕ → Bytes → Bytes → ℕ → Option Bytes
strncpy address dest src n =
    let len = length src in
    if ltb (length dest) len || ltb (length dest) n
    then none
    else some (store_at (memcpy address dest src len) len (replicate (n - len) 0))
