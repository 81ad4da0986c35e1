-- ===== src/Array/Range.antt =====
-- src/array/range.c, range_atozd.c and range_streq_string.c: searching, comparing and reading ranges
-- of characters. A range is the list of its characters; a position is its index from `begin`.
pub mod Search
pub mod Decimal
use prog_dir.Base.{
  ℕ, zero, suc, ◌+◌, ◌-◌, ◌*◌, ◌%◌, Bool, true, false, ◌&&◌, Option, none, some, [], ◌∷◌, ltb, leb,
  ◌==◌, if◌then◌else◌, Bytes, length, take, drop,
}
use prog_dir.Vluint.{u64_mod}

-- How many characters of the needle the inner loop of `range_strstr` gets through.
unfoldable pub match_count : Bytes → Bytes → ℕ
match_count [] hay = 0
match_count (n ∷ needle) [] = 0
match_count (n ∷ needle) (c ∷ hay) =
    let rest = match_count needle hay in if c == n then suc rest else 0

-- The outer loop, with the number of positions left to `scan.end`, what is left of the haystack, and
-- the index of `i_scan`.
unfoldable pub strstr_scan : ℕ → Bytes → Bytes → ℕ → Option ℕ
unfolding match_count
strstr_scan zero hay needle i = none
strstr_scan (suc left) hay needle i =
    let rest = strstr_scan left (drop 1 hay) needle (i + 1) in
    if match_count needle hay == length needle then some i else rest

-- The index that was found, or the one that `range_strstr` gives for `scan.end`.
abbrev pub index_or : ℕ → Option ℕ → ℕ
index_or end none = end
index_or end (some i) = i

-- `range_strstr`. When the needle is longer than the haystack by two or more, `scan.end` is in front
-- of `scan.begin` and the loop leaves the haystack: `none`.
unfoldable pub range_strstr : Bytes → Bytes → Option ℕ
unfolding strstr_scan
range_strstr hay needle =
    if length needle == 0
    then some (length hay)
    else if ltb (length hay + 1) (length needle)
    then none
    else some (elim (strstr_scan (length hay + 1 - length needle) hay needle 0) [
      | none ↦ length hay
      | some i ↦ i
    ])

unfoldable pub range_strchr : Bytes → ℕ → ℕ
range_strchr [] needle = 0
range_strchr (c ∷ hay) needle =
    let rest = range_strchr hay needle in if c == needle then 0 else suc rest

-- The loop of `range_streq`, over ranges of the same length.
unfoldable pub streq_loop : Bytes → Bytes → Bool
streq_loop [] b = true
streq_loop (x ∷ a) [] = false
streq_loop (x ∷ a) (y ∷ b) = if x == y then streq_loop a b else false

unfoldable pub range_streq : Bytes → Bytes → Bool
unfolding streq_loop
range_streq a b = if length a == length b then streq_loop a b else false

-- `strlen`, for a string that is followed by its null byte in memory.
unfoldable pub strlen : Bytes → ℕ
strlen [] = 0
strlen (c ∷ s) = let rest = strlen s in if c == 0 then 0 else suc rest

unfoldable pub range_streq_string : Bytes → Bytes → Bool
unfolding range_streq strlen
range_streq_string a b = range_streq a (take (strlen b) b)

abbrev pub isdigit : ℕ → Bool
isdigit c = leb 48 c && leb c 57

-- The loop of `range_atozd`: `*output` and the count of the digits read.
unfoldable pub atozd_loop : Bytes → ℕ → ℕ → ℕ × ℕ
atozd_loop [] output i = (output, i)
atozd_loop (c ∷ input) output i =
    let rest = atozd_loop input ((10 * output + (c - 48)) % u64_mod) (i + 1) in
    if isdigit c then rest else (output, i)

unfoldable pub range_atozd : Bytes → ℕ × ℕ
unfolding atozd_loop
range_atozd input = atozd_loop input 0 0
