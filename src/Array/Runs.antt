-- ===== src/Array/Runs.antt =====
-- Runs of the operations on ranges and buffers.
use prog_dir.Base.{
  ℕ, ◌+◌, ◌≤◌, ◌<◌, ◌≡◌, refl, ◌∙◌, ◌⊎◌, none, some, [], ◌∷◌, ◌++◌, arith, leb, if◌then◌else◌,
  Bytes, length, take, replicate, length-replicate, length-append, length-take, take-append,
}
use prog_dir.Array.Buffer.{Buffer, Realloc, push_space, buffer_push}
use prog_dir.Array.Buffer.Laws.{KeepsBytes}
use prog_dir.Array.Range.{range_atozd, match_count, strstr_scan, range_strstr, atozd_loop}
use prog_dir.Array.Range.Search.{StandsAt, range_strstr_first}
use prog_dir.Array.Range.Decimal.{range_atozd_lem}
use prog_dir.Base.Slices.{take-take_le}

-- A `realloc` that copies what fits and fills the rest with zeros, out of a thousand bytes.
abbrev pool : Realloc
pool old n = if leb n 1000 then some (take n (old ++ replicate n 0)) else none

pool_result :
    (old new : Bytes) (n : ℕ) → pool old n ≡ some new → take n (old ++ replicate n 0) ≡ new
pool_result old new n e = ground arith

length-zeros : (n : ℕ) → length {A = ℕ} (replicate n 0) ≡ n
length-zeros n = length-replicate n 0

pool-KeepsBytes : KeepsBytes pool
pool-KeepsBytes old new n e =
    let whole : Bytes = old ++ replicate n 0 in
    rw (← pool_result old new n e) (
      omega (arith, length-take n whole, length-append old (replicate n 0), length-zeros n),
      λ h. take-take_le (length old) n whole h ∙ take-append old (replicate n 0),
    )

-- The bytes 1 2 3, and room for another.
abbrev small : Buffer
small = record { region = 1 ∷ 2 ∷ 3 ∷ 9 ∷ []; size = 3 }

push_four : buffer_push pool small 4 ≡ some record { region = 1 ∷ 2 ∷ 3 ∷ 4 ∷ []; size = 4 }
unfolding buffer_push push_space
push_four = refl

search_run : range_strstr (1 ∷ 2 ∷ 1 ∷ 3 ∷ []) (1 ∷ 3 ∷ []) ≡ some 2
unfolding range_strstr strstr_scan match_count
search_run = refl

atozd_run : range_atozd (49 ∷ 50 ∷ 51 ∷ 97 ∷ []) ≡ (123, 3)
unfolding range_atozd atozd_loop
atozd_run = refl

range_strstr_first_example :
    ((i : ℕ) × (range_strstr (5 ∷ 6 ∷ 7 ∷ []) (6 ∷ 7 ∷ []) ≡ some i)
      × (i + 2 ≤ 3)
      × StandsAt (6 ∷ 7 ∷ []) (5 ∷ 6 ∷ 7 ∷ []) i
      × ((j : ℕ) → j < i → ¬ StandsAt (6 ∷ 7 ∷ []) (5 ∷ 6 ∷ 7 ∷ []) j))
    ⊎ ((range_strstr (5 ∷ 6 ∷ 7 ∷ []) (6 ∷ 7 ∷ []) ≡ some 3)
        × ((j : ℕ) → ¬ StandsAt (6 ∷ 7 ∷ []) (5 ∷ 6 ∷ 7 ∷ []) j))
range_strstr_first_example =
    range_strstr_first (5 ∷ 6 ∷ 7 ∷ []) (6 ∷ 7 ∷ []) (omega arith) (omega arith)

range_atozd_lem_example : range_atozd (52 ∷ 50 ∷ 32 ∷ []) ≡ (42, 2)
range_atozd_lem_example =
    range_atozd_lem (4 ∷ 2 ∷ []) (32 ∷ []) (omega arith, (omega arith, tt)) refl
