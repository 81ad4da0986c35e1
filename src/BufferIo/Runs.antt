-- ===== src/BufferIo/Runs.antt =====
-- Runs of src/buffer_io/buffer_io.c on small files, and an instance of the theorem about it.
use prog_dir.Base.{
  ℕ, ◌-◌, ◌≡◌, refl, ap, ◌∙◌, Option, none, some, [], ◌∷◌, ◌++◌, arith, Bytes, length, take, drop,
  replicate, length-replicate, length-append, length-take, take-append,
}
use prog_dir.Array.Buffer.{Buffer, Realloc, buffer_realloc, buffer_resize}
use prog_dir.Array.Buffer.Laws.{KeepsBytes}
use prog_dir.BufferIo.{buffer_read}
use prog_dir.BufferIo.Reads.{buffer_read-IsRead, IsRead, ReadsUpTo}
use prog_dir.Base.Slices.{take-take_le}
use prog_dir.Vluint.{u64_mod}

-- A `realloc` that always has memory, with zeros behind the old bytes.
abbrev zeroed : Realloc
zeroed old n = some (take n (old ++ replicate n 0))

zeroed_result :
    (old new : Bytes) (n : ℕ) → zeroed old n ≡ some new → take n (old ++ replicate n 0) ≡ new
zeroed_result old new n e = ground arith

zeroed-KeepsBytes : KeepsBytes zeroed
zeroed-KeepsBytes old new n e =
    let whole : Bytes = old ++ replicate n 0 in
    rw (← zeroed_result old new n e) (
      omega (
        arith,
        length-take n whole,
        length-append old (replicate n 0),
        length-replicate {A = ℕ} n 0,
      ),
      λ h. take-take_le (length old) n whole h ∙ take-append old (replicate n 0),
    )

-- A file is what is left of it.
abbrev read_front : Bytes → ℕ → Option Bytes × Bytes
read_front file n = (some (take n file), drop n file)

front_result : (file bytes : Bytes) (n : ℕ) → some (take n file) ≡ some bytes → take n file ≡ bytes
front_result file bytes n e = ground arith

front-ReadsUpTo : ReadsUpTo read_front
front-ReadsUpTo file n bytes e =
    omega (arith, ap length (front_result file bytes n e), length-take n file)

-- The byte 1, and room for two more and a null byte.
abbrev one_byte : Buffer
one_byte = record { region = 1 ∷ 9 ∷ 9 ∷ 9 ∷ []; size = 1 }

read_two :
    buffer_read zeroed read_front 0 0 one_byte (5 ∷ 6 ∷ 7 ∷ [])
    ≡ some (some 2, record { region = 1 ∷ 5 ∷ 6 ∷ 0 ∷ []; size = 3 }, 7 ∷ [])
unfolding buffer_read
read_two = refl

read_to_limit :
    buffer_read zeroed read_front 2 0 one_byte (5 ∷ 6 ∷ 7 ∷ [])
    ≡ some (some 1, record { region = 1 ∷ 5 ∷ 0 ∷ 9 ∷ []; size = 2 }, 6 ∷ 7 ∷ [])
unfolding buffer_read
read_to_limit = refl

-- A file that cannot be read.
abbrev broken : ℕ → ℕ → Option Bytes × ℕ
broken file n = (none, file)

-- After an error the end stays behind bytes that were not read.
failed_read :
    buffer_read zeroed broken 0 3 record { region = []; size = 0 } 7
    ≡ some (none, record { region = replicate 26 0; size = 4 }, 7)
unfolding buffer_read buffer_resize buffer_realloc
failed_read = refl

buffer_read-IsRead_example :
    IsRead zeroed read_front one_byte
      (u64_mod - 1)
      (5 ∷ 6 ∷ 7 ∷ [])
      (buffer_read zeroed read_front 0 0 one_byte (5 ∷ 6 ∷ 7 ∷ []))
buffer_read-IsRead_example =
    buffer_read-IsRead zeroed read_front zeroed-KeepsBytes front-ReadsUpTo 0 0 one_byte
      (5 ∷ 6 ∷ 7 ∷ []) (omega arith) (omega arith) (omega arith) (omega arith)
