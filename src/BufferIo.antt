-- ===== src/BufferIo.antt =====
-- src/buffer_io/buffer_io.c: `buffer_read`, on the buffers of Array/Buffer. `read` of the system is a
-- parameter: the bytes that it gives for a file and a count, or `none` for an error, and the file
-- after it. The buffer has a place for a null byte behind its end.
pub mod Reads
mod Runs
use prog_dir.Base.{
  ℕ, ◌+◌, ◌-◌, ◌%◌, true, false, not, Option, none, some, [], ◌∷◌, ltb, leb, ◌==◌, if◌then◌else◌,
  ◌>>=◌, Bytes, length,
}
use prog_dir.Array.Buffer.{Buffer, Realloc, Status, memory_store, buffer_push, buffer_resize}
use prog_dir.Vluint.{u64_mod}

-- The result of the call, `none` for a negative one, with the buffer and the file after it.
abbrev pub ReadResult {ℓ} : Type ℓ → Type ℓ
ReadResult File = Option ℕ × Buffer × File

-- `max_buffer_size`, where 0 stands for no limit.
abbrev pub read_limit : ℕ → ℕ
read_limit max_buffer_size = if max_buffer_size == 0 then u64_mod - 1 else max_buffer_size

-- How much a buffer grows that has no room left.
abbrev pub new_fill_size : ℕ → ℕ → ℕ
new_fill_size initial_alloc_size have_size =
    if not (have_size == 0)
    then have_size
    else if not (initial_alloc_size == 0)
    then initial_alloc_size
    else 1000

-- The count of bytes to read, within the limit.
abbrev pub capped : ℕ → ℕ → ℕ → ℕ
capped limit have_size fill_size =
    if ltb limit ((have_size + fill_size) % u64_mod) then limit - have_size else fill_size

module _ {ℓ} {File : Type ℓ} where
  -- What was read goes behind what the buffer has.
  abbrev pub filled : Buffer → ℕ → Option Bytes × File → Option (ReadResult File)
  filled b have_size (none, file) = some (none, b, file)
  filled b have_size (some bytes, file) = memory_store b.region have_size bytes >>= λ stored.
      memory_store stored (have_size + length bytes) (0 ∷ []) >>= λ ended.
      some (some (length bytes), record { region = ended; size = have_size + length bytes }, file)

  -- At the limit nothing is read.
  abbrev pub at_limit : File → Buffer → Option (ReadResult File)
  at_limit file b = some (some 0, record b { size = b.size - 1 }, file)

  module _ (realloc : Realloc) (read : File → ℕ → Option Bytes × File) where
    -- `buffer_resize` has been called.
    abbrev pub read_resized : ℕ → ℕ → File → Status → Option (ReadResult File)
    read_resized have_size fill_size file (b, true) = filled b have_size (read file fill_size)
    read_resized have_size fill_size file (b, false) = some (none, b, file)

    -- `buffer_read`. `none` is a store outside of the buffer, when there was no memory for it.
    unfoldable pub buffer_read : ℕ → ℕ → Buffer → File → Option (ReadResult File)
    buffer_read max_buffer_size initial_alloc_size b file =
        let limit = read_limit max_buffer_size in
        let fill_size = new_fill_size initial_alloc_size b.size in
        let at_end = buffer_push realloc b 0 >>= λ pushed. at_limit file pushed in
        let in_place =
          filled b b.size (read file (capped limit b.size (length b.region - 1 - b.size))) in
        let resized =
          read_resized b.size (capped limit b.size fill_size) file
            (buffer_resize realloc b ((b.size + fill_size + 1) % u64_mod)) in
        if leb limit b.size
        then at_end
        else if ltb (b.size + 1) (length b.region)
        then in_place
        else resized
