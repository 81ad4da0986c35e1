-- ===== src/Array/Buffer.antt =====
-- src/array/buffer.c and buffer.h, for buffers of bytes. A buffer is its allocated region, from
-- `begin` to `max`, and the count of the bytes from `begin` to `end`.
pub mod Laws
use prog_dir.Base.{
  ℕ, ◌+◌, ◌-◌, ◌*◌, ◌%◌, Bool, true, false, Option, none, some, [], ◌∷◌, ltb, leb, ◌==◌,
  if◌then◌else◌, ◌>>=◌, when, Bytes, length, take,
}
use prog_dir.Base.Slices.{store_at, slice}
use prog_dir.Vluint.{u64_mod}

pub record Buffer : Type 0 where
  pub region : Bytes
  pub size : ℕ

-- The bytes from `begin` to `end`.
abbrev pub contents : Buffer → Bytes
contents b = take b.size b.region

-- `realloc`, on the region and its new size; `none` is the null pointer.
abbrev pub Realloc : Type 0
Realloc = Bytes → ℕ → Option Bytes

-- A buffer, and whether the call returned 0.
abbrev pub Status : Type 0
Status = Buffer × Bool

-- A store of bytes in a region; `none` is a store outside of it, which C leaves undefined.
abbrev pub memory_store : Bytes → ℕ → Bytes → Option Bytes
memory_store region offset bytes =
    when (leb (offset + length bytes) (length region)) (some (store_at region offset bytes))

module _ (realloc : Realloc) where
  -- `_buffer_realloc`. The sizes are those of `size_t`.
  unfoldable pub buffer_realloc : Buffer → ℕ → ℕ → Status
  buffer_realloc b type_size new_count =
      let new_size = type_size * new_count % u64_mod in
      let grown = (4 * new_size + 10 * type_size) % u64_mod in
      if leb new_size (length b.region) then (b, true) else elim (realloc b.region grown) [
        | none ↦ (b, false)
        | some region ↦ (record b { region = region }, true)
      ]

  unfoldable pub buffer_resize : Buffer → ℕ → Status
  buffer_resize b count =
      let (b', done) = buffer_realloc b 1 count in
      if done then (record b' { size = count }, true) else (b', false)

  -- The buffer that `buffer_push` writes to; whether the memory could be had is not looked at.
  unfoldable pub push_space : Buffer → Buffer
  push_space b = if b.size == length b.region then (buffer_realloc b 1 (b.size + 1)).0 else b

  -- `*buffer_push (buffer) = value`.
  unfoldable pub buffer_push : Buffer → ℕ → Option Buffer
  buffer_push b value = do
    stored ← memory_store (push_space b).region (push_space b).size (value ∷ [])
    some record { region = stored; size = (push_space b).size + 1 }

  -- `buffer_append`, and `buffer_append_n` of as many bytes as `bytes` has; the result of
  -- `buffer_resize` is not looked at here, nor in the copies below.
  unfoldable pub buffer_append : Buffer → Bytes → Option Buffer
  buffer_append b bytes =
      let resized = (buffer_resize b (b.size + length bytes)).0 in
      do
        stored ← memory_store resized.region b.size bytes
        some (record resized { region = stored })

  unfoldable pub buffer_copy_n : Buffer → Bytes → Option Buffer
  buffer_copy_n b bytes =
      let resized = (buffer_resize b (length bytes)).0 in
      do stored ← memory_store resized.region 0 bytes; some (record resized { region = stored })

  -- `buffer_strncpy`, and `buffer_strcpy` with the length of the string: the copied bytes, and a
  -- null byte behind the end.
  unfoldable pub buffer_strncpy : Buffer → Bytes → ℕ → Option Buffer
  buffer_strncpy b begin size =
      let resized = (buffer_resize b (size + 1)).0 in
      do
        copied ← memory_store resized.region 0 (take size begin)
        ended ← when (ltb 0 resized.size) (memory_store copied (resized.size - 1) (0 ∷ []))
        some record { region = ended; size = resized.size - 1 }

-- `buffer_rewrite`.
unfoldable pub buffer_rewrite : Buffer → Buffer
buffer_rewrite b = record b { size = 0 }

-- `_buffer_downshift`, with its `memmove`.
unfoldable pub buffer_downshift : Buffer → ℕ → ℕ → Buffer
unfolding buffer_rewrite
buffer_downshift b element_size count =
    let size = element_size * count in
    if count == 0 then b else if leb b.size size then buffer_rewrite b else record {
      region = store_at b.region 0 (slice size (b.size - size) b.region);
      size = b.size - size;
    }
