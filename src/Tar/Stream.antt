-- ===== src/Tar/Stream.antt =====
-- src/tar/read.c: reading from a file descriptor, which is the list of the bytes still to come. A read
-- that fails where the bytes end has the effect of the end of the file. The block buffer is `tmp`.
use prog_dir.Base.{
  ℕ, zero, suc, ◌-◌, ◌/◌, Bool, true, false, not, Option, none, some, [], ◌++◌, ltb, ◌==◌,
  if◌then◌else◌, ◌>>=◌, Bytes, length, take, drop,
}
use prog_dir.Tar.{TarState, blocks_of, tar_block_size, tar_error}
use prog_dir.Tar.Read.{tar_update_mem}

-- `buffer_read` up to a size of the buffer, until it gives nothing more.
abbrev pub read_up_to : ℕ → Bytes → Bytes → Bytes × Bytes
read_up_to max buffer fd = (buffer ++ take (max - length buffer) fd, drop (max - length buffer) fd)

-- `tar_read_region` behind the reads: whether it is a success, the buffer, and the bytes left.
abbrev pub region_result : Bytes → ℕ → Bytes → Bytes × Bytes → Bool × Bytes × Bytes
region_result buffer size fd (region, rest) =
    if size == 0
    then (true, buffer, fd)
    else if length region == blocks_of size
    then (true, take size region, rest)
    else (false, region, rest)

unfoldable pub tar_read_region : Bytes → ℕ → Bytes → Bool × Bytes × Bytes
tar_read_region buffer size fd =
    region_result buffer size fd (read_up_to (blocks_of size) buffer fd)

-- The loop of `tar_skip_file` on so many blocks.
unfoldable pub skip_loop : ℕ → TarState → Bytes → Bool × TarState × Bytes
skip_loop zero s fd = (true, s, fd)
skip_loop (suc blocks) s fd =
    let (good, region, rest) = tar_read_region [] tar_block_size fd in
    let next = skip_loop blocks (record s { tmp = region }) rest in
    if good then next else (false, record s { tmp = region }, rest)

unfoldable pub tar_skip_file : TarState → Bytes → Bool × TarState × Bytes
tar_skip_file s fd = skip_loop (blocks_of s.size / tar_block_size) s fd

-- A round of the loop of `tar_update_fd` on a block, with the rest of the file and of the loop.
unfoldable pub update_round :
    (TarState → Bytes → Option (Bool × TarState × Bytes))
    → TarState
    → Bytes
    → Bytes
    → Option (Bool × TarState × Bytes)
update_round more s block rest =
    let t = record s { tmp = block } in
    let next = tar_update_mem t block >>= λ update.
    if not update.success
    then some (false, update.state, rest)
    else if update.state.ready
    then some (true, update.state, rest)
    else more update.state rest in
    if ltb (length block) tar_block_size
    then some (false, record t { type = tar_error; ready = true }, rest)
    else next

-- `tar_update_fd`. A round takes a block, so that there are no more rounds than bytes. `none` is a copy
-- of a negative size, or fuel that ran out.
unfoldable pub update_loop : ℕ → TarState → Bytes → Option (Bool × TarState × Bytes)
update_loop zero s fd = none
update_loop (suc fuel) s fd =
    let (block, rest) = read_up_to tar_block_size [] fd in
    update_round (update_loop fuel) s block rest

unfoldable pub tar_update_fd : TarState → Bytes → Option (Bool × TarState × Bytes)
tar_update_fd s fd = update_loop (suc (length fd)) s fd
