-- ===== src/Dzip/Deflate.antt =====
-- src/dzip/deflate/deflate.c. The statistics, which are only printed, are left out, and so are the
-- assertions. A window is the list of its bytes.
use prog_dir.Base.{
  ℕ, zero, suc, ◌+◌, ◌-◌, ◌*◌, ◌/◌, ◌%◌, ◌^◌, bit_and, bit_or, Option, none, some, [], ◌∷◌, ◌++◌,
  ltb, leb, ◌==◌, if◌then◌else◌, ◌>>=◌, Bytes, length, take, drop, replicate,
}
use prog_dir.Dzip.Format.{
  u32_mod, read_le32, header_bytes, dzip_magic, dzip_version, dzip_header_size, dzip_cmd_literal,
  dzip_cmd_match, dzip_command_mask, dzip_arg1_extend_bit, dzip_meta_bits, dzip_arg1_compact_max,
}
use prog_dir.Vluint.{vluint_write}
use prog_dir.Base.Slices.{slice}

abbrev pub dzip_max_chunk_size : ℕ
dzip_max_chunk_size = 1_000_000

-- `recent` is the array of 16963 positions; `match_distance` and `match_length` are `match`.
pub record DzipDeflateState : Type 0 where
  pub window_progress : ℕ
  pub literal_begin : ℕ
  pub match_distance : ℕ
  pub match_length : ℕ
  pub recent : ℕ → ℕ

-- `dzip_deflate_state_new` allocates zeros.
abbrev pub dzip_deflate_state_new : DzipDeflateState
dzip_deflate_state_new = record {
  window_progress = 0;
  literal_begin = 0;
  match_distance = 0;
  match_length = 0;
  recent = λ _. 0;
}

abbrev recent_count : ℕ
recent_count = 16963

-- An assignment to one slot of the array.
store_recent : (ℕ → ℕ) → ℕ → ℕ → ℕ → ℕ
store_recent recent slot value i = if i == slot then value else recent i

unfoldable pub write_command : Bytes → ℕ → ℕ → Bytes
write_command output command arg =
    let header =
      bit_or (bit_and command dzip_command_mask)
        (arg % dzip_arg1_compact_max * 2 ^ dzip_meta_bits) in
    if ltb arg dzip_arg1_compact_max
    then output ++ header ∷ []
    else vluint_write (output ++ bit_or header dzip_arg1_extend_bit ∷ [])
        (arg / dzip_arg1_compact_max)

unfoldable pub write_literal : Bytes → DzipDeflateState → Bytes → Bytes × DzipDeflateState
write_literal output s window =
    if ltb s.literal_begin s.window_progress
    then (let count = s.window_progress - s.literal_begin in
        (
          write_command output dzip_cmd_literal (count % u32_mod)
              ++ slice s.literal_begin count window,
          record s { literal_begin = s.window_progress },
        ))
    else (output, s)

unfoldable pub write_match : Bytes → DzipDeflateState → Bytes × DzipDeflateState
write_match output s =
    let progress = (s.window_progress + s.match_length) % u32_mod in
    (
      vluint_write (write_command output dzip_cmd_match s.match_length) s.match_distance,
      record s { window_progress = progress; literal_begin = progress },
    )

-- How many bytes of `scan` repeat the bytes at the distance before it, which start `back`.
unfoldable pub check_match : Bytes → Bytes → ℕ
check_match [] back = 0
check_match (x ∷ scan) [] = 0
check_match (x ∷ scan) (y ∷ back) = if x == y then suc (check_match scan back) else 0

unfoldable pub setup_match : DzipDeflateState → Bytes → DzipDeflateState
unfolding store_recent
setup_match s window =
    let scan = drop s.window_progress window in
    let slot = read_le32 scan % recent_count in
    let previous = s.recent slot in
    let recent' = store_recent s.recent slot s.window_progress in
    let distance = s.window_progress - previous in
    if leb s.window_progress previous
    then record s { recent = recent'; match_length = 0 }
    else record s {
      recent = recent';
      match_distance = distance;
      match_length = check_match scan (drop (s.window_progress - distance) window) % u32_mod;
    }

-- One round of the loop of `dzip_deflate_chunk`.
unfoldable pub deflate_round : Bytes → DzipDeflateState → Bytes → Bytes × DzipDeflateState
deflate_round output s window =
    let t = setup_match s window in
    if ltb 4 t.match_length
    then (let (output', u) = write_literal output t window in write_match output' u)
    else (output, record t { window_progress = (t.window_progress + 1) % u32_mod })

-- `while (state->window_progress < max)`; `none` means that the fuel ran out.
unfoldable pub deflate_loop :
    ℕ → ℕ → Bytes → DzipDeflateState → Bytes → Option (Bytes × DzipDeflateState)
deflate_loop zero max output s window = none
deflate_loop (suc fuel) max output s window =
    let (output', t) = deflate_round output s window in
    let rest = deflate_loop fuel max output' t window in
    if ltb s.window_progress max then rest else some (output, s)

-- `buffer_resize` keeps what fits; what it adds is not initialised, and taken for zeros here,
-- since the header is written over it.
unfoldable pub buffer_resize : Bytes → ℕ → Bytes
buffer_resize buffer count = take count buffer ++ replicate (count - length buffer) 0

-- A store of `bytes` at an offset of the buffer.
unfoldable pub store_at : Bytes → ℕ → Bytes → Bytes
store_at buffer offset bytes = take offset buffer ++ bytes ++ drop (offset + length bytes) buffer

unfoldable pub dzip_deflate_chunk :
    Bytes → DzipDeflateState → Bytes → Option (Bytes × DzipDeflateState)
unfolding buffer_resize store_at
dzip_deflate_chunk output s input = do
  let output_start = length output % u32_mod
  let window_size = length input % u32_mod
  let reserved = buffer_resize output ((output_start + dzip_header_size) % 2 ^ 64)
  let start = record s { window_progress = 8; literal_begin = 0 }
  (written, t) ←
      (if ltb 4 window_size
        then deflate_loop (suc window_size) (window_size - 4) reserved start input
        else some (reserved, start))
  let (complete, u) = write_literal written (record t { window_progress = window_size }) input
  some (
    store_at complete output_start (
        header_bytes (record {
          magic = dzip_magic;
          version = dzip_version;
          chunk_size = (length complete - output_start) % u32_mod;
        })),
    u,
  )

-- `rest_size`'s test: a chunk of the largest size as long as more than twice that is left.
unfoldable pub next_size : Bytes → ℕ
next_size input =
    if ltb (2 * dzip_max_chunk_size) (length input) then dzip_max_chunk_size else length input

-- `while (chunk.begin < input->end)`.
unfoldable pub dzip_deflate_loop :
    ℕ → Bytes → DzipDeflateState → Bytes → Option (Bytes × DzipDeflateState)
dzip_deflate_loop zero output s input = none
dzip_deflate_loop (suc fuel) output s input =
    let next = (do
      (output', t) ← dzip_deflate_chunk output s (take (next_size input) input)
      dzip_deflate_loop fuel output' t (drop (next_size input) input)) in
    if ltb 0 (length input) then next else some (output, s)

unfoldable pub dzip_deflate : Bytes → DzipDeflateState → Bytes → Option (Bytes × DzipDeflateState)
unfolding dzip_deflate_loop next_size
dzip_deflate output s input = dzip_deflate_loop (suc (length input)) output s input
