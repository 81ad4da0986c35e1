-- ===== src/Dzip/Inflate.antt =====
-- src/dzip/inflate: inflate.c, and dzip_inflate_range of extensions.c.
-- `args.chunk` is the memory from the chunk's header on.
use prog_dir.Base.{
  ℕ, zero, suc, ◌+◌, ◌-◌, ◌*◌, ◌/◌, ◌%◌, ◌^◌, bit_and, Bool, true, false, not, Option, none, some,
  [], ◌∷◌, ◌++◌, ltb, leb, ◌==◌, if◌then◌else◌, ◌>>=◌, bytes_eq, Bytes, length, get_or, take, drop,
}
use prog_dir.Dzip.Format.{
  u32_mod, dzip_magic, dzip_version, dzip_header_size, read_header, dzip_cmd_literal,
  dzip_cmd_match, dzip_command_mask, dzip_arg1_extend_bit, dzip_meta_bits, dzip_arg1_compact_max,
}
use prog_dir.Vluint.{vluint_read, u64_mod}
use prog_dir.Base.Slices.{slice}

-- How a command ends: with a jump to `fail`, or to `read_cmd` with the input that is left.
pub data Next : Type 0 where
  failed : Next
  read_cmd : Bytes → Bytes → Next

-- `while (arg1 > 0)`: each byte is the one `arg2` before the end.
unfoldable pub copy_match : ℕ → ℕ → Bytes → Bytes
copy_match zero arg2 output = output
copy_match (suc arg1) arg2 output =
    copy_match arg1 arg2 (output ++ get_or output (length output - arg2) 0 ∷ [])

unfoldable pub read_match : ℕ → Bytes → Bytes → Next
read_match arg1 input output = if arg1 == 0 then failed else elim (vluint_read input) [
  | none ↦ failed
  | some r ↦
      if r.result == 0
      then failed
      else if ltb (length output % u32_mod) r.result
      then failed
      else read_cmd r.rest (copy_match arg1 r.result output)
]

unfoldable pub read_literal : ℕ → Bytes → Bytes → Next
read_literal arg1 input output =
    if arg1 == 0
    then failed
    else if ltb (length input % u32_mod) arg1
    then failed
    else read_cmd (drop arg1 input) (output ++ take arg1 input)

unfoldable pub cmd_switch : ℕ → ℕ → Bytes → Bytes → Next
cmd_switch cmd arg1 input output =
    if cmd == dzip_cmd_literal
    then read_literal arg1 input output
    else if cmd == dzip_cmd_match
    then read_match arg1 input output
    else failed

-- From `read_cmd`, on the command byte and what follows it.
unfoldable pub inflate_command : ℕ → Bytes → Bytes → Next
inflate_command byte input output =
    let cmd = bit_and byte dzip_command_mask in
    let arg1 = bit_and (byte / 2 ^ dzip_meta_bits) (dzip_arg1_compact_max - 1) in
    if bit_and byte dzip_arg1_extend_bit == 0
    then cmd_switch cmd arg1 input output
    else elim (vluint_read input) [
      | none ↦ failed
      | some r ↦
          cmd_switch cmd ((arg1 + dzip_arg1_compact_max * r.result % u64_mod) % u64_mod) r.rest
            output
    ]

-- What `dzip_inflate` returns, with what the output buffer holds then.
pub record Inflated : Type 0 where
  pub success : Bool
  pub output : Bytes

-- The commands up to the end of the input; `none` means that the fuel ran out.
unfoldable pub inflate_loop : ℕ → Bytes → Bytes → Option Inflated
inflate_loop fuel [] output = some (record { success = true; output = output })
inflate_loop zero (byte ∷ input) output = none
inflate_loop (suc fuel) (byte ∷ input) output = elim (inflate_command byte input output) [
  | failed ↦ some (record { success = false; output = output })
  | read_cmd input' output' ↦ inflate_loop fuel input' output'
]

-- Each command takes a byte at least.
unfoldable pub inflate_commands : Bytes → Bytes → Option Inflated
inflate_commands input output = inflate_loop (length input) input output

-- `none` is also memory that does not hold the header, or the chunk whose commands are read: C may read
-- behind it there.
unfoldable pub dzip_inflate : Bytes → Bytes → Option Inflated
dzip_inflate chunk output =
    let header = read_header chunk in
    let input = slice dzip_header_size (header.chunk_size - dzip_header_size) chunk in
    if ltb (length chunk) dzip_header_size
    then none
    else if not (bytes_eq header.magic dzip_magic)
    then some (record { success = false; output = output })
    else if not (header.version == dzip_version)
    then some (record { success = false; output = output })
    else if leb header.chunk_size dzip_header_size
    then some (record { success = false; output = output })
    else if ltb (length chunk) header.chunk_size
    then none
    else inflate_commands input output

-- What `dzip_inflate_range` returns, with its output buffer and the input that is left.
pub record RangeInflated : Type 0 where
  pub success : Bool
  pub output : Bytes
  pub input : Bytes

-- `chunk` is the memory from `chunk.byte` to the end of the input; a failure leaves
-- `input->begin` where it was, and returns the `input` of the call.
unfoldable pub inflate_range_loop : ℕ → Bytes → Bytes → Bytes → Option RangeInflated
inflate_range_loop zero input chunk output = none
inflate_range_loop (suc fuel) input chunk output =
    let header = read_header chunk in
    let next = dzip_inflate chunk output >>= λ r.
    let more = inflate_range_loop fuel input (drop header.chunk_size chunk) r.output in
    if r.success
    then more
    else some (record { success = false; output = r.output; input = input }) in
    if not (ltb dzip_header_size (length chunk))
    then some (record { success = true; output = output; input = chunk })
    else if not (bytes_eq header.magic dzip_magic)
    then some (record { success = false; output = output; input = input })
    else if not (header.version == dzip_version)
    then some (record { success = false; output = output; input = input })
    else if ltb (length chunk) header.chunk_size
    then some (record { success = true; output = output; input = chunk })
    else next

unfoldable pub dzip_inflate_range : Bytes → Bytes → Option RangeInflated
unfolding inflate_range_loop
dzip_inflate_range output input = inflate_range_loop (suc (length input)) input input output
