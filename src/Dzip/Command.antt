-- ===== src/Dzip/Command.antt =====
-- src/dzip: the decoder on the commands that the encoder writes.
use prog_dir.Base.{
  ℕ, zero, suc, ◌+◌, ◌*◌, ◌/◌, ◌%◌, ◌^◌, ◌≤◌, ◌<◌, bit_and, bit_or, ◌≡◌, refl, ◌∙◌, [], ◌∷◌, ◌++◌,
  append_assoc, arith, ltb, ◌==◌, if◌then◌else◌, Bytes, length,
}
use prog_dir.Base.Bits.{same_below, same_below_sound}
use prog_dir.Vluint.{vluint_write}
use prog_dir.Dzip.Format.{u32_mod}
use prog_dir.Dzip.Deflate.{write_command}
use prog_dir.Dzip.Inflate.{Next, failed, cmd_switch, inflate_command}
use prog_dir.Vluint.RoundTrip.{vluint_write_shape, vluint_write-append, vluint_read-vluint_write}
use native.Mathlib.Decide.{dec_lt}

-- The command byte, read back by its three masks.
literal_byte : (x : ℕ) → x < 32 → bit_or (bit_and 0 3) (x * 2 ^ 3) ≡ x * 8
unfolding same_below
literal_byte = same_below_sound _ _ 32 refl

match_byte : (x : ℕ) → x < 32 → bit_or (bit_and 1 3) (x * 2 ^ 3) ≡ x * 8 + 1
unfolding same_below
match_byte = same_below_sound _ _ 32 refl

header_bits : (cmd x : ℕ) → cmd < 2 → x < 32 → bit_or (bit_and cmd 3) (x * 2 ^ 3) ≡ x * 8 + cmd
header_bits zero x c h = literal_byte x h ∙ omega arith
header_bits (suc zero) x c h = match_byte x h
header_bits (suc (suc cmd)) x c h = absurd (omega arith)

extend_byte : (b : ℕ) → b < 256 → bit_or b 4 ≡ (if b / 4 % 2 == 0 then b + 4 else b)
unfolding same_below
extend_byte = same_below_sound _ _ 256 refl

read_cmd_bits : (b : ℕ) → b < 256 → bit_and b 3 ≡ b % 4
unfolding same_below
read_cmd_bits = same_below_sound _ _ 256 refl

read_extend_bit : (b : ℕ) → b < 256 → bit_and b 4 ≡ b / 4 % 2 * 4
unfolding same_below
read_extend_bit = same_below_sound _ _ 256 refl

read_arg_bits : (b : ℕ) → b < 32 → bit_and b 31 ≡ b
unfolding same_below
read_arg_bits = same_below_sound _ _ 32 refl

-- `inflate_command` on a whole input.
abbrev pub inflate_front : Bytes → Bytes → Next
inflate_front [] output = failed
inflate_front (byte ∷ input) output = inflate_command byte input output

-- The bytes of one command, without the buffer.
abbrev pub command_bytes : ℕ → ℕ → Bytes
command_bytes cmd arg =
    if ltb arg 32
    then (arg * 8 + cmd) ∷ []
    else (arg % 32 * 8 + cmd + 4) ∷ vluint_write [] (arg / 32)

pub write_command_lem :
    (output : Bytes) (cmd arg : ℕ)
    → cmd < 2
    → arg < u32_mod
    → write_command output cmd arg ≡ output ++ command_bytes cmd arg
unfolding write_command
write_command_lem output cmd arg c h =
    let bits = header_bits cmd (arg % 32) c (omega arith) in
    let ext = extend_byte (arg % 32 * 8 + cmd) (omega arith) in
    let app =
      vluint_write-append (output ++ (arg % 32 * 8 + cmd + 4) ∷ []) (arg / 32) (omega arith) in
    let assoc = append_assoc output ((arg % 32 * 8 + cmd + 4) ∷ []) (vluint_write [] (arg / 32)) in
    elim (dec_lt arg 32) [
      | yes p ↦ ground (arith, bits)
      | no p ↦ ground (arith, bits, ext, app, assoc)
    ]

pub length-command_bytes :
    (cmd arg : ℕ)
    → arg < u32_mod
    → (1 ≤ length (command_bytes cmd arg)) × (length (command_bytes cmd arg) ≤ 11)
length-command_bytes cmd arg h =
    ground (arith, (vluint_write_shape [] (arg / 32) (omega arith) tt).2)

-- The decoder finds the command and its argument, and goes on behind them.
pub inflate_command-command_bytes :
    (cmd arg : ℕ) (rest output : Bytes)
    → cmd < 2
    → arg < u32_mod
    → inflate_front (command_bytes cmd arg ++ rest) output ≡ cmd_switch cmd arg rest output
unfolding inflate_command
inflate_command-command_bytes cmd arg rest output c h = elim (dec_lt arg 32) [
  | yes p ↦
      let b = arg * 8 + cmd in
      ground (arith, read_cmd_bits b, read_extend_bit b, read_arg_bits (b / 8))
  | no p ↦
      let b = arg % 32 * 8 + cmd + 4 in
      ground (
        arith,
        read_cmd_bits b,
        read_extend_bit b,
        read_arg_bits (b / 8),
        vluint_read-vluint_write (arg / 32) rest,
      )
]
