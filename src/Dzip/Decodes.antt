-- ===== src/Dzip/Decodes.antt =====
-- src/dzip: sequences of commands, by what the decoder makes of them.
use prog_dir.Base.{
  ℕ, ◌+◌, ◌≤◌, ◌<◌, ◌≡◌, ap, ◌∙◌, [], ◌++◌, append_assoc, arith, Bytes, length, length-append,
  take-append, drop-append,
}
use prog_dir.Dzip.Inflate.{
  inflate_commands, cmd_switch, read_literal, read_match, read_cmd, copy_match,
}
use prog_dir.Dzip.Command.{command_bytes, inflate_front, inflate_command-command_bytes}
use prog_dir.Vluint.{vluint_write}
use prog_dir.Dzip.Format.{u32_mod}
use prog_dir.Dzip.Commands.{inflate_commands_step}
use prog_dir.Vluint.RoundTrip.{vluint_read-vluint_write}

-- The commands `body` take the decoder from one output to another, whatever follows them.
abbrev pub Decodes : Bytes → Bytes → Bytes → Type 0
Decodes body before after =
    (rest : Bytes)
    → length body + length rest < u32_mod
    → inflate_commands (body ++ rest) before ≡ inflate_commands rest after

pub Decodes-append :
    (a b before between after : Bytes)
    → Decodes a before between
    → Decodes b between after
    → Decodes (a ++ b) before after
Decodes-append a b before between after p q rest h = rw (append_assoc a b rest) (
    p (b ++ rest) (omega (arith, length-append a b, length-append b rest))
    ∙ q rest (omega (arith, length-append a b)))

read_literal_lem :
    (bytes rest output : Bytes)
    → 0 < length bytes
    → length bytes + length rest < u32_mod
    → cmd_switch 0 (length bytes) (bytes ++ rest) output ≡ read_cmd rest (output ++ bytes)
unfolding cmd_switch read_literal
read_literal_lem bytes rest output pos h =
    ground (arith, length-append bytes rest, take-append bytes rest, drop-append bytes rest)

-- A literal command appends its bytes.
pub Decodes-literal :
    (bytes output : Bytes)
    → 0 < length bytes
    → length bytes < u32_mod
    → Decodes (command_bytes 0 (length bytes) ++ bytes) output (output ++ bytes)
Decodes-literal bytes output pos small rest h =
    let front = command_bytes 0 (length bytes) in
    let l = length-append front bytes in
    inflate_commands_step ((front ++ bytes) ++ rest) output (
      ap (λ t. inflate_front t output) (append_assoc front bytes rest)
      ∙ inflate_command-command_bytes 0 (length bytes) (bytes ++ rest) output (omega arith) small
      ∙ read_literal_lem bytes rest output pos (omega (arith, l)))

read_match_lem :
    (count distance : ℕ) (rest output : Bytes)
    → 0 < count
    → 0 < distance
    → distance ≤ length output
    → length output < u32_mod
    → cmd_switch 1 count (vluint_write [] distance ++ rest) output
      ≡ read_cmd rest (copy_match count distance output)
unfolding cmd_switch read_match
read_match_lem count distance rest output pos dpos dle small =
    ground (arith, vluint_read-vluint_write distance rest)

-- A match command copies from the output.
pub Decodes-match :
    (count distance : ℕ) (output : Bytes)
    → 0 < count
    → count < u32_mod
    → 0 < distance
    → distance ≤ length output
    → length output < u32_mod
    → Decodes
        (command_bytes 1 count ++ vluint_write [] distance)
        output
        (copy_match count distance output)
Decodes-match count distance output pos csmall dpos dle small rest h =
    let front = command_bytes 1 count in
    let dist = vluint_write [] distance in
    inflate_commands_step ((front ++ dist) ++ rest) output (
      ap (λ t. inflate_front t output) (append_assoc front dist rest)
      ∙ inflate_command-command_bytes 1 count (dist ++ rest) output (omega arith) csmall
      ∙ read_match_lem count distance rest output pos dpos dle small)
