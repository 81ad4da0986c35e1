-- ===== src/Dzip/Commands.antt =====
-- src/dzip/inflate/inflate.c: the loop of the decoder, command by command.
use prog_dir.Base.{
  ℕ, zero, suc, ◌+◌, ◌*◌, ◌/◌, ◌%◌, ◌≤◌, bit_and, ◌≡◌, refl, sym, ◌∙◌, ◌≢◌, ◌⊎◌, inl, inr, false,
  some, [], ◌∷◌, arith, Option-cases, Bytes, length, length-drop,
}
use prog_dir.Dzip.Inflate.{
  Next, failed, read_cmd, read_match, read_literal, cmd_switch, inflate_command, inflate_loop,
  inflate_commands, Inflated,
}
use prog_dir.Dzip.Command.{inflate_front}
use prog_dir.Vluint.{u64_mod, vluint_read}
use prog_dir.Vluint.RoundTrip.{vluint_read_shape}

read_match_shrinks :
    (arg1 : ℕ) (input output : Bytes) (input' output' : Bytes)
    → read_match arg1 input output ≡ read_cmd input' output'
    → length input' ≤ length input
unfolding read_match
read_match_shrinks arg1 input output i o h = elim (Option-cases (vluint_read input)) [
  | inl e ↦ ground (arith, e)
  | inr (r, e) ↦ ground (arith, e, vluint_read_shape input r e)
]

cmd_switch_shrinks :
    (cmd arg1 : ℕ) (input output : Bytes) (input' output' : Bytes)
    → cmd_switch cmd arg1 input output ≡ read_cmd input' output'
    → length input' ≤ length input
unfolding cmd_switch read_literal
cmd_switch_shrinks cmd arg1 input output i o h =
    ground (arith, length-drop arg1 input, read_match_shrinks arg1 input output i o)

command_shrinks :
    (byte : ℕ) (input output : Bytes) (input' output' : Bytes)
    → inflate_command byte input output ≡ read_cmd input' output'
    → length input' ≤ length input
unfolding inflate_command
command_shrinks byte input output i o h = elim (Option-cases (vluint_read input)) [
  | inl e ↦
      ground
        (arith, e, cmd_switch_shrinks (bit_and byte 3) (bit_and (byte / 8) 31) input output i o)
  | inr (r, e) ↦ ground (
    arith,
    e,
    vluint_read_shape input r e,
    cmd_switch_shrinks (bit_and byte 3) (bit_and (byte / 8) 31) input output i o,
    cmd_switch_shrinks (bit_and byte 3)
        ((bit_and (byte / 8) 31 + 32 * r.result % u64_mod) % u64_mod) r.rest output i o,
  )
]

pub Next-cases : (n : Next) → (n ≡ failed) ⊎ ((i : Bytes) × (o : Bytes) × (n ≡ read_cmd i o))
Next-cases failed = inl refl
Next-cases (read_cmd i o) = inr (i, o, refl)

-- One round of the loop, with the command shut.
pub inflate_loop_failed :
    (fuel byte : ℕ) (input output : Bytes)
    → inflate_command byte input output ≡ failed
    → inflate_loop (suc fuel) (byte ∷ input) output
      ≡ some (record { success = false; output = output })
unfolding inflate_loop
inflate_loop_failed fuel byte input output h = rw (h, inflate_loop)

pub inflate_loop_read_cmd :
    (fuel byte : ℕ) (input output : Bytes) {input' output' : Bytes}
    → inflate_command byte input output ≡ read_cmd input' output'
    → inflate_loop (suc fuel) (byte ∷ input) output ≡ inflate_loop fuel input' output'
unfolding inflate_loop
inflate_loop_read_cmd fuel byte input output h = rw (h, inflate_loop)

-- Fuel for every byte of the input is enough, and more changes nothing.
inflate_fuel :
    (f g : ℕ) (input output : Bytes)
    → length input ≤ f
    → length input ≤ g
    → inflate_loop f input output ≡ inflate_loop g input output
inflate_fuel f g [] output hf hg = unfold inflate_loop in refl
inflate_fuel zero g (b ∷ input) output hf hg = absurd (omega arith)
inflate_fuel (suc f) zero (b ∷ input) output hf hg = absurd (omega arith)
inflate_fuel (suc f) (suc g) (b ∷ input) output hf hg =
    elim (Next-cases (inflate_command b input output)) [
      | inl e ↦
          inflate_loop_failed f b input output e ∙ sym (inflate_loop_failed g b input output e)
      | inr (i, o, e) ↦
          inflate_loop_read_cmd f b input output e
          ∙ inflate_fuel f g i o (omega (arith, command_shrinks b input output i o e))
              (omega (arith, command_shrinks b input output i o e))
          ∙ sym (inflate_loop_read_cmd g b input output e)
    ]

inflate_loop_total :
    (f : ℕ) (input output : Bytes)
    → length input ≤ f
    → (r : Inflated) × (inflate_loop f input output ≡ some r)
inflate_loop_total f [] output h = unfold inflate_loop in (_, refl)
inflate_loop_total zero (b ∷ input) output h = absurd (omega arith)
inflate_loop_total (suc f) (b ∷ input) output h =
    elim (Next-cases (inflate_command b input output)) [
      | inl e ↦ (_, inflate_loop_failed f b input output e)
      | inr (i, o, e) ↦
          let (r, p) =
            inflate_loop_total f i o (omega (arith, command_shrinks b input output i o e)) in
          (r, inflate_loop_read_cmd f b input output e ∙ p)
    ]

-- The commands of a chunk end on every input, with success or with failure.
pub inflate_commands_total :
    (input output : Bytes) → (r : Inflated) × (inflate_commands input output ≡ some r)
unfolding inflate_commands
inflate_commands_total input output = inflate_loop_total (length input) input output (omega arith)

-- A command that does not fail leads to what is left of the input.
pub inflate_commands_step :
    (input output : Bytes) {input' output' : Bytes}
    → inflate_front input output ≡ read_cmd input' output'
    → inflate_commands input output ≡ inflate_commands input' output'
unfolding inflate_commands
inflate_commands_step [] output h = cc
inflate_commands_step (b ∷ input) output {input'} {output'} h =
    inflate_loop_read_cmd (length input) b input output h
    ∙ inflate_fuel (length input) (length input') input' output'
        (omega (arith, command_shrinks b input output input' output' h)) (omega arith)

-- A command that fails ends the chunk.
pub inflate_commands_failed :
    (input output : Bytes)
    → input ≢ []
    → inflate_front input output ≡ failed
    → inflate_commands input output ≡ some (record { success = false; output = output })
unfolding inflate_commands
inflate_commands_failed [] output ne h = absurd (ne refl)
inflate_commands_failed (b ∷ input) output ne h =
    inflate_loop_failed (length input) b input output h
