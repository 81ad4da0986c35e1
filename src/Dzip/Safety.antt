-- ===== src/Dzip/Safety.antt =====
-- src/dzip/inflate: the decoder on arbitrary bytes.
use prog_dir.Base.{
  ℕ, zero, suc, ◌+◌, ◌-◌, ◌*◌, ◌/◌, ◌%◌, ◌≤◌, ◌<◌, bit_and, ◌≡◌, refl, sym, ◌∙◌, ◌⊎◌, inl, inr,
  true, false, some, [], ◌∷◌, ◌++◌, arith, ltb, ◌==◌, if◌then◌else◌, Bool-cases, Option-cases,
  bytes_eq, Bytes, length, get_or, take, drop, length-drop, take-append,
}
use prog_dir.Dzip.Inflate.{
  failed, read_cmd, read_match, read_literal, cmd_switch, inflate_command, inflate_loop,
  inflate_commands, Inflated, copy_match, dzip_inflate, RangeInflated, inflate_range_loop,
  dzip_inflate_range,
}
use prog_dir.Base.Slices.{slice, Extends, Extends-refl, Extends-trans, drop-drop}
use prog_dir.Vluint.{u64_mod, vluint_read}
use prog_dir.Dzip.Format.{read_header, dzip_magic, dzip_version}
use prog_dir.Dzip.Commands.{
  inflate_commands_total, Next-cases, inflate_loop_failed, inflate_loop_read_cmd,
}

copy_match-Extends :
    (count distance : ℕ) (output : Bytes) → Extends output (copy_match count distance output)
unfolding copy_match
copy_match-Extends zero d output = Extends-refl output
copy_match-Extends (suc n) d output =
    let next = get_or output (length output - d) 0 ∷ [] in
    Extends-trans output (output ++ next) (copy_match n d (output ++ next))
      (take-append output next) (copy_match-Extends n d (output ++ next))

read_match-Extends :
    (arg1 : ℕ) (input output input' output' : Bytes)
    → read_match arg1 input output ≡ read_cmd input' output'
    → Extends output output'
unfolding read_match
read_match-Extends arg1 input output i o h = elim (Option-cases (vluint_read input)) [
  | inl e ↦ ground (arith, e)
  | inr (r, e) ↦ ground (arith, e, copy_match-Extends arg1 r.result output)
]

cmd_switch-Extends :
    (cmd arg1 : ℕ) (input output input' output' : Bytes)
    → cmd_switch cmd arg1 input output ≡ read_cmd input' output'
    → Extends output output'
unfolding cmd_switch read_literal
cmd_switch-Extends cmd arg1 input output i o h =
    ground (arith, take-append output (take arg1 input), read_match-Extends arg1 input output i o)

command-Extends :
    (byte : ℕ) (input output input' output' : Bytes)
    → inflate_command byte input output ≡ read_cmd input' output'
    → Extends output output'
unfolding inflate_command
command-Extends byte input output i o h =
    let low = bit_and (byte / 8) 31 in
    elim (Option-cases (vluint_read input)) [
      | inl e ↦ ground (arith, e, cmd_switch-Extends (bit_and byte 3) low input output i o)
      | inr (r, e) ↦ ground (
        arith,
        e,
        cmd_switch-Extends (bit_and byte 3) low input output i o,
        cmd_switch-Extends (bit_and byte 3) ((low + 32 * r.result % u64_mod) % u64_mod) r.rest
            output i o,
      )
    ]

inflate_loop-Extends :
    (fuel : ℕ) (input output : Bytes) (r : Inflated)
    → inflate_loop fuel input output ≡ some r
    → Extends output r.output
inflate_loop-Extends fuel [] output r h = unfold inflate_loop in ground (arith, Extends-refl output)
inflate_loop-Extends zero (b ∷ input) output r h = unfold inflate_loop in cc
inflate_loop-Extends (suc fuel) (b ∷ input) output r h =
    elim (Next-cases (inflate_command b input output)) [
      | inl e ↦ failed_case e
      | inr (i, o, e) ↦
          Extends-trans output o r.output (command-Extends b input output i o e) (
            inflate_loop-Extends fuel i o r (sym (inflate_loop_read_cmd fuel b input output e) ∙ h))
    ]
  where
    failed_case : inflate_command b input output ≡ failed → Extends output r.output
    failed_case e = ground (arith, inflate_loop_failed fuel b input output e, Extends-refl output)

-- What `dzip_inflate` can answer: `false` at once, or what the commands give.
dzip_inflate_cases :
    (memory output : Bytes)
    → 16 ≤ length memory
    → (read_header memory).chunk_size ≤ length memory
    → (dzip_inflate memory output ≡ some (record { success = false; output = output }))
      ⊎ ((dzip_inflate memory output
            ≡ inflate_commands (slice 16 ((read_header memory).chunk_size - 16) memory) output)
          × (16 < (read_header memory).chunk_size))
unfolding dzip_inflate
dzip_inflate_cases memory output h k = ground arith

-- The decoder on one chunk, for the loop over chunks: a success moves the loop on.
inflate_result :
    (memory output : Bytes)
    → 16 ≤ length memory
    → (read_header memory).chunk_size ≤ length memory
    → (r : Inflated) × (dzip_inflate memory output ≡ some r)
      × Extends output r.output
      × (r.success ≡ true → 16 < (read_header memory).chunk_size)
inflate_result memory output h k = elim (dzip_inflate_cases memory output h k) [
  | inl e ↦ (_, e, Extends-refl output, λ q. cc)
  | inr (e, long) ↦
      let body = slice 16 ((read_header memory).chunk_size - 16) memory in
      let (r, p) = inflate_commands_total body output in
      (
        r,
        e ∙ p,
        unfold inflate_commands in inflate_loop-Extends (length body) body output r p,
        λ _. long,
      )
]

-- On memory that holds a header and as many bytes as the header says for the chunk, `dzip_inflate`
-- returns, whatever these bytes are, and keeps what the output buffer holds.
pub dzip_inflate_total :
    (memory output : Bytes)
    → 16 ≤ length memory
    → (read_header memory).chunk_size ≤ length memory
    → (r : Inflated) × (dzip_inflate memory output ≡ some r) × Extends output r.output
dzip_inflate_total memory output h k =
    let (r, e, kept, bound) = inflate_result memory output h k in (r, e, kept)

-- How a call of `dzip_inflate_range` ends, from a chunk at the front of `memory` on.
record IsRangeResult (whole memory output : Bytes) (r : RangeInflated) : Type 0 where
  pub kept : Extends output r.output
  pub advanced : r.success ≡ true → (n : ℕ) × (r.input ≡ drop n memory)
  pub unmoved : r.success ≡ false → r.input ≡ whole

-- One round of the range loop: it stops, it fails, or it inflates a chunk and moves behind it.
range_cases :
    (fuel : ℕ) (whole memory output : Bytes)
    → ((inflate_range_loop (suc fuel) whole memory output
          ≡ some (record { success = true; output = output; input = memory }))
        ⊎ (inflate_range_loop (suc fuel) whole memory output
            ≡ some (record { success = false; output = output; input = whole })))
      ⊎ ((16 < length memory)
          × ((read_header memory).chunk_size ≤ length memory)
          × ((r : Inflated)
              → dzip_inflate memory output ≡ some r
              → inflate_range_loop (suc fuel) whole memory output ≡ (
                  if r.success
                  then inflate_range_loop fuel whole
                      (drop (read_header memory).chunk_size memory)
                      r.output
                  else some (record { success = false; output = r.output; input = whole }))))
unfolding inflate_range_loop
range_cases fuel whole memory output = elim (Bool-cases (ltb 16 (length memory))) [
  | inr a ↦ inl (inl (rw a refl))
  | inl a ↦ elim (Bool-cases (bytes_eq (read_header memory).magic dzip_magic)) [
    | inr b ↦ inl (inr (rw (a, b) refl))
    | inl b ↦ elim (Bool-cases ((read_header memory).version == dzip_version)) [
      | inr c ↦ inl (inr (rw (a, b, c) refl))
      | inl c ↦ elim (Bool-cases (ltb (length memory) (read_header memory).chunk_size)) [
        | inl d ↦ inl (inl (rw (a, b, c, d) refl))
        | inr d ↦ inr (ground arith, ground arith, λ r e. rw (a, b, c, d, e) refl)
      ]
    ]
  ]
]

range_loop_total :
    (fuel : ℕ) (whole memory output : Bytes)
    → length memory < fuel
    → (r : RangeInflated) × (inflate_range_loop fuel whole memory output ≡ some r)
      × IsRangeResult whole memory output r
range_loop_total zero whole memory output h = absurd (omega arith)
range_loop_total (suc fuel) whole memory output h = elim (range_cases fuel whole memory output) [
  | inl (inl e) ↦
      (_, e, record { kept = Extends-refl output; advanced = λ _. (0, refl); unmoved = λ q. cc })
  | inl (inr e) ↦
      (_, e, record { kept = Extends-refl output; advanced = λ q. cc; unmoved = λ _. refl })
  | inr (long, held, go) ↦
      let size = (read_header memory).chunk_size in
      let (r, e, kept, bound) = inflate_result memory output (omega arith) held in
      elim (Bool-cases r.success) [
        | inr bad ↦ (
          record { success = false; output = r.output; input = whole },
          go r e ∙ rw bad refl,
          record { kept = kept; advanced = λ q. cc; unmoved = λ _. refl },
        )
        | inl ok ↦
            let shorter = length-drop size memory in
            let positive = bound ok in
            let (q, f, rest) =
              range_loop_total fuel whole (drop size memory) r.output (omega arith) in
            (
              q,
              go r e ∙ rw ok f,
              record {
                kept = Extends-trans output r.output q.output kept rest.kept;
                advanced =
                    λ t. let (n, p) = rest.advanced t in (size + n, p ∙ drop-drop n size memory);
                unmoved = rest.unmoved;
              },
            )
      ]
]

-- On any input `dzip_inflate_range` returns and keeps what its output buffer holds; when it returns
-- true its input begins some bytes further on, and when it returns false its input is unchanged.
pub dzip_inflate_range_total :
    (output input : Bytes)
    → (r : RangeInflated) × (dzip_inflate_range output input ≡ some r)
      × Extends output r.output
      × (r.success ≡ true → (n : ℕ) × (r.input ≡ drop n input))
      × (r.success ≡ false → r.input ≡ input)
dzip_inflate_range_total output input =
    let (r, e, result) = range_loop_total (suc (length input)) input input output (omega arith) in
    (r, unfold dzip_inflate_range in e, result.kept, result.advanced, result.unmoved)
