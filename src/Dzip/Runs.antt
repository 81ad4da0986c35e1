-- ===== src/Dzip/Runs.antt =====
-- Runs of the code of src/dzip, and the theorems at concrete inputs.
use prog_dir.Base.{ℕ, ◌≡◌, refl, true, false, Option, none, some, [], ◌∷◌, ◌++◌, arith, Bytes, drop}
use prog_dir.Dzip.Deflate.{
  DzipDeflateState, dzip_deflate_state_new, dzip_deflate_chunk, dzip_deflate, write_command,
  write_literal, write_match, check_match, setup_match, deflate_round, deflate_loop, next_size,
  dzip_deflate_loop,
}
use prog_dir.Dzip.Inflate.{
  dzip_inflate, dzip_inflate_range, Inflated, RangeInflated, copy_match, read_match, read_literal,
  cmd_switch, inflate_command, inflate_loop, inflate_commands,
}
use prog_dir.Vluint.{vluint_read, vluint_write}
use prog_dir.Base.Slices.{Extends}
use prog_dir.Dzip.Format.{header_bytes, read_header, read_le32}
use prog_dir.Dzip.Safety.{dzip_inflate_total, dzip_inflate_range_total}
use prog_dir.Dzip.Stream.{dzip_inflate-dzip_deflate_chunk, dzip_inflate_range-dzip_deflate}

-- Twenty bytes, of which the last ten repeat.
abbrev sample : Bytes
sample = 1 ∷ 2 ∷ 3 ∷ 4 ∷ 5 ∷ 6 ∷ 7 ∷ 8 ∷ 9 ∷ 10 ∷ 9 ∷ 10 ∷ 9 ∷ 10 ∷ 9 ∷ 10 ∷ 9 ∷ 10 ∷ 9 ∷ 10 ∷ []

abbrev sample_chunk : Bytes
sample_chunk =
    b'd' ∷ b'e' ∷ b'e' ∷ b'z' ∷ b'w' ∷ b'h' ∷ b'a' ∷ b't' ∷ 1 ∷ 0 ∷ 0 ∷ 0 ∷ 29 ∷ 0 ∷ 0 ∷ 0 ∷ 80 ∷ 1
    ∷ 2 ∷ 3 ∷ 4 ∷ 5 ∷ 6 ∷ 7 ∷ 8 ∷ 9 ∷ 10 ∷ 81 ∷ 2 ∷ []

written : Option (Bytes × DzipDeflateState) → Bytes
written none = []
written (some r) = r.0

deflate_sample : written (dzip_deflate [] dzip_deflate_state_new sample) ≡ sample_chunk
unfolding written dzip_deflate dzip_deflate_loop dzip_deflate_chunk deflate_loop deflate_round
    setup_match write_literal write_match write_command check_match vluint_write header_bytes
    next_size read_le32
deflate_sample = refl

inflate_sample : dzip_inflate sample_chunk [] ≡ some (record { success = true; output = sample })
unfolding dzip_inflate inflate_commands inflate_loop inflate_command cmd_switch read_literal
    read_match copy_match vluint_read read_header
inflate_sample = refl

dzip_inflate-dzip_deflate_chunk_example :
    (r : Bytes × DzipDeflateState) × (dzip_deflate_chunk [] dzip_deflate_state_new sample ≡ some r)
    × (dzip_inflate r.0 (7 ∷ []) ≡ some (record { success = true; output = 7 ∷ sample }))
dzip_inflate-dzip_deflate_chunk_example =
    dzip_inflate-dzip_deflate_chunk dzip_deflate_state_new sample (7 ∷ []) (λ q. cc) (omega arith)
      (omega arith)

dzip_inflate_range-dzip_deflate_example :
    (r : Bytes × DzipDeflateState) × (dzip_deflate [] dzip_deflate_state_new sample ≡ some r)
    × (dzip_inflate_range (7 ∷ []) (r.0 ++ 0 ∷ 1 ∷ [])
        ≡ some (record { success = true; output = 7 ∷ sample; input = 0 ∷ 1 ∷ [] }))
dzip_inflate_range-dzip_deflate_example =
    dzip_inflate_range-dzip_deflate dzip_deflate_state_new sample (7 ∷ []) (0 ∷ 1 ∷ [])
      (omega arith) (omega arith) (omega arith)

dzip_inflate_total_example :
    (r : Inflated) × (dzip_inflate sample_chunk (7 ∷ []) ≡ some r) × Extends (7 ∷ []) r.output
dzip_inflate_total_example =
    dzip_inflate_total sample_chunk (7 ∷ []) (omega arith) (unfold read_header in omega arith)

dzip_inflate_range_total_example :
    (r : RangeInflated) × (dzip_inflate_range (7 ∷ []) sample_chunk ≡ some r)
    × Extends (7 ∷ []) r.output
    × (r.success ≡ true → (n : ℕ) × (r.input ≡ drop n sample_chunk))
    × (r.success ≡ false → r.input ≡ sample_chunk)
dzip_inflate_range_total_example = dzip_inflate_range_total (7 ∷ []) sample_chunk
