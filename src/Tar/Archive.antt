-- ===== src/Tar/Archive.antt =====
-- src/tar/read.c and src/tar/write.c: an archive read block by block from a file.
use prog_dir.Base.{
  ℕ, suc, ◌+◌, ◌-◌, ◌%◌, ◌<◌, ◌≡◌, refl, sym, ap, ◌∙◌, ◌≢◌, inl, inr, Bool, true, false, Option,
  some, [], ◌++◌, append-nil, append_assoc, arith, ltb, ◌==◌, if◌then◌else◌, Bool-cases, le→ltb,
  ne_of_test, Bytes, length, take, drop, replicate, length-replicate, length-append, take-append,
  drop-append,
}
use prog_dir.Tar.{TarState, tar_block_size, tar_longname, tar_longlink, blocks_of, tar_end}
use prog_dir.Tar.Read.{tar_update_mem, block_is_zero, not_ready, done, read_header}
use prog_dir.Tar.Stream.{
  tar_update_fd, read_up_to, tar_read_region, update_loop, update_round, region_result,
}
use prog_dir.Tar.Write.{
  tar_write_header, Account, WriterEnv, TarWriteArgs, tar_write_padding, lookup_passwd,
  lookup_group, tar_write_end,
}
use prog_dir.Tar.RoundTrip.{
  read_back, IsShort, entry_block, length-entry_block, tar_write_header-entry_block,
  tar_update_mem-entry_block, update_plain,
}

-- A block at the front of a file is what the reader takes.
read_block :
    (block rest : Bytes)
    → length block ≡ tar_block_size
    → read_up_to tar_block_size [] (block ++ rest) ≡ (block, rest)
read_block block rest e =
    ap (λ k. (take k (block ++ rest), drop k (block ++ rest))) (sym e)
    ∙ rw (take-append block rest, drop-append block rest) refl

abbrev Stepper : Type 0
Stepper = TarState → Bytes → Option (Bool × TarState × Bytes)

loop_round :
    (fuel : ℕ) (s : TarState) (block fd : Bytes)
    → length block ≡ tar_block_size
    → update_loop (suc fuel) s (block ++ fd) ≡ update_round (update_loop fuel) s block fd
unfolding update_loop
loop_round fuel s block fd e =
    ap (λ p. update_round (update_loop fuel) s p.0 p.1) (read_block block fd e)

-- A round that has found an item.
round_ready :
    (more : Stepper) (s t : TarState) (block fd left : Bytes)
    → length block ≡ tar_block_size
    → t.ready ≡ true
    → tar_update_mem (record s { tmp = block }) block
      ≡ some record { success = true; state = t; rest = left }
    → update_round more s block fd ≡ some (true, t, fd)
unfolding update_round
round_ready more s t block fd left e r u =
    let full : ltb (length block) tar_block_size ≡ false = le→ltb _ _ (omega (arith, e)) in
    rw (full, u, r) refl

module _ (env : WriterEnv) (args : TarWriteArgs) (passwd group : Account)
    (has_passwd : lookup_passwd env args ≡ some passwd)
    (has_group : lookup_group env args ≡ some group) (short : IsShort args) where
  -- The header that is written for a file, a directory or a symbolic link is what the next update from a
  -- file reads: the type, name and mode, the size of a file and the link of a symbolic link, when the
  -- name and the link have a place in the header, the user and the group are known, the mode is below
  -- 8^7 and the size below 8^11, and the state is not within a long name or link.
  pub tar_update_fd-tar_write_header :
      (fuel : ℕ) (output fd : Bytes) (s : TarState)
      → s.type ≢ tar_longname
      → s.type ≢ tar_longlink
      → (block : Bytes) × (tar_write_header env (suc fuel) args output
          ≡ some (true, output ++ block))
        × (tar_update_fd s (block ++ fd)
            ≡ some (true, read_back args (record s { tmp = block }), fd))
  unfolding tar_update_fd
  tar_update_fd-tar_write_header fuel output fd s n l =
      let block = entry_block env args passwd group has_passwd has_group short output in
      let size = length-entry_block env args passwd group has_passwd has_group short output in
      let read =
        tar_update_mem-entry_block env args passwd group has_passwd has_group short output []
          (record s { tmp = block }) n l in
      (
        block,
        tar_write_header-entry_block env args passwd group has_passwd has_group short fuel output,
        loop_round (length (block ++ fd)) s block fd size
            ∙ round_ready (update_loop (length (block ++ fd))) s
                (read_back args (record s { tmp = block })) block fd [] size refl
                (ap (tar_update_mem (record s { tmp = block })) (sym (append-nil block)) ∙ read),
      )

-- The padding of some contents.
padding : ℕ → Bytes
padding size =
    if size % tar_block_size == 0 then [] else replicate (tar_block_size - size % tar_block_size) 0

tar_write_padding-append :
    (output : Bytes) (size : ℕ) → tar_write_padding output size ≡ output ++ padding size
unfolding tar_write_padding padding
tar_write_padding-append output size = elim (Bool-cases (size % tar_block_size == 0)) [
  | inl e ↦ rw e (sym (append-nil output))
  | inr e ↦ rw e refl
]

length-padding : (size : ℕ) → size + length (padding size) ≡ blocks_of size
unfolding padding
length-padding size = elim (Bool-cases (size % tar_block_size == 0)) [
  | inl e ↦ rw e (omega arith)
  | inr e ↦ rw e (
      omega (
        arith,
        length-replicate {A = ℕ} (tar_block_size - size % tar_block_size) 0,
        ne_of_test _ _ e,
      ))
]

same_test : (a b : ℕ) → a ≡ b → (a == b) ≡ true
same_test a b e = ground arith

region_front :
    (contents pad rest : Bytes)
    → read_up_to (length contents + length pad) [] ((contents ++ pad) ++ rest)
      ≡ (contents ++ pad, rest)
region_front contents pad rest =
    ap (λ k. (take k ((contents ++ pad) ++ rest), drop k ((contents ++ pad) ++ rest)))
      {y = length (contents ++ pad)} (omega (arith, length-append contents pad))
    ∙ rw (take-append (contents ++ pad) rest, drop-append (contents ++ pad) rest) refl

-- The contents of a file, behind other output, and the padding behind them are read back as they are.
pub tar_read_region-tar_write_padding :
    (output contents rest : Bytes)
    → 0 < length contents
    → (padded : Bytes) × (tar_write_padding (output ++ contents) (length contents)
        ≡ output ++ padded)
      × (tar_read_region [] (length contents) (padded ++ rest) ≡ (true, contents, rest))
unfolding tar_read_region
tar_read_region-tar_write_padding output contents rest h =
    let size = length contents in
    let pad = padding size in
    let whole = contents ++ pad in
    let region : read_up_to (blocks_of size) [] (whole ++ rest) ≡ (whole, rest) =
      ap (λ k. read_up_to k [] (whole ++ rest)) (sym (length-padding size))
      ∙ region_front contents pad rest in
    let some_bytes : (size == 0) ≡ false = ground arith in
    let full : (length whole == blocks_of size) ≡ true =
      same_test _ _ (length-append contents pad ∙ length-padding size) in
    (
      whole,
      tar_write_padding-append (output ++ contents) size ∙ append_assoc output contents pad,
      ap (region_result [] size (whole ++ rest)) region
          ∙ rw (region_result, some_bytes, full, take-append contents pad) refl,
    )

abbrev zeros : Bytes
zeros = replicate tar_block_size 0

zero_block : block_is_zero 64 zeros ≡ true
unfolding block_is_zero
zero_block = refl

read_zeros :
    (s : TarState)
    → read_header false false s zeros
      ≡ (if s.type == tar_end then done s [] else not_ready (record s { type = tar_end }) [])
unfolding read_header
read_zeros s = rw zero_block refl

round_more :
    (more : Stepper) (s t : TarState) (block fd left : Bytes)
    → length block ≡ tar_block_size
    → t.ready ≡ false
    → tar_update_mem (record s { tmp = block }) block
      ≡ some record { success = true; state = t; rest = left }
    → update_round more s block fd ≡ more t fd
unfolding update_round
round_more more s t block fd left e r u =
    let full : ltb (length block) tar_block_size ≡ false = le→ltb _ _ (omega (arith, e)) in
    rw (full, u, r) refl

round_done :
    (more : Stepper) (s t : TarState) (block fd left : Bytes)
    → length block ≡ tar_block_size
    → tar_update_mem (record s { tmp = block }) block
      ≡ some record { success = false; state = t; rest = left }
    → update_round more s block fd ≡ some (false, t, fd)
unfolding update_round
round_done more s t block fd left e u =
    let full : ltb (length block) tar_block_size ≡ false = le→ltb _ _ (omega (arith, e)) in
    rw (full, u) refl

first_zeros :
    (s : TarState)
    → s.type ≢ tar_longname
    → s.type ≢ tar_longlink
    → s.type ≢ tar_end
    → tar_update_mem (record s { tmp = zeros }) zeros
      ≡ some record {
        success = true;
        state = record s { ready = false; type = tar_end; tmp = zeros };
        rest = [];
      }
first_zeros s n l e =
    let other : (s.type == tar_end) ≡ false = ground arith in
    update_plain (record s { tmp = zeros }) zeros n l
    ∙ ap some (read_zeros (record s { tmp = zeros; ready = false }) ∙ rw other refl)

second_zeros :
    (s : TarState)
    → s.type ≡ tar_end
    → tar_update_mem (record s { tmp = zeros }) zeros
      ≡ some record {
        success = false;
        state = record s { ready = true; type = tar_end; tmp = zeros };
        rest = [];
      }
second_zeros s e =
    update_plain (record s { tmp = zeros }) zeros (λ h. omega arith) (λ h. omega arith)
    ∙ ap some (read_zeros (record s { tmp = zeros; ready = false }) ∙ rw e refl)

-- The end that is written behind some output is where reading stops: the update there fails with the
-- type of an end, and what stands behind is left.
pub tar_update_fd-tar_write_end :
    (output fd : Bytes) (s : TarState)
    → s.type ≢ tar_longname
    → s.type ≢ tar_longlink
    → s.type ≢ tar_end
    → (end : Bytes) × (tar_write_end output ≡ output ++ end)
      × (tar_update_fd s (end ++ fd)
          ≡ some (
            false,
            record s { ready = true; type = tar_end; tmp = replicate tar_block_size 0 },
            fd,
          ))
unfolding tar_write_end tar_update_fd
tar_update_fd-tar_write_end output fd s n l e =
    let t : TarState = record s { ready = false; type = tar_end; tmp = zeros } in
    let k = length (drop 1 ((zeros ++ zeros) ++ fd)) in
    (
      zeros ++ zeros,
      refl,
      ap (update_loop (suc (suc k)) s) (append_assoc zeros zeros fd)
          ∙ loop_round (suc k) s zeros (zeros ++ fd) refl
          ∙ round_more (update_loop (suc k)) s t zeros (zeros ++ fd) [] refl refl
              (first_zeros s n l e)
          ∙ loop_round k t zeros fd refl
          ∙ round_done (update_loop k) t (record t { ready = true }) zeros fd [] refl
              (second_zeros t refl),
    )
