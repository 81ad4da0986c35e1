-- ===== src/Tar/Written.antt =====
-- src/tar/write.c and src/tar/read.c: what a reader finds in a header that is written.
use prog_dir.Base.{
  ℕ, zero, suc, ◌+◌, ◌-◌, ◌^◌, ◌≤◌, ◌<◌, ◌≡◌, refl, sym, ap, ◌∙◌, ◌≢◌, true, false, [], ◌∷◌, ◌++◌,
  append_assoc, arith, ltb, leb, le→ltb, Bytes, length, get_or, take, drop, replicate,
  length-append, length-take, All, drop-append, c_string, c_string-append,
}
use prog_dir.Tar.Read.{
  tar_get_size, tar_get_mode, block_is_zero, TarUpdate, read_mode, read_size, read_item,
  read_header, first_char, get_octal, is_octal,
}
use prog_dir.Tar.{tar_dir, tar_file, tar_symlink, TarState, regtype, symtype, dirtype}
use prog_dir.Base.Slices.{take-all}
use prog_dir.Tar.Octal.{length-printf_octal, printf_octal-first, get_octal-printf_octal}
use prog_dir.Tar.Blocks.{block_is_zero-get_or}
use prog_dir.Tar.Write.{
  Account, TarWriteArgs, printf_octal, octal_field, PosixHeader, header_block, with_checksum,
  header_of, field,
}
use prog_dir.Tar.Fields.{
  IsHeader, length-field, header_block-append, mode-At, size-At, typeflag_at, linkname-At,
  length-header_block, fields,
}

-- What a reader looks at in a header that stands in front of a text.
pub record Shows (m : Bytes) (typeflag : ℕ) (name : Bytes) (mode size : ℕ) (linkname : Bytes)
    (rest : Bytes) : Type 0 where
  pub long_enough : ltb (length m) 512 ≡ false
  pub not_zero : block_is_zero 64 m ≡ false
  pub shows_typeflag : get_or m 156 0 ≡ typeflag
  pub shows_name : c_string m ≡ name
  pub shows_mode : tar_get_mode m ≡ (mode, true)
  pub shows_size : (old : ℕ) → tar_get_size old m ≡ (size, true)
  pub shows_linkname : c_string (drop 157 m) ≡ linkname
  pub shows_rest : drop 512 m ≡ rest

module _ (s : TarState) (m : Bytes) (name : Bytes) (mode size : ℕ) (linkname : Bytes)
    (rest : Bytes) where
  abbrev pub updated : TarState → TarUpdate
  updated t = record { success = true; state = t; rest = rest }

  pub read_file :
      Shows m regtype name mode size linkname rest
      → read_header false false s m
        ≡ updated record s { ready = true; type = tar_file; path = name; mode = mode; size = size }
  unfolding read_header read_item read_size read_mode
  read_file h =
      rw
        (
          h.long_enough,
          h.not_zero,
          h.shows_typeflag,
          h.shows_name,
          h.shows_size s.size,
          h.shows_mode,
          h.shows_rest,
        )
        refl

  pub read_dir :
      Shows m dirtype name mode size linkname rest
      → read_header false false s m
        ≡ updated record s { ready = true; type = tar_dir; path = name; mode = mode }
  unfolding read_header read_item read_size read_mode
  read_dir h =
      rw (h.long_enough, h.not_zero, h.shows_typeflag, h.shows_name, h.shows_mode, h.shows_rest)
        refl

  pub read_symlink :
      Shows m symtype name mode size linkname rest
      → read_header false false s m
        ≡ updated record s {
          ready = true;
          type = tar_symlink;
          path = name;
          mode = mode;
          link_path = linkname;
        }
  unfolding read_header read_item read_size read_mode
  read_symlink h =
      rw
        (
          h.long_enough, h.not_zero, h.shows_typeflag, h.shows_name, h.shows_mode, h.shows_linkname,
          h.shows_rest,
        )
        refl

c_string-field :
    (size : ℕ) (text rest : Bytes)
    → All (λ c. c ≢ 0) text
    → length text < size
    → c_string (field size text ++ rest) ≡ text
c_string-field zero text rest h l = absurd (omega arith)
c_string-field (suc size) text rest h l =
    let one : suc size - length text ≡ suc (size - length text) = omega arith in
    ap c_string (
      append_assoc text (replicate (suc size - length text) 0) rest
      ∙ ap (λ k. text ++ (replicate k 0 ++ rest)) one)
    ∙ c_string-append text (replicate (size - length text) 0 ++ rest) h

octal_field-digits :
    (width n : ℕ) (rest : Bytes)
    → suc width ≤ 22
    → n < 8 ^ suc width
    → octal_field (suc (suc width)) n ++ rest ≡ printf_octal 22 (suc width) n ++ (0 ∷ rest)
octal_field-digits width n rest f h =
    let digits = printf_octal 22 (suc width) n in
    let long : length digits ≡ suc width = length-printf_octal 22 (suc width) n f h in
    let all : take (suc (suc width) - 1) (printf_octal 22 (suc (suc width) - 1) n) ≡ digits =
      ap (λ k. take k (printf_octal 22 k n)) {y = suc width} (omega arith)
      ∙ take-all (suc width) digits (omega (arith, long)) in
    let one : suc (suc width) - length digits ≡ 1 = omega (arith, long) in
    ap (λ t. field (suc (suc width)) t ++ rest) all
    ∙ ap (λ k. (digits ++ replicate k 0) ++ rest) one
    ∙ append_assoc digits (0 ∷ []) rest

tar_get_mode-at :
    (m more : Bytes) (n : ℕ)
    → drop 100 m ≡ printf_octal 22 7 n ++ (0 ∷ more)
    → n < 8 ^ 7
    → tar_get_mode m ≡ (n, true)
unfolding tar_get_mode
tar_get_mode-at m more n e h =
    ap get_octal e ∙ get_octal-printf_octal 6 n more (omega arith) h (omega arith)

octal_ascii : (c : ℕ) → is_octal c ≡ true → leb 128 c ≡ false
octal_ascii c o = ground arith

tar_get_size-at :
    (m more : Bytes) (n : ℕ)
    → drop 124 m ≡ printf_octal 22 11 n ++ (0 ∷ more)
    → n < 8 ^ 11
    → (old : ℕ) → tar_get_size old m ≡ (n, true)
unfolding tar_get_size
tar_get_size-at m more n e h old =
    let (c, text, f, o) = printf_octal-first 22 10 n (omega arith) h in
    let first : first_char (drop 124 m) ≡ c = rw (e, f) refl in
    let ascii = octal_ascii c o in
    rw (first, ascii)
      (ap get_octal e ∙ get_octal-printf_octal 10 n more (omega arith) h (omega arith))

module _ (args : TarWriteArgs) (passwd group : Account) (typeflag : ℕ) (name linkname : Bytes)
    (spare : ℕ → ℕ) where
  abbrev pub written : PosixHeader
  written = with_checksum (header_of args passwd group typeflag name linkname spare)

  octal_field-length : (size n : ℕ) → length (octal_field size n) ≡ size
  octal_field-length size n =
      length-field size (take (size - 1) (printf_octal 22 (size - 1) n))
        (omega (arith, length-take (size - 1) (printf_octal 22 (size - 1) n)))

  pub written-IsHeader : length name < 100 → length linkname < 100 → IsHeader written
  unfolding header_of
  written-IsHeader hn hl = record {
    length_name = length-field 100 name (omega arith);
    length_mode = octal_field-length 8 args.mode;
    length_uid = octal_field-length 8 passwd.id;
    length_gid = octal_field-length 8 group.id;
    length_size = octal_field-length 12 args.size;
    length_mtime = octal_field-length 12 args.mtime;
    length_chksum = octal_field-length 8 _;
    length_linkname = length-field 100 linkname (omega arith);
    length_uname =
        length-field 32 (take 32 passwd.account_name)
          (omega (arith, length-take 32 passwd.account_name));
    length_gname =
        length-field 32 (take 32 group.account_name)
          (omega (arith, length-take 32 group.account_name));
    length_spare = refl;
  }

  get_octal-At :
      (offset width n : ℕ) (rest : Bytes) (front : Bytes)
      → front ≡ octal_field (suc (suc width)) n
      → (tail : Bytes) × (drop offset (fields written rest) ≡ front ++ tail)
      → suc width ≤ 20
      → n < 8 ^ suc width
      → n < 2 ^ 63
      → (more : Bytes) × (drop offset (fields written rest)
          ≡ printf_octal 22 (suc width) n ++ (0 ∷ more))
  get_octal-At offset width n rest front e (tail, at) f h l =
      (tail, at ∙ ap (λ t. t ++ tail) e ∙ octal_field-digits width n tail (omega arith) h)

  pub written-Shows :
      (rest : Bytes)
      → All (λ c. c ≢ 0) name
      → length name < 100
      → All (λ c. c ≢ 0) linkname
      → length linkname < 100
      → args.mode < 8 ^ 7
      → args.size < 8 ^ 11
      → typeflag ≢ 0
      → Shows (fields written rest) typeflag name args.mode args.size linkname rest
  unfolding header_of
  written-Shows rest zn hn zl hl hm hs t =
      let wf = written-IsHeader hn hl in
      let m = fields written rest in
      let long : length m ≡ 512 + length rest =
        ap length (sym (header_block-append written rest))
        ∙ length-append (header_block written) rest
        ∙ ap (λ k. k + length rest) (length-header_block written wf rest) in
      let flag = typeflag_at written wf rest in
      let (mode_rest, mode) =
        get_octal-At 100 6 args.mode rest _ refl (mode-At written wf rest) (omega arith) hm
          (omega arith) in
      let (size_rest, size) =
        get_octal-At 124 10 args.size rest _ refl (size-At written wf rest) (omega arith) hs
          (omega arith) in
      let (link_rest, link) = linkname-At written wf rest in
      record {
        long_enough = le→ltb _ _ (omega (arith, long));
        not_zero = block_is_zero-get_or 64 m 156 (omega arith) λ z. t (sym flag ∙ z);
        shows_typeflag = flag;
        shows_name = c_string-field 100 name _ zn hn;
        shows_mode = tar_get_mode-at m mode_rest args.mode mode hm;
        shows_size = tar_get_size-at m size_rest args.size size hs;
        shows_linkname = ap c_string link ∙ c_string-field 100 linkname link_rest zl hl;
        shows_rest =
            ap (drop 512) (sym (header_block-append written rest))
            ∙ ap (λ k. drop k (header_block written ++ rest))
                (sym (length-header_block written wf rest))
            ∙ drop-append (header_block written) rest;
      }
