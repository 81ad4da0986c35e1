-- ===== src/Tar/Write.antt =====
-- src/tar/write.c: headers, padding and the end of an archive. The account files are a parameter; a
-- name is given without the null byte that ends it, and the output is its contents.
use prog_dir.Base.{
  ℕ, zero, suc, ◌+◌, ◌-◌, ◌*◌, ◌/◌, ◌%◌, ◌^◌, Bool, true, false, not, ◌&&◌, Option, none, some, [],
  ◌∷◌, ◌++◌, ltb, ◌==◌, if◌then◌else◌, ◌>>=◌, Bytes, length, take, replicate, codes,
}
use prog_dir.Tar.{
  tar_block_size, tar_dir, tar_file, tar_symlink, tar_hardlink, tar_longname, tar_longlink, regtype,
  lnktype, symtype, dirtype, gnutype_longlink, gnutype_longname,
}
use prog_dir.PathName.{path_separator}

-- What is used of `struct passwd` and `struct group`.
pub record Account : Type 0 where
  pub id : ℕ
  pub account_name : Bytes

-- What a call finds around it: `getpwnam`, `getpwuid`, `getgrnam` and `getgrgid`, and the bytes in the
-- memory of its block behind the struct, which it does not set: any, for each output.
pub record WriterEnv : Type 0 where
  pub getpwnam : Bytes → Option Account
  pub getpwuid : ℕ → Option Account
  pub getgrnam : Bytes → Option Account
  pub getgrgid : ℕ → Option Account
  pub spare : Bytes → ℕ → ℕ

pub record TarWriteArgs : Type 0 where
  pub name : Bytes
  pub mode : ℕ
  pub uid : ℕ
  pub gid : ℕ
  pub size : ℕ
  pub mtime : ℕ
  pub type : ℕ
  pub linkname : Option Bytes
  pub uname : Option Bytes
  pub gname : Option Bytes

unfoldable pub convert_type : ℕ → Option ℕ
convert_type type =
    if type == tar_dir
    then some dirtype
    else if type == tar_file
    then some regtype
    else if type == tar_hardlink
    then some lnktype
    else if type == tar_symlink
    then some symtype
    else if type == tar_longlink
    then some gnutype_longlink
    else if type == tar_longname
    then some gnutype_longname
    else none

unfoldable pub ends_with : Bytes → ℕ → Bool
ends_with [] c = false
ends_with (d ∷ []) c = d == c
ends_with (d ∷ (e ∷ string)) c = ends_with (e ∷ string) c

unfoldable pub skip_separators : Bytes → Bytes
skip_separators [] = []
skip_separators (c ∷ name) =
    let rest = skip_separators name in if c == path_separator then rest else c ∷ name

-- The octal digits of `printf`, at least `width` of them; 22 are enough for 64 bits.
unfoldable pub printf_octal : ℕ → ℕ → ℕ → Bytes
printf_octal zero width n = []
printf_octal (suc fuel) width n =
    let front = printf_octal fuel (width - 1) (n / 8) in
    if n == 0 && width == 0 then [] else front ++ ((b'0' + n % 8) ∷ [])

-- A field of zeros that a text is copied into.
abbrev pub field : ℕ → Bytes → Bytes
field size text = text ++ replicate (size - length text) 0

-- `snprintf` of octal digits into a field
abbrev pub octal_field : ℕ → ℕ → Bytes
octal_field size n = field size (take (size - 1) (printf_octal 22 (size - 1) n))

-- `struct posix_header`, as far as it is filled in, and the bytes of the block behind it.
pub record PosixHeader : Type 0 where
  pub name : Bytes
  pub mode : Bytes
  pub uid : Bytes
  pub gid : Bytes
  pub size : Bytes
  pub mtime : Bytes
  pub chksum : Bytes
  pub typeflag : ℕ
  pub linkname : Bytes
  pub uname : Bytes
  pub gname : Bytes
  pub spare : Bytes

unfoldable pub header_tail : PosixHeader → Bytes
header_tail h = codes "ustar " ++ (32 ∷ 0 ∷ (h.uname ++ (h.gname ++ (replicate 171 0 ++ h.spare))))

unfoldable pub header_block : PosixHeader → Bytes
header_block h =
    h.name
    ++ (h.mode
        ++ (h.uid
            ++ (h.gid
                ++ (h.size
                    ++ (h.mtime ++ (h.chksum ++ (h.typeflag ∷ (h.linkname ++ header_tail h))))))))

-- A `char` is signed, and the sum has 32 bits.
unfoldable pub checksum : Bytes → ℕ
checksum [] = 0
checksum (b ∷ bytes) = (checksum bytes + (if ltb b 128 then b else b + (2 ^ 32 - 256))) % 2 ^ 32

abbrev pub with_checksum : PosixHeader → PosixHeader
with_checksum h =
    let blank = record h { chksum = replicate 8 32 } in
    record h { chksum = octal_field 8 (checksum (header_block blank)) }

unfoldable pub tar_write_padding : Bytes → ℕ → Bytes
tar_write_padding output file_size =
    let have = file_size % tar_block_size in
    if have == 0 then output else output ++ replicate (tar_block_size - have) 0

unfoldable pub tar_write_end : Bytes → Bytes
tar_write_end output = output ++ replicate (2 * tar_block_size) 0

-- The arguments for the header of a long name or a long link.
abbrev pub long_args : Bytes → ℕ → ℕ → TarWriteArgs
long_args name size type = record {
  name = name;
  mode = 0;
  uid = 0;
  gid = 0;
  size = size;
  mtime = 0;
  type = type;
  linkname = none;
  uname = none;
  gname = none;
}

-- The first `size` bytes from a C string on; `none` is a read behind the null byte that ends it.
abbrev pub bytes_from : Bytes → ℕ → Option Bytes
bytes_from name size =
    if ltb (length name + 1) size then none else some (take size (name ++ (0 ∷ [])))

-- The 12 bytes of a block behind `struct posix_header`
abbrev pub spare_bytes : (ℕ → ℕ) → Bytes
spare_bytes b = b 0 ∷ b 1 ∷ b 2 ∷ b 3 ∷ b 4 ∷ b 5 ∷ b 6 ∷ b 7 ∷ b 8 ∷ b 9 ∷ b 10 ∷ b 11 ∷ []

-- The header as it is filled in, but for the checksum.
unfoldable pub header_of :
    TarWriteArgs → Account → Account → ℕ → Bytes → Bytes → (ℕ → ℕ) → PosixHeader
header_of args passwd group typeflag name linkname spare = record {
  name = field 100 name;
  mode = octal_field 8 args.mode;
  uid = octal_field 8 passwd.id;
  gid = octal_field 8 group.id;
  size = octal_field 12 args.size;
  mtime = octal_field 12 args.mtime;
  chksum = [];
  typeflag = typeflag;
  linkname = field 100 linkname;
  uname = field 32 (take 32 passwd.account_name);
  gname = field 32 (take 32 group.account_name);
  spare = spare_bytes spare;
}

-- `tar_write_header` with the header of a long name or link as `long_header`: the output after it. The
-- result of that call is not looked at.
module _ (long_header : TarWriteArgs → Bytes → Option Bytes) where
  -- The name that goes into the header, and the output.
  abbrev pub write_name : Bytes → Bool → Bytes → Option (Bytes × Bytes)
  write_name name add_sep output =
      let size = length name + 1 in
      let separator = if add_sep then path_separator ∷ [] else [] in
      let long =
        long_header (long_args (codes "././@LongName") size tar_longname) output >>= λ before.
        some ([], tar_write_padding (before ++ (name ++ (separator ++ (0 ∷ [])))) size) in
      if ltb (size + length separator) 100 then some (name ++ separator, output) else long

  -- A long link is written with the bytes of the name.
  abbrev pub write_linkname : Bytes → Option Bytes → Bytes → Option (Bytes × Bytes)
  write_linkname name none output = some ([], output)
  write_linkname name (some linkname) output =
      let size = length linkname + 1 in
      let long =
        long_header (long_args (codes "././@LongLink") size tar_longlink) output >>= λ before.
        bytes_from name size >>= λ bytes. some ([], tar_write_padding (before ++ bytes) size) in
      if ltb size 100 then some (linkname, output) else long

  abbrev pub write_fields :
      TarWriteArgs → Account → Account → Bytes → ℕ → Bytes → (ℕ → ℕ) → Bytes → Option (Bool × Bytes)
  write_fields args passwd group name typeflag field_name spare output =
      write_linkname name args.linkname output >>= λ (linkname, before). some (
        true,
        before
            ++ header_block
                (with_checksum (header_of args passwd group typeflag field_name linkname spare)),
      )

  abbrev pub write_entry :
      TarWriteArgs → Option Account → Option Account → (ℕ → ℕ) → Bytes → Option (Bool × Bytes)
  write_entry args none group spare output = some (false, output)
  write_entry args (some passwd) none spare output = some (false, output)
  write_entry args (some passwd) (some group) spare output =
      let name = skip_separators args.name in
      let add_sep = args.type == tar_dir && not (ends_with name path_separator) in
      write_name name add_sep output >>= λ (field_name, before).
      if ltb (8 ^ 11 - 1) args.size then some (false, before) else elim (convert_type args.type) [
        | none ↦ some (false, before)
        | some typeflag ↦ write_fields args passwd group name typeflag field_name spare before
      ]

module _ (env : WriterEnv) where
  abbrev pub lookup_passwd : TarWriteArgs → Option Account
  lookup_passwd args = elim args.uname [
    | none ↦ env.getpwuid args.uid
    | some name ↦ env.getpwnam name
  ]

  abbrev pub lookup_group : TarWriteArgs → Option Account
  lookup_group args = elim args.gname [
    | none ↦ env.getgrgid args.gid
    | some name ↦ env.getgrnam name
  ]

  -- `tar_write_header`. `none` is fuel that ran out, or a read behind the name; a long name or link has
  -- a header of its own with a short name, so that two units of fuel are enough.
  unfoldable pub tar_write_header : ℕ → TarWriteArgs → Bytes → Option (Bool × Bytes)
  tar_write_header zero args output = none
  tar_write_header (suc fuel) args output =
      write_entry (λ long before. tar_write_header fuel long before >>= λ (_, after). some after)
        args (lookup_passwd args) (lookup_group args) (env.spare output) output
