-- ===== src/Tar/RoundTrip.antt =====
-- src/tar/write.c and src/tar/read.c: a header that is written and read.
use prog_dir.Base.{
  ℕ, suc, ◌+◌, ◌-◌, ◌^◌, ◌<◌, ◌≡◌, refl, sym, ap, ◌∙◌, ◌≢◌, ◌⊎◌, inl, inr, Bool, true, false, not,
  ◌&&◌, Option, none, some, [], ◌∷◌, ◌++◌, arith, ltb, ◌==◌, if◌then◌else◌, lt→ltb, le→ltb, ◌>>=◌,
  Bytes, length, length-append, All,
}
use prog_dir.Tar.Read.{read_header, tar_update_mem}
use prog_dir.Tar.{
  tar_dir, tar_file, tar_symlink, TarState, regtype, symtype, dirtype, tar_block_size, tar_longname,
  tar_longlink,
}
use prog_dir.Tar.Write.{
  Account, TarWriteArgs, header_block, convert_type, ends_with, skip_separators, write_linkname,
  write_entry, WriterEnv, write_name, lookup_passwd, lookup_group, tar_write_header, PosixHeader,
}
use prog_dir.Tar.Fields.{header_block-append, length-header_block, fields}
use prog_dir.PathName.{path_separator}
use mathlib.Core.Path.{subst}
use prog_dir.Tar.Written.{
  Shows, updated, read_file, read_dir, read_symlink, written, written-IsHeader, written-Shows,
}

-- The name that is written: without separators in front, and with one behind the name of a directory.
abbrev pub entry_name : TarWriteArgs → Bytes
entry_name args =
    let name = skip_separators args.name in
    name
    ++ (if args.type == tar_dir && not (ends_with name path_separator)
        then path_separator ∷ []
        else [])

abbrev pub entry_linkname : TarWriteArgs → Bytes
entry_linkname args = elim args.linkname [ none ↦ [] | some linkname ↦ linkname ]

-- The state that reading an item of a type should give, and the type that was written.
abbrev pub read_as : TarWriteArgs → TarState → ℕ → TarState
read_as args s type = record s {
  ready = true;
  type = type;
  path = entry_name args;
  mode = args.mode;
  link_path = if type == tar_symlink then entry_linkname args else s.link_path;
  size = if type == tar_file then args.size else s.size;
}

abbrev pub read_back : TarWriteArgs → TarState → TarState
read_back args s = read_as args s args.type

-- What can be written to one header and read back.
pub record IsShort (args : TarWriteArgs) : Type 0 where
  pub item : (args.type ≡ tar_file) ⊎ ((args.type ≡ tar_dir) ⊎ (args.type ≡ tar_symlink))
  pub name_text : All (λ c. c ≢ 0) (entry_name args)
  pub name_short : length (entry_name args) < 99
  pub linkname_text : All (λ c. c ≢ 0) (entry_linkname args)
  pub linkname_short : length (entry_linkname args) < 99
  pub mode_short : args.mode < 8 ^ 7
  pub size_short : args.size < 8 ^ 11

-- The flag of an item.
pub flag_of :
    (args : TarWriteArgs)
    → IsShort args
    → (typeflag : ℕ) × (convert_type args.type ≡ some typeflag) × (typeflag ≢ 0)
unfolding convert_type
flag_of args h = elim h.item [
  | inl e ↦ (regtype, ap convert_type e, ground arith)
  | inr (inl e) ↦ (dirtype, ap convert_type e, ground arith)
  | inr (inr e) ↦ (symtype, ap convert_type e, ground arith)
]

write_linkname-short :
    (long_header : TarWriteArgs → Bytes → Option Bytes) (name : Bytes) (linkname : Option Bytes)
    (output : Bytes)
    → length (elim linkname [ none ↦ [] | some l ↦ l ]) < 99
    → write_linkname long_header name linkname output
      ≡ some (elim linkname [ none ↦ [] | some l ↦ l ], output)
write_linkname-short long_header name none output h = refl
write_linkname-short long_header name (some l) output h =
    let short : ltb (length l + 1) 100 ≡ true = lt→ltb _ _ (omega arith) in rw short refl

size_fits : (size : ℕ) → size < 8 ^ 11 → ltb (8 ^ 11 - 1) size ≡ false
size_fits size h = le→ltb _ _ (omega arith)

write_name-short :
    (long_header : TarWriteArgs → Bytes → Option Bytes) (name : Bytes) (add_sep : Bool)
    (output : Bytes)
    → length (name ++ (if add_sep then path_separator ∷ [] else [])) < 99
    → write_name long_header name add_sep output
      ≡ some (name ++ (if add_sep then path_separator ∷ [] else []), output)
write_name-short long_header name add_sep output h =
    let separator : Bytes = if add_sep then path_separator ∷ [] else [] in
    let short : ltb (length name + 1 + length separator) 100 ≡ true =
      lt→ltb _ _ (omega (arith, length-append name separator)) in
    rw short refl

write_entry-short :
    (long_header : TarWriteArgs → Bytes → Option Bytes) (args : TarWriteArgs)
    (passwd group : Account) (typeflag : ℕ) (spare : ℕ → ℕ) (output : Bytes)
    → IsShort args
    → convert_type args.type ≡ some typeflag
    → write_entry long_header args (some passwd) (some group) spare output
      ≡ some (
        true,
        output
            ++ header_block
                (written args passwd group typeflag (entry_name args) (entry_linkname args) spare),
      )
write_entry-short long_header args passwd group typeflag spare output h e =
    let name = skip_separators args.name in
    let add_sep = args.type == tar_dir && not (ends_with name path_separator) in
    let fits : ltb (8 ^ 11 - 1) args.size ≡ false = size_fits args.size h.size_short in
    rw
      (
        write_entry,
        write_name-short long_header name add_sep output h.name_short,
        fits,
        e,
        write_linkname-short long_header name args.linkname output h.linkname_short,
      )
      refl

pub update_plain :
    (s : TarState) (m : Bytes)
    → s.type ≢ tar_longname
    → s.type ≢ tar_longlink
    → tar_update_mem s m ≡ some (read_header false false (record s { ready = false }) m)
unfolding tar_update_mem
update_plain s m n l =
    let name : (s.type == tar_longname) ≡ false = ground arith in
    let link : (s.type == tar_longlink) ≡ false = ground arith in rw (name, link) refl

read_written :
    (args : TarWriteArgs) (s : TarState) (m rest : Bytes) (typeflag : ℕ)
    → IsShort args
    → convert_type args.type ≡ some typeflag
    → Shows m typeflag (entry_name args) args.mode args.size (entry_linkname args) rest
    → read_header false false s m ≡ record { success = true; state = read_back args s; rest = rest }
unfolding convert_type
read_written args s m rest typeflag short e h =
    let name = entry_name args in
    let linkname = entry_linkname args in
    let same : (t k : ℕ) → convert_type t ≡ some k → args.type ≡ t → typeflag ≡ k =
      λ t k c i. cc (ap convert_type i, c, e) in
    let shows : (k : ℕ) → typeflag ≡ k → Shows m k name args.mode args.size linkname rest =
      λ k f. subst (λ k. Shows m k name args.mode args.size linkname rest) f h in
    let back : (t : ℕ)
        → args.type ≡ t
        → updated s m name args.mode args.size linkname rest (read_as args s t)
          ≡ updated s m name args.mode args.size linkname rest (read_back args s) =
      λ t i.
        ap (λ k. updated s m name args.mode args.size linkname rest (read_as args s k)) (sym i) in
    elim short.item [
      | inl t ↦
          read_file s m name args.mode args.size linkname rest
            (shows regtype (same tar_file regtype refl t))
          ∙ back tar_file t
      | inr (inl t) ↦
          read_dir s m name args.mode args.size linkname rest
            (shows dirtype (same tar_dir dirtype refl t))
          ∙ back tar_dir t
      | inr (inr t) ↦
          read_symlink s m name args.mode args.size linkname rest
            (shows symtype (same tar_symlink symtype refl t))
          ∙ back tar_symlink t
    ]

module _ (env : WriterEnv) (args : TarWriteArgs) (passwd group : Account)
    (has_passwd : lookup_passwd env args ≡ some passwd)
    (has_group : lookup_group env args ≡ some group) (short : IsShort args) where
  abbrev typeflag : ℕ
  typeflag = (flag_of args short).0

  abbrev entry_header : Bytes → PosixHeader
  entry_header output =
      written args passwd group typeflag (entry_name args) (entry_linkname args) (env.spare output)

  -- The block of an item behind an output.
  abbrev pub entry_block : Bytes → Bytes
  entry_block output = header_block (entry_header output)

  name_fits : length (entry_name args) < 100
  name_fits = omega (arith, short.name_short)

  linkname_fits : length (entry_linkname args) < 100
  linkname_fits = omega (arith, short.linkname_short)

  pub length-entry_block : (output : Bytes) → length (entry_block output) ≡ tar_block_size
  length-entry_block output =
      length-header_block (entry_header output)
        (written-IsHeader args passwd group typeflag (entry_name args) (entry_linkname args)
          (env.spare output) name_fits linkname_fits)
        []

  pub tar_write_header-entry_block :
      (fuel : ℕ) (output : Bytes)
      → tar_write_header env (suc fuel) args output ≡ some (true, output ++ entry_block output)
  unfolding tar_write_header
  tar_write_header-entry_block fuel output =
      rw (has_passwd, has_group)
        (write_entry-short
          (λ long before. tar_write_header env fuel long before >>= λ (_, after). some after) args
          passwd group typeflag (env.spare output) output short (flag_of args short).1)

  pub tar_update_mem-entry_block :
      (output rest : Bytes) (s : TarState)
      → s.type ≢ tar_longname
      → s.type ≢ tar_longlink
      → tar_update_mem s (entry_block output ++ rest)
        ≡ some record { success = true; state = read_back args s; rest = rest }
  tar_update_mem-entry_block output rest s n l =
      let (flag, e, t) = flag_of args short in
      let shows =
        written-Shows args passwd group typeflag (entry_name args) (entry_linkname args)
          (env.spare output) rest short.name_text name_fits short.linkname_text linkname_fits
          short.mode_short short.size_short t in
      ap (tar_update_mem s) (header_block-append (entry_header output) rest)
      ∙ update_plain s (fields (entry_header output) rest) n l
      ∙ ap some (
          read_written args (record s { ready = false }) (fields (entry_header output) rest) rest
            typeflag short e shows)

  -- A header of a file, a directory or a symbolic link, with its name and link in the header itself, a
  -- mode below 8^7, a size below 8^11 and a known user and group, is a block behind the output, whatever bytes the block has
  -- behind the struct. A reader that is not within a long name or link gets the type, name and mode
  -- from it, the size for a file, the link for a symbolic link, and what stands behind it is left.
  pub tar_update_mem-tar_write_header :
      (fuel : ℕ) (output rest : Bytes) (s : TarState)
      → s.type ≢ tar_longname
      → s.type ≢ tar_longlink
      → (block : Bytes) × (length block ≡ tar_block_size)
        × (tar_write_header env (suc fuel) args output ≡ some (true, output ++ block))
        × (tar_update_mem s (block ++ rest)
            ≡ some record { success = true; state = read_back args s; rest = rest })
  tar_update_mem-tar_write_header fuel output rest s n l = (
    entry_block output,
    length-entry_block output,
    tar_write_header-entry_block fuel output,
    tar_update_mem-entry_block output rest s n l,
  )
