-- ===== src/Tar/Paths.antt =====
-- src/tar/write.c: the header of a path of the file system, where `lstat` and `readlink` are parameters
-- that fail by `none`.
use prog_dir.Base.{
  ℕ, ◌/◌, ◌%◌, ◌≡◌, refl, ap, ◌≢◌, inl, inr, Bool, true, false, Option, none, some, ◌++◌, ◌==◌,
  if◌then◌else◌, ◌>>=◌, Bytes, length, take,
}
use prog_dir.Tar.{tar_error, tar_dir, tar_file, tar_symlink, tar_longname, tar_longlink, TarState}
use prog_dir.Tar.Write.{tar_write_header, Account, WriterEnv, TarWriteArgs}
use prog_dir.Tar.Read.{tar_update_mem}
use prog_dir.Tar.RoundTrip.{read_back, IsShort, tar_update_mem-tar_write_header}

-- What is used of `struct stat`.
pub record Stat : Type 0 where
  pub st_mode : ℕ
  pub st_uid : ℕ
  pub st_gid : ℕ
  pub st_size : ℕ

-- `S_ISREG`, `S_ISDIR` and `S_ISLNK`
abbrev pub type_of_mode : ℕ → ℕ
type_of_mode mode =
    let format = mode / 4096 % 16 in
    if format == 8
    then tar_file
    else if format == 4
    then tar_dir
    else if format == 10
    then tar_symlink
    else tar_error

-- The size of the buffer of a link name, `PATH_MAX + 1`.
abbrev pub linkname_max : ℕ
linkname_max = 4097

abbrev pub path_args : Bytes → Stat → Option Bytes → TarWriteArgs
path_args name s linkname = record {
  name = name;
  mode = s.st_mode;
  uid = s.st_uid;
  gid = s.st_gid;
  size = s.st_size;
  mtime = 0;
  type = type_of_mode s.st_mode;
  linkname = linkname;
  uname = none;
  gname = none;
}

module _ (env : WriterEnv) (lstat : Bytes → Option Stat) (readlink : Bytes → Option Bytes) where
  -- The link name of a symbolic link, and `none` inside for any other path; `none` is a failure.
  abbrev pub link_of_path : Bytes → ℕ → Option (Option Bytes)
  link_of_path path type =
      let target = readlink path >>= λ linkname.
      if length (take linkname_max linkname) == linkname_max
      then none
      else some (some (take linkname_max linkname)) in
      if type == tar_symlink then target else some none

  -- What is detected is stored only after a success.
  abbrev pub detected : Stat → Bool × Bytes → Bool × Bytes × Option (ℕ × ℕ)
  detected s (true, output) = (true, output, some (type_of_mode s.st_mode, s.st_size))
  detected s (false, output) = (false, output, none)

  abbrev pub write_path : Bytes → Bytes → Stat → Bytes → Option (Bool × Bytes × Option (ℕ × ℕ))
  write_path path name s output =
      let type = type_of_mode s.st_mode in
      if type == tar_error then some (false, output, none) else elim (link_of_path path type) [
        | none ↦ some (false, output, none)
        | some linkname ↦ tar_write_header env 2 (path_args name s linkname) output >>= λ result.
            some (detected s result)
      ]

  -- `tar_write_path_header`. `none` is a read behind the name.
  unfoldable pub tar_write_path_header :
      Bytes → Option Bytes → Bytes → Option (Bool × Bytes × Option (ℕ × ℕ))
  tar_write_path_header path override_name output = elim (lstat path) [
    | none ↦ some (false, output, none)
    | some s ↦ write_path path (elim override_name [ none ↦ path | some name ↦ name ]) s output
  ]

  -- Without an overriding name, a file, directory or symbolic link of the file system whose path, link,
  -- mode and size have a place in a header, and whose user and group are known, is written as a block behind the output, and its type and size
  -- are detected. A reader that is not within a long name or link gets the type, path and mode from that
  -- block, the size for a file and the link for a symbolic link.
  pub tar_update_mem-tar_write_path_header :
      (path : Bytes) (s : Stat) (linkname : Option Bytes) (passwd group : Account)
      (output rest : Bytes) (state : TarState)
      → lstat path ≡ some s
      → link_of_path path (type_of_mode s.st_mode) ≡ some linkname
      → env.getpwuid s.st_uid ≡ some passwd
      → env.getgrgid s.st_gid ≡ some group
      → IsShort (path_args path s linkname)
      → state.type ≢ tar_longname
      → state.type ≢ tar_longlink
      → (block : Bytes) × (tar_write_path_header path none output
          ≡ some (true, output ++ block, some (type_of_mode s.st_mode, s.st_size)))
        × (tar_update_mem state (block ++ rest)
            ≡ some record {
              success = true;
              state = read_back (path_args path s linkname) state;
              rest = rest;
            })
  unfolding tar_write_path_header
  tar_update_mem-tar_write_path_header path s linkname passwd group output rest state st li pw gr
        short n l =
      let args = path_args path s linkname in
      let (block, size, write, read) =
        tar_update_mem-tar_write_header env args passwd group pw gr short 1 output rest state n l in
      let item : (type_of_mode s.st_mode == tar_error) ≡ false = elim short.item [
        | inl e ↦ ap (λ t. t == tar_error) e
        | inr (inl e) ↦ ap (λ t. t == tar_error) e
        | inr (inr e) ↦ ap (λ t. t == tar_error) e
      ] in
      (block, rw (tar_write_path_header, st, write_path, item, li, write) refl, read)
