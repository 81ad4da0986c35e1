-- ===== src/Tar/Runs.antt =====
-- Runs of src/tar/read.c and src/tar/write.c on small archives, and instances of the theorems about them.
use prog_dir.Base.{
  ◌+◌, ◌≡◌, refl, inl, true, false, Option, none, some, [], ◌++◌, arith, Bytes, length, replicate,
  codes,
}
use prog_dir.Tar.{TarState, tar_block_size, tar_error, tar_file, tar_longname}
use prog_dir.Tar.Read.{tar_update_mem, block_is_zero, not_ready, fail, read_header}
use prog_dir.Tar.Write.{
  tar_write_header, Account, WriterEnv, TarWriteArgs, ends_with, skip_separators, tar_write_padding,
}
use prog_dir.Tar.RoundTrip.{tar_update_mem-tar_write_header, read_back, IsShort}
use prog_dir.Tar.Archive.{tar_update_fd-tar_write_header, tar_read_region-tar_write_padding}
use prog_dir.Tar.States.{tar_update_mem-IsOutcome, IsOutcome}
use prog_dir.Tar.Paths.{
  Stat, path_args, tar_write_path_header, tar_update_mem-tar_write_path_header,
}
use prog_dir.Tar.Stream.{tar_update_fd, tar_read_region}

abbrev fresh : TarState
fresh = record {
  ready = false;
  type = tar_error;
  path = [];
  tmp = [];
  mode = 0;
  link_path = [];
  size = 0;
}

abbrev root : Account
root = record { id = 0; account_name = codes "root" }

abbrev env : WriterEnv
env = record {
  getpwnam = λ _. none;
  getpwuid = λ _. some root;
  getgrnam = λ _. none;
  getgrgid = λ _. some root;
  spare = λ output i. 200 + i;
}

abbrev note : TarWriteArgs
note = record {
  name = codes "/a/note";
  mode = 420;
  uid = 0;
  gid = 0;
  size = 3;
  mtime = 7;
  type = tar_file;
  linkname = none;
  uname = none;
  gname = none;
}

note-IsShort : IsShort note
unfolding skip_separators ends_with
note-IsShort = record {
  item = inl refl;
  name_text = ground arith;
  name_short = omega arith;
  linkname_text = tt;
  linkname_short = omega arith;
  mode_short = omega arith;
  size_short = omega arith;
}

tar_update_mem-tar_write_header_example :
    (block : Bytes) × (length block ≡ tar_block_size)
    × (tar_write_header env 2 note [] ≡ some (true, block))
    × (tar_update_mem fresh (block ++ codes "abc")
        ≡ some record { success = true; state = read_back note fresh; rest = codes "abc" })
tar_update_mem-tar_write_header_example =
    tar_update_mem-tar_write_header env note root root refl refl note-IsShort 1 [] (codes "abc")
      fresh (λ h. omega arith) (λ h. omega arith)

tar_update_fd-tar_write_header_example :
    (block : Bytes) × (tar_write_header env 2 note (codes "x") ≡ some (true, codes "x" ++ block))
    × (tar_update_fd fresh (block ++ codes "abc")
        ≡ some (true, read_back note (record fresh { tmp = block }), codes "abc"))
tar_update_fd-tar_write_header_example =
    tar_update_fd-tar_write_header env note root root refl refl note-IsShort 1 (codes "x")
      (codes "abc") fresh (λ h. omega arith) (λ h. omega arith)

tar_read_region-tar_write_padding_example :
    (padded : Bytes) × (tar_write_padding (codes "xabc") 3 ≡ codes "x" ++ padded)
    × (tar_read_region [] 3 (padded ++ codes "rest") ≡ (true, codes "abc", codes "rest"))
tar_read_region-tar_write_padding_example =
    tar_read_region-tar_write_padding (codes "x") (codes "abc") (codes "rest") (omega arith)

-- Too little memory for a header.
short_update : tar_update_mem fresh (codes "x") ≡ some (not_ready fresh (codes "x"))
unfolding tar_update_mem read_header
short_update = refl

tar_update_mem-IsOutcome_example : IsOutcome (not_ready fresh (codes "x"))
tar_update_mem-IsOutcome_example =
    tar_update_mem-IsOutcome fresh (codes "x") (not_ready fresh (codes "x")) short_update

-- The block of a long name is taken for a header, because its size has not been read.
long_name :
    tar_update_mem (record fresh { type = tar_longname }) (replicate 512 b'x')
    ≡ some (fail (record fresh { type = tar_longname }) [])
unfolding tar_update_mem read_header block_is_zero
long_name = refl

abbrev lstat : Bytes → Option Stat
lstat path = some record { st_mode = 33188; st_uid = 0; st_gid = 0; st_size = 5 }

note_path-IsShort :
    IsShort
      (path_args (codes "b") record { st_mode = 33188; st_uid = 0; st_gid = 0; st_size = 5 } none)
unfolding skip_separators ends_with
note_path-IsShort = record {
  item = inl refl;
  name_text = ground arith;
  name_short = omega arith;
  linkname_text = tt;
  linkname_short = omega arith;
  mode_short = omega arith;
  size_short = omega arith;
}

tar_update_mem-tar_write_path_header_example :
    (block : Bytes) × (tar_write_path_header env lstat (λ _. none) (codes "b") none []
      ≡ some (true, block, some (tar_file, 5)))
    × (tar_update_mem fresh (block ++ codes "hello")
        ≡ some record {
          success = true;
          state =
              read_back
                (path_args
                  (codes "b")
                  record { st_mode = 33188; st_uid = 0; st_gid = 0; st_size = 5 }
                  none)
                fresh;
          rest = codes "hello";
        })
tar_update_mem-tar_write_path_header_example =
    tar_update_mem-tar_write_path_header env lstat (λ _. none) (codes "b")
      record { st_mode = 33188; st_uid = 0; st_gid = 0; st_size = 5 } none root root []
      (codes "hello") fresh refl refl refl refl note_path-IsShort (λ h. omega arith)
      (λ h. omega arith)
