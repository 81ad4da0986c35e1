-- ===== src/Tar.antt =====
-- src/tar/common.h, src/tar/internal/spec.h and src/tar/read.h: what reading and writing share. The
-- types of items are their numbers in `tar_type`, since the reader also stores a flag character there.
-- A header is its 512 bytes, and its fields stand at the offsets of `posix_header`.
pub mod Read
pub mod Stream
pub mod Paths
pub mod Write
pub mod Octal
pub mod Blocks
pub mod States
pub mod Fields
pub mod Written
pub mod RoundTrip
pub mod Archive
mod Runs
use prog_dir.Base.{ℕ, ◌+◌, ◌*◌, ◌/◌, ◌%◌, Bool, ◌==◌, if◌then◌else◌, Bytes}

abbrev pub tar_block_size : ℕ
tar_block_size = 512

abbrev pub tar_error : ℕ
tar_error = 0

abbrev pub tar_dir : ℕ
tar_dir = 1

abbrev pub tar_file : ℕ
tar_file = 2

abbrev pub tar_symlink : ℕ
tar_symlink = 3

abbrev pub tar_hardlink : ℕ
tar_hardlink = 4

abbrev pub tar_end : ℕ
tar_end = 5

abbrev pub tar_longname : ℕ
tar_longname = 6

abbrev pub tar_longlink : ℕ
tar_longlink = 7

-- The characters of `typeflag`.
abbrev pub regtype : ℕ
regtype = b'0'

abbrev pub lnktype : ℕ
lnktype = b'1'

abbrev pub symtype : ℕ
symtype = b'2'

abbrev pub dirtype : ℕ
dirtype = b'5'

abbrev pub gnutype_longlink : ℕ
gnutype_longlink = b'K'

abbrev pub gnutype_longname : ℕ
gnutype_longname = b'L'

-- `tar_state`, the buffers as their contents.
pub record TarState : Type 0 where
  pub ready : Bool
  pub type : ℕ
  pub path : Bytes
  pub tmp : Bytes
  pub mode : ℕ
  pub link_path : Bytes
  pub size : ℕ

-- The size of the blocks that hold so many bytes.
abbrev pub blocks_of : ℕ → ℕ
blocks_of size =
    if size % tar_block_size == 0 then size else (size / tar_block_size + 1) * tar_block_size
