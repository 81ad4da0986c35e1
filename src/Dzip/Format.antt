-- ===== src/Dzip/Format.antt =====
-- src/dzip/common: the chunk header and the layout of a command byte.
-- Memory is little-endian, and `dzip_size` has 32 bits.
use prog_dir.Base.{
  ℕ, ◌+◌, ◌*◌, ◌/◌, ◌%◌, ◌^◌, ◌<◌, ◌≡◌, [], ◌∷◌, ◌++◌, arith, Bytes, get_or, take, drop,
}

abbrev pub u32_mod : ℕ
u32_mod = 2 ^ 32

-- The bytes of a 32-bit field, and the field read back.
unfoldable pub le32 : ℕ → Bytes
le32 n = n % 256 ∷ n / 256 % 256 ∷ n / 65536 % 256 ∷ n / 16777216 % 256 ∷ []

unfoldable pub read_le32 : Bytes → ℕ
read_le32 bytes =
    get_or bytes 0 0
    + 256 * get_or bytes 1 0
    + 65536 * get_or bytes 2 0
    + 16777216 * get_or bytes 3 0

-- `DZIP_MAGIC_INITIALIZER`.
abbrev pub dzip_magic : Bytes
dzip_magic = b'd' ∷ b'e' ∷ b'e' ∷ b'z' ∷ b'w' ∷ b'h' ∷ b'a' ∷ b't' ∷ []

abbrev pub dzip_version : ℕ
dzip_version = 1

-- `sizeof (dzip_header)`.
abbrev pub dzip_header_size : ℕ
dzip_header_size = 16

pub record DzipHeader : Type 0 where
  pub magic : Bytes
  pub version : ℕ
  pub chunk_size : ℕ

-- A header in memory, and the header at the front of a memory range.
unfoldable pub header_bytes : DzipHeader → Bytes
unfolding le32
header_bytes h = h.magic ++ (le32 h.version ++ le32 h.chunk_size)

unfoldable pub read_header : Bytes → DzipHeader
unfolding read_le32
read_header memory = record {
  magic = take 8 memory;
  version = read_le32 (drop 8 memory);
  chunk_size = read_le32 (drop 12 memory);
}

abbrev pub dzip_cmd_literal : ℕ
dzip_cmd_literal = 0

abbrev pub dzip_cmd_match : ℕ
dzip_cmd_match = 1

-- Two bits of command, one that tells of an extension, five of the first argument.
abbrev pub dzip_command_mask : ℕ
dzip_command_mask = 3

abbrev pub dzip_arg1_extend_bit : ℕ
dzip_arg1_extend_bit = 4

abbrev pub dzip_meta_bits : ℕ
dzip_meta_bits = 3

abbrev pub dzip_arg1_compact_max : ℕ
dzip_arg1_compact_max = 32

pub read_le32-le32 : (n : ℕ) (rest : Bytes) → n < u32_mod → read_le32 (le32 n ++ rest) ≡ n
unfolding read_le32 le32
read_le32-le32 n rest h = omega arith

-- Every header that fits its fields is read back, whatever follows it.
pub read_header-header_bytes :
    (version chunk_size : ℕ) (rest : Bytes)
    → version < u32_mod
    → chunk_size < u32_mod
    → read_header (
        header_bytes (record { magic = dzip_magic; version = version; chunk_size = chunk_size })
        ++ rest)
      ≡ record { magic = dzip_magic; version = version; chunk_size = chunk_size }
unfolding read_header header_bytes
read_header-header_bytes v c rest hv hc = ground arith
