-- ===== src/Tar/Read.antt =====
-- src/tar/read.c: the state of a reader, updated from memory. A string that no null byte ends is taken
-- to end with the memory: the buffer that a file is read into has a null byte behind its contents.
use prog_dir.Base.{
  ℕ, zero, suc, ◌+◌, ◌-◌, ◌*◌, ◌/◌, ◌%◌, ◌^◌, Bool, true, false, not, ◌&&◌, ◌||◌, Option, none,
  some, [], ◌∷◌, ◌++◌, ltb, leb, ◌==◌, if◌then◌else◌, ◌>>=◌, Bytes, length, get_or, take, drop,
  c_string,
}
use prog_dir.Tar.{
  TarState, blocks_of, tar_block_size, tar_error, tar_dir, tar_file, tar_symlink, tar_hardlink,
  tar_end, tar_longname, tar_longlink, regtype, lnktype, symtype, dirtype, gnutype_longlink,
  gnutype_longname,
}
use prog_dir.Json.{skip_whitespace}
use prog_dir.Vluint.{u64_mod}
use prog_dir.Json.{skip_whitespace}
use Prim.Native.Nat.{min}

unfoldable pub tar_restart : TarState → TarState
tar_restart s = record s { type = tar_error; path = []; tmp = []; link_path = [] }

abbrev pub is_octal : ℕ → Bool
is_octal c = leb b'0' c && leb c b'7'

-- The digits of a number to the base 8, and what follows them.
unfoldable pub octal_loop : ℕ → Bytes → ℕ × Bytes
octal_loop value [] = (value, [])
octal_loop value (c ∷ text) =
    let rest = octal_loop (value * 8 + (c - b'0')) text in
    if is_octal c then rest else (value, c ∷ text)

abbrev pub first_char : Bytes → ℕ
first_char [] = 0
first_char (c ∷ _) = c

-- `strtol` to the base 8 behind a sign, as a `size_t`; without digits, nothing is taken.
abbrev pub signed_octal : Bool → Bytes → Bytes → ℕ × Bytes
signed_octal negative text digits =
    let (value, rest) = octal_loop 0 digits in
    if is_octal (first_char digits)
    then (
      if negative then (u64_mod - min value (2 ^ 63)) % u64_mod else min value (2 ^ 63 - 1),
      rest,
    )
    else (0, text)

unfoldable pub strtol_octal : Bytes → ℕ × Bytes
strtol_octal text =
    let start = skip_whitespace text in
    if first_char start == b'-'
    then signed_octal true text (drop 1 start)
    else if first_char start == b'+'
    then signed_octal false text (drop 1 start)
    else signed_octal false text start

-- A field of octal digits up to a null byte: the number stored, and whether it is well formed.
unfoldable pub get_octal : Bytes → ℕ × Bool
get_octal field =
    let (value, rest) = strtol_octal field in
    (value, not (first_char field == 0) && first_char rest == 0)

-- `tar_get_size`. It stores nothing when the size is to the base 256.
unfoldable pub tar_get_size : ℕ → Bytes → ℕ × Bool
tar_get_size size header =
    let field = drop 124 header in
    if leb 128 (first_char field) then (size, false) else get_octal field

unfoldable pub tar_get_mode : Bytes → ℕ × Bool
tar_get_mode header = get_octal (drop 100 header)

-- A `uint64_t` of eight bytes.
abbrev pub word_of : Bytes → ℕ
word_of [] = 0
word_of (b ∷ bytes) = b + 256 * word_of bytes

-- `block_is_zero` on so many words.
unfoldable pub block_is_zero : ℕ → Bytes → Bool
block_is_zero zero header = true
block_is_zero (suc words) header =
    let rest = block_is_zero words (drop 8 header) in
    if word_of (take 8 header) == 0 then rest else false

-- The `want_size` of `record_mem`: its argument is a `long long int`. `none` is a negative size.
abbrev pub want_size : ℕ → Option ℕ
want_size size =
    if ltb size (2 ^ 63)
    then some (blocks_of size)
    else let below = u64_mod - size in
      if below % tar_block_size == 0
      then none
      else if below / tar_block_size == 0
      then some tar_block_size
      else if below / tar_block_size == 1
      then some 0
      else none

-- `record_mem`: the buffer and what is left of the memory. `none` is a copy of a negative size.
unfoldable pub record_mem : Bytes → Bytes → ℕ → Option (Bytes × Bytes)
record_mem buffer mem size = want_size size >>= λ want.
    some (if ltb (length mem) want then (buffer, mem) else (buffer ++ take want mem, drop want mem))

-- What `tar_update_mem` gives: its result, the state, and the rest of the memory.
pub record TarUpdate : Type 0 where
  pub success : Bool
  pub state : TarState
  pub rest : Bytes

abbrev pub not_ready : TarState → Bytes → TarUpdate
not_ready s rest = record { success = true; state = record s { ready = false }; rest = rest }

abbrev pub fail : TarState → Bytes → TarUpdate
fail s rest = record {
  success = false;
  state = record s { type = tar_error; ready = true };
  rest = rest;
}

abbrev pub done : TarState → Bytes → TarUpdate
done s rest = record {
  success = false;
  state = record s { type = tar_end; ready = true };
  rest = rest;
}

abbrev pub is_link : ℕ → Bool
is_link type = type == tar_hardlink || type == tar_symlink

-- The mode, read last.
unfoldable pub read_mode : TarState → Bytes → TarUpdate
read_mode s mem =
    let rest = drop tar_block_size mem in
    let (mode, good) = tar_get_mode mem in
    let t = record s { mode = mode } in
    let with_mode =
      if good
      then record { success = true; state = record t { ready = true }; rest = rest }
      else fail t rest in
    if s.type == tar_file || (s.type == tar_dir || is_link s.type)
    then with_mode
    else record { success = true; state = record s { ready = true }; rest = rest }

unfoldable pub read_size : TarState → Bytes → TarUpdate
read_size s mem =
    let (size, good) = tar_get_size s.size mem in
    let t = record s { size = size } in
    let with_size = if good then read_mode t mem else fail t (drop tar_block_size mem) in
    if s.type == tar_file then with_size else read_mode s mem

-- The fields of a header whose type has been stored.
unfoldable pub read_item : Bool → Bool → TarState → Bytes → TarUpdate
read_item longname longlink s mem =
    let named = if longname then s else record s { path = c_string mem } in
    let linked = record named { link_path = c_string (drop 157 mem) } in
    if is_link s.type
    then read_size (if longlink then named else linked) mem
    else if longlink
    then fail named (drop tar_block_size mem)
    else read_size named mem

unfoldable pub read_header : Bool → Bool → TarState → Bytes → TarUpdate
read_header longname longlink s mem =
    let rest = drop tar_block_size mem in
    let typeflag = get_or mem 156 0 in
    if ltb (length mem) tar_block_size
    then not_ready s mem
    else if block_is_zero 64 mem
    then if s.type == tar_end then done s rest else not_ready (record s { type = tar_end }) rest
    else if typeflag == regtype
    then read_item longname longlink (record s { type = tar_file }) mem
    else if typeflag == dirtype
    then read_item longname longlink (record s { type = tar_dir }) mem
    else if typeflag == symtype
    then read_item longname longlink (record s { type = tar_symlink }) mem
    else if typeflag == lnktype
    then read_item longname longlink (record s { type = lnktype }) mem
    else if typeflag == gnutype_longname
    then not_ready (record s { type = tar_longname; path = [] }) rest
    else if typeflag == gnutype_longlink
    then not_ready (record s { type = tar_longlink; link_path = [] }) rest
    else fail s rest

-- More of a long name or a long link, until there is as much as `file.size` says; `next` reads the
-- header behind it.
abbrev pub long_part : TarState → Bytes → (Bytes → TarState) → Bytes → TarUpdate → Option TarUpdate
long_part s path with_path mem next =
    let more = record_mem path mem (s.size - length path) >>= λ (longer, rest).
    some (not_ready (with_path longer) rest) in
    if ltb (length path) s.size
    then more
    else if length path == s.size
    then some next
    else some (fail s mem)

-- `tar_update_mem`. `none` is a copy of a negative size.
unfoldable pub tar_update_mem : TarState → Bytes → Option TarUpdate
tar_update_mem old mem =
    let s = record old { ready = false } in
    if s.type == tar_longname
    then long_part s s.path (λ path. record s { path = path }) mem (read_header true false s mem)
    else if s.type == tar_longlink
    then long_part s s.link_path (λ path. record s { link_path = path }) mem
        (read_header false true s mem)
    else some (read_header false false s mem)
