-- ===== src/Http.antt =====
-- src/http/client.c: a client that reads the answer to a GET request, as a state machine: the function
-- that `interface->update` points to is the phase. The connection is a chain of ChainIo whose callback is
-- a parameter.
pub mod Steps
pub mod Returns
pub mod Headers
pub mod Bodies
pub mod Lines
mod Runs
use prog_dir.Base.{
  ℕ, ◌+◌, ◌-◌, ◌*◌, ◌%◌, Bool, true, false, not, ◌&&◌, ◌||◌, Option, none, some, [], ◌∷◌, leb, ◌==◌,
  if◌then◌else◌, Bytes, take, drop, codes,
}
use prog_dir.ChainIo.Read.{ChainRead}
use prog_dir.Vluint.{u64_mod}
use prog_dir.Array.Range.{range_strchr, range_streq_string, range_atozd}

abbrev pub crlf : Bytes
crlf = 13 ∷ 10 ∷ []

pub data TransferEncoding : Type 0 where
  identity chunked : TransferEncoding

pub data Phase : Type 0 where
  get_status get_header get_chunk_header get_body : Phase

-- `client_get_arg`, with the phase.
pub record ClientGet {ℓ} (Arg : Type ℓ) : Type ℓ where
  pub fd_read : ChainRead Arg
  pub transfer_encoding : TransferEncoding
  pub body_size : ℕ
  pub have_size : ℕ
  pub phase : Phase

-- `http_getline_status`
pub data Getline : Type 0 where
  line_error line_incomplete : Getline
  line_read : Bytes → Getline

abbrev pub isspace : ℕ → Bool
isspace c = c == 32 || (leb 9 c && leb c 13)

-- What is left of the text behind the characters for which `isspace` is `pred`.
unfoldable pub skip_isspace : Bool → Bytes → Bytes
skip_isspace pred [] = []
skip_isspace pred (c ∷ text) =
    let rest = skip_isspace pred text in
    if pred then (if isspace c then rest else c ∷ text) else if isspace c then c ∷ text else rest

-- What stands before the first such character and after it.
unfoldable pub split_c : ℕ → Bytes → Bytes × Bytes
split_c c input = let sep = range_strchr input c in (take sep input, drop (sep + 1) input)

-- The status of a line that begins with the version, and whether there is one.
unfoldable pub parse_http_status : Bytes → Bool × ℕ
parse_http_status line =
    let (prefix, suffix) = split_c 32 line in
    let (status, count) = range_atozd suffix in
    if not (range_streq_string prefix (codes "HTTP/1.1"))
    then (false, 0)
    else if count == 0
    then (false, status)
    else (true, status)

unfoldable pub hex_of_char : ℕ → Option ℕ
hex_of_char c =
    if leb 48 c && leb c 57
    then some (c - 48)
    else if leb 97 c && leb c 102
    then some (c - 97 + 10)
    else if leb 65 c && leb c 70
    then some (c + 32 - 97 + 10)
    else none

-- At a digit, the loop of `to_hex` goes on.
abbrev pub hex_next : Option ℕ → ℕ × ℕ → (ℕ → ℕ × ℕ) → ℕ × ℕ
hex_next none done go = done
hex_next (some d) done go = go d

-- The loop of `to_hex`: the number and the index where it stops.
unfoldable pub hex_loop : Bytes → ℕ → ℕ → ℕ × ℕ
hex_loop [] n i = (n, i)
hex_loop (c ∷ line) n i =
    hex_next (hex_of_char c) (n, i) λ d. hex_loop line ((d + n * 16) % u64_mod) (i + 1)

unfoldable pub to_hex : Bytes → Bool × ℕ
to_hex line = let (n, i) = hex_loop line 0 0 in (not (i == 0), n)

module _ {ℓ} {Arg : Type ℓ} where
  abbrev pub is_chunked : ClientGet Arg → Bool
  is_chunked get = elim get.transfer_encoding [ identity ↦ false | chunked ↦ true ]

  abbrev pub content_length : ClientGet Arg → Bytes → Bool × ClientGet Arg
  content_length get value =
      let (size, count) = range_atozd value in
      let next = record get { body_size = size } in
      if not (get.body_size == 0)
      then (false, get)
      else if is_chunked get
      then (false, get)
      else if count == 0
      then (false, next)
      else (true, next)

  abbrev pub transfer_coding : ClientGet Arg → Bytes → Bool × ClientGet Arg
  transfer_coding get value =
      let next = record get { transfer_encoding = chunked } in
      if range_streq_string value (codes "chunked")
      then (if not (get.body_size == 0)
          then (false, get)
          else if is_chunked get
          then (false, get)
          else (true, next))
      else if range_streq_string value (codes "identity") && is_chunked get
      then (false, get)
      else (false, get)

  unfoldable pub parse_http_line : ClientGet Arg → Bytes → Bool × ClientGet Arg
  parse_http_line get line =
      let (prefix, suffix) = split_c 58 line in
      let value = skip_isspace true suffix in
      let length_line = content_length get value in
      let coding_line = transfer_coding get value in
      if range_streq_string prefix (codes "Content-Length")
      then length_line
      else if range_streq_string prefix (codes "Transfer-Encoding")
      then coding_line
      else (true, get)
