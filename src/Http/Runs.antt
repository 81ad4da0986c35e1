-- ===== src/Http/Runs.antt =====
-- Runs of src/http/client.c on small answers, and instances of the theorems about it.
use prog_dir.Base.{
  ℕ, zero, suc, ◌≡◌, refl, ◌≢◌, ◌↔◌, ◌⊎◌, Bool, true, false, Option, none, some, [], ◌∷◌, ◌++◌,
  arith, ◌>>=◌, Bytes, length-append, codes,
}
use prog_dir.Array.Range.{
  range_atozd, atozd_loop, range_strchr, range_streq_string, range_streq, streq_loop, strlen,
  range_strstr, strstr_scan, match_count,
}
use prog_dir.ChainIo.Pulls.{View, Appends, Progresses}
use prog_dir.ChainIo.Read.{
  ChainRead, chain_pull, chain_release, chain_read_new, chain_read_apply_release, pull_loop,
}
use prog_dir.Http.{
  ClientGet, parse_http_line, split_c, skip_isspace, hex_loop, to_hex, hex_of_char,
  parse_http_status, identity, get_body, chunked,
}
use prog_dir.Http.Steps.{
  http_getline, http_client_get, http_update, http_get_body_func, http_get_header_func,
  http_get_status_func, http_get_contents_chunked_header_func,
}
use prog_dir.Http.Lines.{http_getline_lem, IsLine}
use prog_dir.Http.Bodies.{http_get_body_func-Delivered, Delivered}
use prog_dir.Http.Headers.{parse_http_line_coding}
use prog_dir.Http.Returns.{http_update_returns}
use prog_dir.ChainIo.{ChainStatus, chain_error, chain_incomplete, chain_complete}

-- A connection that gives all it has at once.
abbrev all_at_once : Bytes → Bytes → ChainStatus × Bytes × Bytes
all_at_once buffer [] = (chain_complete, buffer ++ [], [])
all_at_once buffer (c ∷ rest) = (chain_incomplete, buffer ++ c ∷ rest, [])

at_once-Appends : Appends all_at_once
at_once-Appends buffer [] = ([], refl)
at_once-Appends buffer (c ∷ rest) = (c ∷ rest, refl)

at_once-Progresses : Progresses all_at_once
at_once-Progresses buffer [] e = cc
at_once-Progresses buffer (c ∷ rest) e = omega (arith, length-append buffer (c ∷ rest))

-- So many steps of the client, up to its end.
abbrev steps : ℕ → Bytes → ClientGet Bytes → Option (ChainStatus × Bytes)
steps zero buffer get = some (chain_incomplete, buffer)
steps (suc n) buffer get = http_update all_at_once buffer get >>= λ (status, next, after).
    elim status [
      | chain_error ↦ some (chain_error, next)
      | chain_complete ↦ some (chain_complete, next)
      | chain_incomplete ↦ steps n next after
    ]

plain_answer :
    steps 4 []
      (http_client_get (chain_read_new (codes "HTTP/1.1 200 OK\r\nContent-Length: 5\r\n\r\nhello")))
    ≡ some (chain_complete, codes "hello")
unfolding http_client_get chain_read_new http_update http_get_status_func http_get_header_func
    http_get_body_func http_getline chain_pull pull_loop chain_release chain_read_apply_release
    range_strstr strstr_scan match_count range_strchr range_atozd atozd_loop range_streq_string
    range_streq streq_loop strlen split_c skip_isspace parse_http_line parse_http_status
plain_answer = refl

chunked_answer :
    steps 10 [] (
      http_client_get (
        chain_read_new (
          codes
            "HTTP/1.1 200 OK\r\nTransfer-Encoding: chunked\r\n\r\n2\r\nhe\r\n3\r\nllo\r\n0\r\n\r\n")))
    ≡ some (chain_complete, codes "hello")
unfolding http_client_get chain_read_new http_update http_get_status_func http_get_header_func
    http_get_body_func http_get_contents_chunked_header_func http_getline chain_pull pull_loop
    chain_release chain_read_apply_release range_strstr strstr_scan match_count range_strchr
    range_atozd atozd_loop range_streq_string range_streq streq_loop strlen split_c skip_isspace
    parse_http_line parse_http_status to_hex hex_loop hex_of_char
chunked_answer = refl

abbrev fetched : ℕ → ChainRead Bytes
fetched released = record {
  released = released;
  is_error = false;
  is_complete = false;
  fresh_read = true;
  buffer = 7 ∷ 13 ∷ 10 ∷ 8 ∷ [];
  arg = [];
}

http_getline_lem_example :
    (more : Bytes) × View
      ((7 ∷ 13 ∷ 10 ∷ 8 ∷ []) ++ more)
      3
      (record (fetched 3) { fresh_read = true })
    × IsLine ((7 ∷ 13 ∷ 10 ∷ 8 ∷ []) ++ more) 0 (7 ∷ [])
http_getline_lem_example =
    http_getline_lem all_at_once at_once-Appends (7 ∷ 13 ∷ 10 ∷ 8 ∷ []) 0 (fetched 0)
      (record (fetched 3) { fresh_read = true }) (7 ∷ []) (0, refl, refl, omega arith)
      (unfold http_getline chain_pull chain_read_apply_release chain_release range_strstr
          strstr_scan match_count in
        refl)
      (omega arith)

abbrev reading : ℕ → Bool → ClientGet Bytes
reading have fresh = record {
  fd_read = record (fetched have) { fresh_read = fresh };
  transfer_encoding = identity;
  body_size = 4;
  have_size = have;
  phase = get_body;
}

http_get_body_func-Delivered_example :
    (more : Bytes) × Delivered
      ((7 ∷ 13 ∷ 10 ∷ 8 ∷ []) ++ more)
      0
      (5 ∷ [])
      get_body
      (chain_complete, 5 ∷ 7 ∷ 13 ∷ 10 ∷ 8 ∷ [], reading 4 true)
http_get_body_func-Delivered_example =
    http_get_body_func-Delivered all_at_once at_once-Appends (7 ∷ 13 ∷ 10 ∷ 8 ∷ []) 0 (5 ∷ [])
      (5 ∷ []) (reading 0 true) (chain_complete, 5 ∷ 7 ∷ 13 ∷ 10 ∷ 8 ∷ [], reading 4 true)
      ((refl, omega arith, omega arith), (0, refl, refl, omega arith)) (omega arith) (λ e. cc)
      (unfold http_get_body_func chain_pull chain_read_apply_release chain_release in refl)

parse_http_line_coding_example :
    let r =
      parse_http_line (reading 0 true) (codes "Transfer-Encoding" ++ 58 ∷ codes " identity") in
    ((r ≡ (true, record (reading 0 true) { transfer_encoding = chunked }))
      ⊎ (r ≡ (false, reading 0 true)))
    × ((r.0 ≡ true) ↔ (
        (skip_isspace true (codes " identity") ≡ codes "chunked")
        × (◌≡◌ {A = ℕ} 4 0)
        × (identity ≡ identity)))
parse_http_line_coding_example = parse_http_line_coding (reading 0 true) (codes " identity")

http_update_returns_example : http_update all_at_once [] (reading 0 true) ≢ none
http_update_returns_example = http_update_returns all_at_once at_once-Progresses [] (reading 0 true)
