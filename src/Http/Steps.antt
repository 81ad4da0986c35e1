-- ===== src/Http/Steps.antt =====
-- src/http/client.c: the functions that `interface->update` points to, one after the other. Each gives
-- the status, the buffer of the interface, and the argument after it; `none` is a pull that does not
-- return.
use prog_dir.Base.{
  ℕ, ◌+◌, ◌-◌, Bool, true, false, not, Option, none, some, [], ◌∷◌, ◌++◌, ltb, ◌==◌, if◌then◌else◌,
  ◌>>=◌, Bytes, length, take,
}
use prog_dir.ChainIo.Read.{ChainRead, chain_pull, chain_release}
use prog_dir.Http.{
  ClientGet, crlf, TransferEncoding, identity, chunked, Phase, get_status, get_header,
  get_chunk_header, get_body, Getline, line_error, line_incomplete, line_read, parse_http_status,
  to_hex, parse_http_line,
}
use prog_dir.ChainIo.{ChainStatus, chain_error, chain_incomplete, chain_complete}
use prog_dir.Array.Range.{range_strstr}

-- What a step gives.
abbrev pub Stepped {ℓ} : Type ℓ → Type ℓ
Stepped Arg = ChainStatus × Bytes × ClientGet Arg

-- Where the header leads.
abbrev pub body_phase : TransferEncoding → Phase
body_phase identity = get_body
body_phase chunked = get_chunk_header

module _ {ℓ} {Arg : Type ℓ} where
  -- The line up to the place of its end.
  abbrev pub found_line : ChainRead Arg → Bytes → Option ℕ → Option (Getline × ChainRead Arg)
  found_line chain contents none = none
  found_line chain contents (some point) =
      if point == length contents
      then some (line_incomplete, chain)
      else some (line_read (take point contents), chain_release chain (point + 2))

  abbrev pub pulled_line : Bool × ChainRead Arg × Bytes → Option (Getline × ChainRead Arg)
  pulled_line (false, chain, contents) = some (line_error, chain)
  pulled_line (true, chain, []) = some (line_incomplete, chain)
  pulled_line (true, chain, c ∷ contents) =
      found_line chain (c ∷ contents) (range_strstr (c ∷ contents) crlf)

  abbrev pub body_left : ClientGet Arg → ℕ
  body_left get = get.body_size - get.have_size

  abbrev pub pull_size : ClientGet Arg → ℕ
  pull_size get = if ltb (body_left get) 1_000_000 then body_left get else 1_000_000

  -- The end of a body.
  abbrev pub ended_body : Bytes → ClientGet Arg → TransferEncoding → Stepped Arg
  ended_body buffer get identity = (chain_complete, buffer, get)
  ended_body buffer get chunked = (
    chain_incomplete,
    buffer,
    record get { fd_read = chain_release get.fd_read 2; phase = get_chunk_header },
  )

  abbrev pub finish_body : Bytes → ClientGet Arg → Stepped Arg
  finish_body buffer get =
      if get.have_size == get.body_size
      then ended_body buffer get get.transfer_encoding
      else (chain_incomplete, buffer, get)

  abbrev pub got_size : ClientGet Arg → Bytes → ℕ
  got_size get contents =
      if ltb (body_left get) (length contents) then body_left get else length contents

  abbrev pub take_body : Bytes → ClientGet Arg → Bool × ChainRead Arg × Bytes → Stepped Arg
  take_body buffer get (false, chain, contents) =
      (chain_error, buffer, record get { fd_read = chain })
  take_body buffer get (true, chain, contents) =
      let got = got_size get contents in
      finish_body (buffer ++ take got contents)
        record get { have_size = get.have_size + got; fd_read = chain_release chain got }

  abbrev pub chunk_line : Bytes → ClientGet Arg → Getline × ChainRead Arg → Stepped Arg
  chunk_line buffer get (line_error, chain) = (chain_error, buffer, record get { fd_read = chain })
  chunk_line buffer get (line_incomplete, chain) =
      (chain_incomplete, buffer, record get { fd_read = chain })
  chunk_line buffer get (line_read line, chain) =
      let (result, size) = to_hex line in
      let next = record get { fd_read = chain; body_size = size } in
      if result
      then (chain_incomplete, buffer, record next { have_size = 0; phase = get_body })
      else (chain_error, buffer, next)

  abbrev pub parsed_header : Bytes → Bool × ClientGet Arg → Stepped Arg
  parsed_header buffer (true, get) = (chain_incomplete, buffer, get)
  parsed_header buffer (false, get) = (chain_error, buffer, get)

  abbrev pub header_line : Bytes → ClientGet Arg → Getline × ChainRead Arg → Stepped Arg
  header_line buffer get (line_error, chain) = (chain_error, buffer, record get { fd_read = chain })
  header_line buffer get (line_incomplete, chain) =
      (chain_incomplete, buffer, record get { fd_read = chain })
  header_line buffer get (line_read [], chain) = (
    chain_incomplete,
    buffer,
    record get { fd_read = chain; phase = body_phase get.transfer_encoding },
  )
  header_line buffer get (line_read (c ∷ line), chain) =
      parsed_header buffer (parse_http_line (record get { fd_read = chain }) (c ∷ line))

  abbrev pub status_line : Bytes → ClientGet Arg → Getline × ChainRead Arg → Stepped Arg
  status_line buffer get (line_error, chain) = (chain_error, buffer, record get { fd_read = chain })
  status_line buffer get (line_incomplete, chain) =
      (chain_incomplete, buffer, record get { fd_read = chain })
  status_line buffer get (line_read line, chain) =
      let (result, status) = parse_http_status line in
      let next = record get { fd_read = chain } in
      if not result
      then (chain_error, buffer, next)
      else if not (status == 200)
      then (chain_error, buffer, next)
      else (chain_incomplete, buffer, record next { phase = get_header })

  -- `http_client_get` when the request has been sent
  unfoldable pub http_client_get : ChainRead Arg → ClientGet Arg
  http_client_get client = record {
    fd_read = client;
    transfer_encoding = identity;
    body_size = 0;
    have_size = 0;
    phase = get_status;
  }

  -- `interface.update` of the connection
  module _ (update : Bytes → Arg → ChainStatus × Bytes × Arg) where
    unfoldable pub http_getline : ChainRead Arg → Option (Getline × ChainRead Arg)
    http_getline chain = chain_pull update chain 0 >>= λ pulled. pulled_line pulled

    unfoldable pub http_get_body_func : Bytes → ClientGet Arg → Option (Stepped Arg)
    http_get_body_func buffer get =
        let pulled =
          chain_pull update get.fd_read (pull_size get) >>= λ p. some (take_body buffer get p) in
        if get.body_size == 0
        then some (chain_complete, buffer, record get { fd_read = chain_release get.fd_read 2 })
        else pulled

    unfoldable pub http_get_contents_chunked_header_func :
        Bytes → ClientGet Arg → Option (Stepped Arg)
    http_get_contents_chunked_header_func buffer get =
        http_getline get.fd_read >>= λ line. some (chunk_line buffer get line)

    unfoldable pub http_get_header_func : Bytes → ClientGet Arg → Option (Stepped Arg)
    http_get_header_func buffer get =
        http_getline get.fd_read >>= λ line. some (header_line buffer get line)

    unfoldable pub http_get_status_func : Bytes → ClientGet Arg → Option (Stepped Arg)
    http_get_status_func buffer get =
        http_getline get.fd_read >>= λ line. some (status_line buffer get line)

    -- The function that `interface->update` points to.
    unfoldable pub http_update : Bytes → ClientGet Arg → Option (Stepped Arg)
    http_update buffer get = elim get.phase [
      | get_status ↦ http_get_status_func buffer get
      | get_header ↦ http_get_header_func buffer get
      | get_chunk_header ↦ http_get_contents_chunked_header_func buffer get
      | get_body ↦ http_get_body_func buffer get
    ]
