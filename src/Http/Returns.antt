-- ===== src/Http/Returns.antt =====
-- src/http/client.c: the functions that `interface->update` points to return.
use prog_dir.Base.{
  ℕ, refl, ◌≢◌, Bool, true, false, Option, none, some, [], ◌∷◌, arith, ◌==◌, if◌then◌else◌, ◌>>=◌,
  Bytes, length,
}
use prog_dir.Array.Range.{range_strstr}
use prog_dir.Array.Range.Search.{range_strstr_outside}
use prog_dir.ChainIo.Pulls.{Progresses, chain_pull_returns}
use prog_dir.ChainIo.Read.{ChainRead, chain_pull}
use prog_dir.Http.{ClientGet, crlf, Phase, get_status, get_header, get_chunk_header, get_body}
use prog_dir.Http.Steps.{
  pull_size, found_line, pulled_line, http_getline, http_get_body_func, http_get_header_func,
  http_get_status_func, http_get_contents_chunked_header_func, http_update,
}
use prog_dir.ChainIo.{ChainStatus}

bind_returns {ℓ κ} :
    {A : Type ℓ} {B : Type κ} (r : Option A) (f : A → Option B)
    → r ≢ none
    → ((a : A) → f a ≢ none)
    → (r >>= f) ≢ none
bind_returns none f h k e = h refl
bind_returns (some a) f h k e = k a e

if_returns {ℓ} :
    {A : Type ℓ} (b : Bool) (r t : Option A) → r ≢ none → t ≢ none → (if b then r else t) ≢ none
if_returns true r t h k = h
if_returns false r t h k = k

module _ {ℓ} {Arg : Type ℓ} where
  found_line_returns :
      (chain : ChainRead Arg) (contents : Bytes) (point : Option ℕ)
      → point ≢ none
      → found_line chain contents point ≢ none
  found_line_returns chain contents none h e = h refl
  found_line_returns chain contents (some point) h e =
      if_returns (point == length contents) _ _ (λ q. cc) (λ q. cc) e

  pulled_line_returns :
      (result : Bool) (chain : ChainRead Arg) (contents : Bytes)
      → pulled_line (result, chain, contents) ≢ none
  pulled_line_returns false chain contents e = cc
  pulled_line_returns true chain [] e = cc
  pulled_line_returns true chain (c ∷ contents) e =
      found_line_returns chain (c ∷ contents) (range_strstr (c ∷ contents) crlf)
        (λ q. absurd (omega (arith, (range_strstr_outside (c ∷ contents) crlf).0 q))) e

  module _ (update : Bytes → Arg → ChainStatus × Bytes × Arg) (progresses : Progresses update) where
    http_getline_returns : (chain : ChainRead Arg) → http_getline update chain ≢ none
    unfolding http_getline
    http_getline_returns chain =
        bind_returns (chain_pull update chain 0) _ (chain_pull_returns update progresses chain 0)
          λ (result, after, contents). pulled_line_returns result after contents

    body_returns :
        (buffer : Bytes) (get : ClientGet Arg) → http_get_body_func update buffer get ≢ none
    unfolding http_get_body_func
    body_returns buffer get =
        if_returns (get.body_size == 0) _ _ (λ e. cc)
          (bind_returns (chain_pull update get.fd_read (pull_size get)) _
            (chain_pull_returns update progresses get.fd_read (pull_size get)) λ p e. cc)

    phase_returns :
        (buffer : Bytes) (get : ClientGet Arg) (phase : Phase)
        → (elim phase [
          | get_status ↦ http_get_status_func update buffer get
          | get_header ↦ http_get_header_func update buffer get
          | get_chunk_header ↦ http_get_contents_chunked_header_func update buffer get
          | get_body ↦ http_get_body_func update buffer get
        ])
          ≢ none
    unfolding http_get_status_func http_get_header_func http_get_contents_chunked_header_func
    phase_returns buffer get get_status =
        bind_returns (http_getline update get.fd_read) _ (http_getline_returns get.fd_read)
          λ p e. cc
    phase_returns buffer get get_header =
        bind_returns (http_getline update get.fd_read) _ (http_getline_returns get.fd_read)
          λ p e. cc
    phase_returns buffer get get_chunk_header =
        bind_returns (http_getline update get.fd_read) _ (http_getline_returns get.fd_read)
          λ p e. cc
    phase_returns buffer get get_body = body_returns buffer get

    -- Every step of the client returns, in each phase and on each input, when the callback of the
    -- connection gives a byte or more until it is through or has an error.
    pub http_update_returns :
        (buffer : Bytes) (get : ClientGet Arg) → http_update update buffer get ≢ none
    unfolding http_update
    http_update_returns buffer get = phase_returns buffer get get.phase
