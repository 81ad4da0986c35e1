-- ===== src/Http/Bodies.antt =====
-- src/http/client.c: what `http_get_body_func` delivers.
use prog_dir.Base.{
  ℕ, zero, suc, ◌+◌, ◌-◌, ◌≤◌, ◌<◌, ◌≡◌, refl, sym, ap, ◌∙◌, ◌≢◌, ◌⊎◌, inl, inr, Bool, true, false,
  Option, none, some, ◌++◌, append_assoc, arith, ◌==◌, if◌then◌else◌, Bool-cases, eq_of_test,
  ne_of_test, ◌>>=◌, Bytes, length, take, drop, length-append, length-drop, take-append_le,
}
use prog_dir.ChainIo.Pulls.{
  View, Appends, Pulled, chain_pull-Pulled, chain_release-View, drop-append_le,
}
use prog_dir.ChainIo.Read.{ChainRead, chain_pull, chain_release}
use prog_dir.Http.{ClientGet, TransferEncoding, identity, chunked, Phase, get_chunk_header}
use prog_dir.Http.Steps.{
  Stepped, take_body, finish_body, ended_body, got_size, body_left, pull_size, http_get_body_func,
}
use prog_dir.Base.Slices.{slice, take-add, drop-drop}
use prog_dir.ChainIo.{ChainStatus, chain_incomplete, chain_complete, chain_error}
use prog_dir.Vluint.{u64_mod}
use mathlib.Core.Path.{subst}

slice-more :
    (start n : ℕ) (stream more : Bytes)
    → n ≤ length stream - start
    → slice start n (stream ++ more) ≡ slice start n stream
slice-more start zero stream more h = refl
slice-more start (suc n) stream more h =
    let long : length (drop start stream) ≡ length stream - start = length-drop start stream in
    ap (take (suc n)) (drop-append_le start stream more (omega arith))
    ∙ take-append_le (suc n) (drop start stream) more (omega (arith, long))

module _ {ℓ} {Arg : Type ℓ} where
  -- The first `have_size` bytes of the body, which starts at a place of the stream, are behind what was
  -- given before.
  abbrev pub HasBody : Bytes → ℕ → Bytes → Bytes → ClientGet Arg → Type 0
  HasBody stream start given buffer get =
      (buffer ≡ given ++ slice start get.have_size stream)
      × (get.have_size ≤ length stream - start)
      × (get.have_size ≤ get.body_size)

  -- The connection stands behind the part of the body that is there.
  abbrev pub Delivers : Bytes → ℕ → Bytes → Bytes → ClientGet Arg → Type 0
  Delivers stream start given buffer get =
      HasBody stream start given buffer get × View stream (start + get.have_size) get.fd_read

  -- A pull that failed leaves the body as it was, a body that goes on is not whole yet, and a whole one
  -- is the end, or the header of a chunk is next, behind the end of a line.
  abbrev pub Delivered : Bytes → ℕ → Bytes → Phase → Stepped Arg → Type 0
  Delivered stream start given phase (status, buffer, get) =
      HasBody stream start given buffer get
      × (((status ≡ chain_error)
            × (get.phase ≡ phase)
            × View stream (start + get.have_size) get.fd_read)
          ⊎ ((status ≡ chain_incomplete)
              × (get.phase ≡ phase)
              × (get.have_size < get.body_size)
              × View stream (start + get.have_size) get.fd_read)
          ⊎ ((status ≡ chain_complete)
              × (get.transfer_encoding ≡ identity)
              × (get.have_size ≡ get.body_size)
              × View stream (start + get.have_size) get.fd_read)
          ⊎ ((status ≡ chain_incomplete)
              × (get.transfer_encoding ≡ chunked)
              × (get.have_size ≡ get.body_size)
              × (get.phase ≡ get_chunk_header)
              × View stream (start + get.have_size + 2) get.fd_read))

  ended_body-Delivered :
      (stream : Bytes) (start : ℕ) (given buffer : Bytes) (get : ClientGet Arg)
      (encoding : TransferEncoding)
      → get.transfer_encoding ≡ encoding
      → HasBody stream start given buffer get
      → View stream (start + get.have_size) get.fd_read
      → get.have_size ≡ get.body_size
      → start + get.have_size + 2 < u64_mod
      → Delivered stream start given get.phase (ended_body buffer get encoding)
  ended_body-Delivered stream start given buffer get identity e h v whole fits =
      (h, inr (inr (inl (refl, e, whole, v))))
  ended_body-Delivered stream start given buffer get chunked e h (base, holds, stands, inside) whole
        fits =
      (
        h,
        inr (
            inr (
              inr (
                refl,
                e,
                whole,
                refl,
                chain_release-View stream (start + get.have_size) get.fd_read 2
                    (base, holds, stands, inside) (omega (arith, stands, fits)),
              ))),
      )

  finish_body-Delivered :
      (stream : Bytes) (start : ℕ) (given buffer : Bytes) (get : ClientGet Arg)
      → HasBody stream start given buffer get
      → View stream (start + get.have_size) get.fd_read
      → start + get.have_size + 2 < u64_mod
      → Delivered stream start given get.phase (finish_body buffer get)
  finish_body-Delivered stream start given buffer get h v fits =
      let (b, l, w) = h in
      elim (Bool-cases (get.have_size == get.body_size)) [
        | inl e ↦
            (rw e (
              ended_body-Delivered stream start given buffer get get.transfer_encoding refl h v
                (eq_of_test get.have_size get.body_size e) fits))
        | inr e ↦
            let apart = ne_of_test get.have_size get.body_size e in
            (rw e (h, inr (inl (refl, refl, omega (arith, w, apart), v))))
      ]

  got_size-bounds :
      (get : ClientGet Arg) (contents : Bytes)
      → (got_size get contents ≤ body_left get) × (got_size get contents ≤ length contents)
  got_size-bounds get contents = ground arith

  take_body-Delivered :
      (stream more : Bytes) (start : ℕ) (given buffer : Bytes) (get : ClientGet Arg) (result : Bool)
      (chain : ChainRead Arg) (contents : Bytes)
      → HasBody stream start given buffer get
      → View (stream ++ more) (start + get.have_size) chain
      → (result ≡ true → contents ≡ drop (start + get.have_size) (stream ++ more))
      → start + get.body_size + 2 < u64_mod
      → Delivered
          (stream ++ more)
          start
          given
          get.phase
          (take_body buffer get (result, chain, contents))
  take_body-Delivered stream more start given buffer get false chain contents (b, l, w) v e fits = (
    (
      b ∙ ap (λ t. given ++ t) (sym (slice-more start get.have_size stream more l)),
      omega (arith, l, length-append stream more),
      w,
    ),
    inl (refl, refl, v),
  )
  take_body-Delivered stream more start given buffer get true chain contents (b, l, w)
        (base, holds, stands, inside) e fits =
      let all = stream ++ more in
      let got = got_size get contents in
      let have = get.have_size in
      let (g, g2) = got_size-bounds get contents in
      let long : length contents ≡ length all - (start + have) =
        ap length (e refl) ∙ length-drop (start + have) all in
      let next : ClientGet Arg = record get {
        have_size = have + got;
        fd_read = chain_release chain got;
      } in
      let body : buffer ++ take got contents ≡ given ++ slice start (have + got) all =
        ap (λ t. t ++ take got contents)
          (b ∙ ap (λ t. given ++ t) (sym (slice-more start have stream more l)))
        ∙ append_assoc given (slice start have all) (take got contents)
        ∙ ap (λ t. given ++ (slice start have all ++ take got t))
            (e refl ∙ sym (drop-drop have start all))
        ∙ ap (λ t. given ++ t) (sym (take-add have got (drop start all))) in
      let moved =
        chain_release-View all (start + have) chain got (base, holds, stands, inside)
          (omega (arith, stands, fits, g, w)) in
      finish_body-Delivered all start given (buffer ++ take got contents) next
        (body, omega (arith, long, g2, l, length-append stream more), omega (arith, g, w))
        (subst (λ n. View all n (chain_release chain got)) {y = start + (have + got)} (omega arith)
          moved)
        (omega (arith, g, w, fits))

  abbrev DeliveredOr : Bytes → ℕ → Bytes → Phase → Option (Stepped Arg) → Type 0
  DeliveredOr stream start given phase none = Unit
  DeliveredOr stream start given phase (some stepped) =
      (more : Bytes) × Delivered (stream ++ more) start given phase stepped

  else_DeliveredOr :
      (stream : Bytes) (start : ℕ) (given : Bytes) (phase : Phase) (b : Bool)
      (r t : Option (Stepped Arg))
      → b ≡ false
      → DeliveredOr stream start given phase t
      → DeliveredOr stream start given phase (if b then r else t)
  else_DeliveredOr stream start given phase true r t h k = cc
  else_DeliveredOr stream start given phase false r t h k = k

  Pulled-Delivered :
      (stream : Bytes) (start : ℕ) (given buffer : Bytes) (get : ClientGet Arg)
      (r : Option (Bool × ChainRead Arg × Bytes))
      → HasBody stream start given buffer get
      → Pulled stream (start + get.have_size) r
      → start + get.body_size + 2 < u64_mod
      → DeliveredOr stream start given get.phase (r >>= λ p. some (take_body buffer get p))
  Pulled-Delivered stream start given buffer get none h p fits = tt
  Pulled-Delivered stream start given buffer get (some (result, chain, contents)) h (more, v, e)
        fits =
      (
        more,
        take_body-Delivered stream more start given buffer get result chain contents h v e fits,
      )

  module _ (update : Bytes → Arg → ChainStatus × Bytes × Arg) (appends : Appends update) where
    http_get_body_func-DeliveredOr :
        (stream : Bytes) (start : ℕ) (given buffer : Bytes) (get : ClientGet Arg)
        → Delivers stream start given buffer get
        → start + get.body_size + 2 < u64_mod
        → get.body_size ≢ 0
        → DeliveredOr stream start given get.phase (http_get_body_func update buffer get)
    unfolding http_get_body_func
    http_get_body_func-DeliveredOr stream start given buffer get (h, v) fits some_body =
        let test : (get.body_size == 0) ≡ false = ground arith in
        else_DeliveredOr stream start given get.phase (get.body_size == 0) _ _ test (
          Pulled-Delivered stream start given buffer get
            (chain_pull update get.fd_read (pull_size get)) h
            (chain_pull-Pulled update appends stream (start + get.have_size) get.fd_read
              (pull_size get) v)
            fits)

    -- While a body that is not empty is read, the buffer has its bytes so far, and no more than
    -- `body_size`, behind what was given before. A step that completes has delivered the whole body, in
    -- the identity encoding; in the chunked encoding the step that delivers the whole chunk goes on to
    -- the header of the next one, behind the end of a line; and any other step that is no error stays in
    -- the body, which is not whole yet. This for a body whose end is a `size_t`.
    pub http_get_body_func-Delivered :
        (stream : Bytes) (start : ℕ) (given buffer : Bytes) (get : ClientGet Arg)
        (stepped : Stepped Arg)
        → Delivers stream start given buffer get
        → start + get.body_size + 2 < u64_mod
        → get.body_size ≢ 0
        → http_get_body_func update buffer get ≡ some stepped
        → (more : Bytes) × Delivered (stream ++ more) start given get.phase stepped
    http_get_body_func-Delivered stream start given buffer get stepped h fits some_body e =
        subst (DeliveredOr stream start given get.phase) e
          (http_get_body_func-DeliveredOr stream start given buffer get h fits some_body)
