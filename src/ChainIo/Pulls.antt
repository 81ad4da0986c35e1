-- ===== src/ChainIo/Pulls.antt =====
-- src/chain-io/read.c: a chain as a stream of bytes with a position in it.
use prog_dir.Base.{
  ℕ, zero, suc, ◌+◌, ◌-◌, ◌/◌, ◌%◌, ◌≤◌, ◌<◌, ◌≡◌, refl, sym, ap, ◌∙◌, ◌≢◌, inl, inr, Bool, true,
  false, ◌&&◌, ◌||◌, Option, none, some, [], ◌∷◌, ◌++◌, append-nil, append_assoc, arith, ltb, leb,
  ◌==◌, if◌then◌else◌, Bool-cases, le_of_leb, lt_of_leb, le_of_ltb, Bytes, length, drop,
  length-append, length-drop,
}
use prog_dir.Base.Slices.{drop-drop, drop-all}
use prog_dir.ChainIo.{ChainStatus, chain_incomplete, chain_error, chain_complete}
use prog_dir.ChainIo.Read.{
  ChainRead, chain_read_new, chain_read_apply_release, chain_release, pull_contents, pull_loop,
  chain_pull, max_pull, pull_fresh,
}
use prog_dir.Vluint.{u64_mod}
use mathlib.Core.Path.{subst}

pub drop-append_le : (n : ℕ) (xs ys : Bytes) → n ≤ length xs → drop n (xs ++ ys) ≡ drop n xs ++ ys
drop-append_le zero xs ys h = refl
drop-append_le (suc n) [] ys h = absurd (omega arith)
drop-append_le (suc n) (x ∷ xs) ys h = drop-append_le n xs ys (omega arith)

module _ {ℓ} {Arg : Type ℓ} where
  -- The chain has got the bytes of `stream` so far, and `position` of them have been released: the
  -- buffer holds a last part of them, and the position can be ahead of them.
  abbrev pub View : Bytes → ℕ → ChainRead Arg → Type 0
  View stream position chain =
      (base : ℕ) × (chain.buffer ≡ drop base stream)
      × (base + chain.released ≡ position)
      × (base ≤ length stream)

  pull_contents-View :
      (stream : Bytes) (position : ℕ) (chain : ChainRead Arg)
      → View stream position chain
      → pull_contents chain ≡ drop position stream
  pull_contents-View stream position chain (base, holds, stands, inside) =
      ap (drop chain.released) holds
      ∙ drop-drop chain.released base stream
      ∙ ap (λ n. drop n stream) stands

  -- A new chain is at the beginning of an empty stream.
  pub chain_read_new-View : (arg : Arg) → View [] 0 (chain_read_new arg)
  unfolding chain_read_new
  chain_read_new-View arg = (0, refl, refl, omega arith)

  if_View :
      (stream : Bytes) (position : ℕ) (b : Bool) (c d : ChainRead Arg)
      → (b ≡ true → View stream position c)
      → (b ≡ false → View stream position d)
      → View stream position (if b then c else d)
  if_View stream position true c d h k = h refl
  if_View stream position false c d h k = k refl

  apply_release-View :
      (stream : Bytes) (position : ℕ) (chain : ChainRead Arg)
      → View stream position chain
      → View stream position (chain_read_apply_release chain)
  unfolding chain_read_apply_release
  apply_release-View stream position chain (base, holds, stands, inside) =
      let long : length chain.buffer ≡ length stream - base =
        ap length holds ∙ length-drop base stream in
      let buffer_size = length chain.buffer in
      let v : View stream position chain = (base, holds, stands, inside) in
      if_View stream position (chain.released == 0) _ _ (λ _. v)
        λ _.
          if_View stream position (leb buffer_size chain.released) _ _
            (λ h. (
              length stream,
              sym (drop-all (length stream) stream (omega arith)),
              omega (arith, le_of_leb _ _ h, long),
              omega arith,
            ))
            λ h.
              if_View stream position
                (ltb (buffer_size / 2) chain.released || ltb 10_000_000 buffer_size) _ _
                (λ _. (
                  base + chain.released,
                  ap (drop chain.released) holds ∙ drop-drop chain.released base stream,
                  omega (arith, stands),
                  omega (arith, lt_of_leb _ _ h, long),
                ))
                λ _. v

  -- Releasing bytes moves the position.
  pub chain_release-View :
      (stream : Bytes) (position : ℕ) (chain : ChainRead Arg) (size : ℕ)
      → View stream position chain
      → chain.released + size < u64_mod
      → View stream (position + size) (chain_release chain size)
  unfolding chain_release
  chain_release-View stream position chain size (base, holds, stands, inside) h =
      let moved : base + (chain.released + size) % u64_mod ≡ position + size =
        omega (arith, stands, h) in
      if_View stream (position + size) (size == 0) _ _ (λ _. (base, holds, moved, inside))
        λ _. (base, holds, moved, inside)

  -- What a callback does for the buffer: it keeps what is there.
  abbrev pub Appends : (Bytes → Arg → ChainStatus × Bytes × Arg) → Type ℓ
  Appends update =
      (buffer : Bytes) (arg : Arg) → (more : Bytes) × ((update buffer arg).1 ≡ buffer ++ more)

  -- A callback that is not through gives a byte or more.
  abbrev pub Progresses : (Bytes → Arg → ChainStatus × Bytes × Arg) → Type ℓ
  Progresses update =
      (buffer : Bytes) (arg : Arg)
      → (update buffer arg).0 ≡ chain_incomplete
      → length buffer < length (update buffer arg).1

  -- What a pull gives: the stream has grown, the position is the same, and after a success the contents
  -- are what stands behind the position.
  abbrev pub Pulled : Bytes → ℕ → Option (Bool × ChainRead Arg × Bytes) → Type 0
  Pulled stream position none = Unit
  Pulled stream position (some (result, chain, contents)) =
      (more : Bytes) × View (stream ++ more) position chain
      × (result ≡ true → contents ≡ drop position (stream ++ more))

  Pulled-further :
      (stream more : Bytes) (position : ℕ) (r : Option (Bool × ChainRead Arg × Bytes))
      → Pulled (stream ++ more) position r
      → Pulled stream position r
  Pulled-further stream more position none h = tt
  Pulled-further stream more position (some (result, chain, contents)) (rest, v, e) =
      let whole : (stream ++ more) ++ rest ≡ stream ++ (more ++ rest) =
        append_assoc stream more rest in
      (
        more ++ rest,
        subst (λ t. View t position chain) whole v,
        λ h. e h ∙ ap (drop position) whole,
      )

  now-Pulled :
      (stream : Bytes) (position : ℕ) (chain : ChainRead Arg)
      → View stream position chain
      → Pulled stream position (some (true, chain, pull_contents chain))
  now-Pulled stream position chain v =
      let same : stream ≡ stream ++ [] = sym (append-nil stream) in
      let w = subst (λ t. View t position chain) same v in
      ([], w, λ _. pull_contents-View (stream ++ []) position chain w)

  none-Pulled :
      (stream : Bytes) (position : ℕ) (chain : ChainRead Arg)
      → View stream position chain
      → Pulled stream position (some (false, chain, []))
  none-Pulled stream position chain v =
      ([], subst (λ t. View t position chain) (sym (append-nil stream)) v, λ h. cc)

  if_Pulled :
      (stream : Bytes) (position : ℕ) (b : Bool) (r t : Option (Bool × ChainRead Arg × Bytes))
      → Pulled stream position r
      → Pulled stream position t
      → Pulled stream position (if b then r else t)
  if_Pulled stream position true r t h k = h
  if_Pulled stream position false r t h k = k

  status_Pulled :
      (stream : Bytes) (position : ℕ) (next : ChainRead Arg) (max_size : ℕ) (status : ChainStatus)
      (more : Option (Bool × ChainRead Arg × Bytes))
      → View stream position next
      → Pulled stream position more
      → Pulled stream position (elim status [
        | chain_error ↦ some (false, record next { is_error = true }, [])
        | chain_complete ↦ some (true, record next { is_complete = true }, pull_contents next)
        | chain_incomplete ↦
            if ltb max_size (length next.buffer)
            then some (true, next, pull_contents next)
            else more
      ])
  status_Pulled stream position next max_size chain_error more v h =
      none-Pulled stream position (record next { is_error = true }) v
  status_Pulled stream position next max_size chain_complete more v h =
      now-Pulled stream position (record next { is_complete = true }) v
  status_Pulled stream position next max_size chain_incomplete more v h =
      elim (Bool-cases (ltb max_size (length next.buffer))) [
        | inl e ↦ (rw e (now-Pulled stream position next v))
        | inr e ↦ (rw e h)
      ]

  module _ (update : Bytes → Arg → ChainStatus × Bytes × Arg) (appends : Appends update) where
    pull_loop-Pulled :
        (fuel : ℕ) (stream : Bytes) (position : ℕ) (chain : ChainRead Arg) (max_size : ℕ)
        → View stream position chain
        → Pulled stream position (pull_loop update fuel chain max_size)
    unfolding pull_loop
    pull_loop-Pulled zero stream position chain max_size v = tt
    pull_loop-Pulled (suc fuel) stream position chain max_size (base, holds, stands, inside) =
        let (status, buffer, arg) = update chain.buffer chain.arg in
        let (more, e) = appends chain.buffer chain.arg in
        let next : ChainRead Arg = record chain { buffer = buffer; arg = arg } in
        let v : View (stream ++ more) position next = (
          base,
          e ∙ ap (λ t. t ++ more) holds ∙ sym (drop-append_le base stream more inside),
          stands,
          omega (arith, length-append stream more),
        ) in
        Pulled-further stream more position _ (
          status_Pulled (stream ++ more) position next max_size status
            (pull_loop update fuel next max_size) v
            (pull_loop-Pulled fuel (stream ++ more) position next max_size v))

    pull_fresh-Pulled :
        (stream : Bytes) (position : ℕ) (chain : ChainRead Arg) (target_size : ℕ)
        → View stream position chain
        → Pulled stream position (pull_fresh update chain target_size)
    pull_fresh-Pulled stream position chain target_size v =
        let old = record chain { fresh_read = false } in
        if_Pulled stream position
          (chain.fresh_read && leb ((target_size + chain.released) % u64_mod) (length chain.buffer))
          _ _ (now-Pulled stream position old v)
          (pull_loop-Pulled (max_pull chain target_size + 2) stream position old
            (max_pull chain target_size) v)

    pub chain_pull-Pulled :
        (stream : Bytes) (position : ℕ) (chain : ChainRead Arg) (target_size : ℕ)
        → View stream position chain
        → Pulled stream position (chain_pull update chain target_size)
    unfolding chain_pull
    chain_pull-Pulled stream position chain target_size v =
        let ready = chain_read_apply_release chain in
        let w = apply_release-View stream position chain v in
        if_Pulled stream position ready.is_complete _ _ (none-Pulled stream position ready w)
          (pull_fresh-Pulled stream position ready target_size w)

    -- A pull that is a success gives what stands behind the position in the stream, in which the
    -- callback may have put more bytes; the position is the same after it.
    pub chain_pull-View :
        (stream : Bytes) (position : ℕ) (chain after : ChainRead Arg) (target_size : ℕ)
        (contents : Bytes)
        → View stream position chain
        → chain_pull update chain target_size ≡ some (true, after, contents)
        → (more : Bytes) × View (stream ++ more) position after
          × (contents ≡ drop position (stream ++ more))
    chain_pull-View stream position chain after target_size contents v h =
        let (more, w, e) =
          subst (Pulled stream position) h
            (chain_pull-Pulled stream position chain target_size v) in
        (more, w, e refl)

  abbrev Comes : Option (Bool × ChainRead Arg × Bytes) → Type 0
  Comes none = ⊥
  Comes (some r) = Unit

  if_Comes :
      (b : Bool) (r t : Option (Bool × ChainRead Arg × Bytes))
      → (b ≡ true → Comes r)
      → (b ≡ false → Comes t)
      → Comes (if b then r else t)
  if_Comes true r t h k = h refl
  if_Comes false r t h k = k refl

  status_Comes :
      (next : ChainRead Arg) (max_size : ℕ) (status : ChainStatus)
      (more : Option (Bool × ChainRead Arg × Bytes))
      → (status ≡ chain_incomplete → length next.buffer < suc max_size → Comes more)
      → Comes (elim status [
        | chain_error ↦ some (false, record next { is_error = true }, [])
        | chain_complete ↦ some (true, record next { is_complete = true }, pull_contents next)
        | chain_incomplete ↦
            if ltb max_size (length next.buffer)
            then some (true, next, pull_contents next)
            else more
      ])
  status_Comes next max_size chain_error more h = tt
  status_Comes next max_size chain_complete more h = tt
  status_Comes next max_size chain_incomplete more h =
      if_Comes (ltb max_size (length next.buffer)) _ _ (λ _. tt)
        λ e. h refl (omega (arith, le_of_ltb _ _ e))

  module _ (update : Bytes → Arg → ChainStatus × Bytes × Arg) (progresses : Progresses update) where
    pull_loop-Comes :
        (fuel : ℕ) (chain : ChainRead Arg) (max_size : ℕ)
        → max_size + 1 < length chain.buffer + fuel
        → 0 < fuel
        → Comes (pull_loop update fuel chain max_size)
    unfolding pull_loop
    pull_loop-Comes zero chain max_size h z = absurd (omega arith)
    pull_loop-Comes (suc fuel) chain max_size h z =
        let (status, buffer, arg) = update chain.buffer chain.arg in
        let next : ChainRead Arg = record chain { buffer = buffer; arg = arg } in
        status_Comes next max_size status (pull_loop update fuel next max_size) λ e l.
          pull_loop-Comes fuel next max_size (omega (arith, progresses chain.buffer chain.arg e))
            (omega (arith, progresses chain.buffer chain.arg e))

    -- A pull comes to an end: a callback that always gives a byte or more until it is through or has an
    -- error is called often enough.
    pub chain_pull_returns :
        (chain : ChainRead Arg) (target_size : ℕ) → chain_pull update chain target_size ≢ none
    unfolding chain_pull
    chain_pull_returns chain target_size h =
        let ready = chain_read_apply_release chain in
        let max_size = max_pull ready target_size in
        subst Comes h (
          if_Comes ready.is_complete _ _ (λ _. tt)
            λ _.
              if_Comes
                (ready.fresh_read
                  && leb ((target_size + ready.released) % u64_mod) (length ready.buffer))
                _ _ (λ _. tt)
                λ _.
                  pull_loop-Comes (max_size + 2) (record ready { fresh_read = false }) max_size
                    (omega arith) (omega arith))
