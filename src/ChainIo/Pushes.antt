-- ===== src/ChainIo/Pushes.antt =====
-- src/chain-io/write.c: what was pushed is what the sink has got and what the buffer still holds.
use prog_dir.Base.{
  ℕ, zero, suc, ◌+◌, ◌-◌, ◌/◌, ◌≤◌, ◌<◌, ◌≡◌, refl, sym, ap, ◌∙◌, Bool, true, false, ◌&&◌, ◌||◌,
  Option, none, some, [], ◌∷◌, ◌++◌, append-nil, append_assoc, arith, ltb, ◌==◌, if◌then◌else◌,
  eq_of_test, ◌>>=◌, Bytes, length, drop, length-append, length-drop, drop-append,
}
use prog_dir.ChainIo.{ChainStatus, chain_error, chain_incomplete, chain_complete}
use prog_dir.ChainIo.Write.{
  chain_push, ChainWrite, Flushed, flush_loop, chain_write_flush_input, chain_flush,
  input_flush_size, flushed_buffer, chain_push_final, drop_written, appended, buffer_max_size,
}
use prog_dir.Base.Slices.{drop-all, drop-drop}
use mathlib.Core.Path.{subst}
use prog_dir.ChainIo.Pulls.{drop-append_le}

and-left : (a b : Bool) → (a && b) ≡ true → a ≡ true
and-left true b h = refl
and-left false b h = h

module _ {ℓ} {Arg : Type ℓ} (sink : Arg → Bytes) where
  -- The bytes pushed so far are in the sink, or in the buffer behind what has been written.
  abbrev pub Holds : Bytes → ChainWrite Arg → Type 0
  Holds pushed chain =
      (chain.written ≤ length chain.buffer)
      × (pushed ≡ sink chain.arg ++ drop chain.written chain.buffer)

  -- A callback takes bytes from the front of its input, and puts them behind what is in the sink.
  abbrev pub Takes : (Bytes → Arg → ChainStatus × Bytes × Arg) → Type ℓ
  Takes update =
      (input : Bytes) (arg : Arg)
      → (taken : Bytes) × (input ≡ taken ++ (update input arg).1)
        × (sink (update input arg).2 ≡ sink arg ++ taken)

  -- A callback that is not through takes a byte or more.
  abbrev pub TakesMore : (Bytes → Arg → ChainStatus × Bytes × Arg) → Type ℓ
  TakesMore update =
      (input : Bytes) (arg : Arg)
      → (update input arg).0 ≡ chain_incomplete
      → length (update input arg).1 < length input

  -- A flush of some input leaves the buffer as it is, and has put what is not left into the
  -- sink; when it fails the error is noted.
  abbrev Flushes : ChainWrite Arg → Bytes → Option (Flushed Arg) → Type 0
  Flushes chain input none = ⊥
  Flushes chain input (some (result, after, rest)) =
      (after.buffer ≡ chain.buffer)
      × (after.written ≡ chain.written)
      × ((taken : Bytes) × (input ≡ taken ++ rest) × (sink after.arg ≡ sink chain.arg ++ taken))
      × (result ≡ false → after.is_error ≡ true)

  -- An operation returns, with what it leaves when it is a success, or with the error noted.
  abbrev pub Pushed : Bytes → Option (Bool × ChainWrite Arg) → Type 0
  Pushed pushed none = ⊥
  Pushed pushed (some (false, chain)) = chain.is_error ≡ true
  Pushed pushed (some (true, chain)) = Holds pushed chain

  Flushes-further :
      (chain next after : ChainWrite Arg) (input rest : Bytes) (r : Option (Flushed Arg))
      → Flushes chain input (some (true, next, rest))
      → Flushes next rest r
      → Flushes chain input r
  Flushes-further chain next after input rest none h k = k
  Flushes-further chain next after input rest (some (result, last, end)) (b, w, (taken, i, t), f)
        (b', w', (taken', i', t'), f') =
      (
        b' ∙ b,
        w' ∙ w,
        (
          taken ++ taken',
          i ∙ ap (λ x. taken ++ x) i' ∙ sym (append_assoc taken taken' end),
          t' ∙ ap (λ x. x ++ taken') t ∙ append_assoc (sink chain.arg) taken taken',
        ),
        f',
      )

  status_Flushes :
      (chain next : ChainWrite Arg) (input rest : Bytes) (status : ChainStatus)
      (more : Option (Flushed Arg))
      → Flushes chain input (some (true, next, rest))
      → (status ≡ chain_incomplete → Flushes next rest more)
      → Flushes chain input (elim status [
        | chain_error ↦ some (false, record next { is_error = true }, rest)
        | chain_complete ↦ some (true, next, rest)
        | chain_incomplete ↦ more
      ])
  status_Flushes chain next input rest chain_error more (b, w, t, f) k = (b, w, t, λ _. refl)
  status_Flushes chain next input rest chain_complete more h k = h
  status_Flushes chain next input rest chain_incomplete more h k =
      Flushes-further chain next next input rest more h (k refl)

  if_Flushes :
      (chain : ChainWrite Arg) (input : Bytes) (b : Bool) (r t : Option (Flushed Arg))
      → (b ≡ true → Flushes chain input r)
      → Flushes chain input t
      → Flushes chain input (if b then r else t)
  if_Flushes chain input true r t h k = h refl
  if_Flushes chain input false r t h k = k

  if_Pushed :
      (pushed : Bytes) (b : Bool) (r t : Option (Bool × ChainWrite Arg))
      → (b ≡ true → Pushed pushed r)
      → (b ≡ false → Pushed pushed t)
      → Pushed pushed (if b then r else t)
  if_Pushed pushed true r t h k = h refl
  if_Pushed pushed false r t h k = k refl

  -- The place of the rest of a buffer.
  drop_rest :
      (buffer taken rest : Bytes) (written : ℕ)
      → written ≤ length buffer
      → drop written buffer ≡ taken ++ rest
      → drop (length buffer - length rest) buffer ≡ rest
  drop_rest buffer taken rest written l e =
      let long : length buffer - written ≡ length taken + length rest =
        sym (length-drop written buffer) ∙ ap length e ∙ length-append taken rest in
      ap (λ n. drop n buffer) {y = written + length taken} (omega (arith, long))
      ∙ sym (drop-drop (length taken) written buffer)
      ∙ ap (drop (length taken)) e
      ∙ drop-append taken rest

  flushed-Pushed :
      (pushed : Bytes) (chain : ChainWrite Arg) (r : Option (Flushed Arg))
      → Holds pushed chain
      → Flushes chain (drop chain.written chain.buffer) r
      → Pushed pushed (r >>= λ flushed. some (flushed_buffer flushed))
  flushed-Pushed pushed chain none h k = k
  flushed-Pushed pushed chain (some (false, after, rest)) h (b, w, t, f) = f refl
  flushed-Pushed pushed chain (some (true, after, rest)) (l, e) (b, w, (taken, i, t), f) = (
    omega arith,
    e
        ∙ ap (λ x. sink chain.arg ++ x) i
        ∙ sym (append_assoc (sink chain.arg) taken rest)
        ∙ ap (λ x. x ++ rest) (sym t)
        ∙ ap (λ x. sink after.arg ++ x)
            (sym (
              ap (λ x. drop (length x - length rest) x) b
              ∙ drop_rest chain.buffer taken rest chain.written l i)),
  )

  appended-Pushed :
      (pushed : Bytes) (chain : ChainWrite Arg) (input : Bytes) (r : Option (Flushed Arg))
      → Holds pushed chain
      → chain.written ≡ length chain.buffer
      → Flushes chain input r
      → Pushed (pushed ++ input) (r >>= λ flushed. some (appended flushed))
  appended-Pushed pushed chain input none h z k = k
  appended-Pushed pushed chain input (some (false, after, rest)) h z (b, w, t, f) = f refl
  appended-Pushed pushed chain input (some (true, after, rest)) (l, e) z (b, w, (taken, i, t), f) =
      let none_left : drop chain.written chain.buffer ≡ [] =
        drop-all chain.written chain.buffer (omega (arith, z)) in
      let left : drop after.written after.buffer ≡ [] =
        ap (drop after.written) b ∙ ap (λ n. drop n chain.buffer) w ∙ none_left in
      let fits : after.written ≤ length after.buffer = omega (arith, z, w, ap length b) in
      (
        omega (arith, fits, length-append after.buffer rest),
        ap (λ x. x ++ input)
              (e ∙ ap (λ x. sink chain.arg ++ x) none_left ∙ append-nil (sink chain.arg))
            ∙ ap (λ x. sink chain.arg ++ x) i
            ∙ sym (append_assoc (sink chain.arg) taken rest)
            ∙ ap (λ x. x ++ rest) (sym t)
            ∙ ap (λ x. sink after.arg ++ x)
                (sym
                  (drop-append_le after.written after.buffer rest fits ∙ ap (λ x. x ++ rest) left)),
      )

  if_Holds :
      (pushed : Bytes) (b : Bool) (c d : ChainWrite Arg)
      → Holds pushed c
      → Holds pushed d
      → Holds pushed (if b then c else d)
  if_Holds pushed true c d h k = h
  if_Holds pushed false c d h k = k

  drop_written-Holds :
      (pushed : Bytes) (chain : ChainWrite Arg)
      → Holds pushed chain
      → Holds pushed (drop_written chain)
  drop_written-Holds pushed chain (l, e) =
      let buffer_size = length chain.buffer in
      if_Holds pushed (chain.written == 0) _ _ (l, e)
        (if_Holds pushed (ltb (buffer_size / 2) chain.written || ltb buffer_max_size buffer_size) _
          _ (omega arith, e) (l, e))

  later-Holds :
      (pushed : Bytes) (chain : ChainWrite Arg) (input : Bytes)
      → Holds pushed chain
      → Holds (pushed ++ input) (record chain { buffer = chain.buffer ++ input })
  later-Holds pushed chain input (l, e) = (
    omega (arith, length-append chain.buffer input),
    ap (λ x. x ++ input) e
        ∙ append_assoc (sink chain.arg) (drop chain.written chain.buffer) input
        ∙ ap (λ x. sink chain.arg ++ x) (sym (drop-append_le chain.written chain.buffer input l)),
  )

  module _ (update : Bytes → Arg → ChainStatus × Bytes × Arg) (takes : Takes update)
      (takes_more : TakesMore update) where
    flush_loop-Flushes :
        (fuel : ℕ) (chain : ChainWrite Arg) (input : Bytes)
        → length input < fuel
        → Flushes chain input (flush_loop update fuel chain input)
    unfolding flush_loop
    flush_loop-Flushes zero chain input l = absurd (omega arith)
    flush_loop-Flushes (suc fuel) chain input l =
        let (status, rest, arg) = update input chain.arg in
        let next : ChainWrite Arg = record chain { arg = arg } in
        status_Flushes chain next input rest status (flush_loop update fuel next rest)
          (refl, refl, takes input chain.arg, λ e. cc)
          λ e. flush_loop-Flushes fuel next rest (omega (arith, l, takes_more input chain.arg e))

    flush_input-Flushes :
        (chain : ChainWrite Arg) (input : Bytes)
        → Flushes chain input (chain_write_flush_input update chain input)
    unfolding chain_write_flush_input
    flush_input-Flushes chain input =
        if_Flushes chain input chain.is_error _ _
          (λ e. (refl, refl, ([], refl, sym (append-nil (sink chain.arg))), λ _. e))
          (flush_loop-Flushes (suc (length input)) chain input (omega arith))

    -- A flush returns, and after a success what was pushed so far is in the sink or still in the
    -- buffer.
    pub chain_flush-Pushed :
        (pushed : Bytes) (chain : ChainWrite Arg)
        → Holds pushed chain
        → Pushed pushed (chain_flush update chain)
    unfolding chain_flush
    chain_flush-Pushed pushed chain h =
        flushed-Pushed pushed chain
          (chain_write_flush_input update chain (drop chain.written chain.buffer)) h
          (flush_input-Flushes chain (drop chain.written chain.buffer))

    push_final-Pushed :
        (pushed : Bytes) (chain : ChainWrite Arg)
        → Holds pushed chain
        → Pushed pushed (chain_push_final update chain)
    unfolding chain_push_final
    push_final-Pushed pushed chain h =
        if_Pushed pushed (ltb (length chain.buffer - chain.written) input_flush_size) _ _ (λ _. h)
          λ _. chain_flush-Pushed pushed chain h

    -- With a callback that takes a byte or more until it is through or has an error, a push returns: with
    -- false and the error noted, or with true, and then the bytes pushed before and the input are, in this
    -- order, what the sink has got and what the buffer holds behind the written part.
    pub chain_push-Pushed :
        (pushed : Bytes) (chain : ChainWrite Arg) (input : Bytes)
        → Holds pushed chain
        → Pushed (pushed ++ input) (chain_push update chain input)
    unfolding chain_push
    chain_push-Pushed pushed chain [] h = subst (λ x. Holds x chain) (sym (append-nil pushed)) h
    chain_push-Pushed pushed chain (b ∷ input) h =
        let ready = drop_written chain in
        let k = drop_written-Holds pushed chain h in
        if_Pushed (pushed ++ (b ∷ input))
          (length ready.buffer == ready.written && ltb ready.flush_size (length (b ∷ input))) _ _
          (λ e.
            appended-Pushed pushed ready (b ∷ input)
              (chain_write_flush_input update ready (b ∷ input)) k
              (sym (
                eq_of_test (length ready.buffer) ready.written (
                  and-left (length ready.buffer == ready.written)
                    (ltb ready.flush_size (length (b ∷ input))) e)))
              (flush_input-Flushes ready (b ∷ input)))
          λ _.
            push_final-Pushed (pushed ++ (b ∷ input))
              (record ready { buffer = ready.buffer ++ (b ∷ input) })
              (later-Holds pushed ready (b ∷ input) k)
