-- ===== src/ChainIo/Write.antt =====
-- src/chain-io/write.c
use prog_dir.Base.{
  ℕ, zero, suc, ◌-◌, ◌/◌, Bool, true, false, ◌&&◌, ◌||◌, Option, none, some, [], ◌∷◌, ◌++◌, ltb,
  ◌==◌, if◌then◌else◌, ◌>>=◌, Bytes, length, drop,
}
use prog_dir.ChainIo.{ChainStatus, chain_error, chain_incomplete, chain_complete}

-- `chain_write`, with the `flush_size` of its interface.
pub record ChainWrite {ℓ} (Arg : Type ℓ) : Type ℓ where
  pub written : ℕ
  pub buffer : Bytes
  pub flush_size : ℕ
  pub is_error : Bool
  pub arg : Arg

abbrev pub buffer_max_size : ℕ
buffer_max_size = 10_000_000

abbrev pub input_flush_size : ℕ
input_flush_size = 1_000_000

-- What a flush gives: its result, the chain, and what is left of the input.
abbrev pub Flushed {ℓ} : Type ℓ → Type ℓ
Flushed Arg = Bool × ChainWrite Arg × Bytes

module _ {ℓ} {Arg : Type ℓ} where
  unfoldable pub chain_write_new : Arg → ChainWrite Arg
  chain_write_new arg = record {
    written = 0;
    buffer = [];
    flush_size = 0;
    is_error = false;
    arg = arg;
  }

  abbrev pub flushed_buffer : Flushed Arg → Bool × ChainWrite Arg
  flushed_buffer (true, chain, input) =
      (true, record chain { written = length chain.buffer - length input })
  flushed_buffer (false, chain, input) = (false, chain)

  -- The buffer without what has been written, when that is much.
  abbrev pub drop_written : ChainWrite Arg → ChainWrite Arg
  drop_written chain =
      let buffer_size = length chain.buffer in
      let dropped = record chain { buffer = drop chain.written chain.buffer; written = 0 } in
      if chain.written == 0
      then chain
      else if ltb (buffer_size / 2) chain.written || ltb buffer_max_size buffer_size
      then dropped
      else chain

  -- The input that the callback has left goes into the buffer.
  abbrev pub appended : Flushed Arg → Bool × ChainWrite Arg
  appended (true, chain, input) = (true, record chain { buffer = chain.buffer ++ input })
  appended (false, chain, input) = (false, chain)

  -- `interface.update`: the status, the input that is left, and the argument after it.
  module _ (update : Bytes → Arg → ChainStatus × Bytes × Arg) where
    -- The loop of `chain_write_flush_input`
    unfoldable pub flush_loop : ℕ → ChainWrite Arg → Bytes → Option (Flushed Arg)
    flush_loop zero chain input = none
    flush_loop (suc fuel) chain input =
        let (status, rest, arg) = update input chain.arg in
        let next = record chain { arg = arg } in
        let more = flush_loop fuel next rest in
        elim status [
          | chain_error ↦ some (false, record next { is_error = true }, rest)
          | chain_complete ↦ some (true, next, rest)
          | chain_incomplete ↦ more
        ]

    -- `none` is a callback that goes on without taking bytes.
    unfoldable pub chain_write_flush_input : ChainWrite Arg → Bytes → Option (Flushed Arg)
    chain_write_flush_input chain input =
        let flushed = flush_loop (suc (length input)) chain input in
        if chain.is_error then some (false, chain, input) else flushed

    unfoldable pub chain_flush : ChainWrite Arg → Option (Bool × ChainWrite Arg)
    chain_flush chain =
        chain_write_flush_input chain (drop chain.written chain.buffer) >>= λ flushed.
        some (flushed_buffer flushed)

    unfoldable pub chain_push_final : ChainWrite Arg → Option (Bool × ChainWrite Arg)
    chain_push_final chain =
        let flushed = chain_flush chain in
        if ltb (length chain.buffer - chain.written) input_flush_size
        then some (true, chain)
        else flushed

    abbrev pub push_input : ChainWrite Arg → Bytes → Option (Bool × ChainWrite Arg)
    push_input chain input =
        let through = chain_write_flush_input chain input >>= λ flushed. some (appended flushed) in
        let later = chain_push_final (record chain { buffer = chain.buffer ++ input }) in
        if length chain.buffer == chain.written && ltb chain.flush_size (length input)
        then through
        else later

    unfoldable pub chain_push : ChainWrite Arg → Bytes → Option (Bool × ChainWrite Arg)
    chain_push chain [] = some (true, chain)
    chain_push chain (b ∷ input) = push_input (drop_written chain) (b ∷ input)
