-- ===== src/ChainIo/Read.antt =====
-- src/chain-io/read.c
use prog_dir.Base.{
  ℕ, zero, suc, ◌+◌, ◌-◌, ◌/◌, ◌%◌, Bool, true, false, ◌&&◌, ◌||◌, Option, none, some, [], ltb, leb,
  ◌==◌, if◌then◌else◌, Bytes, length, drop,
}
use prog_dir.ChainIo.{ChainStatus, chain_error, chain_incomplete, chain_complete}
use prog_dir.Vluint.{u64_mod}

-- `chain_read`, with the contents of the buffer of its interface.
pub record ChainRead {ℓ} (Arg : Type ℓ) : Type ℓ where
  pub released : ℕ
  pub is_error : Bool
  pub is_complete : Bool
  pub fresh_read : Bool
  pub buffer : Bytes
  pub arg : Arg

module _ {ℓ} {Arg : Type ℓ} where
  unfoldable pub chain_read_new : Arg → ChainRead Arg
  chain_read_new arg = record {
    released = 0;
    is_error = false;
    is_complete = false;
    fresh_read = false;
    buffer = [];
    arg = arg;
  }

  unfoldable pub chain_read_apply_release : ChainRead Arg → ChainRead Arg
  chain_read_apply_release chain =
      let buffer_size = length chain.buffer in
      if chain.released == 0
      then chain
      else if leb buffer_size chain.released
      then record chain { buffer = []; released = chain.released - buffer_size }
      else if ltb (buffer_size / 2) chain.released || ltb 10_000_000 buffer_size
      then record chain { buffer = drop chain.released chain.buffer; released = 0 }
      else chain

  unfoldable pub chain_release : ChainRead Arg → ℕ → ChainRead Arg
  chain_release chain size =
      let more = record chain { released = (chain.released + size) % u64_mod } in
      if size == 0 then more else record more { fresh_read = true }

  -- What a pull points to.
  abbrev pub pull_contents : ChainRead Arg → Bytes
  pull_contents chain = drop chain.released chain.buffer

  abbrev pub max_pull : ChainRead Arg → ℕ → ℕ
  max_pull chain target_size =
      let start_size = length chain.buffer in
      if ltb start_size target_size then target_size else (start_size + target_size) % u64_mod

  -- `interface.update`: the status, the buffer and the argument after it.
  module _ (update : Bytes → Arg → ChainStatus × Bytes × Arg) where
    -- The loop of `chain_pull`: its result, the chain, and the contents when there are any.
    unfoldable pub pull_loop : ℕ → ChainRead Arg → ℕ → Option (Bool × ChainRead Arg × Bytes)
    pull_loop zero chain max_size = none
    pull_loop (suc fuel) chain max_size =
        let (status, buffer, arg) = update chain.buffer chain.arg in
        let next = record chain { buffer = buffer; arg = arg } in
        let more = pull_loop fuel next max_size in
        elim status [
          | chain_error ↦ some (false, record next { is_error = true }, [])
          | chain_complete ↦ some (true, record next { is_complete = true }, pull_contents next)
          | chain_incomplete ↦
              if ltb max_size (length buffer) then some (true, next, pull_contents next) else more
        ]

    abbrev pub pull_fresh : ChainRead Arg → ℕ → Option (Bool × ChainRead Arg × Bytes)
    pull_fresh chain target_size =
        let max_size = max_pull chain target_size in
        let old = record chain { fresh_read = false } in
        let pulled = pull_loop (max_size + 2) old max_size in
        if chain.fresh_read && leb ((target_size + chain.released) % u64_mod) (length chain.buffer)
        then some (true, old, pull_contents old)
        else pulled

    -- `chain_pull`. `none` is a callback that goes on without giving bytes.
    unfoldable pub chain_pull : ChainRead Arg → ℕ → Option (Bool × ChainRead Arg × Bytes)
    chain_pull chain target_size =
        let ready = chain_read_apply_release chain in
        let pulled = pull_fresh ready target_size in
        if ready.is_complete then some (false, ready, []) else pulled
