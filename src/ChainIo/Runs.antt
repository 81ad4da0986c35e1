-- ===== src/ChainIo/Runs.antt =====
-- Runs of src/chain-io/ with small callbacks, and instances of the theorems about it.
use prog_dir.Base.{
  ℕ, zero, suc, ◌≡◌, refl, sym, ◌≢◌, true, false, none, some, [], ◌∷◌, ◌++◌, append-nil, arith,
  Bytes, length-append,
}
use prog_dir.ChainIo.{ChainStatus, chain_incomplete, chain_complete}
use prog_dir.ChainIo.Read.{
  chain_pull, chain_read_new, chain_read_apply_release, pull_loop, ChainRead,
}
use prog_dir.ChainIo.Write.{chain_push, chain_write_new, chain_flush}
use prog_dir.ChainIo.Pulls.{
  chain_pull-View, View, Appends, Progresses, chain_pull_returns, chain_read_new-View,
}
use prog_dir.ChainIo.Pushes.{chain_push-Pushed, Takes, TakesMore, Pushed, chain_flush-Pushed}

-- A source with a number of bytes left to give, two in each call.
abbrev pairs : Bytes → ℕ → ChainStatus × Bytes × ℕ
pairs buffer zero = (chain_complete, buffer ++ [], zero)
pairs buffer (suc n) = (chain_incomplete, buffer ++ (n ∷ n ∷ []), n)

pairs-Appends : Appends pairs
pairs-Appends buffer zero = ([], refl)
pairs-Appends buffer (suc n) = (n ∷ n ∷ [], refl)

pairs-Progresses : Progresses pairs
pairs-Progresses buffer zero e = cc
pairs-Progresses buffer (suc n) e = omega (arith, length-append buffer (n ∷ n ∷ []))

abbrev pulled : ChainRead ℕ
pulled = record {
  released = 0;
  is_error = false;
  is_complete = false;
  fresh_read = false;
  buffer = 8 ∷ 8 ∷ 7 ∷ 7 ∷ [];
  arg = 7;
}

chain_pull-View_example : (more : Bytes) × View more 0 pulled × ((8 ∷ 8 ∷ 7 ∷ 7 ∷ []) ≡ more)
chain_pull-View_example =
    chain_pull-View pairs pairs-Appends [] 0 (chain_read_new 9) pulled 3 (8 ∷ 8 ∷ 7 ∷ 7 ∷ [])
      (chain_read_new-View 9)
      (unfold chain_pull pull_loop chain_read_new chain_read_apply_release in refl)

chain_pull_returns_example : chain_pull pairs (chain_read_new 9) 3 ≢ none
chain_pull_returns_example = chain_pull_returns pairs pairs-Progresses (chain_read_new 9) 3

-- A sink that keeps all its input.
abbrev keep : Bytes → Bytes → ChainStatus × Bytes × Bytes
keep input arg = (chain_complete, [], arg ++ input)

keep-TakesMore : TakesMore (λ arg. arg) keep
keep-TakesMore input arg e = cc

keep-Takes : Takes (λ arg. arg) keep
keep-Takes input arg = (input, sym (append-nil input), refl)

chain_push-Pushed_example :
    Pushed (λ arg. arg) (1 ∷ 2 ∷ 3 ∷ []) (chain_push keep (chain_write_new (1 ∷ [])) (2 ∷ 3 ∷ []))
chain_push-Pushed_example =
    chain_push-Pushed (λ arg. arg) keep keep-Takes keep-TakesMore (1 ∷ [])
      (chain_write_new (1 ∷ [])) (2 ∷ 3 ∷ []) (unfold chain_write_new in (omega arith, refl))

chain_flush-Pushed_example :
    Pushed (λ arg. arg) (1 ∷ []) (chain_flush keep (chain_write_new (1 ∷ [])))
chain_flush-Pushed_example =
    chain_flush-Pushed (λ arg. arg) keep keep-Takes keep-TakesMore (1 ∷ [])
      (chain_write_new (1 ∷ [])) (unfold chain_write_new in (omega arith, refl))

-- What a complete chain still holds is not given by a further pull.
after_the_end :
    chain_pull pairs
      record {
        released = 0;
        is_error = false;
        is_complete = true;
        fresh_read = false;
        buffer = 5 ∷ [];
        arg = 0;
      }
      1
    ≡ some (
      false,
      record {
        released = 0;
        is_error = false;
        is_complete = true;
        fresh_read = false;
        buffer = 5 ∷ [];
        arg = 0;
      },
      [],
    )
unfolding chain_pull chain_read_apply_release
after_the_end = refl
