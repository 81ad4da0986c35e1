-- ===== src/Http/Lines.antt =====
-- src/http/client.c: what `http_getline` takes from the connection.
use prog_dir.Base.{
  ℕ, ◌+◌, ◌≤◌, ◌<◌, ◌≡◌, refl, sym, ap, ◌∙◌, inl, inr, Bool, true, false, Option, none, some, [],
  ◌∷◌, ◌++◌, arith, ◌==◌, ◌>>=◌, Bytes, length, take, drop, length-take,
}
use prog_dir.Array.Range.{range_strstr}
use prog_dir.Array.Range.Search.{StandsAt, range_strstr_first}
use prog_dir.ChainIo.Pulls.{View, Appends, Pulled, chain_pull-Pulled, chain_release-View}
use prog_dir.ChainIo.Read.{ChainRead, chain_release}
use prog_dir.Http.Steps.{found_line, pulled_line, http_getline}
use prog_dir.Base.Slices.{slice, take-add}
use prog_dir.ChainIo.{ChainStatus}
use prog_dir.Http.{Getline, line_error, line_incomplete, line_read, crlf}
use prog_dir.Vluint.{u64_mod}
use mathlib.Core.Path.{subst}

-- The line stands at a position of the stream, up to the first end of a line.
abbrev pub IsLine : Bytes → ℕ → Bytes → Type 0
IsLine stream position line =
    (slice position (length line + 2) stream ≡ line ++ crlf)
    × ((j : ℕ) → j < length line → ¬ StandsAt crlf (drop position stream) j)

module _ {ℓ} {Arg : Type ℓ} where
  -- What the result says of the stream, the position and the chain.
  abbrev Line : Bytes → ℕ → Getline × ChainRead Arg → Type 0
  Line stream position (line_error, chain) = View stream position chain
  Line stream position (line_incomplete, chain) = View stream position chain
  Line stream position (line_read line, chain) =
      position + (length line + 2) < u64_mod
      → View stream (position + (length line + 2)) chain × IsLine stream position line

  abbrev Got : Bytes → ℕ → Option (Getline × ChainRead Arg) → Type 0
  Got stream position none = Unit
  Got stream position (some got) = (more : Bytes) × Line (stream ++ more) position got

  abbrev LineOr : Bytes → ℕ → Option (Getline × ChainRead Arg) → Type 0
  LineOr stream position none = Unit
  LineOr stream position (some got) = Line stream position got

  line_read-Line :
      (stream contents : Bytes) (position i : ℕ) (chain : ChainRead Arg)
      → View stream position chain
      → contents ≡ drop position stream
      → i + 2 ≤ length contents
      → StandsAt crlf contents i
      → ((j : ℕ) → j < i → ¬ StandsAt crlf contents j)
      → Line stream position (line_read (take i contents), chain_release chain (i + 2))
  line_read-Line stream contents position i chain (base, holds, stands, inside) e b s f h =
      let long : length (take i contents) ≡ i = length-take i contents ∙ omega arith in
      let v : View stream position chain = (base, holds, stands, inside) in
      (
        subst (λ n. View stream (position + (n + 2)) (chain_release chain (i + 2))) (sym long)
            (chain_release-View stream position chain (i + 2) v (omega (arith, stands, long, h))),
        (
          ap (take (length (take i contents) + 2)) (sym e)
              ∙ ap (λ n. take (n + 2) contents) long
              ∙ take-add i 2 contents
              ∙ ap (λ t. take i contents ++ t) s,
          λ j l. subst (λ t. ¬ StandsAt crlf t j) e (f j (omega (arith, l, long))),
        ),
      )

  found_line-Line :
      (stream : Bytes) (position c : ℕ) (contents : Bytes) (chain : ChainRead Arg)
      → View stream position chain
      → c ∷ contents ≡ drop position stream
      → LineOr stream position (found_line chain (c ∷ contents) (range_strstr (c ∷ contents) crlf))
  found_line-Line stream position c contents chain v e =
      elim (range_strstr_first (c ∷ contents) crlf (omega arith) (omega arith)) [
        | inl (i, at, b, s, f) ↦
            let test : (i == length (c ∷ contents)) ≡ false = ground arith in
            (rw (at, test) (line_read-Line stream (c ∷ contents) position i chain v e b s f))
        | inr (at, f) ↦
            let test : (length (c ∷ contents) == length (c ∷ contents)) ≡ true = ground arith in
            (rw (at, test) v)
      ]

  pulled_line-Line :
      (stream : Bytes) (position : ℕ) (result : Bool) (chain : ChainRead Arg) (contents : Bytes)
      → View stream position chain
      → (result ≡ true → contents ≡ drop position stream)
      → LineOr stream position (pulled_line (result, chain, contents))
  pulled_line-Line stream position false chain contents v e = v
  pulled_line-Line stream position true chain [] v e = v
  pulled_line-Line stream position true chain (c ∷ contents) v e =
      found_line-Line stream position c contents chain v (e refl)

  LineOr-Got :
      (stream more : Bytes) (position : ℕ) (r : Option (Getline × ChainRead Arg))
      → LineOr (stream ++ more) position r
      → Got stream position r
  LineOr-Got stream more position none h = tt
  LineOr-Got stream more position (some got) h = (more, h)

  Pulled-Got :
      (stream : Bytes) (position : ℕ) (r : Option (Bool × ChainRead Arg × Bytes))
      → Pulled stream position r
      → Got stream position (r >>= λ pulled. pulled_line pulled)
  Pulled-Got stream position none h = tt
  Pulled-Got stream position (some (result, chain, contents)) (more, v, e) =
      LineOr-Got stream more position _
        (pulled_line-Line (stream ++ more) position result chain contents v e)

  module _ (update : Bytes → Arg → ChainStatus × Bytes × Arg) (appends : Appends update) where
    http_getline-Got :
        (stream : Bytes) (position : ℕ) (chain : ChainRead Arg)
        → View stream position chain
        → Got stream position (http_getline update chain)
    unfolding http_getline
    http_getline-Got stream position chain v =
        Pulled-Got stream position _ (chain_pull-Pulled update appends stream position chain 0 v)

    -- A line that `http_getline` gives stands at the position of the stream, in which the callback may
    -- have put more bytes, up to the first CRLF, and the position moves behind that; this for positions
    -- that a `size_t` holds.
    pub http_getline_lem :
        (stream : Bytes) (position : ℕ) (chain after : ChainRead Arg) (line : Bytes)
        → View stream position chain
        → http_getline update chain ≡ some (line_read line, after)
        → position + (length line + 2) < u64_mod
        → (more : Bytes) × View (stream ++ more) (position + (length line + 2)) after
          × IsLine (stream ++ more) position line
    http_getline_lem stream position chain after line v e fits =
        let (more, h) = subst (Got stream position) e (http_getline-Got stream position chain v) in
        let (v2, l) = h fits in (more, v2, l)
