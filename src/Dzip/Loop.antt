-- ===== src/Dzip/Loop.antt =====
-- src/dzip/deflate/deflate.c: the loop of dzip_deflate_chunk.
use prog_dir.Base.{
  ℕ, zero, suc, ◌+◌, ◌-◌, ◌%◌, ◌≤◌, ◌<◌, ◌≡◌, refl, sym, ◌∙◌, some, arith, lt→ltb, le→ltb, Bytes,
  length,
}
use prog_dir.Dzip.Deflate.{
  DzipDeflateState, write_literal, write_match, deflate_round, setup_match, deflate_loop,
}
use prog_dir.Dzip.Encoder.{Emits, Emits-none, Emits-trans, write_literal-Emits, write_match-Emits}
use prog_dir.Dzip.Match.{IsSetUp, setup_match-IsSetUp, IsRepeat}
use prog_dir.Dzip.Format.{u32_mod}
use native.Mathlib.Decide.{dec_lt}

round_match :
    (output window : Bytes) (s : DzipDeflateState)
    → 4 < (setup_match s window).match_length
    → deflate_round output s window
      ≡ write_match
          (write_literal output (setup_match s window) window).0
          (write_literal output (setup_match s window) window).1
unfolding deflate_round
round_match output window s h = rw (lt→ltb 4 (setup_match s window).match_length h) refl

round_step :
    (output window : Bytes) (s : DzipDeflateState)
    → (setup_match s window).match_length ≤ 4
    → deflate_round output s window ≡ (
      output,
      record (setup_match s window) {
        window_progress = ((setup_match s window).window_progress + 1) % u32_mod;
      },
    )
unfolding deflate_round
round_step output window s h = rw (le→ltb 4 (setup_match s window).match_length h) refl

module _ (window base : Bytes) (small : length base + length window < u32_mod) where
  -- One round emits commands for the window up to its new `literal_begin`, and gets on.
  record IsRound (s t : DzipDeflateState) (output output' : Bytes) : Type 0 where
    emits : Emits window base s t output output'
    behind : t.literal_begin ≤ t.window_progress
    progress : s.window_progress < t.window_progress

  matched :
      (s t u : DzipDeflateState) (output output' : Bytes)
      → s.literal_begin ≤ s.window_progress
      → s.window_progress < length window
      → IsSetUp window s t
      → 4 < t.match_length
      → Emits window base t u output output'
      → u ≡ record t { literal_begin = t.window_progress }
      → IsRound s (write_match output' u).1 output (write_match output' u).0
  matched s t u output output' le lt setup long literal e =
      let v = record t { literal_begin = t.window_progress } in
      let found : IsRepeat window t.window_progress t.match_distance t.match_length =
        rw setup.progress (setup.found (omega arith)) in
      let (emits, level, reached) =
        write_match-Emits window base small v output' refl (omega arith) found in
      rw e (record {
        emits =
            Emits-trans window base s t (write_match output' v).1 output output
              (write_match output' v).0
              (Emits-none window base s t output (sym setup.literal) (omega arith))
              (Emits-trans window base t v (write_match output' v).1 output output'
                (write_match output' v).0 (rw e at literal) emits);
        behind = omega (arith, level);
        progress = omega (arith, reached, setup.progress);
      })

  stepped :
      (s t : DzipDeflateState) (output : Bytes)
      → s.literal_begin ≤ s.window_progress
      → s.window_progress < length window
      → IsSetUp window s t
      → IsRound s (record t { window_progress = (t.window_progress + 1) % u32_mod }) output output
  stepped s t output le lt setup =
      let next : (t.window_progress + 1) % u32_mod ≡ s.window_progress + 1 =
        omega (arith, setup.progress) in
      record {
        emits = Emits-none window base s _ output (sym setup.literal) (omega arith);
        behind = omega (arith, next, setup.literal);
        progress = omega (arith, next);
      }

  deflate_round-IsRound :
      (s : DzipDeflateState) (output : Bytes)
      → s.literal_begin ≤ s.window_progress
      → s.window_progress < length window
      → IsRound s (deflate_round output s window).1 output (deflate_round output s window).0
  deflate_round-IsRound s output le lt =
      let t = setup_match s window in
      let setup = setup_match-IsSetUp s window lt (omega arith) in
      elim (dec_lt 4 t.match_length) [
        | yes long ↦
            let (literal, e) =
              write_literal-Emits window base small t output
                (omega (arith, setup.progress, setup.literal)) (omega (arith, setup.progress)) in
            rw (round_match output window s long) (
              matched s t (write_literal output t window).1 output (write_literal output t window).0
                le lt setup long literal e)
        | no brief ↦ rw (round_step output window s (omega arith)) (stepped s t output le lt setup)
      ]

  loop_stop :
      (fuel max : ℕ) (s : DzipDeflateState) (output : Bytes)
      → max ≤ s.window_progress
      → deflate_loop (suc fuel) max output s window ≡ some (output, s)
  unfolding deflate_loop
  loop_stop fuel max s output h = rw (le→ltb s.window_progress max h)

  loop_go :
      (fuel max : ℕ) (s : DzipDeflateState) (output : Bytes)
      → s.window_progress < max
      → deflate_loop (suc fuel) max output s window
        ≡ deflate_loop fuel max
            (deflate_round output s window).0
            (deflate_round output s window).1
            window
  unfolding deflate_loop
  loop_go fuel max s output h = rw (lt→ltb s.window_progress max h)

  -- With fuel for every position the loop ends, and what it wrote decodes to the window.
  pub deflate_loop-Emits :
      (fuel max : ℕ) (s : DzipDeflateState) (output : Bytes)
      → max - s.window_progress < fuel
      → max ≤ length window
      → s.literal_begin ≤ s.window_progress
      → s.literal_begin ≤ length window
      → (r : Bytes × DzipDeflateState) × (deflate_loop fuel max output s window ≡ some r)
        × Emits window base s r.1 output r.0
  deflate_loop-Emits zero max s output enough inside le lb = absurd (omega arith)
  deflate_loop-Emits (suc fuel) max s output enough inside le lb =
      elim (dec_lt s.window_progress max) [
        | no stop ↦ (
          (output, s),
          loop_stop fuel max s output (omega arith),
          Emits-none window base s s output refl lb,
        )
        | yes go ↦
            let round = deflate_round-IsRound s output le (omega arith) in
            let t = (deflate_round output s window).1 in
            let output' = (deflate_round output s window).0 in
            let emits = round.emits in
            let (r, e, rest) =
              deflate_loop-Emits fuel max t output' (omega (arith, round.progress)) inside
                round.behind emits.inside in
            (
              r,
              loop_go fuel max s output go ∙ e,
              Emits-trans window base s t r.1 output output' r.0 emits rest,
            )
      ]
