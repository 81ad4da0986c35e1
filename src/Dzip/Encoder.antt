-- ===== src/Dzip/Encoder.antt =====
-- src/dzip/deflate/deflate.c: what the writing functions and one round of the loop emit.
use prog_dir.Base.{
  ℕ, ◌+◌, ◌-◌, ◌*◌, ◌%◌, ◌≤◌, ◌<◌, ◌≡◌, refl, sym, ap, ◌∙◌, [], ◌++◌, append-nil, append_assoc,
  arith, lt→ltb, le→ltb, Bytes, length, take, drop, length-append, length-take, length-drop,
}
use prog_dir.Base.Slices.{slice, take-add}
use prog_dir.Dzip.Deflate.{DzipDeflateState, write_literal, write_match, write_command}
use prog_dir.Dzip.Decodes.{Decodes, Decodes-append, Decodes-literal, Decodes-match}
use prog_dir.Dzip.Match.{IsRepeat, copy_match-IsRepeat}
use prog_dir.Dzip.Command.{command_bytes, write_command_lem, length-command_bytes}
use prog_dir.Dzip.Format.{u32_mod}
use prog_dir.Dzip.Inflate.{inflate_commands}
use prog_dir.Vluint.{vluint_write}
use prog_dir.Vluint.RoundTrip.{vluint_write_shape, vluint_write-append}
use native.Mathlib.Decide.{dec_lt}
use mathlib.Core.Path.{subst}

-- From state `s` to state `t` the encoder appended commands that take the decoder from the window
-- up to the one `literal_begin` to the window up to the other, behind some `base`.
pub record Emits (window base : Bytes) (s t : DzipDeflateState) (output output' : Bytes)
    : Type 0 where
  pub body : Bytes
  pub appended : output' ≡ output ++ body
  pub forward : s.literal_begin ≤ t.literal_begin
  pub inside : t.literal_begin ≤ length window
  pub decodes :
      Decodes body (base ++ take s.literal_begin window) (base ++ take t.literal_begin window)
  pub short : length body + 21 * s.literal_begin ≤ 21 * t.literal_begin

module _ (window base : Bytes) where
  pub Emits-none :
      (s t : DzipDeflateState) (output : Bytes)
      → s.literal_begin ≡ t.literal_begin
      → s.literal_begin ≤ length window
      → Emits window base s t output output
  Emits-none s t output e h = record {
    body = [];
    appended = sym (append-nil output);
    forward = omega arith;
    inside = omega arith;
    decodes = λ rest _. ap (λ n. inflate_commands rest (base ++ take n window)) e;
    short = omega arith;
  }

  pub Emits-trans :
      (s t u : DzipDeflateState) (a b c : Bytes)
      → Emits window base s t a b
      → Emits window base t u b c
      → Emits window base s u a c
  Emits-trans s t u a b c p q = record {
    body = p.body ++ q.body;
    appended = q.appended ∙ ap (λ l. l ++ q.body) p.appended ∙ append_assoc a p.body q.body;
    forward = omega (arith, p.forward, q.forward);
    inside = q.inside;
    decodes = Decodes-append p.body q.body _ _ _ p.decodes q.decodes;
    short = omega (arith, length-append p.body q.body, p.short, q.short);
  }

write_literal_some :
    (s : DzipDeflateState) (output window : Bytes)
    → s.literal_begin < s.window_progress
    → s.window_progress < u32_mod
    → write_literal output s window ≡ (
      write_command output 0 (s.window_progress - s.literal_begin)
          ++ slice s.literal_begin (s.window_progress - s.literal_begin) window,
      record s { literal_begin = s.window_progress },
    )
unfolding write_literal
write_literal_some s output window h small =
    let count = s.window_progress - s.literal_begin in
    let e : count % u32_mod ≡ count = omega arith in
    rw (lt→ltb s.literal_begin s.window_progress h) (rw e refl)

write_literal_none :
    (s : DzipDeflateState) (output window : Bytes)
    → s.window_progress ≤ s.literal_begin
    → write_literal output s window ≡ (output, s)
unfolding write_literal
write_literal_none s output window h = rw (le→ltb s.literal_begin s.window_progress h) refl

length-slice :
    (from count : ℕ) (window : Bytes)
    → from + count ≤ length window
    → length (slice from count window) ≡ count
length-slice from count window h =
    omega (arith, length-take count (drop from window), length-drop from window)

module _ (window base : Bytes) (small : length base + length window < u32_mod) where
  -- The bytes between two positions, as a literal.
  literal-Decodes :
      (from count : ℕ)
      → 0 < count
      → from + count ≤ length window
      → Decodes
          (command_bytes 0 count ++ slice from count window)
          (base ++ take from window)
          (base ++ take (from + count) window)
  literal-Decodes from count pos h =
      let bytes = slice from count window in
      let l = length-slice from count window h in
      let whole : (base ++ take from window) ++ bytes ≡ base ++ take (from + count) window =
        append_assoc base (take from window) bytes
        ∙ ap (◌++◌ base) (sym (take-add from count window)) in
      subst
        (λ n.
          Decodes (command_bytes 0 n ++ bytes) (base ++ take from window)
            (base ++ take (from + count) window))
        l
        (subst (Decodes (command_bytes 0 (length bytes) ++ bytes) (base ++ take from window)) whole
          (Decodes-literal bytes (base ++ take from window) (omega arith) (omega arith)))

  written_literal :
      (s : DzipDeflateState) (output : Bytes)
      → s.literal_begin < s.window_progress
      → s.window_progress ≤ length window
      → Emits window base s
          (record s { literal_begin = s.window_progress })
          output
          (write_command output 0 (s.window_progress - s.literal_begin)
            ++ slice s.literal_begin (s.window_progress - s.literal_begin) window)
  written_literal s output lt inside =
      let from = s.literal_begin in
      let count = s.window_progress - from in
      let front = command_bytes 0 count in
      let bytes = slice from count window in
      let e : from + count ≡ s.window_progress = omega arith in
      record {
        body = front ++ bytes;
        appended =
            ap (λ l. l ++ bytes) (write_command_lem output 0 count (omega arith) (omega arith))
            ∙ append_assoc output front bytes;
        forward = omega arith;
        inside = inside;
        decodes =
            subst (λ n. Decodes (front ++ bytes) (base ++ take from window) (base ++ take n window))
              e (literal-Decodes from count (omega arith) (omega arith));
        short = omega (
          arith,
          length-append front bytes,
          length-slice from count window (omega arith),
          length-command_bytes 0 count (omega arith),
        );
      }

  match-Decodes :
      (s : DzipDeflateState)
      → s.literal_begin ≡ s.window_progress
      → 0 < s.match_length
      → IsRepeat window s.window_progress s.match_distance s.match_length
      → Decodes
          (command_bytes 1 s.match_length ++ vluint_write [] s.match_distance)
          (base ++ take s.literal_begin window)
          (base ++ take ((s.window_progress + s.match_length) % u32_mod) window)
  match-Decodes s e pos r =
      let p = s.window_progress in
      let body = command_bytes 1 s.match_length ++ vluint_write [] s.match_distance in
      let here : (p + s.match_length) % u32_mod ≡ p + s.match_length = omega (arith, r.inside) in
      let l = length-append base (take p window) in
      let lt = length-take p window in
      rw (e, here)
        (subst (Decodes body (base ++ take p window))
          (copy_match-IsRepeat window base p s.match_distance s.match_length r)
          (Decodes-match s.match_length s.match_distance (base ++ take p window) pos
            (omega (arith, r.inside)) r.distance_pos (omega (arith, l, lt, r.inside, r.distance_le))
            (omega (arith, l, lt))))

  -- `write_literal` writes out the window up to `window_progress`.
  pub write_literal-Emits :
      (s : DzipDeflateState) (output : Bytes)
      → s.literal_begin ≤ s.window_progress
      → s.window_progress ≤ length window
      → Emits window base s
          (write_literal output s window).1
          output
          (write_literal output s window).0
        × ((write_literal output s window).1 ≡ record s { literal_begin = s.window_progress })
  write_literal-Emits s output le inside = elim (dec_lt s.literal_begin s.window_progress) [
    | yes lt ↦
        rw (write_literal_some s output window lt (omega arith))
          (written_literal s output lt inside, refl)
    | no ge ↦
        let e : s.literal_begin ≡ s.window_progress = omega arith in
        rw (write_literal_none s output window (omega arith)) (
          Emits-none window base s s output refl (omega arith),
          λ i. record s { literal_begin = e i },
        )
  ]

  -- `write_match` writes a repeat at `window_progress`, where nothing is waiting to be written.
  pub write_match-Emits :
      (s : DzipDeflateState) (output : Bytes)
      → s.literal_begin ≡ s.window_progress
      → 0 < s.match_length
      → IsRepeat window s.window_progress s.match_distance s.match_length
      → Emits window base s (write_match output s).1 output (write_match output s).0
        × ((write_match output s).1.literal_begin ≡ (write_match output s).1.window_progress)
        × ((write_match output s).1.window_progress ≡ s.window_progress + s.match_length)
  unfolding write_match
  write_match-Emits s output e pos r =
      let front = command_bytes 1 s.match_length in
      let dist = vluint_write [] s.match_distance in
      let p = s.window_progress in
      let here : (p + s.match_length) % u32_mod ≡ p + s.match_length = omega (arith, r.inside) in
      let shape =
        vluint_write_shape [] s.match_distance (omega (arith, r.inside, r.distance_le)) tt in
      (
        record {
          body = front ++ dist;
          appended =
              vluint_write-append (write_command output 1 s.match_length) s.match_distance
                (omega (arith, r.inside, r.distance_le))
              ∙ ap (λ l. l ++ dist)
                  (write_command_lem output 1 s.match_length (omega arith)
                    (omega (arith, r.inside)))
              ∙ append_assoc output front dist;
          forward = omega (arith, r.inside);
          inside = omega (arith, r.inside);
          decodes = match-Decodes s e pos r;
          short = omega (
            arith,
            here,
            length-append front dist,
            shape.2,
            length-command_bytes 1 s.match_length (omega (arith, r.inside)),
          );
        },
        refl,
        here,
      )
