-- ===== src/Dzip/Chunk.antt =====
-- src/dzip/deflate/deflate.c, dzip_deflate_chunk: one chunk, and what it decodes to.
use prog_dir.Base.{
  ℕ, suc, ◌+◌, ◌-◌, ◌*◌, ◌%◌, ◌^◌, ◌≤◌, ◌<◌, ◌≡◌, refl, sym, ap, ◌∙◌, Option, none, some, [], ◌∷◌,
  ◌++◌, append-nil, append_assoc, arith, ltb, if◌then◌else◌, lt→ltb, le→ltb, Bytes, length, take,
  replicate, length-append, take-append, drop-append,
}
use prog_dir.Dzip.Deflate.{
  DzipDeflateState, write_literal, deflate_loop, buffer_resize, store_at, dzip_deflate_chunk,
}
use prog_dir.Dzip.Encoder.{Emits, Emits-none, Emits-trans, write_literal-Emits}
use prog_dir.Dzip.Format.{
  header_bytes, DzipHeader, u32_mod, le32, dzip_magic, dzip_version, dzip_header_size,
}
use prog_dir.Base.Slices.{take-all, drop-append_add}
use prog_dir.Dzip.Loop.{deflate_loop-Emits}
use prog_dir.Dzip.Inflate.{Inflated, inflate_loop, inflate_commands}
use prog_dir.Dzip.Decodes.{Decodes}
use native.Mathlib.Decide.{dec_lt}
use mathlib.Core.Path.{subst₂}

abbrev pub chunk_header : ℕ → DzipHeader
chunk_header size = record { magic = dzip_magic; version = dzip_version; chunk_size = size }

-- A chunk with commands `body`.
abbrev pub chunk_bytes : Bytes → Bytes
chunk_bytes body = header_bytes (chunk_header (length body + 16)) ++ body

-- `written` is `output` with one chunk behind it, which adds `input` to the decoder's `base`.
pub record IsChunk (base input output written : Bytes) : Type 0 where
  pub body : Bytes
  pub appended : written ≡ output ++ chunk_bytes body
  pub decodes : Decodes body base (base ++ input)
  pub short : length body ≤ 21 * length input
  pub some_command : 0 < length body

pub length-header_bytes : (h : DzipHeader) → length h.magic ≡ 8 → length (header_bytes h) ≡ 16
unfolding header_bytes
length-header_bytes h e = omega (arith, length-append h.magic (le32 h.version ++ le32 h.chunk_size))

buffer_resize-append :
    (output : Bytes) (n : ℕ) → buffer_resize output (length output + n) ≡ output ++ replicate n 0
unfolding buffer_resize
buffer_resize-append output n =
    let e : length output + n - length output ≡ n = omega arith in
    rw (e, take-all (length output + n) output (omega arith)) refl

-- The header goes into the place that was kept for it.
store_at-reserved :
    (output reserved body bytes : Bytes)
    → length reserved ≡ length bytes
    → store_at ((output ++ reserved) ++ body) (length output) bytes ≡ output ++ (bytes ++ body)
unfolding store_at
store_at-reserved output reserved body bytes e =
    let tail = drop-append reserved body in
    rw
      (
        append_assoc output reserved body,
        take-append output (reserved ++ body),
        drop-append_add output (reserved ++ body) (length bytes),
        ← e,
        tail,
        append_assoc output bytes body,
      )
      refl

output_length : Option Inflated → ℕ
output_length none = 0
output_length (some r) = length r.output

Decodes-some :
    (body base input : Bytes)
    → length body < u32_mod
    → 0 < length input
    → Decodes body base (base ++ input)
    → 0 < length body
Decodes-some [] base input small pos d =
    unfold inflate_commands inflate_loop output_length in
    absurd (omega (arith, ap output_length (d [] (omega arith)), length-append base input))
Decodes-some (b ∷ body) base input small pos d = omega arith

module _ (window base : Bytes) (small : length base + length window < u32_mod) where
  -- The loop, which windows of at most four bytes skip.
  loop_or_skip :
      (s : DzipDeflateState) (output : Bytes)
      → s.literal_begin ≡ 0
      → s.window_progress ≡ 8
      → (r : Bytes × DzipDeflateState) × ((if ltb 4 (length window)
            then deflate_loop (suc (length window)) (length window - 4) output s window
            else some (output, s))
          ≡ some r)
        × Emits window base s r.1 output r.0
  loop_or_skip s output lb wp = elim (dec_lt 4 (length window)) [
    | yes h ↦ rw (lt→ltb 4 (length window) h) (
        deflate_loop-Emits window base small (suc (length window)) (length window - 4) s output
          (omega arith) (omega arith) (omega arith) (omega arith))
    | no h ↦
        rw (le→ltb 4 (length window) (omega arith))
          ((output, s), refl, Emits-none window base s s output refl (omega arith))
  ]

  -- From the loop's end on: what is left goes out as a literal.
  flush :
      (s t : DzipDeflateState) (output written : Bytes)
      → s.literal_begin ≡ 0
      → Emits window base s t output written
      → Emits window base s
          (write_literal written (record t { window_progress = length window }) window).1
          output
          (write_literal written (record t { window_progress = length window }) window).0
        × ((write_literal written
              (record t { window_progress = length window })
              window).1.literal_begin
            ≡ length window)
  flush s t output written lb e =
      let t' = record t { window_progress = length window } in
      let (last, left) = write_literal-Emits window base small t' written e.inside (omega arith) in
      (
        Emits-trans window base s t (write_literal written t' window).1 output written
            (write_literal written t' window).0 e
            (Emits-trans window base t t' (write_literal written t' window).1 written written
              (write_literal written t' window).0
              (Emits-none window base t t' written refl e.inside) last),
        ap (λ (u : DzipDeflateState). u.literal_begin) left,
      )

  start_state : DzipDeflateState → DzipDeflateState
  start_state s = record s { window_progress = 8; literal_begin = 0 }

  chunk_computes :
      (s : DzipDeflateState) (output : Bytes) (r : Bytes × DzipDeflateState)
      → length output + 16 < u32_mod
      → (if ltb 4 (length window)
          then deflate_loop
              (suc (length window))
              (length window - 4)
              (output ++ replicate 16 0)
              (record s { window_progress = 8; literal_begin = 0 })
              window
          else some (output ++ replicate 16 0, record s { window_progress = 8; literal_begin = 0 }))
        ≡ some r
      → dzip_deflate_chunk output s window ≡ (
          let w = write_literal r.0 (record r.1 { window_progress = length window }) window in
          some (
            store_at w.0
                (length output)
                (header_bytes (chunk_header ((length w.0 - length output) % u32_mod))),
            w.1,
          ))
  unfolding dzip_deflate_chunk
  chunk_computes s output r fits e =
      let h1 : length output % u32_mod ≡ length output = omega arith in
      let h2 : length window % u32_mod ≡ length window = omega arith in
      let h3 : (length output + dzip_header_size) % 2 ^ 64 ≡ length output + 16 = omega arith in
      rw (h1, h2) (rw h3 (rw (buffer_resize-append output 16) (rw e refl)))

  complete_chunk :
      (output complete body : Bytes)
      → complete ≡ (output ++ replicate 16 0) ++ body
      → length body + 16 < u32_mod
      → store_at complete
          (length output)
          (header_bytes (chunk_header ((length complete - length output) % u32_mod)))
        ≡ output ++ chunk_bytes body
  complete_chunk output complete body e fits =
      let l = length-append (output ++ replicate 16 0) body in
      let m = length-append output (replicate 16 0) in
      let r : length (replicate {A = ℕ} 16 0) ≡ 16 = omega arith in
      let size : (length complete - length output) % u32_mod ≡ length body + 16 =
        omega (arith, ap length e, l, m, r) in
      let header = header_bytes (chunk_header (length body + 16)) in
      let sixteen = length-header_bytes (chunk_header (length body + 16)) refl in
      rw (size, e) (store_at-reserved output (replicate 16 0) body header (sym sixteen))

  -- A chunk of any non-empty window decodes to it, whatever the state of the encoder was.
  pub dzip_deflate_chunk-IsChunk :
      (s : DzipDeflateState) (output : Bytes)
      → 0 < length window
      → length output + 16 + 21 * length window < u32_mod
      → (r : Bytes × DzipDeflateState) × (dzip_deflate_chunk output s window ≡ some r)
        × IsChunk base window output r.0
  dzip_deflate_chunk-IsChunk s output pos fits =
      let start = record s { window_progress = 8; literal_begin = 0 } in
      let reserved = output ++ replicate 16 0 in
      let (r, e, looped) = loop_or_skip start reserved refl refl in
      let (emits, level) = flush start r.1 reserved r.0 refl looped in
      let w = write_literal r.0 (record r.1 { window_progress = length window }) window in
      let body = emits.body in
      let small_body : length body ≤ 21 * length window = omega (arith, emits.short, level) in
      let decodes : Decodes body base (base ++ window) =
        subst₂ (Decodes body) (append-nil base)
          (ap (λ n. base ++ take n window) level ∙ ap (◌++◌ base) (take-all _ window (omega arith)))
          emits.decodes in
      (
        _,
        chunk_computes s output r (omega arith) e,
        record {
          body = body;
          appended = complete_chunk output w.0 body emits.appended (omega arith);
          decodes = decodes;
          short = small_body;
          some_command = Decodes-some body base window (omega arith) pos decodes;
        },
      )
