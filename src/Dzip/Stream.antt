-- ===== src/Dzip/Stream.antt =====
-- src/dzip: whole streams. `dzip_inflate` on one chunk, `dzip_inflate_range` on what `dzip_deflate`
-- wrote.
use prog_dir.Base.{
  ℕ, zero, suc, ◌+◌, ◌-◌, ◌*◌, ◌≤◌, ◌<◌, ◌≡◌, refl, sym, ap, ◌∙◌, ◌≢◌, true, some, [], ◌∷◌, ◌++◌,
  append-nil, append_assoc, arith, lt→ltb, le→ltb, lt→leb, Bytes, length, take, drop, length-append,
  take-append-drop, length-take, length-drop, drop-append,
}
use prog_dir.Base.Slices.{slice, slice-append}
use prog_dir.Dzip.Inflate.{
  dzip_inflate, inflate_range_loop, inflate_loop, inflate_commands, dzip_inflate_range,
}
use prog_dir.Dzip.Chunk.{
  chunk_bytes, chunk_header, length-header_bytes, dzip_deflate_chunk-IsChunk, IsChunk,
}
use prog_dir.Dzip.Format.{
  u32_mod, dzip_version, header_bytes, read_header, read_header-header_bytes,
}
use prog_dir.Dzip.Decodes.{Decodes}
use prog_dir.Dzip.Deflate.{
  DzipDeflateState, dzip_deflate_chunk, dzip_deflate_loop, next_size, dzip_deflate,
}
use mathlib.Core.Path.{subst}

chunk_read :
    (body rest : Bytes)
    → length body + 16 < u32_mod
    → read_header (chunk_bytes body ++ rest) ≡ chunk_header (length body + 16)
chunk_read body rest h =
    rw (append_assoc (header_bytes (chunk_header (length body + 16))) body rest)
      (read_header-header_bytes dzip_version (length body + 16) (body ++ rest) (omega arith) h)

length-chunk_bytes : (body : Bytes) → length (chunk_bytes body) ≡ 16 + length body
length-chunk_bytes body =
    let h = chunk_header (length body + 16) in
    omega (arith, length-append (header_bytes h) body, length-header_bytes h refl)

-- `dzip_inflate` where the header is in order.
inflate_at :
    (memory base : Bytes) (size : ℕ)
    → read_header memory ≡ chunk_header size
    → 16 < size
    → size ≤ length memory
    → dzip_inflate memory base ≡ inflate_commands (slice 16 (size - 16) memory) base
unfolding dzip_inflate
inflate_at memory base size e h k =
    rw (le→ltb (length memory) 16 (omega arith), e, lt→leb size 16 h, le→ltb (length memory) size k)
      refl

-- `dzip_inflate` on a chunk, with anything behind it.
inflate_chunk :
    (body rest base : Bytes)
    → 0 < length body
    → length body + 16 < u32_mod
    → dzip_inflate (chunk_bytes body ++ rest) base ≡ inflate_commands body base
inflate_chunk body rest base pos h =
    let header = chunk_header (length body + 16) in
    let size : length body + 16 - 16 ≡ length body = omega arith in
    inflate_at (chunk_bytes body ++ rest) base (length body + 16) (chunk_read body rest h)
      (omega arith) (omega (arith, length-append (chunk_bytes body) rest, length-chunk_bytes body))
    ∙ ap (λ n. inflate_commands (slice 16 n (chunk_bytes body ++ rest)) base) size
    ∙ ap (λ b. inflate_commands b base)
        (slice-append (header_bytes header) body rest 16 (length-header_bytes header refl))

inflate_commands_done :
    (output : Bytes)
    → inflate_commands [] output ≡ some (record { success = true; output = output })
unfolding inflate_commands inflate_loop
inflate_commands_done output = refl

-- Chunks, one behind the other, that add `input` to the decoder's `base`.
pub data IsStream : Bytes → Bytes → Bytes → Type 0 where
  done : {base : Bytes} → IsStream base [] []
  chunk :
      {base more rest : Bytes} (input body : Bytes)
      → Decodes body base (base ++ input)
      → 0 < length body
      → length body + 16 < u32_mod
      → IsStream (base ++ input) more rest
      → IsStream base (input ++ more) (chunk_bytes body ++ rest)

range_step :
    (fuel size : ℕ) (whole memory base output : Bytes)
    → read_header memory ≡ chunk_header size
    → 16 < length memory
    → size ≤ length memory
    → dzip_inflate memory base ≡ some (record { success = true; output = output })
    → inflate_range_loop (suc fuel) whole memory base
      ≡ inflate_range_loop fuel whole (drop size memory) output
unfolding inflate_range_loop
range_step fuel size whole memory base output e long fits ok =
    rw (lt→ltb 16 (length memory) long, e, le→ltb (length memory) size fits, ok) refl

range_stop :
    (fuel : ℕ) (whole memory base : Bytes)
    → length memory ≤ 16
    → inflate_range_loop (suc fuel) whole memory base
      ≡ some (record { success = true; output = base; input = memory })
unfolding inflate_range_loop
range_stop fuel whole memory base h = rw (le→ltb 16 (length memory) h) refl

-- What is left when fewer than 17 bytes stand behind the chunks.
range_loop-IsStream :
    (fuel : ℕ) (whole tail : Bytes) {base input stream : Bytes}
    → length stream < fuel
    → length tail ≤ 16
    → IsStream base input stream
    → inflate_range_loop fuel whole (stream ++ tail) base
      ≡ some (record { success = true; output = base ++ input; input = tail })
range_loop-IsStream zero whole tail h short s = absurd (omega arith)
range_loop-IsStream (suc fuel) whole tail {base} h short done =
    rw (append-nil base) (range_stop fuel whole tail base short)
range_loop-IsStream (suc fuel) whole tail h short
      (chunk {base} {more} {rest} input body d pos fits next) =
    let l = length-append (chunk_bytes body) rest in
    let m = length-append (chunk_bytes body) (rest ++ tail) in
    let c = length-chunk_bytes body in
    let behind : drop (length body + 16) (chunk_bytes body ++ (rest ++ tail)) ≡ rest ++ tail =
      ap (λ n. drop n (chunk_bytes body ++ (rest ++ tail))) (omega arith)
      ∙ drop-append (chunk_bytes body) (rest ++ tail) in
    let whole_body : inflate_commands body base ≡ inflate_commands [] (base ++ input) =
      rw (← append-nil body) (d [] (omega arith)) in
    let inflated =
      inflate_chunk body (rest ++ tail) base pos fits
      ∙ whole_body
      ∙ inflate_commands_done (base ++ input) in
    rw (append_assoc (chunk_bytes body) rest tail) (
      range_step fuel (length body + 16) whole (chunk_bytes body ++ (rest ++ tail)) base
        (base ++ input) (chunk_read body (rest ++ tail) fits) (omega arith) (omega arith) inflated
      ∙ ap (λ t. inflate_range_loop fuel whole t (base ++ input)) behind
      ∙ range_loop-IsStream fuel whole tail (omega arith) short next
      ∙ ap (λ o. some (record { success = true; output = o; input = tail }))
          (append_assoc base input more))

one_chunk :
    (input base written : Bytes)
    → IsChunk base input [] written
    → 16 + 21 * length input < u32_mod
    → dzip_inflate written base ≡ some (record { success = true; output = base ++ input })
one_chunk input base written c fits =
    let body = c.body in
    let commands : inflate_commands body base ≡ inflate_commands [] (base ++ input) =
      rw (← append-nil body) (c.decodes [] (omega (arith, c.short))) in
    let alone : written ≡ chunk_bytes body ++ [] =
      c.appended ∙ sym (append-nil (chunk_bytes body)) in
    rw alone (
      inflate_chunk body [] base c.some_command (omega (arith, c.short))
      ∙ commands
      ∙ inflate_commands_done (base ++ input))

-- `dzip_inflate` gives back an input from the chunk that `dzip_deflate_chunk` makes of it, behind what the
-- output buffer holds, and whatever state the encoder starts from. The input is not empty, 21 times its
-- length and 16 are less than 2^32, and so is its length with that of what the output buffer holds.
pub dzip_inflate-dzip_deflate_chunk :
    (s : DzipDeflateState) (input base : Bytes)
    → input ≢ []
    → 16 + 21 * length input < u32_mod
    → length base + length input < u32_mod
    → (r : Bytes × DzipDeflateState) × (dzip_deflate_chunk [] s input ≡ some r)
      × (dzip_inflate r.0 base ≡ some (record { success = true; output = base ++ input }))
dzip_inflate-dzip_deflate_chunk s [] base ne fits small = absurd (ne refl)
dzip_inflate-dzip_deflate_chunk s (x ∷ input) base ne fits small =
    let (r, e, c) =
      dzip_deflate_chunk-IsChunk (x ∷ input) base small s [] (omega arith) (omega arith) in
    (r, e, one_chunk (x ∷ input) base r.0 c (omega arith))

next_size_bounds :
    (input : Bytes) → 0 < length input → (0 < next_size input) × (next_size input ≤ length input)
unfolding next_size
next_size_bounds input h = ground arith

deflate_go :
    (fuel : ℕ) (s : DzipDeflateState) (output input : Bytes) (r : Bytes × DzipDeflateState)
    → 0 < length input
    → dzip_deflate_chunk output s (take (next_size input) input) ≡ some r
    → dzip_deflate_loop (suc fuel) output s input
      ≡ dzip_deflate_loop fuel r.0 r.1 (drop (next_size input) input)
unfolding dzip_deflate_loop
deflate_go fuel s output input r h e = rw (lt→ltb 0 (length input) h, e) refl

deflate_stop :
    (fuel : ℕ) (s : DzipDeflateState) (output : Bytes)
    → dzip_deflate_loop (suc fuel) output s [] ≡ some (output, s)
unfolding dzip_deflate_loop
deflate_stop fuel s output = refl

-- What the loop writes are chunks that decode to its input.
record Deflated (fuel : ℕ) (s : DzipDeflateState) (output base input : Bytes) : Type 0 where
  result : Bytes × DzipDeflateState
  returns : dzip_deflate_loop fuel output s input ≡ some result
  stream : Bytes
  is_stream : IsStream base input stream
  appended : result.0 ≡ output ++ stream
  short : length stream ≤ 37 * length input

-- The first chunk, and what the loop does behind it.
Deflated-chunk :
    (fuel : ℕ) (s : DzipDeflateState) (output base input : Bytes) (r : Bytes × DzipDeflateState)
    → 0 < length input
    → dzip_deflate_chunk output s (take (next_size input) input) ≡ some r
    → length output + 37 * length input < u32_mod
    → IsChunk base (take (next_size input) input) output r.0
    → Deflated fuel r.1 r.0 (base ++ take (next_size input) input) (drop (next_size input) input)
    → Deflated (suc fuel) s output base input
Deflated-chunk fuel s output base input r pos e fits c rest =
    let n = next_size input in
    let bounds = next_size_bounds input pos in
    let first = chunk_bytes c.body in
    record {
      result = rest.result;
      returns = deflate_go fuel s output input r pos e ∙ rest.returns;
      stream = first ++ rest.stream;
      is_stream =
          subst (λ i. IsStream base i (first ++ rest.stream)) (take-append-drop n input)
            (chunk (take n input) c.body c.decodes c.some_command
              (omega (arith, c.short, length-take n input)) rest.is_stream);
      appended =
          rest.appended
          ∙ ap (λ t. t ++ rest.stream) c.appended
          ∙ append_assoc output first rest.stream;
      short = omega (
        arith,
        length-append first rest.stream,
        rest.short,
        c.short,
        length-chunk_bytes c.body,
        length-take n input,
        length-drop n input,
      );
    }

length-written :
    {base input output written : Bytes} (c : IsChunk base input output written)
    → length written ≤ length output + 16 + 21 * length input
length-written {output = output} c = omega (
  arith,
  ap length c.appended,
  length-append output (chunk_bytes c.body),
  length-chunk_bytes c.body,
  c.short,
)

deflate_loop-Deflated :
    (fuel : ℕ) (s : DzipDeflateState) (output base input : Bytes)
    → length input < fuel
    → length output + 37 * length input < u32_mod
    → length base + length input < u32_mod
    → Deflated fuel s output base input
deflate_loop-Deflated zero s output base input h fits small = absurd (omega arith)
deflate_loop-Deflated (suc fuel) s output base [] h fits small = record {
  result = (output, s);
  returns = deflate_stop fuel s output;
  stream = [];
  is_stream = done;
  appended = sym (append-nil output);
  short = omega arith;
}
deflate_loop-Deflated (suc fuel) s output base (x ∷ input) h fits small =
    let whole = x ∷ input in
    let n = next_size whole in
    let bounds = next_size_bounds whole (omega arith) in
    let lt = length-take n whole in
    let ld = length-drop n whole in
    let (r, e, c) =
      dzip_deflate_chunk-IsChunk (take n whole) base (omega arith) s output (omega arith)
        (omega arith) in
    Deflated-chunk fuel s output base whole r (omega arith) e fits c (
      deflate_loop-Deflated fuel r.1 r.0 (base ++ take n whole) (drop n whole) (omega arith)
        (omega (arith, length-written c)) (omega (arith, length-append base (take n whole))))

-- `dzip_inflate_range` on a stream, with fewer than 17 bytes behind it.
range-IsStream :
    (base input stream written tail : Bytes)
    → written ≡ stream
    → IsStream base input stream
    → length tail ≤ 16
    → dzip_inflate_range base (written ++ tail)
      ≡ some (record { success = true; output = base ++ input; input = tail })
range-IsStream base input stream written tail e s short = rw e (
    unfold dzip_inflate_range in
    range_loop-IsStream (suc (length (stream ++ tail))) (stream ++ tail) tail
      (omega (arith, length-append stream tail)) short s)

-- `dzip_deflate` ends on every input with 37 times its length below 2^32, and `dzip_inflate_range`, whose
-- output buffer holds bytes that with the input are less than 2^32, gives the input back from what it
-- wrote, behind these bytes, leaving up to 16 bytes that stand behind the stream.
pub dzip_inflate_range-dzip_deflate :
    (s : DzipDeflateState) (input base tail : Bytes)
    → 37 * length input < u32_mod
    → length base + length input < u32_mod
    → length tail ≤ 16
    → (r : Bytes × DzipDeflateState) × (dzip_deflate [] s input ≡ some r)
      × (dzip_inflate_range base (r.0 ++ tail)
          ≡ some (record { success = true; output = base ++ input; input = tail }))
unfolding dzip_deflate
dzip_inflate_range-dzip_deflate s input base tail fits small short =
    let d =
      deflate_loop-Deflated (suc (length input)) s [] base input (omega arith) (omega arith)
        small in
    (
      d.result,
      d.returns,
      range-IsStream base input d.stream d.result.0 tail d.appended d.is_stream short,
    )
