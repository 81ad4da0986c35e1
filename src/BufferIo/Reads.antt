-- ===== src/BufferIo/Reads.antt =====
-- src/buffer_io/buffer_io.c: what is in the buffer after `buffer_read`.
use prog_dir.Base.{
  ℕ, ◌+◌, ◌-◌, ◌*◌, ◌%◌, ◌≤◌, ◌<◌, ◌≡◌, refl, sym, ap, ◌∙◌, ◌⊎◌, inl, inr, Bool, true, false,
  Option, none, some, [], ◌∷◌, ◌++◌, append-nil, arith, ltb, leb, if◌then◌else◌, le_of_leb,
  lt_of_leb, lt_of_ltb, ◌>>=◌, Bytes, length, take, length-append, length-take,
}
use prog_dir.Array.Buffer.{Buffer, Realloc, contents, buffer_realloc, buffer_resize, buffer_push}
use prog_dir.Array.Buffer.Laws.{
  IsBuffer, IsRefused, Outcome, store_inside, KeepsBytes, realloc_cases, buffer_push_lem,
}
use prog_dir.BufferIo.{
  ReadResult, capped, filled, at_limit, read_limit, new_fill_size, read_resized, buffer_read,
}
use prog_dir.Base.Slices.{store_at, take-store_at, length-store_at}
use prog_dir.Vluint.{u64_mod}

-- What the system promises of `read`: not more bytes than were asked for.
abbrev pub ReadsUpTo {ℓ} : {File : Type ℓ} → (File → ℕ → Option Bytes × File) → Type ℓ
ReadsUpTo {File = File} read =
    (file : File) (n : ℕ) (bytes : Bytes) → (read file n).0 ≡ some bytes → length bytes ≤ n

module _ {File : Type 0} where
  -- The bytes come from a call of `read` within the limit, or there are none at the limit.
  abbrev pub ComesFrom :
      (File → ℕ → Option Bytes × File) → Buffer → ℕ → File → Bytes → File → Type 0
  ComesFrom read b limit file bytes after =
      ((asked : ℕ) × (asked ≤ limit - b.size) × (read file asked ≡ (some bytes, after)))
      ⊎ ((limit ≤ b.size) × (bytes ≡ []) × (after ≡ file))

  -- The call of `read` failed, or memory was refused.
  abbrev pub IsError : Realloc → (File → ℕ → Option Bytes × File) → Buffer → File → File → Type 0
  IsError realloc read b file after =
      ((asked : ℕ) × (read file asked ≡ (none, after))) ⊎ ((n : ℕ) × IsRefused realloc b n)

  -- The bytes that were read stand behind what the buffer had, with a null byte behind them. After an
  -- error what the buffer had is still there. A store outside of the buffer comes up at the limit, after
  -- a `realloc` that refused the memory for a byte.
  abbrev pub IsRead :
      Realloc
      → (File → ℕ → Option Bytes × File)
      → Buffer
      → ℕ
      → File
      → Option (ReadResult File)
      → Type 0
  IsRead realloc read b limit file none = (limit ≤ b.size) × IsRefused realloc b (b.size + 1)
  IsRead realloc read b limit file (some (none, b', after)) =
      (take b.size b'.region ≡ contents b) × IsError realloc read b file after
  IsRead realloc read b limit file (some (some n, b', after)) =
      (bytes : Bytes) × ComesFrom read b limit file bytes after
      × (length bytes ≡ n)
      × (b'.size ≡ b.size + n)
      × (b'.size + 1 ≤ length b'.region)
      × (take (b'.size + 1) b'.region ≡ (contents b ++ bytes) ++ 0 ∷ [])

  filled-IsRead :
      (realloc : Realloc) (read : File → ℕ → Option Bytes × File) (b r : Buffer) (limit fill : ℕ)
      (file : File) (got : Option Bytes) (after : File)
      → b.size + fill + 1 ≤ length r.region
      → take b.size r.region ≡ contents b
      → fill ≤ limit - b.size
      → ((bytes : Bytes) → got ≡ some bytes → length bytes ≤ fill)
      → read file fill ≡ (got, after)
      → IsRead realloc read b limit file (filled r b.size (got, after))
  filled-IsRead realloc read b r limit fill file none after room kept within few e =
      (kept, inl (fill, e))
  filled-IsRead realloc read b r limit fill file (some bytes) after room kept within few e =
      let short = few bytes refl in
      let have = b.size in
      let stored = store_at r.region have bytes in
      let size = have + length bytes in
      let long = length-store_at r.region have bytes (omega (arith, room, short)) in
      let ended = store_at stored size (0 ∷ []) in
      let whole : take (size + 1) ended ≡ (contents b ++ bytes) ++ 0 ∷ [] =
        take-store_at stored size (0 ∷ []) (omega (arith, long, room, short))
        ∙ ap (λ t. t ++ 0 ∷ [])
            (take-store_at r.region have bytes (omega (arith, room)) ∙ ap (λ t. t ++ bytes) kept) in
      rw
        (
          store_inside r.region have bytes (omega (arith, room, short)),
          store_inside stored size (0 ∷ []) (omega (arith, long, room, short)),
        )
        (
          bytes,
          inl (fill, within, e),
          refl,
          refl,
          omega (
            arith,
            length-store_at stored size (0 ∷ []) (omega (arith, long, room, short)),
            long,
            room,
            short,
          ),
          whole,
        )

  at_limit-IsRead :
      (realloc : Realloc) (read : File → ℕ → Option Bytes × File) (b : Buffer) (limit : ℕ)
      (file : File) (r : Option Buffer)
      → IsBuffer b
      → limit ≤ b.size
      → Outcome realloc b (b.size + 1) r (contents b ++ 0 ∷ [])
      → IsRead realloc read b limit file (r >>= λ pushed. at_limit file pushed)
  at_limit-IsRead realloc read b limit file r wf full (inl (b', e, inside, c)) =
      let size : b'.size ≡ b.size + 1 = omega (
        arith,
        length-take b'.size b'.region,
        ap length c,
        length-append (contents b) (0 ∷ []),
        length-take b.size b.region,
        wf,
        inside,
      ) in
      rw e (
        [],
        inr (full, refl, refl),
        refl,
        omega (arith, size),
        omega (arith, size, inside),
        ap (λ n. take n b'.region) {y = b'.size} (omega (arith, size))
            ∙ c
            ∙ ap (λ t. t ++ 0 ∷ []) (sym (append-nil (contents b))),
      )
  at_limit-IsRead realloc read b limit file r wf full (inr (refused, e)) = rw e (full, refused)

  if_IsRead :
      (realloc : Realloc) (read : File → ℕ → Option Bytes × File) (b : Buffer) (limit : ℕ)
      (file : File) (t : Bool) (r s : Option (ReadResult File))
      → (t ≡ true → IsRead realloc read b limit file r)
      → (t ≡ false → IsRead realloc read b limit file s)
      → IsRead realloc read b limit file (if t then r else s)
  if_IsRead realloc read b limit file true r s h k = h refl
  if_IsRead realloc read b limit file false r s h k = k refl

capped-bounds :
    (limit have fill : ℕ)
    → have < limit
    → have + fill < u64_mod
    → (capped limit have fill ≤ limit - have) × (capped limit have fill ≤ fill)
capped-bounds limit have fill h fits = ground arith

module _ {File : Type 0} (realloc : Realloc) (read : File → ℕ → Option Bytes × File)
    (keeps : KeepsBytes realloc) (reads : ReadsUpTo read) where
  resized-IsRead :
      (b : Buffer) (limit fill new_size : ℕ) (file : File)
      → IsBuffer b
      → 4 * new_size + 10 < u64_mod
      → b.size + fill + 1 ≤ new_size
      → fill ≤ limit - b.size
      → IsRead realloc read b limit file
          (read_resized realloc read b.size fill file (buffer_resize realloc b new_size))
  unfolding buffer_resize
  resized-IsRead b limit fill new_size file wf fits room within =
      elim (realloc_cases realloc keeps b new_size wf fits) [
        | inl (e, (long, size, kept)) ↦
            let r : Buffer = record {
              region = (buffer_realloc realloc b 1 new_size).0.region;
              size = new_size;
            } in
            rw e (
              filled-IsRead realloc read b r limit fill file (read file fill).0 (read file fill).1
                (omega (arith, long, room)) kept within (reads file fill) refl)
        | inr (e, refused) ↦ rw e (refl, inr (new_size, refused))
      ]

  -- `buffer_read` into a buffer that ends in its region, with sizes below 2^64. On success the bytes that
  -- one call of `read`, within the limit, has given come behind what the buffer has, or none at the limit,
  -- with a null byte in the region behind the new end. A failure is one of `read` or of `realloc`, and
  -- the old bytes are still in the region. The call writes outside of the region only at the limit, when
  -- `realloc` refuses the place for a byte.
  pub buffer_read-IsRead :
      (max_buffer_size initial_alloc_size : ℕ) (b : Buffer) (file : File)
      → IsBuffer b
      → max_buffer_size < u64_mod
      → length b.region < u64_mod
      → 4 * (b.size + new_fill_size initial_alloc_size b.size + 1) + 10 < u64_mod
      → IsRead realloc read b
          (read_limit max_buffer_size)
          file
          (buffer_read realloc read max_buffer_size initial_alloc_size b file)
  unfolding buffer_read
  buffer_read-IsRead max_buffer_size initial_alloc_size b file wf small reach fits =
      let limit = read_limit max_buffer_size in
      let fill = new_fill_size initial_alloc_size b.size in
      let new_size = (b.size + fill + 1) % u64_mod in
      let whole : new_size ≡ b.size + fill + 1 = omega (arith, fits) in
      if_IsRead realloc read b limit file (leb limit b.size) _ _
        (λ h.
          at_limit-IsRead realloc read b limit file (buffer_push realloc b 0) wf
            (le_of_leb limit b.size h) (buffer_push_lem realloc keeps b 0 wf (omega (arith, fits))))
        λ h.
          if_IsRead realloc read b limit file (ltb (b.size + 1) (length b.region)) _ _
            (λ l.
              let rest = length b.region - 1 - b.size in
              let n = capped limit b.size rest in
              let (p, q) =
                capped-bounds limit b.size rest (lt_of_leb limit b.size h)
                  (omega (arith, wf, reach)) in
              filled-IsRead realloc read b b limit n file (read file n).0 (read file n).1
                (omega (arith, q, lt_of_ltb _ _ l)) refl p (reads file n) refl)
            λ l.
              let (p, q) =
                capped-bounds limit b.size fill (lt_of_leb limit b.size h) (omega (arith, fits)) in
              resized-IsRead b limit (capped limit b.size fill) new_size file wf
                (omega (arith, whole, fits)) (omega (arith, whole, q)) p
