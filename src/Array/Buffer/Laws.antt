-- ===== src/Array/Buffer/Laws.antt =====
-- src/array/buffer.c and buffer.h: the operations on what a buffer holds.
use prog_dir.Base.{
  ℕ, zero, suc, ◌+◌, ◌-◌, ◌*◌, ◌%◌, ◌≤◌, ◌<◌, ◌≡◌, refl, sym, ap, ◌∙◌, ◌⊎◌, inl, inr, true, false,
  Option, none, some, [], ◌∷◌, ◌++◌, arith, leb, ◌==◌, Bool-cases, Option-cases, le_of_leb,
  eq_of_test, lt_of_leb, Bytes, length, take, drop, length-take, length-drop, take-append,
}
use prog_dir.Array.Buffer.{
  Buffer, Realloc, buffer_realloc, contents, memory_store, buffer_resize, buffer_append, push_space,
  buffer_push, buffer_strncpy, buffer_rewrite, buffer_downshift,
}
use prog_dir.Base.Slices.{
  Extends, take-take_le, store_at, length-store_at, take-store_at, slice, drop-all, take-nil,
}
use prog_dir.Vluint.{u64_mod}

-- The end lies in the region.
abbrev pub IsBuffer : Buffer → Type 0
IsBuffer b = b.size ≤ length b.region

-- What C promises of a call of `realloc` that returns memory: it has the size asked for, and begins
-- with what the old region held, as far as it reaches.
abbrev pub KeepsBytes : Realloc → Type 0
KeepsBytes realloc =
    (old new : Bytes) (n : ℕ)
    → realloc old n ≡ some new
    → (length new ≡ n) × (length old ≤ n → Extends old new)

take-Extends : (n : ℕ) (xs ys : Bytes) → n ≤ length xs → Extends xs ys → take n ys ≡ take n xs
take-Extends n xs ys h e = sym (take-take_le n (length xs) ys h) ∙ ap (take n) e

-- What a buffer is after a request for room: it can hold `n` bytes, and holds what it held.
abbrev Grown : Buffer → Buffer → ℕ → Type 0
Grown b b' n =
    (n ≤ length b'.region) × (b'.size ≡ b.size) × (take b.size b'.region ≡ take b.size b.region)

-- Memory for `n` bytes was refused.
abbrev pub IsRefused : Realloc → Buffer → ℕ → Type 0
IsRefused realloc b n = (length b.region < n) × (realloc b.region (4 * n + 10) ≡ none)

-- The call left a buffer that holds `bytes`, or, when no memory could be had for `n` of them, it
-- wrote outside of the region.
abbrev pub Outcome : Realloc → Buffer → ℕ → Option Buffer → Bytes → Type 0
Outcome realloc b n result bytes =
    ((b' : Buffer) × (result ≡ some b') × IsBuffer b' × (contents b' ≡ bytes))
    ⊎ (IsRefused realloc b n × (result ≡ none))

drop-take_le : (i n : ℕ) (xs : Bytes) → i ≤ n → drop i (take n xs) ≡ slice i (n - i) xs
drop-take_le zero n xs h = ap (λ t. take t xs) (omega arith)
drop-take_le (suc i) zero xs h = absurd (omega arith)
drop-take_le (suc i) (suc n) [] h = sym (take-nil (suc n - suc i))
drop-take_le (suc i) (suc n) (x ∷ xs) h =
    drop-take_le i n xs (omega arith) ∙ ap (λ t. slice i t xs) (omega arith)

pub store_inside :
    (region : Bytes) (offset : ℕ) (bytes : Bytes)
    → offset + length bytes ≤ length region
    → memory_store region offset bytes ≡ some (store_at region offset bytes)
store_inside region offset bytes h = ground arith

store_outside :
    (region : Bytes) (offset : ℕ) (bytes : Bytes)
    → length region < offset + length bytes
    → memory_store region offset bytes ≡ none
store_outside region offset bytes h = ground arith

module _ (realloc : Realloc) (keeps : KeepsBytes realloc) where
  pub realloc_cases :
      (b : Buffer) (n : ℕ)
      → IsBuffer b
      → 4 * n + 10 < u64_mod
      → (((buffer_realloc realloc b 1 n).1 ≡ true) × Grown b (buffer_realloc realloc b 1 n).0 n)
        ⊎ ((buffer_realloc realloc b 1 n ≡ (b, false)) × IsRefused realloc b n)
  unfolding buffer_realloc
  realloc_cases b n wf fits =
      let size : 1 * n % u64_mod ≡ n = omega arith in
      let grown : (4 * n + 10 * 1) % u64_mod ≡ 4 * n + 10 = omega arith in
      rw (size, grown)
        (elim (Bool-cases (leb n (length b.region))) [
          | inl e ↦ rw (e) (inl (refl, (ground arith, refl, refl)))
          | inr e ↦ rw (e) (elim (Option-cases (realloc b.region (4 * n + 10))) [
            | inl f ↦ rw (f) (inr (refl, (ground arith, refl)))
            | inr (new, f) ↦
                let (l, k) = keeps b.region new (4 * n + 10) f in
                let short : length b.region < n = ground arith in
                let kept = take-Extends b.size b.region new wf (k (omega arith)) in
                rw (f) (inl (refl, (omega (arith, l), refl, kept)))
          ])
        ])

  resize_cases :
      (b : Buffer) (n : ℕ)
      → IsBuffer b
      → 4 * n + 10 < u64_mod
      → (((buffer_resize realloc b n).0.size ≡ n)
          × (n ≤ length (buffer_resize realloc b n).0.region)
          × (take b.size (buffer_resize realloc b n).0.region ≡ take b.size b.region))
        ⊎ (((buffer_resize realloc b n).0 ≡ b) × IsRefused realloc b n)
  unfolding buffer_resize
  resize_cases b n wf fits = elim (realloc_cases b n wf fits) [
    | inl (e, (room, size, kept)) ↦ rw (e) (inl (refl, room, kept))
    | inr (e, refused) ↦ rw (e) (inr (refl, refused))
  ]

  -- A buffer that ends in its region and is asked to append a range, all sizes being below 2 ^ 64:
  -- it comes to hold its bytes and then those of the range, and ends in its region; only when
  -- `realloc` refuses the memory does `buffer_append` write outside of it.
  pub buffer_append_lem :
      (b : Buffer) (bytes : Bytes)
      → IsBuffer b
      → 4 * (b.size + length bytes) + 10 < u64_mod
      → Outcome realloc b
          (b.size + length bytes)
          (buffer_append realloc b bytes)
          (contents b ++ bytes)
  unfolding buffer_append
  buffer_append_lem b bytes wf fits = elim (resize_cases b (b.size + length bytes) wf fits) [
    | inl (size, room, kept) ↦
        let r = (buffer_resize realloc b (b.size + length bytes)).0 in
        rw (store_inside r.region b.size bytes room) (
          inl (
            record { region = store_at r.region b.size bytes; size = r.size },
            refl,
            omega (arith, length-store_at r.region b.size bytes room, size, room),
            rw (size) (
                take-store_at r.region b.size bytes (omega (arith, room))
                ∙ ap (λ t. t ++ bytes) kept),
          ))
    | inr (e, refused) ↦ rw (e, store_outside b.region b.size bytes refused.0) (inr (refused, refl))
  ]

  push_room :
      (b : Buffer)
      → IsBuffer b
      → 4 * (b.size + 1) + 10 < u64_mod
      → Grown b (push_space realloc b) (b.size + 1)
        ⊎ ((push_space realloc b ≡ b) × IsRefused realloc b (b.size + 1))
  unfolding push_space
  push_room b wf fits = elim (Bool-cases (b.size == length b.region)) [
    | inl e ↦ rw (e) (elim (realloc_cases b (b.size + 1) wf fits) [
      | inl (_, grown) ↦ inl grown
      | inr (f, refused) ↦ rw (f) (inr (refl, refused))
    ])
    | inr e ↦ rw (e) (inl (ground arith, refl, refl))
  ]

  -- `buffer_push` of a value onto a buffer that ends in its region, all sizes being below 2 ^ 64:
  -- the buffer comes to hold its bytes and then the value, and ends in its region; only when
  -- `realloc` refuses the memory is the value written outside of it.
  pub buffer_push_lem :
      (b : Buffer) (value : ℕ)
      → IsBuffer b
      → 4 * (b.size + 1) + 10 < u64_mod
      → Outcome realloc b (b.size + 1) (buffer_push realloc b value) (contents b ++ value ∷ [])
  unfolding buffer_push
  buffer_push_lem b value wf fits = elim (push_room b wf fits) [
    | inl (room, size, kept) ↦
        let g = push_space realloc b in
        rw (store_inside g.region g.size (value ∷ []) (omega (arith, size, room))) (
          inl (
            record { region = store_at g.region g.size (value ∷ []); size = g.size + 1 },
            refl,
            omega (
              arith,
              length-store_at g.region g.size (value ∷ []) (omega (arith, size, room)),
              size,
              room,
            ),
            take-store_at g.region g.size (value ∷ []) (omega (arith, size, room))
                ∙ ap (λ t. t ++ value ∷ []) (rw (size) kept),
          ))
    | inr (e, refused) ↦
        rw (e, store_outside b.region b.size (value ∷ []) (omega (arith, refused.0)))
          (inr (refused, refl))
  ]

  -- `buffer_strncpy` of `size` bytes out of at least as many, all sizes being below 2 ^ 64: the
  -- buffer comes to hold those bytes, ends in its region, and has a null byte behind its end, unless
  -- `realloc` refuses the memory.
  pub buffer_strncpy_lem :
      (b : Buffer) (begin : Bytes) (size : ℕ)
      → IsBuffer b
      → size ≤ length begin
      → 4 * (size + 1) + 10 < u64_mod
      → ((b' : Buffer) × (buffer_strncpy realloc b begin size ≡ some b')
          × IsBuffer b'
          × (take (size + 1) b'.region ≡ take size begin ++ 0 ∷ [])
          × (contents b' ≡ take size begin))
        ⊎ IsRefused realloc b (size + 1)
  unfolding buffer_strncpy
  buffer_strncpy_lem b begin size wf enough fits = elim (resize_cases b (size + 1) wf fits) [
    | inl (resized, room, kept) ↦
        let r = (buffer_resize realloc b (size + 1)).0 in
        let n : length (take size begin) ≡ size = omega (arith, length-take size begin) in
        let first = length-store_at r.region 0 (take size begin) (omega (arith, n, room)) in
        let copied = store_at r.region 0 (take size begin) in
        let front : take size copied ≡ take size begin =
          ap (λ t. take t copied) (omega (arith, n))
          ∙ take-store_at r.region 0 (take size begin) (omega arith) in
        let whole : take (size + 1) (store_at copied size (0 ∷ [])) ≡ take size begin ++ 0 ∷ [] =
          take-store_at copied size (0 ∷ []) (omega (arith, first, room))
          ∙ ap (λ t. t ++ 0 ∷ []) front in
        let last : size + 1 - 1 ≡ size = omega arith in
        rw
          (
            resized,
            store_inside r.region 0 (take size begin) (omega (arith, n, room)),
            last,
            store_inside copied size (0 ∷ []) (omega (arith, first, room)),
          )
          (inl (
            record { region = store_at copied size (0 ∷ []); size = size },
            ground arith,
            omega (
              arith,
              length-store_at copied size (0 ∷ []) (omega (arith, first, room)),
              first,
              room,
            ),
            whole,
            sym (take-take_le size (size + 1) (store_at copied size (0 ∷ [])) (omega arith))
                ∙ ap (take size) whole
                ∙ ap (λ t. take t (take size begin ++ 0 ∷ [])) (sym n)
                ∙ take-append (take size begin) (0 ∷ []),
          ))
    | inr (e, refused) ↦ inr refused
  ]

-- `_buffer_downshift` drops the first `count` elements of a buffer that ends in its region, and
-- the buffer still ends there.
pub buffer_downshift_lem :
    (b : Buffer) (element_size count : ℕ)
    → IsBuffer b
    → (contents (buffer_downshift b element_size count) ≡ drop (element_size * count) (contents b))
      × IsBuffer (buffer_downshift b element_size count)
unfolding buffer_downshift buffer_rewrite
buffer_downshift_lem b element_size count wf =
    let size = element_size * count in
    elim (Bool-cases (count == 0)) [
      | inl e ↦
          let z : size ≡ 0 = ap (λ t. element_size * t) (eq_of_test count 0 e) ∙ omega arith in
          rw (e, z) (refl, wf)
      | inr e ↦ elim (Bool-cases (leb b.size size)) [
        | inl f ↦
            let short : length (contents b) ≤ size =
              omega (arith, length-take b.size b.region, le_of_leb b.size size f) in
            rw (e, f) (sym (drop-all size (contents b) short), omega arith)
        | inr f ↦
            let long = lt_of_leb b.size size f in
            let part = slice size (b.size - size) b.region in
            let n : length part ≡ b.size - size = omega (
              arith,
              length-take (b.size - size) (drop size b.region),
              length-drop size b.region,
              wf,
              long,
            ) in
            let l = length-store_at b.region 0 part (omega (arith, n, wf)) in
            rw (e, f)
              (
                ap (λ t. take t (store_at b.region 0 part)) (sym n)
                    ∙ take-append part (drop (0 + length part) b.region)
                    ∙ sym (drop-take_le size b.size b.region (omega (arith, long))),
                omega (arith, l, wf),
              )
      ]
    ]
