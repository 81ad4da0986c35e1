-- ===== src/Metahash/Header.antt =====
-- src/metahash/metahash.c: the header and metahash_unwrap.
use prog_dir.Base.{
  ℕ, ◌%◌, ◌^◌, ◌≤◌, ◌<◌, ◌≡◌, refl, ap, ◌∙◌, ◌≢◌, inl, inr, Bool, true, false, ◌||◌, none, some, [],
  ◌++◌, append_assoc, arith, ltb, ◌==◌, Bool-cases, Option-cases, le→ltb, le_of_ltb, ne_of_test,
  and-false, Bytes, length, take, drop, length-append, take-append-drop, length-take, take-append,
  drop-append,
}
use prog_dir.Vluint.{vluint_write, VluintRead, vluint_read}
use prog_dir.Vluint.RoundTrip.{vluint_read-vluint_write, vluint_write-append, vluint_read_shape}
use prog_dir.Metahash.Ids.{metahash_size, metahash_identity, is_metahash_id}
use prog_dir.Metahash.{
  metahash_unwrap, metahash_version, verify_vluint, metahash_header_write, metahash_header_read,
  MetahashUnwrap, MetahashHeader,
}

-- The id of a hash: one of the enumerators other than `METAHASH_IDENTITY`.
abbrev pub IsHash : ℕ → Type 0
IsHash id = (is_metahash_id id ≡ id) × (id ≢ metahash_identity) × (id < 2 ^ 32)

-- What `metahash_header_write` appends.
abbrev header_bytes_of : ℕ → Bytes
header_bytes_of id = vluint_write [] metahash_version ++ vluint_write [] id

verify_read :
    (vluint : Bytes) (verify : ℕ) (r : VluintRead)
    → vluint_read vluint ≡ some r
    → verify_vluint vluint verify ≡ (r.result == verify)
unfolding verify_vluint
verify_read vluint verify r e = rw (verify_vluint, e) refl

write_header : (id : ℕ) → id < 2 ^ 32 → metahash_header_write [] id ≡ some (header_bytes_of id)
unfolding metahash_header_write
write_header id h =
    let read = vluint_read-vluint_write metahash_version (vluint_write [] id) (omega arith) in
    let verified =
      verify_read (header_bytes_of id) metahash_version
        record {
          result = metahash_version;
          vluint = vluint_write [] metahash_version;
          rest = vluint_write [] id;
        }
        read in
    rw (vluint_write-append (vluint_write [] metahash_version) id (omega arith), verified) refl

read_header_bytes :
    (id : ℕ) (rest : Bytes)
    → IsHash id
    → metahash_header_read (header_bytes_of id ++ rest)
      ≡ some record { id = id; version = metahash_version; rest = rest }
unfolding metahash_header_read
read_header_bytes id rest (known, ne, h) =
    let small : id % 2 ^ 32 ≡ id = omega arith in
    let test : (id == metahash_identity) ≡ false = ground arith in
    rw
      (
        append_assoc (vluint_write [] metahash_version) (vluint_write [] id) rest,
        vluint_read-vluint_write metahash_version (vluint_write [] id ++ rest) (omega arith),
        vluint_read-vluint_write id rest (omega arith),
        small,
        known,
        test,
      )
      refl

-- The header that is written into an empty buffer for a hash, and then a digest of that hash and any
-- bytes: `metahash_unwrap` gives back the id, version 0, the digest and the bytes behind it, whichever
-- of them are asked for.
pub metahash_unwrap-metahash_header_write :
    (id : ℕ) (digest rest : Bytes) (wants_digest wants_rest : Bool)
    → IsHash id
    → length digest ≡ metahash_size id
    → (header : Bytes) × (metahash_header_write [] id ≡ some header)
      × (metahash_unwrap wants_digest wants_rest (header ++ (digest ++ rest))
          ≡ some record { id = id; version = metahash_version; digest = digest; rest = rest })
unfolding metahash_unwrap
metahash_unwrap-metahash_header_write id digest rest wants_digest wants_rest hash size =
    let long : ltb (length (digest ++ rest)) (length digest) ≡ false =
      le→ltb (length (digest ++ rest)) (length digest) (omega (arith, length-append digest rest)) in
    (
      header_bytes_of id,
      write_header id hash.2,
      rw
          (
            read_header_bytes id (digest ++ rest) hash,
            ← size,
            long,
            take-append digest rest,
            drop-append digest rest,
            and-false (wants_digest || wants_rest),
          )
          refl,
    )

-- The header is checked at the beginning of the buffer: behind a number other than the version,
-- with anything after it, `metahash_header_write` aborts.
pub metahash_header_write_aborts :
    (version : ℕ) (behind : Bytes) (id : ℕ)
    → version < 2 ^ 64
    → version ≢ metahash_version
    → id < 2 ^ 32
    → metahash_header_write (vluint_write [] version ++ behind) id ≡ none
unfolding metahash_header_write
metahash_header_write_aborts version behind id h ne small =
    let inner =
      vluint_write-append (vluint_write [] version ++ behind) metahash_version (omega arith) in
    let outer =
      vluint_write-append ((vluint_write [] version ++ behind) ++ vluint_write [] metahash_version)
        id (omega arith) in
    let tail = behind ++ (vluint_write [] metahash_version ++ vluint_write [] id) in
    let read = vluint_read-vluint_write version tail h in
    let test : (version == metahash_version) ≡ false = ground arith in
    let verified =
      verify_read (vluint_write [] version ++ tail) metahash_version
        record { result = version; vluint = vluint_write [] version; rest = tail } read in
    rw
      (
        inner,
        outer,
        append_assoc (vluint_write [] version ++ behind) (vluint_write [] metahash_version)
            (vluint_write [] id),
        append_assoc (vluint_write [] version) behind
            (vluint_write [] metahash_version ++ vluint_write [] id),
        verified,
        test,
      )
      refl

is_id_same : (n : ℕ) → is_metahash_id n ≢ metahash_identity → is_metahash_id n ≡ n
unfolding is_metahash_id
is_id_same n ne = ground arith

read_shape :
    (input : Bytes) (header : MetahashHeader)
    → metahash_header_read input ≡ some header
    → IsHash header.id × ((bytes : Bytes) × (bytes ++ header.rest ≡ input) × (2 ≤ length bytes))
unfolding metahash_header_read
read_shape input header e = elim (Option-cases (vluint_read input)) [
  | inl f ↦ absurd (ground arith)
  | inr (v, f) ↦ elim (Option-cases (vluint_read v.rest)) [
    | inl g ↦ absurd (ground arith)
    | inr (i, g) ↦ elim (Bool-cases (is_metahash_id (i.result % 2 ^ 32) == metahash_identity)) [
      | inl h ↦ absurd (ground arith)
      | inr h ↦
          let id : is_metahash_id (i.result % 2 ^ 32) ≡ header.id = ground arith in
          let rest : i.rest ≡ header.rest = ground arith in
          let known : is_metahash_id (i.result % 2 ^ 32) ≢ metahash_identity =
            ne_of_test (is_metahash_id (i.result % 2 ^ 32)) metahash_identity h in
          let same = is_id_same (i.result % 2 ^ 32) known in
          let (first, _, shorter) = vluint_read_shape input v f in
          let (second, _, shortest) = vluint_read_shape v.rest i g in
          rw (← id, ← rest, same)
            (
              (same, rw (← same) known, omega arith),
              (
                v.vluint ++ i.vluint,
                append_assoc v.vluint i.vluint i.rest ∙ ap (◌++◌ v.vluint) second ∙ first,
                omega (
                  arith,
                  length-append v.vluint i.vluint,
                  length-append v.vluint v.rest,
                  length-append i.vluint i.rest,
                  ap length first,
                  ap length second,
                ),
              ),
            )
    ]
  ]
]

-- What `metahash_unwrap` accepts, when a place for the digest or for the rest is given: the id is
-- that of a hash, the digest has its size, and the digest and the rest are the end of the input, behind
-- at least two bytes of header.
pub metahash_unwrap_shape :
    (wants_digest wants_rest : Bool) (input : Bytes) (r : MetahashUnwrap)
    → (wants_digest || wants_rest) ≡ true
    → metahash_unwrap wants_digest wants_rest input ≡ some r
    → IsHash r.id
      × (length r.digest ≡ metahash_size r.id)
      × ((header : Bytes) × (header ++ (r.digest ++ r.rest) ≡ input) × (2 ≤ length header))
unfolding metahash_unwrap
metahash_unwrap_shape wants_digest wants_rest input r wants e =
    elim (Option-cases (metahash_header_read input)) [
      | inl f ↦ absurd (ground arith)
      | inr (header, f) ↦ elim (Bool-cases (ltb (length header.rest) (metahash_size header.id))) [
        | inl g ↦ absurd (ground arith)
        | inr g ↦
            let id : header.id ≡ r.id = ground arith in
            let digest : take (metahash_size header.id) header.rest ≡ r.digest = ground arith in
            let rest : drop (metahash_size header.id) header.rest ≡ r.rest = ground arith in
            let (hash, (bytes, whole, long)) = read_shape input header f in
            rw (← id, ← digest, ← rest)
              (
                hash,
                omega (
                  arith,
                  length-take (metahash_size header.id) header.rest,
                  le_of_ltb (length header.rest) (metahash_size header.id) g,
                ),
                (bytes, rw (take-append-drop (metahash_size header.id) header.rest) whole, long),
              )
      ]
    ]
