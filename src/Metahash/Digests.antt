-- ===== src/Metahash/Digests.antt =====
-- src/metahash/metahash.c: the digests of several hashes, with the gcrypt library as a parameter.
use prog_dir.Base.{
  ℕ, ◌+◌, ◌<◌, ◌≡◌, ◌≢◌, Bool, true, false, Option, none, some, List, [], ◌∷◌, ◌++◌, arith, ◌==◌,
  if◌then◌else◌, ◌>>=◌, when, Bytes, length, take, All, switch,
}
use prog_dir.Metahash.Ids.{
  metahash_sha1, metahash_sha2_256, metahash_sha2_512, metahash_sha3_512, metahash_sha3_384,
  metahash_sha3_256, metahash_sha3_224, metahash_md5_128, metahash_identity, metahash_size,
}
use prog_dir.Metahash.{metahash_identify_name}

-- What is used of gcrypt: the numbers of its algorithms, none of them 0, and its calls on a context;
-- a context is the list of the algorithms that it computes. `md_read` is
-- of a context that was written the data, and gives the null pointer for an algorithm that is not
-- enabled.
pub record Gcrypt : Type 0 where
  pub sha256 : ℕ
  pub sha512 : ℕ
  pub md5 : ℕ
  pub sha1 : ℕ
  pub sha3_512 : ℕ
  pub sha3_384 : ℕ
  pub sha3_256 : ℕ
  pub sha3_224 : ℕ
  pub md_open : Bool
  pub md_enable : ℕ → Bool
  pub algo_dlen : ℕ → ℕ
  pub md_read : List ℕ → ℕ → Option Bytes

module _ (gcrypt : Gcrypt) where
  -- `convert_metahash_id_to_gcry_id`; 0 after `fail`.
  unfoldable pub convert_metahash_id_to_gcry_id : ℕ → ℕ
  convert_metahash_id_to_gcry_id id =
      switch id
        ((metahash_sha2_256, gcrypt.sha256)
          ∷ (metahash_sha2_512, gcrypt.sha512)
          ∷ (metahash_md5_128, gcrypt.md5)
          ∷ (metahash_sha1, gcrypt.sha1)
          ∷ (metahash_sha3_512, gcrypt.sha3_512)
          ∷ (metahash_sha3_384, gcrypt.sha3_384)
          ∷ (metahash_sha3_256, gcrypt.sha3_256)
          ∷ (metahash_sha3_224, gcrypt.sha3_224)
          ∷ [])
        0

  -- The loop of `init_context`: the context when it returns true.
  unfoldable pub enable_loop : List ℕ → List ℕ → Option (List ℕ)
  enable_loop context [] = some context
  enable_loop context (id ∷ use_hashes) =
      let gcry_id = convert_metahash_id_to_gcry_id id in
      let rest = enable_loop (context ++ gcry_id ∷ []) use_hashes in
      if gcry_id == 0 then none else if gcrypt.md_enable gcry_id then rest else none

  unfoldable pub init_context : List ℕ → Option (List ℕ)
  init_context use_hashes = when gcrypt.md_open (enable_loop [] use_hashes)

  -- `final_context`: what it returns, and the output; `none` is a copy from the null pointer.
  unfoldable pub final_context : Bytes → List ℕ → List ℕ → Option (Bool × Bytes)
  final_context output context [] = some (true, output)
  final_context output context (id ∷ use_hashes) =
      let gcry_id = convert_metahash_id_to_gcry_id id in
      let size = gcrypt.algo_dlen gcry_id in
      let read = gcrypt.md_read context gcry_id >>= λ digest.
      final_context (output ++ take size digest) context use_hashes in
      if gcry_id == 0 then some (false, output) else read

  -- The digest that gcrypt gives for an algorithm.
  abbrev pub digest_of : List ℕ → ℕ → Bytes
  digest_of context gcry_id = elim (gcrypt.md_read context gcry_id) [ none ↦ [] | some d ↦ d ]

  -- The digests of some hashes, one behind the other.
  abbrev pub digests : List ℕ → List ℕ → Bytes
  digests context [] = []
  digests context (id ∷ use_hashes) =
      digest_of context (convert_metahash_id_to_gcry_id id) ++ digests context use_hashes

  abbrev pub total_size : List ℕ → ℕ
  total_size [] = 0
  total_size (id ∷ use_hashes) = metahash_size id + total_size use_hashes

  -- An algorithm that a context computes.
  abbrev pub IsEnabled : ℕ → List ℕ → Type 0
  IsEnabled gcry_id context =
      (front : List ℕ) × (back : List ℕ) × (context ≡ front ++ gcry_id ∷ back)

  -- gcrypt gives as many bytes for an enabled algorithm as it says, and for those of the ids as many as
  -- `metahash_size` has.
  abbrev pub HasSizes : Type 0
  HasSizes =
      ((context : List ℕ) (gcry_id : ℕ)
        → IsEnabled gcry_id context
        → (digest : Bytes) × (gcrypt.md_read context gcry_id ≡ some digest)
          × (length digest ≡ gcrypt.algo_dlen gcry_id))
      × ((id : ℕ)
          → convert_metahash_id_to_gcry_id id ≢ 0
          → gcrypt.algo_dlen (convert_metahash_id_to_gcry_id id) ≡ metahash_size id)

  -- All of the hashes are converted, and their algorithms enabled.
  abbrev Converts : List ℕ → List ℕ → Type 0
  Converts context = All (λ id.
      (convert_metahash_id_to_gcry_id id ≢ 0)
      × IsEnabled (convert_metahash_id_to_gcry_id id) context)

-- Every id that `metahash_identify_name` gives for a name is one that gcrypt has, when the numbers of
-- its algorithms are not 0.
pub convert-metahash_identify_name :
    (gcrypt : Gcrypt) (name : Bytes)
    → 0 < gcrypt.sha256
    → 0 < gcrypt.sha512
    → 0 < gcrypt.md5
    → metahash_identify_name name ≢ metahash_identity
    → 0 < convert_metahash_id_to_gcry_id gcrypt (metahash_identify_name name)
unfolding metahash_identify_name convert_metahash_id_to_gcry_id
convert-metahash_identify_name gcrypt name a b c ne = ground arith
