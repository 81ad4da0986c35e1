-- ===== src/Metahash/Runs.antt =====
-- Runs of headers, names and digests of src/metahash.
use prog_dir.Base.{
  ℕ, ◌≡◌, refl, ◌≢◌, Bool, true, false, not, ◌&&◌, ◌||◌, none, some, List, [], ◌∷◌, ◌++◌, arith,
  ◌==◌, if◌then◌else◌, Bytes, length, replicate, codes,
}
use prog_dir.Vluint.{vluint_write, vluint_read}
use prog_dir.Metahash.Ids.{
  metahash_identity, metahash_sha1, metahash_sha2_256, metahash_sha2_512, metahash_sha3_512,
  metahash_sha3_384, metahash_sha3_256, metahash_sha3_224, metahash_murmur3_32, metahash_md5_128,
  is_metahash_id, metahash_size,
}
use prog_dir.Metahash.{
  metahash_identify_name, metahash_version, verify_vluint, metahash_header_write,
  metahash_header_read, metahash_unwrap,
}
use prog_dir.Metahash.Header.{IsHash, metahash_unwrap-metahash_header_write}
use prog_dir.Metahash.Names.{IsName}
use prog_dir.Metahash.Digests.{Gcrypt}

murmur : IsHash metahash_murmur3_32
unfolding is_metahash_id
murmur = (refl, λ e. omega arith, omega arith)

abbrev digest : Bytes
digest = 1 ∷ 2 ∷ 3 ∷ 4 ∷ []

murmur_size : length digest ≡ metahash_size metahash_murmur3_32
unfolding metahash_size
murmur_size = refl

write_run : metahash_header_write [] metahash_murmur3_32 ≡ some (0 ∷ 35 ∷ [])
unfolding metahash_header_write verify_vluint vluint_write vluint_read
write_run = refl

abbrev whole_text : Bytes
whole_text = 0 ∷ 35 ∷ 1 ∷ 2 ∷ 3 ∷ 4 ∷ 5 ∷ []

unwrap_run :
    metahash_unwrap true false whole_text
    ≡ some record { id = metahash_murmur3_32; version = 0; digest = digest; rest = 5 ∷ [] }
unfolding metahash_unwrap metahash_header_read vluint_read is_metahash_id metahash_size
unwrap_run = refl

metahash_unwrap-metahash_header_write_example :
    (header : Bytes) × (metahash_header_write [] metahash_murmur3_32 ≡ some header)
    × (metahash_unwrap true false (header ++ (digest ++ 5 ∷ []))
        ≡ some record {
          id = metahash_murmur3_32;
          version = metahash_version;
          digest = digest;
          rest = 5 ∷ [];
        })
metahash_unwrap-metahash_header_write_example =
    metahash_unwrap-metahash_header_write metahash_murmur3_32 digest (5 ∷ []) true false murmur
      murmur_size

-- No character of a text is a comma, as a test.
abbrev without_commas : Bytes → Bool
without_commas [] = true
without_commas (c ∷ text) = not (c == b',') && without_commas text

commas : (text : Bytes) → without_commas text ≡ true → IsName text
commas [] h = tt
commas (c ∷ text) h = (λ e. ground arith, commas text (ground arith))

unfoldable is_in : ℕ → List ℕ → Bool
is_in id [] = false
is_in id (other ∷ ids) = let rest = is_in id ids in other == id || rest

-- An algorithm has the number of its id, and its digest is so many times this number.
abbrev toy : Gcrypt
toy = record {
  sha256 = metahash_sha2_256;
  sha512 = metahash_sha2_512;
  md5 = metahash_md5_128;
  sha1 = metahash_sha1;
  sha3_512 = metahash_sha3_512;
  sha3_384 = metahash_sha3_384;
  sha3_256 = metahash_sha3_256;
  sha3_224 = metahash_sha3_224;
  md_open = true;
  md_enable = λ _. true;
  algo_dlen = metahash_size;
  md_read = λ context gcry_id.
      if is_in gcry_id context then some (replicate (metahash_size gcry_id) gcry_id) else none;
}

abbrev two_hashes : List ℕ
two_hashes = metahash_md5_128 ∷ metahash_sha1 ∷ []

md5_known : metahash_identify_name (codes "md5") ≢ metahash_identity
unfolding metahash_identify_name
md5_known = λ e. omega arith
