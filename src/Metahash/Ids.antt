-- ===== src/Metahash/Ids.antt =====
-- src/metahash/metahash.h and metahash.c: the ids of the hashes, their sizes and names.
use prog_dir.Base.{ℕ, ◌/◌, [], ◌∷◌, Bytes, codes, switch}

abbrev pub metahash_identity : ℕ
metahash_identity = 0

abbrev pub metahash_sha1 : ℕ
metahash_sha1 = 17

abbrev pub metahash_sha2_256 : ℕ
metahash_sha2_256 = 18

abbrev pub metahash_sha2_512 : ℕ
metahash_sha2_512 = 19

abbrev pub metahash_sha3_512 : ℕ
metahash_sha3_512 = 20

abbrev pub metahash_sha3_384 : ℕ
metahash_sha3_384 = 21

abbrev pub metahash_sha3_256 : ℕ
metahash_sha3_256 = 22

abbrev pub metahash_sha3_224 : ℕ
metahash_sha3_224 = 23

abbrev pub metahash_shake_128 : ℕ
metahash_shake_128 = 24

abbrev pub metahash_shake_256 : ℕ
metahash_shake_256 = 25

abbrev pub metahash_keccak_224 : ℕ
metahash_keccak_224 = 26

abbrev pub metahash_keccak_256 : ℕ
metahash_keccak_256 = 27

abbrev pub metahash_keccak_384 : ℕ
metahash_keccak_384 = 28

abbrev pub metahash_murmur3_128 : ℕ
metahash_murmur3_128 = 34

abbrev pub metahash_murmur3_32 : ℕ
metahash_murmur3_32 = 35

abbrev pub metahash_md5_128 : ℕ
metahash_md5_128 = 36

-- `is_metahash_id`: the id itself, or 0 for a number that is no id.
unfoldable pub is_metahash_id : ℕ → ℕ
is_metahash_id input =
    switch input
      ((metahash_identity, input)
        ∷ (metahash_sha1, input)
        ∷ (metahash_sha2_256, input)
        ∷ (metahash_sha2_512, input)
        ∷ (metahash_sha3_512, input)
        ∷ (metahash_sha3_384, input)
        ∷ (metahash_sha3_256, input)
        ∷ (metahash_sha3_224, input)
        ∷ (metahash_shake_128, input)
        ∷ (metahash_shake_256, input)
        ∷ (metahash_keccak_224, input)
        ∷ (metahash_keccak_256, input)
        ∷ (metahash_keccak_384, input)
        ∷ (metahash_murmur3_128, input)
        ∷ (metahash_murmur3_32, input)
        ∷ (metahash_md5_128, input)
        ∷ [])
      metahash_identity

-- `metahash_size`, in bytes.
unfoldable pub metahash_size : ℕ → ℕ
metahash_size input =
    switch input
      ((metahash_sha3_512, 512 / 8)
        ∷ (metahash_sha2_512, 512 / 8)
        ∷ (metahash_keccak_256, 256 / 8)
        ∷ (metahash_shake_256, 256 / 8)
        ∷ (metahash_sha3_256, 256 / 8)
        ∷ (metahash_sha2_256, 256 / 8)
        ∷ (metahash_keccak_384, 384 / 8)
        ∷ (metahash_sha3_384, 384 / 8)
        ∷ (metahash_keccak_224, 224 / 8)
        ∷ (metahash_sha3_224, 224 / 8)
        ∷ (metahash_sha1, 160 / 8)
        ∷ (metahash_md5_128, 128 / 8)
        ∷ (metahash_murmur3_128, 128 / 8)
        ∷ (metahash_shake_128, 128 / 8)
        ∷ (metahash_murmur3_32, 32 / 8)
        ∷ [])
      0

unfoldable pub metahash_name : ℕ → Bytes
metahash_name input =
    switch input
      ((metahash_sha1, codes "sha1")
        ∷ (metahash_sha2_256, codes "sha2-256")
        ∷ (metahash_sha2_512, codes "sha2-512")
        ∷ (metahash_sha3_512, codes "sha3-512")
        ∷ (metahash_sha3_384, codes "sha3-384")
        ∷ (metahash_sha3_256, codes "sha3-256")
        ∷ (metahash_sha3_224, codes "sha3-224")
        ∷ (metahash_shake_128, codes "shake-128")
        ∷ (metahash_shake_256, codes "shake-256")
        ∷ (metahash_keccak_224, codes "keccak-224")
        ∷ (metahash_keccak_256, codes "keccak-256")
        ∷ (metahash_keccak_384, codes "keccak-384")
        ∷ (metahash_murmur3_128, codes "murmur3-128")
        ∷ (metahash_murmur3_32, codes "murmur3-32")
        ∷ (metahash_md5_128, codes "md5-128")
        ∷ [])
      (codes "invalid")
