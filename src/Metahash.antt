-- ===== src/Metahash.antt =====
-- src/metahash/metahash.c: digests with a header that names the hash, and lists of hashes. An id is
-- the number of its enumerator in 32 bits, a name the bytes of its string; the messages to the log
-- are left out.
pub mod Ids
pub mod Header
pub mod Names
pub mod Digests
mod Runs
use prog_dir.Base.{
  ℕ, ◌%◌, ◌^◌, Bool, true, false, ◌&&◌, ◌||◌, Option, none, some, List, [], ◌∷◌, ◌++◌, ltb, ◌==◌,
  if◌then◌else◌, ◌>>=◌, when, Bytes, length, take, drop, codes, find_name,
}
use prog_dir.Metahash.Ids.{
  metahash_identity, metahash_sha2_256, metahash_sha2_512, metahash_md5_128, is_metahash_id,
  metahash_size,
}
use prog_dir.Vluint.{vluint_read, vluint_write}

unfoldable pub metahash_identify_name : Bytes → ℕ
metahash_identify_name name =
    find_name name
      ((codes "sha256", metahash_sha2_256)
        ∷ (codes "sha512", metahash_sha2_512)
        ∷ (codes "md5", metahash_md5_128)
        ∷ [])
      metahash_identity

-- The loop of `metahash_identify_list`: the ids so far, the name since `add`, and the characters from
-- `names` on; behind the end, the last name. What is returned, and the list then.
unfoldable pub identify_loop : List ℕ → Bytes → Bytes → Bool × List ℕ
identify_loop list add [] =
    let id = metahash_identify_name add in
    if id == metahash_identity then (false, list) else (true, list ++ id ∷ [])
identify_loop list add (c ∷ names) =
    let id = metahash_identify_name add in
    let next = identify_loop (list ++ id ∷ []) [] names in
    let more = identify_loop list (add ++ c ∷ []) names in
    if c == b',' then (if id == metahash_identity then (false, list) else next) else more

unfoldable pub metahash_identify_list : List ℕ → Bytes → Bool × List ℕ
metahash_identify_list list names = identify_loop list [] names

abbrev pub metahash_version : ℕ
metahash_version = 0

-- `verify_vluint`.
unfoldable pub verify_vluint : Bytes → ℕ → Bool
verify_vluint vluint verify = elim (vluint_read vluint) [
  | none ↦ false
  | some r ↦ r.result == verify
]

-- `metahash_header_write`; `none` is the failed assertion, which looks at the whole buffer.
unfoldable pub metahash_header_write : Bytes → ℕ → Option Bytes
metahash_header_write output id =
    let written = vluint_write (vluint_write output metahash_version) id in
    when (verify_vluint written metahash_version) (some written)

-- What a header stores when it could be read.
pub record MetahashHeader : Type 0 where
  pub id : ℕ
  pub version : ℕ
  pub rest : Bytes

-- `metahash_header_read`; the number that was read is cut to the 32 bits of a `metahash_id`.
unfoldable pub metahash_header_read : Bytes → Option MetahashHeader
metahash_header_read input = do
  version ← vluint_read input
  id_result ← vluint_read version.rest
  let id = is_metahash_id (id_result.result % 2 ^ 32)
  if id == metahash_identity
      then none
      else some record { id = id; version = version.result; rest = id_result.rest }

-- What `metahash_unwrap` stores, where its caller gives a place for it.
pub record MetahashUnwrap : Type 0 where
  pub id : ℕ
  pub version : ℕ
  pub digest : Bytes
  pub rest : Bytes

-- `metahash_unwrap`, with whether a place for the digest and for the rest are given.
unfoldable pub metahash_unwrap : Bool → Bool → Bytes → Option MetahashUnwrap
metahash_unwrap wants_digest wants_rest input = do
  header ← metahash_header_read input
  let digest_size = metahash_size header.id
  if (wants_digest || wants_rest) && ltb (length header.rest) digest_size
      then none
      else some record {
        id = header.id;
        version = header.version;
        digest = take digest_size header.rest;
        rest = drop digest_size header.rest;
      }
