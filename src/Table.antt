-- ===== src/Table.antt =====
-- src/table: hash tables with chained items. A bucket is the list of its items, a pointer into it the
-- items in front and those from it on. The keys are strings, without their null bytes.
pub mod Find
pub mod Slots
pub mod Moves
pub mod Resize
pub mod Insert
pub mod Include
pub mod Delete
mod Runs
use prog_dir.Base.{
  ℕ, ◌+◌, ◌-◌, ◌*◌, ◌%◌, ◌^◌, Option, none, some, List, [], ◌∷◌, ◌++◌, ltb, leb, ◌==◌,
  if◌then◌else◌, ◌>>=◌, when, bytes_eq, Bytes, length, get_or, set, replicate,
}

abbrev pub digest_mod : ℕ
digest_mod = 2 ^ 64

-- A `char` as an `int` that is added to a digest: from 128 on it is negative.
abbrev char_digit : ℕ → ℕ
char_digit c = if ltb c 128 then c else c + (digest_mod - 256)

-- The loop of `_table_hash_sdbm_string`.
unfoldable pub hash_loop : ℕ → Bytes → ℕ
hash_loop digest [] = digest
hash_loop digest (c ∷ src) =
    hash_loop
      ((char_digit c
          + digest * 2 ^ 6 % digest_mod
          + digest * 2 ^ 16 % digest_mod
          + (digest_mod - digest))
        % digest_mod)
      src

unfoldable pub table_hash_sdbm_string : Bytes → ℕ
table_hash_sdbm_string src = hash_loop 0 src

-- The item's query and value; `next` is the rest of the list that it stands in.
pub record Item (V : Type 0) : Type 0 where
  pub digest : ℕ
  pub key : Bytes
  pub value : V

pub record Table (V : Type 0) : Type 0 where
  pub item_count : ℕ
  pub buckets : List (List (Item V))

module _ {V : Type 0} where
  -- `table_match`: the items in front of the first with the key, and those from it on.
  unfoldable pub table_match : Bytes → List (Item V) → List (Item V) × List (Item V)
  table_match key [] = ([], [])
  table_match key (item ∷ bucket) =
      let rest = table_match key bucket in
      if bytes_eq item.key key then ([], item ∷ bucket) else (item ∷ rest.0, rest.1)

  -- The bucket of a digest.
  abbrev pub bucket_of : List (List (Item V)) → ℕ → List (Item V)
  bucket_of buckets digest = get_or buckets (digest % length buckets) []

  -- One round of the inner loop of `table_resize`: the item goes to the front of its new bucket.
  unfoldable pub move_item : List (List (Item V)) → Item V → List (List (Item V))
  move_item new item = set new (item.digest % length new) (item ∷ bucket_of new item.digest)

  unfoldable pub move_bucket : List (List (Item V)) → List (Item V) → List (List (Item V))
  move_bucket new [] = new
  move_bucket new (item ∷ bucket) = move_bucket (move_item new item) bucket

  unfoldable pub move_buckets : List (List (Item V)) → List (List (Item V)) → List (List (Item V))
  move_buckets new [] = new
  move_buckets new (bucket ∷ old) = move_buckets (move_bucket new bucket) old

  -- `table_resize`. With no new buckets, the remainder for an item has the divisor 0.
  unfoldable pub table_resize : Table V → ℕ → Option (Table V)
  table_resize t new_size =
      when (ltb 0 new_size)
        (some (record t { buckets = move_buckets (replicate new_size []) t.buckets }))

  abbrev pub first : List (Item V) → Option (Item V)
  first [] = none
  first (item ∷ _) = some item

  -- The item that `json_lookup` finds, or the null pointer; outside, `none` is the remainder of a
  -- digest by 0 buckets.
  unfoldable pub table_lookup : Table V → Bytes → Option (Option (Item V))
  table_lookup t key =
      when (ltb 0 (length t.buckets))
        (some (first (table_match key (bucket_of t.buckets (table_hash_sdbm_string key))).1))

  -- `table_insert_size_into` at the end of the bucket of a query, which holds `items`.
  unfoldable pub table_insert_into : Table V → Item V → List (Item V) → Table V
  table_insert_into t item items = record t {
    buckets = set t.buckets (item.digest % length t.buckets) (items ++ item ∷ []);
  }

  -- What of `_table_string_include` follows the test of the size: the table and the item.
  unfoldable pub include_item : V → Table V → Bytes → Option (Table V × Item V)
  include_item zeroed t key =
      let digest = table_hash_sdbm_string key in
      let (before, at) = table_match key (bucket_of t.buckets digest) in
      let item : Item V = record { digest = digest; key = key; value = zeroed } in
      let inserted = table_insert_into t item before in
      when (ltb 0 (length t.buckets)) (elim at [
        | [] ↦ some (record inserted { item_count = (t.item_count + 1) % digest_mod }, item)
        | found ∷ _ ↦ some (t, found)
      ])

  -- `_table_string_include`. `scale` is the product with 2.71828 in `double`, truncated.
  unfoldable pub table_include : V → (ℕ → ℕ) → Table V → Bytes → Option (Table V × Item V)
  table_include zeroed scale t key =
      let new_size = if t.item_count == 0 then 1031 else scale t.item_count in
      do
        sized ←
            (if leb (80 * length t.buckets % digest_mod) (100 * t.item_count % digest_mod)
              then table_resize t new_size
              else some t)
        include_item zeroed sized key

  -- `table_delete` at the bucket pointer that a query of the key is matched to; the null pointer there
  -- is followed: `none`. The count of the items stays.
  unfoldable pub table_delete : Table V → Bytes → Option (Table V)
  table_delete t key =
      let digest = table_hash_sdbm_string key in
      let (before, at) = table_match key (bucket_of t.buckets digest) in
      elim at [
        | [] ↦ none
        | _ ∷ after ↦
            some
              (record t { buckets = set t.buckets (digest % length t.buckets) (before ++ after) })
      ]
