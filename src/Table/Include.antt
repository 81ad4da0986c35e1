-- ===== src/Table/Include.antt =====
-- src/table/table.c, _table_string_include: the table as a map from keys to items.
use prog_dir.Base.{
  ℕ, zero, suc, ◌*◌, ◌%◌, ◌<◌, ◌≡◌, refl, ap, ◌∙◌, inl, inr, Option, some, arith, leb, ◌==◌,
  if◌then◌else◌, Bool-cases, lt→ltb, lt_of_leb, bytes_eq, Bytes, length,
}
use prog_dir.Table.{
  digest_mod, table_hash_sdbm_string, Item, Table, bucket_of, table_lookup, include_item,
  table_include,
}
use prog_dir.Table.Find.{or_else, first-table_match, IsTable, contents_of}
use prog_dir.Table.Resize.{table_resize_lem}
use prog_dir.Table.Insert.{include_item_lem}

positive :
    (scale : ℕ → ℕ) (n : ℕ)
    → ((m : ℕ) → 0 < m → 0 < scale m)
    → 0 < (if n == 0 then 1031 else scale n)
positive scale zero h = omega arith
positive scale (suc n) h = ground (arith, h (suc n))

some_buckets : (n m : ℕ) → m < 80 * n % digest_mod → 0 < n
some_buckets zero m h = omega arith
some_buckets (suc n) m h = omega arith

module _ {V : Type 0} where
  table_lookup-contents_of :
      (t : Table V) (key : Bytes)
      → 0 < length t.buckets
      → table_lookup t key ≡ some (contents_of t.buckets key)
  unfolding table_lookup
  table_lookup-contents_of t key some_bucket =
      rw (lt→ltb 0 (length t.buckets) some_bucket)
        (ap some (first-table_match key (bucket_of t.buckets (table_hash_sdbm_string key))))

  -- The item that `_table_string_include` gives for a key: the one that is there, or a new one.
  abbrev pub included : V → Table V → Bytes → Option (Item V)
  included zeroed t key =
      or_else (contents_of t.buckets key)
        (some record { digest = table_hash_sdbm_string key; key = key; value = zeroed })

  -- What is left once the table has its size.
  include_sized :
      (zeroed : V) (t sized : Table V) (key : Bytes)
      → IsTable sized.buckets
      → 0 < length sized.buckets
      → ((k : Bytes) → contents_of sized.buckets k ≡ contents_of t.buckets k)
      → (t' : Table V) × (item : Item V) × (include_item zeroed sized key ≡ some (t', item))
        × IsTable t'.buckets
        × (included zeroed t key ≡ some item)
        × ((k : Bytes)
            → table_lookup t' k
              ≡ some (if bytes_eq key k then some item else contents_of t.buckets k))
  include_sized zeroed t sized key table some_bucket same =
      let (t', item, e, table', some_bucket', found, contents) =
        include_item_lem zeroed sized key table some_bucket in
      (
        t',
        item,
        e,
        table',
        rw (← same key) found,
        λ k. table_lookup-contents_of t' k some_bucket' ∙ ap some (contents k ∙ rw (same k) refl),
      )

  -- In a table whose items stand in their buckets without a repeated key, and with a growth of its size
  -- that is not to 0 buckets: `_table_string_include` gives the item of the key that is there, or a
  -- new one with a zeroed value. A lookup finds that item for the key, and for any other key what it
  -- found before, also when the table was resized; and the table is one of the same kind.
  pub table_include_lem :
      (zeroed : V) (scale : ℕ → ℕ) (t : Table V) (key : Bytes)
      → ((n : ℕ) → 0 < n → 0 < scale n)
      → IsTable t.buckets
      → (t' : Table V) × (item : Item V) × (table_include zeroed scale t key ≡ some (t', item))
        × IsTable t'.buckets
        × (included zeroed t key ≡ some item)
        × ((k : Bytes)
            → table_lookup t' k
              ≡ some (if bytes_eq key k then some item else contents_of t.buckets k))
  unfolding table_include
  table_include_lem zeroed scale t key scales table =
      elim (Bool-cases
        (leb (80 * length t.buckets % digest_mod) (100 * t.item_count % digest_mod))) [
          | inl e ↦
              let new_size : ℕ = if t.item_count == 0 then 1031 else scale t.item_count in
              let (sized, r, table', l, _, same) =
                table_resize_lem t new_size table (positive scale t.item_count scales) in
              rw (e, r)
                (include_sized zeroed t sized key table'
                  (omega (arith, l, positive scale t.item_count scales)) same)
          | inr e ↦
              let long =
                lt_of_leb (80 * length t.buckets % digest_mod) (100 * t.item_count % digest_mod)
                  e in
              rw (e) (
                include_sized zeroed t t key table
                  (some_buckets (length t.buckets) (100 * t.item_count % digest_mod) long)
                  (λ k. refl))
        ]
