-- ===== src/Table/Runs.antt =====
-- Runs of the table of src/table.
use prog_dir.Base.{
  ℕ, ◌+◌, ◌*◌, ◌<◌, ◌≡◌, refl, none, some, [], ◌∷◌, arith, if◌then◌else◌, bytes_eq, Bytes, length,
  codes,
}
use prog_dir.Table.{
  table_match, hash_loop, table_hash_sdbm_string, Item, Table, move_item, move_bucket, move_buckets,
  table_resize, table_lookup, table_insert_into, include_item, table_include, table_delete,
}
use prog_dir.Table.Find.{IsTable, contents_of}
use prog_dir.Table.Resize.{table_resize_lem}
use prog_dir.Table.Delete.{table_delete_lem}
use prog_dir.Table.Include.{included, table_include_lem}

hash_run : table_hash_sdbm_string (codes "ab") ≡ 97 * 65599 + 98
unfolding table_hash_sdbm_string hash_loop
hash_run = refl

abbrev item_a : Item ℕ
item_a = record { digest = 97; key = codes "a"; value = 5 }

-- One bucket, full by the count.
abbrev crowded : Table ℕ
crowded = record { item_count = 1; buckets = (item_a ∷ []) ∷ [] }

crowded-IsTable : IsTable {V = ℕ} crowded.buckets
unfolding table_hash_sdbm_string hash_loop
crowded-IsTable = ((((refl, refl), tt), tt), ((refl, tt), tt))

abbrev twice : ℕ → ℕ
twice n = n * 2

twice_positive : (n : ℕ) → 0 < n → 0 < twice n
twice_positive n h = omega arith

abbrev item_b : Item ℕ
item_b = record { digest = 98; key = codes "b"; value = 0 }

-- The table grows to two buckets before the new item goes in.
include_run :
    table_include 0 twice crowded (codes "b")
    ≡ some (record { item_count = 2; buckets = (item_b ∷ []) ∷ (item_a ∷ []) ∷ [] }, item_b)
unfolding table_include table_resize move_buckets move_bucket move_item include_item
    table_insert_into table_match table_hash_sdbm_string hash_loop
include_run = refl

table_include_lem_example :
    (t' : Table ℕ) × (item : Item ℕ) × (table_include 0 twice crowded (codes "b") ≡ some (t', item))
    × IsTable t'.buckets
    × (included 0 crowded (codes "b") ≡ some item)
    × ((k : Bytes)
        → table_lookup t' k
          ≡ some (if bytes_eq (codes "b") k then some item else contents_of crowded.buckets k))
table_include_lem_example =
    table_include_lem 0 twice crowded (codes "b") twice_positive crowded-IsTable

table_resize_lem_example :
    (t' : Table ℕ) × (table_resize crowded 7 ≡ some t')
    × IsTable t'.buckets
    × (length t'.buckets ≡ 7)
    × (t'.item_count ≡ 1)
    × ((key : Bytes) → contents_of t'.buckets key ≡ contents_of crowded.buckets key)
table_resize_lem_example = table_resize_lem crowded 7 crowded-IsTable (omega arith)

lookup_a : contents_of crowded.buckets (codes "a") ≡ some item_a
unfolding table_hash_sdbm_string hash_loop
lookup_a = refl

delete_run : table_delete crowded (codes "a") ≡ some record { item_count = 1; buckets = [] ∷ [] }
unfolding table_delete table_match table_hash_sdbm_string hash_loop
delete_run = refl

table_delete_lem_example :
    (t' : Table ℕ) × (table_delete crowded (codes "a") ≡ some t')
    × IsTable t'.buckets
    × ((k : Bytes)
        → contents_of t'.buckets k
          ≡ (if bytes_eq (codes "a") k then none else contents_of crowded.buckets k))
table_delete_lem_example =
    table_delete_lem crowded (codes "a") item_a crowded-IsTable (omega arith) lookup_a
