-- ===== src/Table/Resize.antt =====
-- src/table/table.h, table_resize: the table in new buckets.
use prog_dir.Base.{
  ℕ, zero, suc, ◌%◌, ◌<◌, ◌≡◌, refl, ap, ◌∙◌, inr, none, some, List, [], arith, lt→ltb, Bytes,
  length, get_or, replicate, length-replicate, All,
}
use prog_dir.Table.{table_hash_sdbm_string, Item, Table, move_buckets, table_resize}
use prog_dir.Table.Find.{find, or_else, or_else-none, Unique, PlacedFrom, IsTable, contents_of}
use prog_dir.Table.Slots.{find_all, find_all_at}
use prog_dir.Table.Moves.{move_buckets_lem}

PlacedFrom-replicate : (V : Type 0) (n count i : ℕ) → PlacedFrom {V = V} count i (replicate n [])
PlacedFrom-replicate V zero count i = tt
PlacedFrom-replicate V (suc n) count i = (tt, PlacedFrom-replicate V n count (suc i))

Unique-replicate : (V : Type 0) (n : ℕ) → All (Unique {V = V}) (replicate n [])
Unique-replicate V zero = tt
Unique-replicate V (suc n) = (tt, Unique-replicate V n)

module _ {V : Type 0} where
  abbrev empty_buckets : ℕ → List (List (Item V))
  empty_buckets n = replicate n []

  get_or-replicate : (n j : ℕ) → get_or (empty_buckets n) j [] ≡ []
  get_or-replicate zero j = refl
  get_or-replicate (suc n) zero = refl
  get_or-replicate (suc n) (suc j) = get_or-replicate n j

  -- `table_resize` to one bucket or more: the table holds what it held, in order.
  pub table_resize_lem :
      (t : Table V) (n : ℕ)
      → IsTable t.buckets
      → 0 < n
      → (t' : Table V) × (table_resize t n ≡ some t')
        × IsTable t'.buckets
        × (length t'.buckets ≡ n)
        × (t'.item_count ≡ t.item_count)
        × ((key : Bytes) → contents_of t'.buckets key ≡ contents_of t.buckets key)
  unfolding table_resize
  table_resize_lem t n table some_bucket =
      let new = empty_buckets n in
      let l : length new ≡ n = length-replicate n [] in
      let count = length t.buckets in
      let nothing : (key : Bytes) → contents_of new key ≡ none =
        λ key. ap (find key) (get_or-replicate n (table_hash_sdbm_string key % length new)) in
      let (l', table', contents') =
        move_buckets_lem new t.buckets count 0
          (PlacedFrom-replicate V n (length new) 0, Unique-replicate V n) (omega (arith, l)) table.1
          table.0 (λ key. inr (nothing key)) in
      (
        record { item_count = t.item_count; buckets = move_buckets new t.buckets },
        rw (lt→ltb 0 n some_bucket) refl,
        table',
        l' ∙ l,
        refl,
        λ key.
            contents' key
            ∙ ap (or_else (find_all key t.buckets)) (nothing key)
            ∙ or_else-none (find_all key t.buckets)
            ∙ find_all_at count 0 (table_hash_sdbm_string key % count) key t.buckets table.0
                (omega arith),
      )
