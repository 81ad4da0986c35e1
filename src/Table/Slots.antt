-- ===== src/Table/Slots.antt =====
-- src/table: one bucket replaced, and all buckets searched.
use prog_dir.Base.{
  ℕ, zero, suc, ◌+◌, ◌%◌, ◌<◌, ◌≡◌, refl, inl, inr, true, Option, none, List, [], ◌∷◌, arith, ◌==◌,
  if◌then◌else◌, Bool-cases, bytes_eq, bytes_eq_sound, Bytes, length, get_or, set, All,
}
use prog_dir.Table.{table_hash_sdbm_string, Item}
use prog_dir.Table.Find.{
  find, length-set, get_or-set, All-set, or_else, or_else-none, Unique, IsPlaced, PlacedFrom,
  IsTable, contents_of, PlacedFrom-set, find-IsPlaced,
}
use mathlib.Core.Path.{subst}

pub same_slot :
    (key key' : Bytes) (n : ℕ)
    → bytes_eq key key' ≡ true
    → (table_hash_sdbm_string key % n == table_hash_sdbm_string key' % n) ≡ true
same_slot key key' n e = rw (bytes_eq_sound key key' e) (ground arith)

module _ {V : Type 0} where
  -- A bucket is replaced by another that belongs there.
  pub set-IsTable :
      (buckets : List (List (Item V))) (j : ℕ) (bucket : List (Item V))
      → IsTable buckets
      → All (IsPlaced (length buckets) j) bucket
      → Unique bucket
      → IsTable (set buckets j bucket)
  set-IsTable buckets j bucket (p, u) here unique = (
    rw (length-set buckets j bucket) (
        PlacedFrom-set (length buckets) 0 j buckets bucket p
          (subst (λ t. All (IsPlaced (length buckets) t) bucket) (omega arith) here)),
    All-set Unique buckets j bucket u unique,
  )

  pub contents_of-set :
      (buckets : List (List (Item V))) (j : ℕ) (bucket : List (Item V)) (key : Bytes)
      → j < length buckets
      → contents_of (set buckets j bucket) key ≡ (
          if j == table_hash_sdbm_string key % length buckets
          then find key bucket
          else contents_of buckets key)
  contents_of-set buckets j bucket key h =
      let i = table_hash_sdbm_string key % length buckets in
      rw (length-set buckets j bucket, get_or-set buckets j i bucket [] h)
        (elim (Bool-cases (j == i)) [ inl e ↦ rw (e) refl | inr e ↦ rw (e) refl ])

  -- All items of the buckets of a table, by their keys.
  abbrev pub find_all : Bytes → List (List (Item V)) → Option (Item V)
  find_all key [] = none
  find_all key (bucket ∷ old) = or_else (find key bucket) (find_all key old)

  pub find_all_before :
      (count i : ℕ) (key : Bytes) (old : List (List (Item V)))
      → PlacedFrom count i old
      → table_hash_sdbm_string key % count < i
      → find_all key old ≡ none
  find_all_before count i key [] p h = refl
  find_all_before count i key (bucket ∷ old) (q, p) h =
      rw (find-IsPlaced count i key bucket q (λ e. omega arith))
        (find_all_before count (suc i) key old p (omega arith))

  pub find_all_at :
      (count i j : ℕ) (key : Bytes) (old : List (List (Item V)))
      → PlacedFrom count i old
      → table_hash_sdbm_string key % count ≡ i + j
      → find_all key old ≡ find key (get_or old j [])
  find_all_at count i j key [] p h = refl
  find_all_at count i zero key (bucket ∷ old) (q, p) h =
      rw (find_all_before count (suc i) key old p (omega arith)) (or_else-none (find key bucket))
  find_all_at count i (suc j) key (bucket ∷ old) (q, p) h =
      rw (find-IsPlaced count i key bucket q (λ e. omega arith))
        (find_all_at count (suc i) j key old p (omega arith))
