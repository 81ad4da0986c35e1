-- ===== src/Table/Insert.antt =====
-- src/table/table.c, _table_string_include once the size is right: the item found or inserted.
use prog_dir.Base.{
  ◌+◌, ◌%◌, ◌<◌, ◌≡◌, refl, sym, ap, ◌∙◌, inl, inr, true, none, some, [], ◌∷◌, ◌++◌, append-nil,
  arith, ◌==◌, if◌then◌else◌, Bool-cases, List-cases, lt→ltb, eq_of_test, bytes_eq, bytes_eq_sound,
  Bytes, length, get_or, set, All, All-append,
}
use native.Mathlib.Nat.{mod-lt}
use prog_dir.Table.{
  table_match, digest_mod, table_hash_sdbm_string, Item, Table, bucket_of, first, table_insert_into,
  include_item,
}
use prog_dir.Table.Find.{
  find, length-set, or_else, or_else-none, first-table_match, match-append, find-append,
  Unique-snoc, IsPlaced, IsTable, contents_of, PlacedFrom-get_or, Unique-get_or,
}
use prog_dir.Table.Slots.{same_slot, set-IsTable, contents_of-set}
use mathlib.Core.Path.{subst}

module _ {V : Type 0} where
  -- An item at the end of its bucket, whose key was not there.
  insert_contents :
      (t : Table V) (item : Item V) (k : Bytes)
      → 0 < length t.buckets
      → item.digest ≡ table_hash_sdbm_string item.key
      → contents_of t.buckets item.key ≡ none
      → contents_of
          (set t.buckets
            (item.digest % length t.buckets)
            (bucket_of t.buckets item.digest ++ item ∷ []))
          k
        ≡ (if bytes_eq item.key k then some item else contents_of t.buckets k)
  insert_contents t item k some_bucket digest absent =
      let count = length t.buckets in
      let j = item.digest % count in
      let i = table_hash_sdbm_string k % count in
      let bucket = bucket_of t.buckets item.digest in
      contents_of-set t.buckets j (bucket ++ item ∷ []) k (mod-lt item.digest some_bucket)
      ∙ elim (Bool-cases (bytes_eq item.key k)) [
        | inl e ↦
            let test : (j == i) ≡ true =
              ap (λ d. d % count == i) digest ∙ same_slot item.key k count e in
            let gone : find k bucket ≡ none =
              ap (λ u. find u bucket) (sym (bytes_eq_sound item.key k e))
              ∙ ap (λ d. find item.key (bucket_of t.buckets d)) digest
              ∙ absent in
            rw (test, find-append k bucket (item ∷ []), gone, e) refl
        | inr e ↦ elim (Bool-cases (j == i)) [
          | inl f ↦
              rw (f, find-append k bucket (item ∷ []), e, or_else-none (find k bucket))
                (ap (λ u. find k (get_or t.buckets u [])) (eq_of_test j i f))
          | inr f ↦ rw (f, e) refl
        ]
      ]

  insert-IsTable :
      (t : Table V) (item : Item V)
      → IsTable t.buckets
      → item.digest ≡ table_hash_sdbm_string item.key
      → contents_of t.buckets item.key ≡ none
      → IsTable (
          set t.buckets
            (item.digest % length t.buckets)
            (bucket_of t.buckets item.digest ++ item ∷ []))
  insert-IsTable t item table digest absent =
      let count = length t.buckets in
      let j = item.digest % count in
      let bucket = bucket_of t.buckets item.digest in
      let here =
        subst (λ u. All (IsPlaced count u) bucket) (omega arith)
          (PlacedFrom-get_or count 0 j t.buckets table.0) in
      let unseen : find item.key bucket ≡ none =
        ap (λ u. find item.key (bucket_of t.buckets u)) digest ∙ absent in
      set-IsTable t.buckets j (bucket ++ item ∷ []) table
        (All-append (IsPlaced count j) bucket (item ∷ []) here ((digest, refl), tt))
        (Unique-snoc bucket item (Unique-get_or j t.buckets table.1) unseen)

  -- What `include_item` finds or inserts, in a table with buckets.
  pub include_item_lem :
      (zeroed : V) (t : Table V) (key : Bytes)
      → IsTable t.buckets
      → 0 < length t.buckets
      → (t' : Table V) × (item : Item V) × (include_item zeroed t key ≡ some (t', item))
        × IsTable t'.buckets
        × (0 < length t'.buckets)
        × (or_else
              (contents_of t.buckets key)
              (some record { digest = table_hash_sdbm_string key; key = key; value = zeroed })
            ≡ some item)
        × ((k : Bytes)
            → contents_of t'.buckets k
              ≡ (if bytes_eq key k then some item else contents_of t.buckets k))
  unfolding include_item table_insert_into
  include_item_lem zeroed t key table some_bucket =
      let digest = table_hash_sdbm_string key in
      let bucket = bucket_of t.buckets digest in
      let test = lt→ltb 0 (length t.buckets) some_bucket in
      elim (List-cases (table_match key bucket).1) [
        | inl e ↦
            let item : Item V = record { digest = digest; key = key; value = zeroed } in
            let absent : find key bucket ≡ none = sym (first-table_match key bucket) ∙ ap first e in
            let whole : (table_match key bucket).0 ≡ bucket =
              sym (append-nil (table_match key bucket).0)
              ∙ ap (λ u. (table_match key bucket).0 ++ u) (sym e)
              ∙ match-append key bucket in
            (
              record {
                item_count = (t.item_count + 1) % digest_mod;
                buckets = set t.buckets (digest % length t.buckets) (bucket ++ item ∷ []);
              },
              item,
              rw (test, e, whole) refl,
              insert-IsTable t item table refl absent,
              omega (arith, length-set t.buckets (digest % length t.buckets) (bucket ++ item ∷ [])),
              rw (absent) refl,
              λ k. insert_contents t item k some_bucket refl absent,
            )
        | inr (item, rest, e) ↦
            let present : find key bucket ≡ some item =
              sym (first-table_match key bucket) ∙ ap first e in
            (
              t,
              item,
              rw (test, e) refl,
              table,
              some_bucket,
              rw (present) refl,
              λ k. elim (Bool-cases (bytes_eq key k)) [
                | inl f ↦
                    rw (f) (ap (contents_of t.buckets) (sym (bytes_eq_sound key k f)) ∙ present)
                | inr f ↦ rw (f) refl
              ],
            )
      ]
