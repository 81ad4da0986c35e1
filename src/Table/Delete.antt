-- ===== src/Table/Delete.antt =====
-- src/table/table.h, table_delete: the table without one of its items.
use prog_dir.Base.{
  ◌%◌, ◌<◌, ◌≡◌, refl, sym, ap, ◌∙◌, inl, inr, Bool, true, false, Option, none, some, List, [], ◌∷◌,
  ◌++◌, arith, ◌==◌, if◌then◌else◌, Bool-cases, List-cases, eq_of_test, bytes_eq, bytes_eq_sound,
  Bytes, length, get_or, set, All,
}
use native.Mathlib.Nat.{mod-lt}
use prog_dir.Table.{table_match, table_hash_sdbm_string, Item, Table, first, table_delete}
use prog_dir.Table.Find.{
  find, some-none, bytes_eq_sym, first-table_match, match-append, Unique, IsPlaced, IsTable,
  contents_of, PlacedFrom-get_or, Unique-get_or,
}
use prog_dir.Table.Slots.{same_slot, set-IsTable, contents_of-set}
use mathlib.Core.Path.{subst}

module _ {V : Type 0} where
  abbrev keyed : Bytes → Option (Item V) → Bool
  keyed key none = false
  keyed key (some item) = bytes_eq item.key key

  match_key :
      (key : Bytes) (bucket after : List (Item V)) (item : Item V)
      → (table_match key bucket).1 ≡ item ∷ after
      → bytes_eq item.key key ≡ true
  unfolding table_match
  match_key key [] after item e = cc
  match_key key (it ∷ bucket) after item e = elim (Bool-cases (bytes_eq it.key key)) [
    | inl f ↦
        let same : some it ≡ some item = ap first (rw (f) at e) in ap (keyed key) (sym same) ∙ f
    | inr f ↦ match_key key bucket after item (rw (f) at e)
  ]

  All-remove {κ} :
      (P : Item V → Type κ) (before after : List (Item V)) (item : Item V)
      → All P (before ++ item ∷ after)
      → All P (before ++ after)
  All-remove P [] after item (q, h) = h
  All-remove P (it ∷ before) after item (q, h) = (q, All-remove P before after item h)

  find-remove :
      (key : Bytes) (before after : List (Item V)) (item : Item V)
      → find key (before ++ item ∷ after) ≡ none
      → (bytes_eq item.key key ≡ false) × (find key (before ++ after) ≡ none)
  find-remove key [] after item e = (ground arith, ground arith)
  find-remove key (it ∷ before) after item e = elim (Bool-cases (bytes_eq it.key key)) [
    | inl f ↦ absurd (some-none {x = it} e (rw (f) refl))
    | inr f ↦ let (g, h) = find-remove key before after item (rw (f) at e) in (g, rw (f) h)
  ]

  find-other :
      (key : Bytes) (before after : List (Item V)) (item : Item V)
      → bytes_eq item.key key ≡ false
      → find key (before ++ item ∷ after) ≡ find key (before ++ after)
  find-other key [] after item e = rw (e) refl
  find-other key (it ∷ before) after item e = ground (arith, find-other key before after item)

  -- A bucket without one of its items.
  Unique-remove :
      (before after : List (Item V)) (item : Item V)
      → Unique (before ++ item ∷ after)
      → Unique (before ++ after) × (find item.key (before ++ after) ≡ none)
  Unique-remove [] after item (f, u) = (u, f)
  Unique-remove (it ∷ before) after item (f, u) =
      let (differs, g) = find-remove it.key before after item f in
      let (u', h) = Unique-remove before after item u in
      ((g, u'), rw (bytes_eq_sym it.key item.key, differs) h)

  -- Deleting the item of a key that a table in order has: the table is in order, does not have the
  -- key any more, and has every other item that it had.
  pub table_delete_lem :
      (t : Table V) (key : Bytes) (found : Item V)
      → IsTable t.buckets
      → 0 < length t.buckets
      → contents_of t.buckets key ≡ some found
      → (t' : Table V) × (table_delete t key ≡ some t')
        × IsTable t'.buckets
        × ((k : Bytes)
            → contents_of t'.buckets k ≡ (if bytes_eq key k then none else contents_of t.buckets k))
  unfolding table_delete
  table_delete_lem t key found table some_bucket present =
      let count = length t.buckets in
      let j = table_hash_sdbm_string key % count in
      let bucket = get_or t.buckets j [] in
      elim (List-cases (table_match key bucket).1) [
        | inl e ↦ absurd (some-none (sym (first-table_match key bucket) ∙ ap first e) present)
        | inr (item, after, e) ↦
            let before = (table_match key bucket).0 in
            let whole : before ++ item ∷ after ≡ bucket =
              ap (λ u. before ++ u) (sym e) ∙ match-append key bucket in
            let here =
              subst (λ u. All (IsPlaced count u) bucket) (omega arith)
                (PlacedFrom-get_or count 0 j t.buckets table.0) in
            let same = bytes_eq_sound item.key key (match_key key bucket after item e) in
            let (unique, gone) =
              Unique-remove before after item
                (subst Unique (sym whole) (Unique-get_or j t.buckets table.1)) in
            let placed =
              All-remove (IsPlaced count j) before after item
                (subst (All (IsPlaced count j)) (sym whole) here) in
            (
              record { item_count = t.item_count; buckets = set t.buckets j (before ++ after) },
              rw (table_delete, e) refl,
              set-IsTable t.buckets j (before ++ after) table placed unique,
              λ k.
                  contents_of-set t.buckets j (before ++ after) k
                    (mod-lt (table_hash_sdbm_string key) some_bucket)
                  ∙ elim (Bool-cases (bytes_eq key k)) [
                    | inl f ↦
                        let none_left : find k (before ++ after) ≡ none =
                          ap (λ u. find u (before ++ after)) (sym (same ∙ bytes_eq_sound key k f))
                          ∙ gone in
                        rw (same_slot key k count f, none_left, f) refl
                    | inr f ↦ elim (Bool-cases (j == table_hash_sdbm_string k % count)) [
                      | inl g ↦
                          let other : bytes_eq item.key k ≡ false =
                            ap (λ u. bytes_eq u k) same ∙ f in
                          rw (g, f)
                            (sym (find-other k before after item other)
                              ∙ ap (find k) whole
                              ∙ ap (λ u. find k (get_or t.buckets u []))
                                  (eq_of_test j (table_hash_sdbm_string k % count) g))
                      | inr g ↦ rw (g, f) refl
                    ]
                  ],
            )
      ]
