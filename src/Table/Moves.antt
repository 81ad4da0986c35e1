-- ===== src/Table/Moves.antt =====
-- src/table/table.h, table_resize: moving the items keeps what the table holds.
use prog_dir.Base.{
  ℕ, suc, ◌%◌, ◌<◌, ◌≡◌, refl, sym, ap, ◌∙◌, ◌⊎◌, inl, inr, Option, none, some, List, [], ◌∷◌,
  arith, ◌==◌, Bool-cases, Option-cases, eq_of_test, bytes_eq, bytes_eq_refl, bytes_eq_sound, Bytes,
  length, get_or, All,
}
use native.Mathlib.Nat.{mod-lt}
use prog_dir.Table.{table_hash_sdbm_string, Item, bucket_of, move_item, move_bucket, move_buckets}
use prog_dir.Table.Find.{
  find, length-set, or_else, or_else_inl, or_else_inr, some-none, Unique, IsPlaced, PlacedFrom,
  IsTable, contents_of, PlacedFrom-get_or, Unique-get_or, find-IsPlaced,
}
use prog_dir.Table.Slots.{find_all, same_slot, set-IsTable, contents_of-set, find_all_before}
use native.Mathlib.Decide.{ℕ_discrete}
use mathlib.Core.Path.{subst}

module _ {V : Type 0} where
  -- What is still to be moved and what has been moved have no key in common.
  abbrev IsApart : (Bytes → Option (Item V)) → List (List (Item V)) → Type 0
  IsApart rest new = (key : Bytes) → (rest key ≡ none) ⊎ (contents_of new key ≡ none)

  -- What a move of some items gives.
  abbrev Moved : (Bytes → Option (Item V)) → List (List (Item V)) → List (List (Item V)) → Type 0
  Moved rest new new' =
      (length new' ≡ length new)
      × IsTable new'
      × ((key : Bytes) → contents_of new' key ≡ or_else (rest key) (contents_of new key))

  -- A push to the front of its bucket.
  push_contents :
      (new : List (List (Item V))) (item : Item V) (key : Bytes)
      → 0 < length new
      → item.digest ≡ table_hash_sdbm_string item.key
      → contents_of (move_item new item) key ≡ or_else (find key (item ∷ [])) (contents_of new key)
  unfolding move_item
  push_contents new item key some_bucket digest =
      let j = item.digest % length new in
      let i = table_hash_sdbm_string key % length new in
      contents_of-set new j (item ∷ bucket_of new item.digest) key (mod-lt item.digest some_bucket)
      ∙ elim (Bool-cases (bytes_eq item.key key)) [
        | inl e ↦ rw (digest, same_slot item.key key (length new) e, e) refl
        | inr e ↦ elim (Bool-cases (j == i)) [
          | inl f ↦ rw (f, e) (ap (λ t. find key (get_or new t [])) (eq_of_test j i f))
          | inr f ↦ rw (f, e) refl
        ]
      ]

  move_item_lem :
      (new : List (List (Item V))) (item : Item V)
      → IsTable new
      → 0 < length new
      → item.digest ≡ table_hash_sdbm_string item.key
      → contents_of new item.key ≡ none
      → Moved (λ key. find key (item ∷ [])) new (move_item new item)
  unfolding move_item
  move_item_lem new item table some_bucket digest absent =
      let j = item.digest % length new in
      let here =
        subst (λ t. All (IsPlaced (length new) t) (get_or new j [])) (omega arith)
          (PlacedFrom-get_or (length new) 0 j new table.0) in
      let unseen : find item.key (get_or new j []) ≡ none =
        ap (λ t. find item.key (get_or new (t % length new) [])) digest ∙ absent in
      (
        length-set new j (item ∷ bucket_of new item.digest),
        set-IsTable new j (item ∷ get_or new j []) table ((digest, refl), here)
            (unseen, Unique-get_or j new table.1),
        λ key. push_contents new item key some_bucket digest,
      )

  -- The items behind the one that was moved are still apart.
  IsApart-step :
      (new : List (List (Item V))) (item : Item V) (bucket : List (Item V))
      → find item.key bucket ≡ none
      → IsApart (λ key. find key (item ∷ bucket)) new
      → ((key : Bytes)
          → contents_of (move_item new item) key
            ≡ or_else (find key (item ∷ [])) (contents_of new key))
      → IsApart (λ key. find key bucket) (move_item new item)
  IsApart-step new item bucket f apart contents key = elim (Bool-cases (bytes_eq item.key key)) [
    | inl e ↦ inl (ap (λ t. find t bucket) (sym (bytes_eq_sound item.key key e)) ∙ f)
    | inr e ↦ elim (apart key) [
      | inl g ↦ inl (ground arith)
      | inr g ↦ inr (contents key ∙ rw (e) g)
    ]
  ]

  swap :
      (new : List (List (Item V))) (item : Item V) (bucket : List (Item V)) (key : Bytes)
      → find item.key bucket ≡ none
      → or_else (find key bucket) (or_else (find key (item ∷ [])) (contents_of new key))
        ≡ or_else (find key (item ∷ bucket)) (contents_of new key)
  swap new item bucket key f = elim (Bool-cases (bytes_eq item.key key)) [
    | inl e ↦
        let absent : find key bucket ≡ none =
          ap (λ t. find t bucket) (sym (bytes_eq_sound item.key key e)) ∙ f in
        rw (absent, e) refl
    | inr e ↦ rw (e) refl
  ]

  move_bucket_lem :
      (new : List (List (Item V))) (bucket : List (Item V)) (count i : ℕ)
      → IsTable new
      → 0 < length new
      → Unique bucket
      → All (IsPlaced count i) bucket
      → IsApart (λ key. find key bucket) new
      → Moved (λ key. find key bucket) new (move_bucket new bucket)
  unfolding move_bucket
  move_bucket_lem new [] count i table some_bucket u p apart = (refl, table, λ key. refl)
  move_bucket_lem new (item ∷ bucket) count i table some_bucket (f, u) ((d, m), p) apart =
      let absent : contents_of new item.key ≡ none = elim (apart item.key) [
        | inl e ↦ absurd (ground (arith, bytes_eq_refl item.key))
        | inr e ↦ e
      ] in
      let (l, table', contents') = move_item_lem new item table some_bucket d absent in
      let apart' = IsApart-step new item bucket f apart contents' in
      let (l', table'', contents'') =
        move_bucket_lem (move_item new item) bucket count i table' (omega (arith, l)) u p apart' in
      (
        l' ∙ l,
        table'',
        λ key.
            contents'' key
            ∙ ap (or_else (find key bucket)) (contents' key)
            ∙ swap new item bucket key f,
      )

  -- A key of this bucket is in none of the later ones.
  absent_later :
      (count i : ℕ) (key : Bytes) (item : Item V) (bucket : List (Item V))
      (old : List (List (Item V)))
      → All (IsPlaced count i) bucket
      → PlacedFrom count (suc i) old
      → find key bucket ≡ some item
      → find_all key old ≡ none
  absent_later count i key item bucket old p ps e =
      elim (ℕ_discrete (table_hash_sdbm_string key % count) i) [
        | yes h ↦ find_all_before count (suc i) key old ps (omega arith)
        | no h ↦ absurd (some-none (find-IsPlaced count i key bucket p h) e)
      ]

  pub move_buckets_lem :
      (new old : List (List (Item V))) (count i : ℕ)
      → IsTable new
      → 0 < length new
      → All Unique old
      → PlacedFrom count i old
      → IsApart (λ key. find_all key old) new
      → Moved (λ key. find_all key old) new (move_buckets new old)
  unfolding move_buckets
  move_buckets_lem new [] count i table some_bucket u p apart = (refl, table, λ key. refl)
  move_buckets_lem new (bucket ∷ old) count i table some_bucket (u, us) (p, ps) apart =
      let apart_bucket : IsApart (λ key. find key bucket) new = λ key. elim (apart key) [
        | inl e ↦ inl (or_else_inl (find key bucket) (find_all key old) e)
        | inr e ↦ inr e
      ] in
      let (l, table', contents') =
        move_bucket_lem new bucket count i table some_bucket u p apart_bucket in
      let apart' : IsApart (λ key. find_all key old) (move_bucket new bucket) = λ key.
        elim (Option-cases (find key bucket)) [
          | inl e ↦ elim (apart key) [
            | inl g ↦ inl (or_else_inr (find key bucket) (find_all key old) g)
            | inr g ↦ inr (contents' key ∙ rw (e) g)
          ]
          | inr (it, e) ↦ inl (absent_later count i key it bucket old p ps e)
        ] in
      let (l', table'', contents'') =
        move_buckets_lem (move_bucket new bucket) old count (suc i) table' (omega (arith, l)) us ps
          apart' in
      (
        l' ∙ l,
        table'',
        λ key.
            contents'' key
            ∙ ap (or_else (find_all key old)) (contents' key)
            ∙ elim (Option-cases (find key bucket)) [
              | inl e ↦ rw (e) refl
              | inr (it, e) ↦ rw (e, absent_later count i key it bucket old p ps e) refl
            ],
      )
