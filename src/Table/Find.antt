-- ===== src/Table/Find.antt =====
-- src/table: what the buckets of a table hold, and the order that they are kept in.
use prog_dir.Base.{
  ℕ, zero, suc, ◌+◌, ◌%◌, ◌<◌, ◌≡◌, refl, sym, ap, ◌∙◌, ◌≢◌, inl, inr, false, Option, none, some,
  List, [], ◌∷◌, ◌++◌, arith, ◌==◌, if◌then◌else◌, Bool-cases, bytes_eq, bytes_eq_sound, Bytes,
  length, get_or, set, All,
}
use prog_dir.Table.{table_match, table_hash_sdbm_string, Item, bucket_of, first}
use mathlib.Core.Path.{subst}

module _ {ℓ} {A : Type ℓ} where
  pub length-set : (xs : List A) (i : ℕ) (v : A) → length (set xs i v) ≡ length xs
  length-set [] i v = refl
  length-set (x ∷ xs) zero v = refl
  length-set (x ∷ xs) (suc i) v = ap suc (length-set xs i v)

  pub get_or-set :
      (xs : List A) (i j : ℕ) (v d : A)
      → i < length xs
      → get_or (set xs i v) j d ≡ (if i == j then v else get_or xs j d)
  get_or-set [] i j v d h = absurd (omega arith)
  get_or-set (x ∷ xs) zero zero v d h = refl
  get_or-set (x ∷ xs) zero (suc j) v d h = ground arith
  get_or-set (x ∷ xs) (suc i) zero v d h = ground arith
  get_or-set (x ∷ xs) (suc i) (suc j) v d h = ground (arith, get_or-set xs i j v d)

  pub All-set {κ} :
      (P : A → Type κ) (xs : List A) (i : ℕ) (v : A) → All P xs → P v → All P (set xs i v)
  All-set P [] i v h p = h
  All-set P (x ∷ xs) zero v (q, h) p = (p, h)
  All-set P (x ∷ xs) (suc i) v (q, h) p = (q, All-set P xs i v h p)

  -- The first, if there is one.
  abbrev pub or_else : Option A → Option A → Option A
  or_else none b = b
  or_else (some a) b = some a

  pub or_else-none : (a : Option A) → or_else a none ≡ a
  or_else-none none = refl
  or_else-none (some a) = refl

  pub or_else_inl : (a b : Option A) → or_else a b ≡ none → a ≡ none
  or_else_inl none b e = refl
  or_else_inl (some a) b e = e

  pub or_else_inr : (a b : Option A) → or_else a b ≡ none → b ≡ none
  or_else_inr none b e = e
  or_else_inr (some a) b e = cc

  pub some-none : {a : Option A} {x : A} → a ≡ none → a ≡ some x → ⊥
  some-none p q = cc

  pub or_else_assoc : (a b c : Option A) → or_else (or_else a b) c ≡ or_else a (or_else b c)
  or_else_assoc none b c = refl
  or_else_assoc (some a) b c = refl

pub bytes_eq_sym : (a b : Bytes) → bytes_eq a b ≡ bytes_eq b a
bytes_eq_sym [] [] = refl
bytes_eq_sym [] (y ∷ b) = refl
bytes_eq_sym (x ∷ a) [] = refl
bytes_eq_sym (x ∷ a) (y ∷ b) = ground (arith, bytes_eq_sym a b)

module _ {V : Type 0} where
  -- The first item with a key.
  abbrev pub find : Bytes → List (Item V) → Option (Item V)
  find key [] = none
  find key (item ∷ bucket) =
      let rest = find key bucket in if bytes_eq item.key key then some item else rest

  pub first-table_match :
      (key : Bytes) (bucket : List (Item V)) → first (table_match key bucket).1 ≡ find key bucket
  unfolding table_match
  first-table_match key [] = refl
  first-table_match key (item ∷ bucket) = ground (arith, first-table_match key bucket)

  pub match-append :
      (key : Bytes) (bucket : List (Item V))
      → (table_match key bucket).0 ++ (table_match key bucket).1 ≡ bucket
  unfolding table_match
  match-append key [] = refl
  match-append key (item ∷ bucket) = elim (Bool-cases (bytes_eq item.key key)) [
    | inl e ↦ rw (e) refl
    | inr e ↦ rw (e) (ap (◌∷◌ item) (match-append key bucket))
  ]

  pub find-append :
      (key : Bytes) (a b : List (Item V)) → find key (a ++ b) ≡ or_else (find key a) (find key b)
  find-append key [] b = refl
  find-append key (item ∷ a) b = ground (arith, find-append key a b)

  -- No two items have the same key.
  abbrev pub Unique : List (Item V) → Type 0
  Unique [] = Unit
  Unique (item ∷ bucket) = (find item.key bucket ≡ none) × Unique bucket

  pub Unique-snoc :
      (bucket : List (Item V)) (item : Item V)
      → Unique bucket
      → find item.key bucket ≡ none
      → Unique (bucket ++ item ∷ [])
  Unique-snoc [] item u n = (refl, tt)
  Unique-snoc (it ∷ bucket) item (f, u) n =
      let differs : bytes_eq it.key item.key ≡ false = ground arith in
      let later : find item.key bucket ≡ none = ground arith in
      (
        rw (find-append it.key bucket (item ∷ []), f, bytes_eq_sym item.key it.key, differs) refl,
        Unique-snoc bucket item u later,
      )

  -- The item has the digest of its key, and stands in the right one of `count` buckets.
  abbrev pub IsPlaced : ℕ → ℕ → Item V → Type 0
  IsPlaced count i item =
      (item.digest ≡ table_hash_sdbm_string item.key) × (item.digest % count ≡ i)

  abbrev pub PlacedFrom : ℕ → ℕ → List (List (Item V)) → Type 0
  PlacedFrom count i [] = Unit
  PlacedFrom count i (bucket ∷ buckets) =
      All (IsPlaced count i) bucket × PlacedFrom count (suc i) buckets

  -- Each item stands in the bucket of its digest, and no key twice in a bucket.
  abbrev pub IsTable : List (List (Item V)) → Type 0
  IsTable buckets = PlacedFrom (length buckets) 0 buckets × All Unique buckets

  -- The map that a table stands for.
  abbrev pub contents_of : List (List (Item V)) → Bytes → Option (Item V)
  contents_of buckets key = find key (bucket_of buckets (table_hash_sdbm_string key))

  pub PlacedFrom-set :
      (count i j : ℕ) (buckets : List (List (Item V))) (bucket : List (Item V))
      → PlacedFrom count i buckets
      → All (IsPlaced count (i + j)) bucket
      → PlacedFrom count i (set buckets j bucket)
  PlacedFrom-set count i j [] bucket h p = tt
  PlacedFrom-set count i zero (b ∷ buckets) bucket (q, h) p =
      (subst (λ t. All (IsPlaced count t) bucket) (omega arith) p, h)
  PlacedFrom-set count i (suc j) (b ∷ buckets) bucket (q, h) p = (
    q,
    PlacedFrom-set count (suc i) j buckets bucket h
        (subst (λ t. All (IsPlaced count t) bucket) (omega arith) p),
  )

  pub PlacedFrom-get_or :
      (count i j : ℕ) (buckets : List (List (Item V)))
      → PlacedFrom count i buckets
      → All (IsPlaced count (i + j)) (get_or buckets j [])
  PlacedFrom-get_or count i j [] h = tt
  PlacedFrom-get_or count i zero (b ∷ buckets) (q, h) =
      subst (λ t. All (IsPlaced count t) b) (omega arith) q
  PlacedFrom-get_or count i (suc j) (b ∷ buckets) (q, h) =
      subst (λ t. All (IsPlaced count t) (get_or buckets j [])) (omega arith)
        (PlacedFrom-get_or count (suc i) j buckets h)

  pub Unique-get_or :
      (j : ℕ) (buckets : List (List (Item V))) → All Unique buckets → Unique (get_or buckets j [])
  Unique-get_or j [] h = tt
  Unique-get_or zero (b ∷ buckets) (q, h) = q
  Unique-get_or (suc j) (b ∷ buckets) (q, h) = Unique-get_or j buckets h

  -- A bucket of another digest does not have the key.
  pub find-IsPlaced :
      (count i : ℕ) (key : Bytes) (bucket : List (Item V))
      → All (IsPlaced count i) bucket
      → table_hash_sdbm_string key % count ≢ i
      → find key bucket ≡ none
  find-IsPlaced count i key [] h n = refl
  find-IsPlaced count i key (item ∷ bucket) ((d, m), h) n =
      elim (Bool-cases (bytes_eq item.key key)) [
        | inl e ↦ absurd (
            n (
              ap (λ t. table_hash_sdbm_string t % count) (sym (bytes_eq_sound item.key key e))
              ∙ ap (λ t. t % count) (sym d)
              ∙ m))
        | inr e ↦ rw (e) (find-IsPlaced count i key bucket h n)
      ]
