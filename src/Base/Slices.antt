-- ===== src/Base/Slices.antt =====
-- Parts of a list: what `take`, `drop` and `get_or` give on each other and on an append.
use Prim.Native.Nat.{ℕ, zero, suc, ◌+◌, ◌<◌, ◌≤◌}
use mathlib.Core.Path.{◌≡◌, refl, sym, ap, ◌∙◌}
use mathlib.Core.List.{List, [], ◌∷◌, ◌++◌, append_assoc}
use native.Mathlib.Omega.{arith}
use prog_dir.Base.Lists.{
  length-take, length-append, length-drop, drop-append, take-append, length, take, drop, get_or,
}

suc_add : (a b : ℕ) → suc a + b ≡ suc (a + b)
suc_add a b = omega arith

module _ {ℓ} {A : Type ℓ} where
  -- The `n` items from `i` on.
  abbrev pub slice : ℕ → ℕ → List A → List A
  slice i n xs = take n (drop i xs)

  pub take-all : (n : ℕ) (xs : List A) → length xs ≤ n → take n xs ≡ xs
  take-all zero [] h = refl
  take-all zero (x ∷ xs) h = absurd (omega arith)
  take-all (suc n) [] h = refl
  take-all (suc n) (x ∷ xs) h = ap (◌∷◌ x) (take-all n xs (omega arith))

  pub drop-all : (n : ℕ) (xs : List A) → length xs ≤ n → drop n xs ≡ []
  drop-all zero [] h = refl
  drop-all zero (x ∷ xs) h = absurd (omega arith)
  drop-all (suc n) [] h = refl
  drop-all (suc n) (x ∷ xs) h = drop-all n xs (omega arith)

  pub take-nil : (n : ℕ) → take {A = A} n [] ≡ []
  take-nil zero = refl
  take-nil (suc n) = refl

  pub take-add : (i n : ℕ) (xs : List A) → take (i + n) xs ≡ take i xs ++ slice i n xs
  take-add zero n xs = ap (λ t. take t xs) (omega arith)
  take-add (suc i) n [] = take-nil (suc i + n) ∙ sym (take-nil n)
  take-add (suc i) n (x ∷ xs) = rw (suc_add i n) (ap (◌∷◌ x) (take-add i n xs))

  pub get_or-drop : (i k : ℕ) (xs : List A) (d : A) → get_or (drop i xs) k d ≡ get_or xs (i + k) d
  get_or-drop zero k xs d = ap (λ t. get_or xs t d) (omega arith)
  get_or-drop (suc i) k [] d = refl
  get_or-drop (suc i) k (x ∷ xs) d = rw (suc_add i k) (get_or-drop i k xs d)

  pub get_or-take : (i n : ℕ) (xs : List A) (d : A) → i < n → get_or (take n xs) i d ≡ get_or xs i d
  get_or-take i zero xs d h = absurd (omega arith)
  get_or-take i (suc n) [] d h = refl
  get_or-take zero (suc n) (x ∷ xs) d h = refl
  get_or-take (suc i) (suc n) (x ∷ xs) d h = get_or-take i n xs d (omega arith)

  pub get_or-append :
      (xs ys : List A) (i : ℕ) (d : A) → get_or (xs ++ ys) (length xs + i) d ≡ get_or ys i d
  get_or-append [] ys i d = ap (λ t. get_or ys t d) (omega arith)
  get_or-append (x ∷ xs) ys i d = rw (suc_add (length xs) i) (get_or-append xs ys i d)

  pub take_snoc :
      (n : ℕ) (xs : List A) (d : A)
      → n < length xs
      → take (suc n) xs ≡ take n xs ++ get_or xs n d ∷ []
  take_snoc n [] d h = absurd (omega arith)
  take_snoc zero (x ∷ xs) d h = refl
  take_snoc (suc n) (x ∷ xs) d h = ap (◌∷◌ x) (take_snoc n xs d (omega arith))

  pub drop-append_add : (xs ys : List A) (n : ℕ) → drop (length xs + n) (xs ++ ys) ≡ drop n ys
  drop-append_add [] ys n = ap (λ t. drop t ys) (omega arith)
  drop-append_add (x ∷ xs) ys n = rw (suc_add (length xs) n) (drop-append_add xs ys n)

  pub slice-append :
      (xs ys zs : List A) (n : ℕ) → length xs ≡ n → slice n (length ys) ((xs ++ ys) ++ zs) ≡ ys
  slice-append xs ys zs n e =
      rw (← e, append_assoc xs ys zs, drop-append xs (ys ++ zs), take-append ys zs) refl

  pub take-take_le : (n m : ℕ) (xs : List A) → n ≤ m → take n (take m xs) ≡ take n xs
  take-take_le zero m xs h = refl
  take-take_le (suc n) zero xs h = absurd (omega arith)
  take-take_le (suc n) (suc m) [] h = refl
  take-take_le (suc n) (suc m) (x ∷ xs) h = ap (◌∷◌ x) (take-take_le n m xs (omega arith))

  -- The items of the first list stand at the front of the second.
  abbrev pub Extends : List A → List A → Type ℓ
  Extends xs ys = take (length xs) ys ≡ xs

  pub Extends-refl : (xs : List A) → Extends xs xs
  Extends-refl xs = take-all (length xs) xs (omega arith)

  pub Extends-trans : (xs ys zs : List A) → Extends xs ys → Extends ys zs → Extends xs zs
  Extends-trans xs ys zs p q =
      sym (
        take-take_le (length xs) (length ys) zs
          (omega (arith, ap length p, length-take (length xs) ys)))
      ∙ ap (take (length xs)) q
      ∙ p

  pub drop-drop : (n m : ℕ) (xs : List A) → drop n (drop m xs) ≡ drop (m + n) xs
  drop-drop n zero xs = ap (λ t. drop t xs) (omega arith)
  drop-drop n (suc m) [] = rw (suc_add m n) (drop-all n [] (omega arith))
  drop-drop n (suc m) (x ∷ xs) = rw (suc_add m n) (drop-drop n m xs)

  -- A store of some items at an offset.
  abbrev pub store_at : List A → ℕ → List A → List A
  store_at region offset items =
      take offset region ++ (items ++ drop (offset + length items) region)

  pub length-store_at :
      (region : List A) (offset : ℕ) (items : List A)
      → offset + length items ≤ length region
      → length (store_at region offset items) ≡ length region
  length-store_at region offset items h = omega (
    arith,
    length-append (take offset region) (items ++ drop (offset + length items) region),
    length-append items (drop (offset + length items) region),
    length-take offset region,
    length-drop (offset + length items) region,
  )

  -- Up to the end of what was stored.
  pub take-store_at :
      (region : List A) (offset : ℕ) (items : List A)
      → offset ≤ length region
      → take (offset + length items) (store_at region offset items) ≡ take offset region ++ items
  take-store_at region offset items h =
      let l : length (take offset region) ≡ offset = omega (arith, length-take offset region) in
      let m : length (take offset region ++ items) ≡ offset + length items =
        omega (arith, length-append (take offset region) items) in
      rw (← append_assoc (take offset region) items (drop (offset + length items) region), ← m)
        (take-append (take offset region ++ items)
          (drop (length (take offset region ++ items)) region))
