-- ===== src/Array/Range/Search.antt =====
-- src/array/range.c and range_streq_string.c: what searching finds and what the comparisons decide.
use prog_dir.Base.{
  ℕ, zero, suc, ◌+◌, ◌-◌, ◌≤◌, ◌<◌, ◌≡◌, refl, sym, ap, ◌∙◌, ◌≢◌, ◌↔◌, ◌⊎◌, inl, inr, true, false,
  Option, none, some, [], ◌∷◌, ◌++◌, arith, ◌==◌, Bool-cases, le→ltb, eq_of_test, ne_of_test,
  bytes_eq, bytes_eq_refl, bytes_eq_sound, Bytes, length, get_elem?, take, drop, length-take,
  length-drop, All, take-append,
}
use prog_dir.Array.Range.{
  match_count, strstr_scan, range_strstr, range_strchr, streq_loop, range_streq, range_streq_string,
  index_or, strlen,
}
use prog_dir.Base.Slices.{slice, drop-all}
use native.Mathlib.Decide.{dec_lt}

match_count-take :
    (needle hay : Bytes)
    → match_count needle hay ≡ length needle
    → take (length needle) hay ≡ needle
unfolding match_count
match_count-take [] hay h = refl
match_count-take (n ∷ needle) [] h = ground arith
match_count-take (n ∷ needle) (c ∷ hay) h = ground (arith, match_count-take needle hay)

take-match_count :
    (needle hay : Bytes)
    → take (length needle) hay ≡ needle
    → match_count needle hay ≡ length needle
unfolding match_count
take-match_count [] hay h = refl
take-match_count (n ∷ needle) [] h = cc
take-match_count (n ∷ needle) (c ∷ hay) h = ground (arith, take-match_count needle hay)

-- The needle stands in the haystack at an index.
abbrev pub StandsAt : Bytes → Bytes → ℕ → Type 0
StandsAt needle hay i = slice i (length needle) hay ≡ needle

-- A search from the index `from` on, over so many positions, gave the first one, or none.
abbrev Found : Bytes → Bytes → ℕ → ℕ → Option ℕ → Type 0
Found needle hay from left none = (j : ℕ) → j < left → ¬ StandsAt needle hay j
Found needle hay from left (some r) =
    (k : ℕ) × (r ≡ from + k)
    × (k < left)
    × StandsAt needle hay k
    × ((j : ℕ) → j < k → ¬ StandsAt needle hay j)

StandsAt-drop :
    (needle hay : Bytes) (j : ℕ)
    → slice j (length needle) (drop 1 hay) ≡ slice (suc j) (length needle) hay
StandsAt-drop needle [] j = ap (take (length needle)) (drop-all j [] (omega arith))
StandsAt-drop needle (c ∷ hay) j = refl

-- Where the needle does not stand here nor at the next positions, it does not at any of them.
absent_suc :
    (needle hay : Bytes) (left : ℕ)
    → ¬ StandsAt needle hay 0
    → ((j : ℕ) → j < left → ¬ StandsAt needle (drop 1 hay) j)
    → (j : ℕ) → j < suc left
    → ¬ StandsAt needle hay j
absent_suc needle hay left here later zero l = here
absent_suc needle hay left here later (suc j) l =
    λ s. later j (omega arith) (StandsAt-drop needle hay j ∙ s)

-- What is found from the next position on, seen from this one, where the needle does not stand.
Found-suc :
    (needle hay : Bytes) (from left : ℕ) (result : Option ℕ)
    → ¬ StandsAt needle hay 0
    → Found needle (drop 1 hay) (from + 1) left result
    → Found needle hay from (suc left) result
Found-suc needle hay from left none h f = absent_suc needle hay left h f
Found-suc needle hay from left (some r) h (k, e, l, s, f) = (
  suc k,
  omega (arith, e),
  omega arith,
  sym (StandsAt-drop needle hay k) ∙ s,
  absent_suc needle hay k h f,
)

scan-Found :
    (left : ℕ) (hay needle : Bytes) (from : ℕ)
    → Found needle hay from left (strstr_scan left hay needle from)
unfolding strstr_scan
scan-Found zero hay needle from = λ j h s. omega arith
scan-Found (suc left) hay needle from =
    elim (Bool-cases (match_count needle hay == length needle)) [
      | inl e ↦ rw (e) (
        0,
        omega arith,
        omega arith,
        match_count-take needle hay (eq_of_test (match_count needle hay) (length needle) e),
        λ j l. absurd (omega arith),
      )
      | inr e ↦ rw (e) (
          Found-suc needle hay from left (strstr_scan left (drop 1 hay) needle (from + 1))
            (λ s.
              ne_of_test (match_count needle hay) (length needle) e (take-match_count needle hay s))
            (scan-Found left (drop 1 hay) needle (from + 1)))
    ]

too_short :
    (needle hay : Bytes) (j : ℕ)
    → 0 < length needle
    → length hay + 1 - length needle ≤ j
    → ¬ StandsAt needle hay j
too_short needle hay j some_needle h s =
    omega (arith, ap length s, length-take (length needle) (drop j hay), length-drop j hay)

-- What `range_strstr` makes of the search's result.
search_result :
    (hay needle : Bytes) (left : ℕ) (result : Option ℕ)
    → 0 < length needle
    → left ≡ length hay + 1 - length needle
    → Found needle hay 0 left result
    → ((i : ℕ) × (index_or (length hay) result ≡ i)
        × (i + length needle ≤ length hay)
        × StandsAt needle hay i
        × ((j : ℕ) → j < i → ¬ StandsAt needle hay j))
      ⊎ ((index_or (length hay) result ≡ length hay) × ((j : ℕ) → ¬ StandsAt needle hay j))
search_result hay needle left none some_needle e f = inr (
  refl,
  λ j. elim (dec_lt j left) [
    | yes h ↦ f j h
    | no h ↦ too_short needle hay j some_needle (omega arith)
  ],
)
search_result hay needle left (some r) some_needle e (k, at, l, s, f) =
    inl (k, omega (arith, at), omega arith, s, f)

-- `range_strstr` of a needle that is not empty, in a haystack at most one shorter, gives the index of
-- the first place where the needle stands, or the length of the haystack when there is none.
pub range_strstr_first :
    (hay needle : Bytes)
    → 0 < length needle
    → length needle ≤ length hay + 1
    → ((i : ℕ) × (range_strstr hay needle ≡ some i)
        × (i + length needle ≤ length hay)
        × StandsAt needle hay i
        × ((j : ℕ) → j < i → ¬ StandsAt needle hay j))
      ⊎ ((range_strstr hay needle ≡ some (length hay)) × ((j : ℕ) → ¬ StandsAt needle hay j))
unfolding range_strstr
range_strstr_first hay needle some_needle fits =
    let left = length hay + 1 - length needle in
    let test : (length needle == 0) ≡ false = ground arith in
    rw (test, le→ltb (length hay + 1) (length needle) fits)
      (elim (search_result hay needle left (strstr_scan left hay needle 0) some_needle refl
        (scan-Found left hay needle 0)) [
          | inl (i, e, b, s, f) ↦ inl (i, ap some e, b, s, f)
          | inr (e, f) ↦ inr (ap some e, f)
        ])

-- `range_strstr` scans past the end of the haystack exactly when the needle is longer by two or more.
pub range_strstr_outside :
    (hay needle : Bytes) → (range_strstr hay needle ≡ none) ↔ (length hay + 1 < length needle)
unfolding range_strstr
range_strstr_outside hay needle = (λ h. ground arith, λ h. ground arith)

-- `range_strchr` gives the index of the first such character, or the length of the range when it is
-- not in it.
pub range_strchr_first :
    (hay : Bytes) (c : ℕ)
    → All (λ d. d ≢ c) (take (range_strchr hay c) hay)
      × ((range_strchr hay c ≡ length hay) ⊎ (get_elem? hay (range_strchr hay c) ≡ some c))
unfolding range_strchr
range_strchr_first [] c = (tt, inl refl)
range_strchr_first (d ∷ hay) c =
    let (before, last) = range_strchr_first hay c in
    elim (Bool-cases (d == c)) [
      | inl e ↦ rw (e) (tt, inr (ap some (eq_of_test d c e)))
      | inr e ↦
          rw (e) ((ne_of_test d c e, before), elim last [ inl f ↦ inl (ap suc f) | inr f ↦ inr f ])
    ]

streq_loop-bytes_eq : (a b : Bytes) → length a ≡ length b → streq_loop a b ≡ bytes_eq a b
unfolding streq_loop
streq_loop-bytes_eq [] [] h = refl
streq_loop-bytes_eq [] (y ∷ b) h = absurd (omega arith)
streq_loop-bytes_eq (x ∷ a) [] h = absurd (omega arith)
streq_loop-bytes_eq (x ∷ a) (y ∷ b) h = ground (arith, streq_loop-bytes_eq a b)

-- `range_streq` tells whether two ranges hold the same characters.
pub range_streq_lem : (a b : Bytes) → (range_streq a b ≡ true) ↔ (a ≡ b)
unfolding range_streq
range_streq_lem a b = elim (Bool-cases (length a == length b)) [
  | inl e ↦
      let same = streq_loop-bytes_eq a b (eq_of_test (length a) (length b) e) in
      rw (e, same) (bytes_eq_sound a b, λ h. rw (h) (bytes_eq_refl b))
  | inr e ↦ rw (e) (λ h. cc, λ h. absurd (ne_of_test (length a) (length b) e (ap length h)))
]

strlen-append :
    (text rest : Bytes) → All (λ c. c ≢ 0) text → strlen (text ++ 0 ∷ rest) ≡ length text
unfolding strlen
strlen-append [] rest h = refl
strlen-append (c ∷ text) rest (n, h) = ground (arith, strlen-append text rest h)

-- `range_streq_string` of a range and the memory at a string whose characters are not null, up to
-- its null byte and behind it: it tells whether the range is the string.
pub range_streq_string_lem :
    (a text rest : Bytes)
    → All (λ c. c ≢ 0) text
    → (range_streq_string a (text ++ 0 ∷ rest) ≡ true) ↔ (a ≡ text)
unfolding range_streq_string
range_streq_string_lem a text rest h =
    rw (strlen-append text rest h, take-append text (0 ∷ rest)) (range_streq_lem a text)
