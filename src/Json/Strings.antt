-- ===== src/Json/Strings.antt =====
-- src/json/json.c: what the reader of strings and of the fixed words gives.
use prog_dir.Base.{
  ℕ, suc, ◌+◌, ◌<◌, ◌≡◌, refl, sym, ◌≢◌, inl, inr, Bool, false, none, some, [], ◌∷◌, ◌++◌, arith,
  ltb, ◌==◌, if◌then◌else◌, Bool-cases, Option-cases, le→ltb, eq_of_test, ne_of_test, bytes_eq_refl,
  Bytes, length, length-append, All, take-append, drop-append, c_string,
}
use prog_dir.Base.Results.{Ends, Result, ok, failed, overrun, out_of_fuel, if-Ends}
use prog_dir.Json.{string_loop, unescape, add_char, read_string, skip_string}
use mathlib.Core.Path.{subst}

add_char-Ends :
    (c : ℕ) (text : Bytes) (r : Result (Bytes × Bytes))
    → c ≢ b'\\'
    → Ends (λ s. All (λ d. d ≢ b'\\') s.0 × (length s.1 < length text)) r
    → Ends (λ s. All (λ d. d ≢ b'\\') s.0 × (length s.1 < suc (length text))) (add_char c r)
add_char-Ends c text (ok (s, rest)) n (h, l) = ((n, h), omega arith)
add_char-Ends c text failed n h = tt
add_char-Ends c text overrun n h = tt
add_char-Ends c text out_of_fuel n h = h

Ends-further :
    (text : Bytes) (r : Result (Bytes × Bytes))
    → Ends (λ s. All (λ d. d ≢ b'\\') s.0 × (length s.1 < length text)) r
    → Ends (λ s. All (λ d. d ≢ b'\\') s.0 × (length s.1 < suc (length text))) r
Ends-further text (ok (s, rest)) (h, l) = (h, omega arith)
Ends-further text failed h = tt
Ends-further text overrun h = tt
Ends-further text out_of_fuel h = h

unescape-none : (c d : ℕ) → (c == b'\\') ≡ false → unescape c ≡ some d → d ≢ b'\\'
unfolding unescape
unescape-none c d h e = ground arith

escaped_char :
    (c : ℕ) (text : Bytes) (r : Result (Bytes × Bytes))
    → (c == b'\\') ≡ false
    → Ends (λ s. All (λ d. d ≢ b'\\') s.0 × (length s.1 < length text)) r
    → Ends
        (λ s. All (λ d. d ≢ b'\\') s.0 × (length s.1 < suc (length text)))
        (elim (unescape c) [ none ↦ failed | some d ↦ add_char d r ])
escaped_char c text r n h = elim (Option-cases (unescape c)) [
  | inl e ↦ (rw e tt)
  | inr (d, e) ↦ (rw e (add_char-Ends d text r (unescape-none c d n e) h))
]

string_loop-Ends :
    (escape : Bool) (text : Bytes)
    → Ends (λ s. All (λ d. d ≢ b'\\') s.0 × (length s.1 < length text)) (string_loop escape text)
unfolding string_loop
string_loop-Ends escape [] = tt
string_loop-Ends escape (c ∷ text) =
    let rest = string_loop (c == b'\\') text in
    let ih = string_loop-Ends (c == b'\\') text in
    if-Ends _ (c == b'\\') _ _ (λ _. Ends-further text rest ih)
      λ n.
        if-Ends _ escape _ _ (λ _. escaped_char c text rest n ih)
          λ _.
            if-Ends _ (c == b'"') _ _ (λ _. (tt, omega arith))
              λ _. add_char-Ends c text rest (ne_of_test c b'\\' n) ih

-- A string that is read has no backslash, even where the text has an escaped one, and takes a
-- character or more of the text.
pub read_string_lem :
    (text : Bytes)
    → Ends
        (λ (string, rest). All (λ d. d ≢ b'\\') string × (length rest < length text))
        (read_string text)
read_string_lem [] = string_loop-Ends false []
read_string_lem (c ∷ text) =
    Ends-further text (string_loop false text) (string_loop-Ends false text)

-- The characters between the quotes.
abbrev pub print_string : Bytes → Bytes
print_string [] = []
print_string (c ∷ s) = if c == b'"' then b'\\' ∷ c ∷ print_string s else c ∷ print_string s

-- A text without backslashes and null bytes is read from its printed form.
pub string_loop-print_string :
    (s rest : Bytes)
    → All (λ c. (c ≢ b'\\') × (c ≢ 0)) s
    → string_loop false (print_string s ++ (b'"' ∷ rest)) ≡ ok (s, rest)
unfolding string_loop unescape
string_loop-print_string [] rest h = refl
string_loop-print_string (c ∷ s) rest ((n, z), h) =
    let ih = string_loop-print_string s rest h in
    elim (Bool-cases (c == b'"')) [
      | inl e ↦
          subst (λ d. string_loop false (print_string (d ∷ s) ++ (b'"' ∷ rest)) ≡ ok (d ∷ s, rest))
            (sym (eq_of_test c b'"' e)) (rw ih refl)
      | inr e ↦ let m : (c == b'\\') ≡ false = ground arith in rw (e, m, e, ih) refl
    ]

pub c_string_lem : (s : Bytes) → All (λ c. (c ≢ b'\\') × (c ≢ 0)) s → c_string s ≡ s
unfolding c_string
c_string_lem [] h = refl
c_string_lem (c ∷ s) ((n, z), h) = ground (arith, c_string_lem s h)

-- A fixed word is read when one more character stands behind it.
pub skip_string-append :
    (word : Bytes) (c : ℕ) (rest : Bytes) → skip_string (word ++ (c ∷ rest)) word ≡ ok (c ∷ rest)
unfolding skip_string
skip_string-append word c rest =
    let fits : ltb (length (word ++ (c ∷ rest))) (length word + 1) ≡ false =
      le→ltb _ _ (omega (arith, length-append word (c ∷ rest))) in
    rw (fits, take-append word (c ∷ rest), bytes_eq_refl word, drop-append word (c ∷ rest)) refl
