-- ===== src/Tar/Octal.antt =====
-- src/tar/write.c and src/tar/read.c: octal numbers as they are printed and read.
use prog_dir.Base.{
  ℕ, zero, suc, ◌+◌, ◌-◌, ◌*◌, ◌/◌, ◌%◌, ◌^◌, ◌≤◌, ◌<◌, ◌≡◌, refl, sym, ap, ◌∙◌, true, false, ◌&&◌,
  [], ◌∷◌, ◌++◌, append_assoc, arith, ◌==◌, Bytes, length, length-append,
}
use prog_dir.Paren.{isspace}
use prog_dir.Tar.Read.{octal_loop, is_octal, signed_octal, strtol_octal, get_octal, first_char}
use prog_dir.Tar.Write.{printf_octal}
use prog_dir.Json.{skip_whitespace}

printf_octal-step :
    (fuel width n : ℕ)
    → printf_octal (suc fuel) (suc width) n
      ≡ printf_octal fuel width (n / 8) ++ ((b'0' + n % 8) ∷ [])
unfolding printf_octal
printf_octal-step fuel width n =
    let more : (n == 0 && suc width == 0) ≡ false = ground arith in
    let less : suc width - 1 ≡ width = omega arith in rw (more, less) refl

printf_octal-end : (fuel n : ℕ) → n < 1 → printf_octal fuel 0 n ≡ []
unfolding printf_octal
printf_octal-end zero n h = refl
printf_octal-end (suc fuel) n h = let z : n ≡ 0 = omega arith in rw z refl

pub length-printf_octal :
    (fuel width n : ℕ) → width ≤ fuel → n < 8 ^ width → length (printf_octal fuel width n) ≡ width
unfolding printf_octal
length-printf_octal zero width n f h = omega arith
length-printf_octal (suc fuel) zero n f h = ap length (printf_octal-end (suc fuel) n h)
length-printf_octal (suc fuel) (suc width) n f h =
    ap length (printf_octal-step fuel width n)
    ∙ length-append (printf_octal fuel width (n / 8)) ((b'0' + n % 8) ∷ [])
    ∙ omega (arith, length-printf_octal fuel width (n / 8) (omega arith) (omega arith))

octal_loop-digit :
    (value d : ℕ) (more : Bytes)
    → d < 8
    → octal_loop value ((b'0' + d) ∷ more) ≡ octal_loop (value * 8 + d) more
unfolding octal_loop
octal_loop-digit value d more h =
    let digit : is_octal (b'0' + d) ≡ true = ground arith in
    let less : b'0' + d - b'0' ≡ d = omega arith in rw (digit, less) refl

pub octal_loop-printf_octal :
    (fuel width n : ℕ) (more : Bytes)
    → width ≤ fuel
    → n < 8 ^ width
    → octal_loop 0 (printf_octal fuel width n ++ more) ≡ octal_loop n more
unfolding printf_octal
octal_loop-printf_octal zero zero n more f h = ap (λ v. octal_loop v more) {y = n} (omega arith)
octal_loop-printf_octal zero (suc width) n more f h = absurd (omega arith)
octal_loop-printf_octal (suc fuel) zero n more f h =
    ap (λ t. octal_loop 0 (t ++ more)) (printf_octal-end (suc fuel) n h)
    ∙ ap (λ v. octal_loop v more) {y = n} (omega arith)
octal_loop-printf_octal (suc fuel) (suc width) n more f h =
    ap (λ t. octal_loop 0 (t ++ more)) (printf_octal-step fuel width n)
    ∙ ap (octal_loop 0) (append_assoc (printf_octal fuel width (n / 8)) ((b'0' + n % 8) ∷ []) more)
    ∙ octal_loop-printf_octal fuel width (n / 8) ((b'0' + n % 8) ∷ more) (omega arith) (omega arith)
    ∙ octal_loop-digit (n / 8) (n % 8) more (omega arith)
    ∙ ap (λ v. octal_loop v more) {y = n} (omega arith)

-- Digits start with a digit.
pub printf_octal-first :
    (fuel width n : ℕ)
    → suc width ≤ fuel
    → n < 8 ^ suc width
    → (c : ℕ) × (text : Bytes) × (printf_octal fuel (suc width) n ≡ c ∷ text) × (is_octal c ≡ true)
printf_octal-first zero width n f h = absurd (omega arith)
printf_octal-first (suc fuel) zero n f h = (
  b'0' + n % 8,
  [],
  printf_octal-step fuel 0 n
      ∙ ap (λ t. t ++ ((b'0' + n % 8) ∷ [])) (printf_octal-end fuel (n / 8) (omega arith)),
  ground arith,
)
printf_octal-first (suc fuel) (suc width) n f h =
    let (c, text, e, o) = printf_octal-first fuel width (n / 8) (omega arith) (omega arith) in
    (c, _, printf_octal-step fuel (suc width) n ∙ ap (λ t. t ++ ((b'0' + n % 8) ∷ [])) e, o)

strtol_octal-digits :
    (c : ℕ) (text : Bytes)
    → is_octal c ≡ true
    → strtol_octal (c ∷ text) ≡ signed_octal false (c ∷ text) (c ∷ text)
unfolding strtol_octal skip_whitespace
strtol_octal-digits c text o =
    let space : isspace c ≡ false = ground arith in
    let minus : (c == b'-') ≡ false = ground arith in
    let plus : (c == b'+') ≡ false = ground arith in rw (space, minus, plus) refl

signed_octal-loop :
    (c : ℕ) (text : Bytes) (n : ℕ) (rest : Bytes)
    → octal_loop 0 (c ∷ text) ≡ (n, rest)
    → is_octal c ≡ true
    → n < 2 ^ 63
    → signed_octal false (c ∷ text) (c ∷ text) ≡ (n, rest)
signed_octal-loop c text n rest e o h =
    rw (signed_octal, e, o) (ap (λ m. (m, rest)) {y = n} (omega arith))

strtol_octal-printf_octal :
    (width n : ℕ) (more : Bytes)
    → suc width ≤ 22
    → n < 8 ^ suc width
    → n < 2 ^ 63
    → strtol_octal (printf_octal 22 (suc width) n ++ (0 ∷ more)) ≡ (n, 0 ∷ more)
unfolding octal_loop
strtol_octal-printf_octal width n more f h l =
    let (c, text, e, o) = printf_octal-first 22 width n f h in
    let front : printf_octal 22 (suc width) n ++ (0 ∷ more) ≡ c ∷ (text ++ (0 ∷ more)) =
      rw e refl in
    let loop : octal_loop 0 (c ∷ (text ++ (0 ∷ more))) ≡ (n, 0 ∷ more) =
      ap (octal_loop 0) (sym front) ∙ octal_loop-printf_octal 22 (suc width) n (0 ∷ more) f h in
    ap strtol_octal front
    ∙ strtol_octal-digits c (text ++ (0 ∷ more)) o
    ∙ signed_octal-loop c (text ++ (0 ∷ more)) n (0 ∷ more) loop o l

-- A number that is printed with leading zeros, and a null byte behind its digits, is read back, if the
-- digits are as many as there is place for and the number fits a `long`.
pub get_octal-printf_octal :
    (width n : ℕ) (more : Bytes)
    → suc width ≤ 22
    → n < 8 ^ suc width
    → n < 2 ^ 63
    → get_octal (printf_octal 22 (suc width) n ++ (0 ∷ more)) ≡ (n, true)
unfolding get_octal
get_octal-printf_octal width n more f h l =
    let (c, text, e, o) = printf_octal-first 22 width n f h in
    let front : first_char (printf_octal 22 (suc width) n ++ (0 ∷ more)) ≡ c = rw e refl in
    let digit : (c == 0) ≡ false = ground arith in
    rw (strtol_octal-printf_octal width n more f h l, front, digit) refl
