-- ===== src/Http/Headers.antt =====
-- src/http/client.c: what the lines of a header and of a chunk say.
use prog_dir.Base.{
  ℕ, ◌+◌, ◌*◌, ◌^◌, ◌≡◌, refl, ◌↔◌, ◌⊎◌, inl, inr, Bool, true, false, not, ◌&&◌, none, [], ◌∷◌,
  ◌++◌, arith, ltb, ◌==◌, if◌then◌else◌, Bytes, length, codes,
}
use prog_dir.Array.Range.{range_strchr, range_streq_string, range_streq, strlen, streq_loop}
use prog_dir.Http.{
  ClientGet, parse_http_line, split_c, skip_isspace, hex_of_char, identity, TransferEncoding,
  chunked, is_chunked,
}
use prog_dir.Array.Range.Search.{range_streq_lem}

streq_codes : (a : Bytes) → (range_streq_string a (codes "chunked") ≡ true) ↔ (a ≡ codes "chunked")
unfolding range_streq_string strlen
streq_codes a = range_streq_lem a (codes "chunked")

-- The characters of hexadecimal digits.
abbrev pub hex_chars : Bytes → Bytes
hex_chars [] = []
hex_chars (d ∷ digits) = (if ltb d 10 then d + 48 else d + 87) ∷ hex_chars digits

-- The number that hexadecimal digits, the first the highest, stand for.
abbrev pub hex_number : Bytes → ℕ
hex_number [] = 0
hex_number (d ∷ digits) = d * 16 ^ length digits + hex_number digits

-- The line ends, or goes on with a character that is no digit.
abbrev pub EndsHex : Bytes → Type 0
EndsHex [] = Unit
EndsHex (c ∷ _) = hex_of_char c ≡ none

abbrev Accepts {ℓ} : {A : Type ℓ} → Bool × A → Type 0
Accepts (result, a) = result ≡ true

-- The only branch of `transfer_coding` that gives true.
coding-Accepts {ℓ} :
    {A : Type ℓ} (b c d e : Bool) (x y : A)
    → Accepts {A = A} (
        if b
        then (if c then (false, x) else if d then (false, x) else (true, y))
        else if e
        then (false, x)
        else (false, x))
      ↔ ((b ≡ true) × (c ≡ false) × (d ≡ false))
coding-Accepts true false false e x y = (λ h. (refl, refl, refl), λ h. refl)
coding-Accepts true true d e x y = (λ h. cc, λ (p, q, r). cc)
coding-Accepts true false true e x y = (λ h. cc, λ (p, q, r). cc)
coding-Accepts false c d true x y = (λ h. cc, λ (p, q, r). cc)
coding-Accepts false c d false x y = (λ h. cc, λ (p, q, r). cc)

-- What the branches of `transfer_coding` give.
coding_outcome {ℓ} :
    {A : Type ℓ} (b c d e : Bool) (x y : A)
    → let r : Bool × A =
        if b
        then (if c then (false, x) else if d then (false, x) else (true, y))
        else if e
        then (false, x)
        else (false, x) in
      (r ≡ (true, y)) ⊎ (r ≡ (false, x))
coding_outcome true false false e x y = inl refl
coding_outcome true true d e x y = inr refl
coding_outcome true false true e x y = inr refl
coding_outcome false c d true x y = inr refl
coding_outcome false c d false x y = inr refl

is_empty_size : (n : ℕ) → (not (n == 0) ≡ false) ↔ (n ≡ 0)
is_empty_size n = (λ h. ground arith, λ h. ground arith)

is_identity :
    (t : TransferEncoding)
    → ((elim t [ identity ↦ false | chunked ↦ true ]) ≡ false) ↔ (t ≡ identity)
is_identity identity = (λ h. refl, λ h. refl)
is_identity chunked = (λ h. cc, λ h. cc)

module _ {ℓ} {Arg : Type ℓ} where
  -- A line `Transfer-Encoding:` sets the encoding to `chunked` and changes nothing else, or it is
  -- refused and changes nothing; and it is taken exactly when its value is `chunked`, `body_size` is 0, and
  -- the encoding is still the identity.
  pub parse_http_line_coding :
      (get : ClientGet Arg) (value : Bytes)
      → let r = parse_http_line get (codes "Transfer-Encoding" ++ 58 ∷ value) in
        ((r ≡ (true, record get { transfer_encoding = chunked })) ⊎ (r ≡ (false, get)))
        × ((r.0 ≡ true) ↔ (
            (skip_isspace true value ≡ codes "chunked")
            × (get.body_size ≡ 0)
            × (get.transfer_encoding ≡ identity)))
  unfolding parse_http_line split_c range_strchr range_streq_string range_streq streq_loop strlen
  parse_http_line_coding get value =
      let word = skip_isspace true value in
      let (to, back) =
        coding-Accepts (range_streq_string word (codes "chunked")) (not (get.body_size == 0))
          (is_chunked get) (range_streq_string word (codes "identity") && is_chunked get) get
          (record get { transfer_encoding = chunked }) in
      let (read, write) = streq_codes word in
      let (small, none_yet) = is_empty_size get.body_size in
      let (plain, plainly) = is_identity get.transfer_encoding in
      (
        coding_outcome (range_streq_string word (codes "chunked")) (not (get.body_size == 0))
            (is_chunked get) (range_streq_string word (codes "identity") && is_chunked get) get
            (record get { transfer_encoding = chunked }),
        (
          λ h. let (p, q, r) = to h in (read p, small q, plain r),
          λ (p, q, r). back (write p, none_yet q, plainly r),
        ),
      )
