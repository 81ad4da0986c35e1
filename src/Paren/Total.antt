-- ===== src/Paren/Total.antt =====
-- src/paren-parser/paren-parser.c: the loop ends, and which texts are trees.
use prog_dir.Base.{
  ℕ, zero, suc, ◌+◌, ◌≤◌, ◌<◌, ◌≡◌, refl, sym, ap, ◌∙◌, ◌⊎◌, inl, inr, Bool, true, false, Option,
  none, some, List, [], ◌∷◌, arith, ◌==◌, if◌then◌else◌, Bool-cases, List-cases, eq_of_test, Bytes,
  length, get_or,
}
use prog_dir.Paren.{
  null, text_atom, node_atom, column, ParenAtom, Position, isspace, pass, skip_space, ends_word,
  skip_word, append_atom, Frame, line, finish, parse_loop, paren_parse,
}

-- What stands behind the white space: the text gets no longer, and its first character is no space.
pub skip_head :
    (text : Bytes) (p : Position) (c : ℕ) (more : Bytes)
    → (skip_space text p).0 ≡ c ∷ more
    → (isspace c ≡ false) × (suc (length more) ≤ length text)
unfolding skip_space
skip_head [] p c more e = cc
skip_head (d ∷ text) p c more e = elim (Bool-cases (isspace d)) [
  | inl f ↦ let (s, l) = skip_head text (pass d p) c more (rw (f) at e) in (s, omega (arith, l))
  | inr f ↦
      let whole : d ∷ text ≡ c ∷ more = rw (f) at e in
      (ap (λ t. isspace (get_or t 0 0)) (sym whole) ∙ f, omega (arith, ap length whole))
]

length-skip_word : (text : Bytes) → length (skip_word text).1 ≤ length text
unfolding skip_word
length-skip_word [] = omega arith
length-skip_word (c ∷ text) = ground (arith, length-skip_word text)

-- A word has a character.
pub length-skip_word_head :
    (c : ℕ) (more : Bytes)
    → isspace c ≡ false
    → (c == b'(') ≡ false
    → (c == b')') ≡ false
    → length (skip_word (c ∷ more)).1 ≤ length more
unfolding skip_word
length-skip_word_head c more s o k =
    let word : ends_word c ≡ false = rw (s, o, k) refl in rw (word) (length-skip_word more)

-- The rounds of the loop, by what stands behind the white space.
module _ (fuel : ℕ) (text : Bytes) (p : Position) (atoms : ParenAtom) where
  abbrev here : Position
  here = (skip_space text p).1

  abbrev after : Position
  after = record here { iter = here.iter + 1 }

  pub round_end :
      (paths : List Frame)
      → (skip_space text p).0 ≡ []
      → parse_loop (suc fuel) text p atoms paths ≡ some (finish atoms paths)
  unfolding parse_loop
  round_end paths e = rw (parse_loop, e) refl

  pub round_open :
      (more : Bytes) (paths : List Frame)
      → (skip_space text p).0 ≡ b'(' ∷ more
      → parse_loop (suc fuel) text p atoms paths
        ≡ parse_loop fuel more after null ((atoms, (line here, column after.iter here)) ∷ paths)
  unfolding parse_loop
  round_open more paths e = rw (parse_loop, e) refl

  pub round_close :
      (more : Bytes) (before : ParenAtom) (l k : ℕ) (outer : List Frame)
      → (skip_space text p).0 ≡ b')' ∷ more
      → parse_loop (suc fuel) text p atoms ((before, (l, k)) ∷ outer)
        ≡ parse_loop fuel more after (append_atom before (node_atom l k atoms null)) outer
  unfolding parse_loop
  round_close more before l k outer e = rw (parse_loop, e) refl

  pub round_unopened :
      (more : Bytes)
      → (skip_space text p).0 ≡ b')' ∷ more
      → parse_loop (suc fuel) text p atoms [] ≡ some none
  unfolding parse_loop
  round_unopened more e = rw (parse_loop, e) refl

  pub round_word :
      (c : ℕ) (more : Bytes) (paths : List Frame)
      → (skip_space text p).0 ≡ c ∷ more
      → (c == b'(') ≡ false
      → (c == b')') ≡ false
      → parse_loop (suc fuel) text p atoms paths
        ≡ parse_loop fuel
            (skip_word (c ∷ more)).1
            (record here { iter = here.iter + length (skip_word (c ∷ more)).0 })
            (append_atom atoms
              (text_atom (line here) (column here.iter here) (skip_word (c ∷ more)).0 null))
            paths
  unfolding parse_loop
  round_word c more paths e o k = rw (parse_loop, e, o, k) refl

pub round_cases :
    (c : ℕ) → (c ≡ b'(') ⊎ ((c ≡ b')') ⊎ (((c == b'(') ≡ false) × ((c == b')') ≡ false)))
round_cases c = elim (Bool-cases (c == b'(')) [
  | inl e ↦ inl (eq_of_test c b'(' e)
  | inr e ↦ elim (Bool-cases (c == b')')) [
    | inl f ↦ inr (inl (eq_of_test c b')' f))
    | inr f ↦ inr (inr (e, f))
  ]
]

-- Whether each parenthesis that closes has one open, `depth` of them in front, and none stays open.
abbrev pub balanced : ℕ → Bytes → Bool
balanced depth [] = depth == 0
balanced depth (c ∷ text) =
    let opened = balanced (suc depth) text in
    let next = balanced depth text in
    let closed : Bool = elim depth [ zero ↦ false | suc outer ↦ balanced outer text ] in
    if c == b'(' then opened else if c == b')' then closed else next

balanced-skip_space :
    (depth : ℕ) (text : Bytes) (p : Position)
    → balanced depth (skip_space text p).0 ≡ balanced depth text
unfolding skip_space
balanced-skip_space depth [] p = refl
balanced-skip_space depth (c ∷ text) p = elim (Bool-cases (isspace c)) [
  | inl e ↦
      let o : (c == b'(') ≡ false = ground arith in
      let k : (c == b')') ≡ false = ground arith in
      rw (e, o, k) (balanced-skip_space depth text (pass c p))
  | inr e ↦ rw (e) refl
]

balanced-skip_word :
    (depth : ℕ) (text : Bytes) → balanced depth (skip_word text).1 ≡ balanced depth text
unfolding skip_word
balanced-skip_word depth [] = refl
balanced-skip_word depth (c ∷ text) = elim (Bool-cases (ends_word c)) [
  | inl e ↦ rw (e) refl
  | inr e ↦
      let o : (c == b'(') ≡ false = ground arith in
      let k : (c == b')') ≡ false = ground arith in rw (e, o, k) (balanced-skip_word depth text)
]

-- The call did not jump to `fail`.
abbrev pub is_tree : Option ParenAtom → Bool
is_tree none = false
is_tree (some _) = true

is_tree-finish :
    (atoms : ParenAtom) (paths : List Frame)
    → is_tree (finish atoms paths) ≡ balanced (length paths) []
is_tree-finish atoms [] = refl
is_tree-finish atoms (_ ∷ paths) = ground arith

abbrev Parses : ℕ → Bytes → Position → ParenAtom → List Frame → Type 0
Parses fuel text p atoms paths =
    (r : Option ParenAtom) × (parse_loop fuel text p atoms paths ≡ some r)
    × (is_tree r ≡ balanced (length paths) text)

loop-Parses :
    (fuel : ℕ) (text : Bytes) (p : Position) (atoms : ParenAtom) (paths : List Frame)
    → length text < fuel
    → Parses fuel text p atoms paths
loop-Parses zero text p atoms paths h = absurd (omega arith)
loop-Parses (suc fuel) text p atoms paths h = elim (List-cases (skip_space text p).0) [
  | inl e ↦ (
    finish atoms paths,
    round_end fuel text p atoms paths e,
    is_tree-finish atoms paths
        ∙ ap (balanced (length paths)) (sym e)
        ∙ balanced-skip_space (length paths) text p,
  )
  | inr (c, more, e) ↦
      let (s, l) = skip_head text p c more e in
      elim (round_cases c) [
        | inl f ↦
            let e' : (skip_space text p).0 ≡ b'(' ∷ more = e ∙ ap (λ t. t ∷ more) f in
            let (r, q, b) = loop-Parses fuel more _ null _ (omega (arith, l)) in
            (
              r,
              round_open fuel text p atoms more paths e' ∙ q,
              b ∙ ap (balanced (length paths)) (sym e') ∙ balanced-skip_space (length paths) text p,
            )
        | inr (inl f) ↦
            let e' : (skip_space text p).0 ≡ b')' ∷ more = e ∙ ap (λ t. t ∷ more) f in
            elim paths as (λ k. Parses (suc fuel) text p atoms k) [
              | [] ↦ (
                none,
                round_unopened fuel text p atoms more e',
                ap (balanced 0) (sym e') ∙ balanced-skip_space 0 text p,
              )
              | (before, (m, k)) ∷ outer ↦
                  let (r, q, b) = loop-Parses fuel more _ _ outer (omega (arith, l)) in
                  (
                    r,
                    round_close fuel text p atoms more before m k outer e' ∙ q,
                    b
                        ∙ ap (balanced (suc (length outer))) (sym e')
                        ∙ balanced-skip_space (suc (length outer)) text p,
                  )
            ]
        | inr (inr (f, g)) ↦
            let shorter = length-skip_word_head c more s f g in
            let (r, q, b) =
              loop-Parses fuel (skip_word (c ∷ more)).1 _ _ paths (omega (arith, l, shorter)) in
            (
              r,
              round_word fuel text p atoms c more paths e f g ∙ q,
              b
                  ∙ balanced-skip_word (length paths) (c ∷ more)
                  ∙ ap (balanced (length paths)) (sym e)
                  ∙ balanced-skip_space (length paths) text p,
            )
      ]
]

-- On any text `paren_parse` ends, and it fails exactly when the parentheses are not balanced.
pub paren_parse_total :
    (text : Bytes)
    → (r : Option ParenAtom) × (paren_parse text ≡ some r) × (is_tree r ≡ balanced 0 text)
unfolding paren_parse
paren_parse_total text = loop-Parses (suc (length text)) text _ null [] (omega arith)
