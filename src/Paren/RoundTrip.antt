-- ===== src/Paren/RoundTrip.antt =====
-- src/paren-parser/paren-parser.c: printing a tree and parsing it.
use prog_dir.Base.{
  ℕ, zero, suc, ◌+◌, ◌<◌, ◌≡◌, refl, sym, ap, ◌∙◌, false, some, List, [], ◌∷◌, ◌++◌, arith, ◌==◌,
  Bytes, length, length-append, All,
}
use prog_dir.Paren.{
  null, text_atom, node_atom, ParenAtom, Position, isspace, pass, skip_space, ends_word, skip_word,
  append_atom, Frame, parse_loop, paren_parse, column, line,
}
use prog_dir.Paren.Total.{round_end, round_open, round_close, round_word}

-- A tree without the places of its atoms.
pub data Shape : Type 0 where
  end : Shape
  word : Bytes → Shape → Shape
  group : Shape → Shape → Shape

abbrev pub shape : ParenAtom → Shape
shape null = end
shape (text_atom l c text peer) = word text (shape peer)
shape (node_atom l c child peer) = group (shape child) (shape peer)

-- The text of a tree in front of another text: a space behind each word.
abbrev pub print : Shape → Bytes → Bytes
print end rest = rest
print (word text peer) rest = text ++ (32 ∷ print peer rest)
print (group child peer) rest = b'(' ∷ print child (b')' ∷ print peer rest)

-- A word has a character, and none that ends a word.
abbrev pub IsWord : Bytes → Type 0
IsWord [] = ⊥
IsWord (c ∷ text) = (ends_word c ≡ false) × All (λ d. ends_word d ≡ false) text

abbrev pub HasWords : Shape → Type 0
HasWords end = Unit
HasWords (word text peer) = IsWord text × HasWords peer
HasWords (group child peer) = HasWords child × HasWords peer

append-null : (atoms : ParenAtom) → append_atom atoms null ≡ atoms
unfolding append_atom
append-null null = refl
append-null (text_atom l c text peer) = ap (text_atom l c text) (append-null peer)
append-null (node_atom l c child peer) = ap (node_atom l c child) (append-null peer)

append_atom_assoc :
    (a b d : ParenAtom) → append_atom (append_atom a b) d ≡ append_atom a (append_atom b d)
unfolding append_atom
append_atom_assoc null b d = refl
append_atom_assoc (text_atom l c text peer) b d =
    ap (text_atom l c text) (append_atom_assoc peer b d)
append_atom_assoc (node_atom l c child peer) b d =
    ap (node_atom l c child) (append_atom_assoc peer b d)

skip_word-append :
    (text rest : Bytes)
    → All (λ d. ends_word d ≡ false) text
    → skip_word (text ++ (32 ∷ rest)) ≡ (text, 32 ∷ rest)
unfolding skip_word
skip_word-append [] rest h = refl
skip_word-append (c ∷ text) rest (e, h) = rw (e, skip_word-append text rest h) refl

skip_space-word :
    (c : ℕ) (text : Bytes) (p : Position)
    → isspace c ≡ false
    → skip_space (c ∷ text) p ≡ (c ∷ text, p)
unfolding skip_space
skip_space-word c text p e = rw (e) refl

pass_space :
    (fuel : ℕ) (text : Bytes) (p : Position) (atoms : ParenAtom) (paths : List Frame)
    → parse_loop (suc fuel) (32 ∷ text) p atoms paths
      ≡ parse_loop (suc fuel) text (pass 32 p) atoms paths
unfolding parse_loop skip_space
pass_space fuel text p atoms paths = refl

-- The loop gets through the text of a tree with fuel left, and puts the tree behind the atoms.
abbrev Reads : Shape → ℕ → Bytes → Position → ParenAtom → List Frame → Type 0
Reads s fuel rest p atoms paths =
    (fuel' : ℕ) × (p' : Position) × (tree : ParenAtom) × (length rest < fuel')
    × (shape tree ≡ s)
    × (parse_loop fuel (print s rest) p atoms paths
        ≡ parse_loop fuel' rest p' (append_atom atoms tree) paths)

word_char :
    (c : ℕ)
    → ends_word c ≡ false
    → (isspace c ≡ false) × ((c == b'(') ≡ false) × ((c == b')') ≡ false)
word_char c e = (ground arith, ground arith, ground arith)

-- A whole word and the space behind it.
read_word :
    (c : ℕ) (text rest : Bytes) (fuel : ℕ) (p : Position) (atoms : ParenAtom) (paths : List Frame)
    → IsWord (c ∷ text)
    → (q : Position) × (l : ℕ) × (k : ℕ) × (parse_loop
          (suc (suc fuel))
          (c ∷ (text ++ (32 ∷ rest)))
          p
          atoms
          paths
        ≡ parse_loop (suc fuel) rest q (append_atom atoms (text_atom l k (c ∷ text) null)) paths)
read_word c text rest fuel p atoms paths (e, h) =
    let whole : Bytes = c ∷ (text ++ (32 ∷ rest)) in
    let (s, o, k) = word_char c e in
    let here = (skip_space whole p).1 in
    let at : (skip_space whole p).0 ≡ whole =
      ap (λ t. t.0) (skip_space-word c (text ++ (32 ∷ rest)) p s) in
    let q : Position = record here { iter = here.iter + length (c ∷ text) } in
    (
      pass 32 q,
      line here,
      column here.iter here,
      round_word (suc fuel) whole p atoms c (text ++ (32 ∷ rest)) paths at o k
          ∙ ap
              (λ w.
                parse_loop (suc fuel) w.1 (record here { iter = here.iter + length w.0 })
                  (append_atom atoms (text_atom (line here) (column here.iter here) w.0 null))
                  paths)
              (skip_word-append (c ∷ text) rest (e, h))
          ∙ pass_space fuel rest q
              (append_atom atoms (text_atom (line here) (column here.iter here) (c ∷ text) null))
              paths,
    )

-- A closing parenthesis.
read_close :
    (fuel : ℕ) (rest : Bytes) (p : Position) (child before : ParenAtom) (l k : ℕ)
    (paths : List Frame)
    → length (b')' ∷ rest) < fuel
    → (fuel' : ℕ) × (q : Position) × (length rest < fuel')
      × (parse_loop fuel (b')' ∷ rest) p child ((before, (l, k)) ∷ paths)
          ≡ parse_loop fuel' rest q (append_atom before (node_atom l k child null)) paths)
read_close zero rest p child before l k paths h = absurd (omega arith)
read_close (suc fuel) rest p child before l k paths h =
    let at : (skip_space (b')' ∷ rest) p).0 ≡ b')' ∷ rest =
      ap (λ t. t.0) (skip_space-word b')' rest p refl) in
    (fuel, _, omega arith, round_close fuel (b')' ∷ rest) p child rest before l k paths at)

read_end :
    (fuel : ℕ) (p : Position) (tree : ParenAtom)
    → 0 < fuel
    → parse_loop fuel [] p tree [] ≡ some (some tree)
unfolding skip_space
read_end zero p tree h = absurd (omega arith)
read_end (suc fuel) p tree h = round_end fuel [] p tree [] refl

print-Reads :
    (s : Shape) (fuel : ℕ) (rest : Bytes) (p : Position) (atoms : ParenAtom) (paths : List Frame)
    → HasWords s
    → length (print s rest) < fuel
    → Reads s fuel rest p atoms paths
unfolding append_atom
print-Reads end fuel rest p atoms paths h l =
    (fuel, p, null, l, refl, ap (λ t. parse_loop fuel rest p t paths) (sym (append-null atoms)))
print-Reads (word [] peer) fuel rest p atoms paths (h, hs) l = absurd h
print-Reads (word (c ∷ text) peer) zero rest p atoms paths (h, hs) l = absurd (omega arith)
print-Reads (word (c ∷ text) peer) (suc zero) rest p atoms paths (h, hs) l =
    absurd (omega (arith, length-append text (32 ∷ print peer rest)))
print-Reads (word (c ∷ text) peer) (suc (suc fuel)) rest p atoms paths (h, hs) l =
    let (q, m, k, first) = read_word c text (print peer rest) fuel p atoms paths h in
    let atom = text_atom m k (c ∷ text) null in
    let (fuel', p', tree, l', same, run) =
      print-Reads peer (suc fuel) rest q (append_atom atoms atom) paths hs
        (omega (arith, length-append text (32 ∷ print peer rest))) in
    (
      fuel',
      p',
      text_atom m k (c ∷ text) tree,
      l',
      ap (word (c ∷ text)) same,
      first ∙ run ∙ ap (λ t. parse_loop fuel' rest p' t paths) (append_atom_assoc atoms atom tree),
    )
print-Reads (group child peer) zero rest p atoms paths (h, hs) l = absurd (omega arith)
print-Reads (group child peer) (suc fuel) rest p atoms paths (h, hs) l =
    let whole = b'(' ∷ print child (b')' ∷ print peer rest) in
    let at : (skip_space whole p).0 ≡ whole =
      ap (λ t. t.0) (skip_space-word b'(' (print child (b')' ∷ print peer rest)) p refl) in
    let open_step = round_open fuel whole p atoms (print child (b')' ∷ print peer rest)) paths at in
    let (fuel₁, p₁, inner, l₁, same₁, run₁) =
      print-Reads child fuel (b')' ∷ print peer rest) _ null _ h (omega arith) in
    let (fuel₂, p₂, l₂, run₂) = read_close fuel₁ (print peer rest) p₁ inner atoms _ _ paths l₁ in
    let (fuel', p', tree, l', same, run) = print-Reads peer fuel₂ rest p₂ _ paths hs l₂ in
    (
      fuel',
      p',
      node_atom _ _ inner tree,
      l',
      cc,
      open_step
          ∙ run₁
          ∙ run₂
          ∙ run
          ∙ ap (λ t. parse_loop fuel' rest p' t paths)
              (append_atom_assoc atoms (node_atom _ _ inner null) tree),
    )

-- The text of a tree, words with a space behind each and children in parentheses, is parsed to that
-- tree, when each word has a character, and none that is a space or a parenthesis.
pub paren_parse-print :
    (s : Shape)
    → HasWords s
    → (tree : ParenAtom) × (paren_parse (print s []) ≡ some (some tree)) × (shape tree ≡ s)
unfolding paren_parse append_atom
paren_parse-print s h =
    let (fuel, p, tree, l, same, run) =
      print-Reads s (suc (length (print s []))) [] _ null [] h (omega arith) in
    (tree, run ∙ read_end fuel p tree l, same)
