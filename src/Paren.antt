-- ===== src/Paren.antt =====
-- src/paren-parser/paren-parser.c: texts of words and parentheses as trees. The text is the list of its
-- characters up to the null byte, a position in it an index, and a word is kept as its characters
-- (`immutable_string` stores them once). The file name of an atom is left out.
pub mod Total
pub mod RoundTrip
pub mod Preprocessor
pub mod Macros
mod Runs
use prog_dir.Base.{
  ℕ, zero, suc, ◌+◌, ◌-◌, ◌%◌, ◌^◌, Bool, ◌&&◌, ◌||◌, Option, none, some, List, [], ◌∷◌, leb, ◌==◌,
  if◌then◌else◌, Bytes, length,
}

-- `paren_atom`, with the null pointer: its line and column, a text or a child, and its peer.
pub data ParenAtom : Type 0 where
  null : ParenAtom
  text_atom : ℕ → ℕ → Bytes → ParenAtom → ParenAtom
  node_atom : ℕ → ℕ → ParenAtom → ParenAtom → ParenAtom

-- Where the parser stands: `iter`, `line_number` and `last_newline`.
pub record Position : Type 0 where
  pub iter : ℕ
  pub line_number : ℕ
  pub last_newline : ℕ

abbrev pub isspace : ℕ → Bool
isspace c = (leb 9 c && leb c 13) || c == 32

abbrev pub pass : ℕ → Position → Position
pass c p = record {
  iter = p.iter + 1;
  line_number = if c == 10 then p.line_number + 1 else p.line_number;
  last_newline = if c == 10 then p.iter else p.last_newline;
}

unfoldable pub skip_space : Bytes → Position → Bytes × Position
skip_space [] p = ([], p)
skip_space (c ∷ text) p =
    let rest = skip_space text (pass c p) in if isspace c then rest else (c ∷ text, p)

abbrev pub ends_word : ℕ → Bool
ends_word c = isspace c || (c == b'(' || c == b')')

-- `skip_word`: the word, and what follows it.
unfoldable pub skip_word : Bytes → Bytes × Bytes
skip_word [] = ([], [])
skip_word (c ∷ text) =
    let rest = skip_word text in if ends_word c then ([], c ∷ text) else (c ∷ rest.0, rest.1)

-- An atom at the null pointer behind the last peer.
unfoldable pub append_atom : ParenAtom → ParenAtom → ParenAtom
append_atom null atom = atom
append_atom (text_atom l c word peer) atom = text_atom l c word (append_atom peer atom)
append_atom (node_atom l c child peer) atom = node_atom l c child (append_atom peer atom)

-- An open node: the atoms in front of it, its line and its column.
abbrev pub Frame : Type 0
Frame = ParenAtom × (ℕ × ℕ)

-- The column is kept in an `unsigned int`, and so is the line.
abbrev pub column : ℕ → Position → ℕ
column iter p = (iter - p.last_newline) % 2 ^ 32

abbrev pub line : Position → ℕ
line p = p.line_number % 2 ^ 32

-- What follows the loop: `none` is the null pointer after `fail`.
abbrev pub finish : ParenAtom → List Frame → Option ParenAtom
finish atoms [] = some atoms
finish atoms (_ ∷ _) = none

-- The loop of `paren_parse`. `atoms` is the list that `set` is at the end of; `paths` has the nodes
-- around it. `none` is fuel that ran out.
unfoldable pub parse_loop :
    ℕ → Bytes → Position → ParenAtom → List Frame → Option (Option ParenAtom)
parse_loop zero text p atoms paths = none
parse_loop (suc fuel) text p atoms paths =
    let (at, q) = skip_space text p in
    elim at [
      | [] ↦ some (finish atoms paths)
      | c ∷ more ↦
          let after = record q { iter = q.iter + 1 } in
          let opened =
            parse_loop fuel more after null ((atoms, (line q, column after.iter q)) ∷ paths) in
          let (word, rest) = skip_word (c ∷ more) in
          let text = text_atom (line q) (column q.iter q) word null in
          let next =
            parse_loop fuel rest (record q { iter = q.iter + length word }) (append_atom atoms text)
              paths in
          if c == b'('
          then opened
          else if c == b')'
          then elim paths [
            | [] ↦ some none
            | (before, (l, k)) ∷ outer ↦
                parse_loop fuel more after (append_atom before (node_atom l k atoms null)) outer
          ]
          else next
    ]

unfoldable pub paren_parse : Bytes → Option (Option ParenAtom)
paren_parse text =
    parse_loop (suc (length text)) text record { iter = 0; line_number = 1; last_newline = 0 } null
      []
