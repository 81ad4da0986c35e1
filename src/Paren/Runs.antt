-- ===== src/Paren/Runs.antt =====
-- Runs of the parser of src/paren-parser.
use prog_dir.Base.{◌≡◌, refl, Option, none, some, [], ◌∷◌, arith, Bytes, codes}
use prog_dir.Paren.Macros.{paren_preprocessor-IsPlain, paren_preprocessor_never_ends}
use prog_dir.Paren.Preprocessor.{
  Macro, read_macro_arg_list, read_macro, match_args, argument_of, substitute, apply_macro,
  find_macro, find_layer, action_of, preprocess, paren_preprocessor,
}
use prog_dir.Paren.{
  append_atom, null, text_atom, node_atom, ParenAtom, skip_space, skip_word, append_atom,
  parse_loop, paren_parse,
}
use prog_dir.Paren.Total.{is_tree, balanced, paren_parse_total}
use prog_dir.Paren.RoundTrip.{end, word, group, shape, Shape, paren_parse-print}

parse_run :
    paren_parse (codes "(a) bc")
    ≡ some (some (node_atom 1 1 (text_atom 1 1 (codes "a") null) (text_atom 1 4 (codes "bc") null)))
unfolding paren_parse parse_loop skip_space skip_word append_atom
parse_run = refl

parse_open : paren_parse (codes "(a") ≡ some none
unfolding paren_parse parse_loop skip_space skip_word append_atom
parse_open = refl

paren_parse_total_example :
    (r : Option ParenAtom) × (paren_parse (codes "(a))") ≡ some r)
    × (is_tree r ≡ balanced 0 (codes "(a))"))
paren_parse_total_example = paren_parse_total (codes "(a))")

abbrev nested : Shape
nested = group (word (codes "a") end) (word (codes "bc") end)

paren_parse-print_example :
    (tree : ParenAtom) × (paren_parse (codes "(a )bc ") ≡ some (some tree)) × (shape tree ≡ nested)
paren_parse-print_example = paren_parse-print nested (((refl, tt), tt), ((refl, (refl, tt)), tt))

abbrev no_files : Bytes → ParenAtom
no_files path = null

abbrev word_of : Bytes → ParenAtom → ParenAtom
word_of text peer = text_atom 1 1 text peer

abbrev group_of : ParenAtom → ParenAtom → ParenAtom
group_of child peer = node_atom 1 1 child peer

-- (f (x) y)
abbrev plain_tree : ParenAtom
plain_tree =
    group_of (word_of (codes "f") (group_of (word_of (codes "x") null) (word_of (codes "y") null)))
      null

paren_preprocessor-IsPlain_example :
    paren_preprocessor no_files 9 plain_tree ≡ some (some plain_tree)
paren_preprocessor-IsPlain_example =
    paren_preprocessor-IsPlain no_files 9 plain_tree ((refl, refl), ((refl, refl), tt, tt), tt)
      (omega arith)

-- (pair (x) y): the macro `pair` with the argument `a` and the body `a a`
abbrev pair_macro : Macro
pair_macro = record {
  name = codes "pair";
  args = some (codes "a") ∷ [];
  body = word_of (codes "a") (word_of (codes "a") null);
}

abbrev self_macro : Macro
self_macro = record { name = codes "m"; args = []; body = group_of (word_of (codes "m") null) null }

self_found : find_layer ((self_macro ∷ []) ∷ []) (codes "m") ≡ some self_macro
unfolding find_layer find_macro
self_found = refl

paren_preprocessor_never_ends_example :
    preprocess no_files 1000 ((self_macro ∷ []) ∷ []) (group_of (word_of (codes "m") null) null)
    ≡ none
paren_preprocessor_never_ends_example =
    paren_preprocessor_never_ends no_files 1000 ((self_macro ∷ []) ∷ []) self_macro 1 1 1 1 null
      (refl, refl) self_found refl refl

-- (macro pair (a) a a) (pair x) gives x x
macro_run :
    paren_preprocessor no_files 9 (
      group_of
        (word_of (codes "macro") (
          word_of
            (codes "pair")
            (group_of (word_of (codes "a") null) (word_of (codes "a") (word_of (codes "a") null)))))
        (group_of (word_of (codes "pair") (word_of (codes "x") null)) null))
    ≡ some (some (word_of (codes "x") (word_of (codes "x") null)))
unfolding paren_preprocessor preprocess action_of read_macro read_macro_arg_list find_layer
    find_macro apply_macro match_args substitute argument_of append_atom
macro_run = refl
