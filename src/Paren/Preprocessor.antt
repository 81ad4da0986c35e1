-- ===== src/Paren/Preprocessor.antt =====
-- src/paren-parser/paren-preprocessor.c: includes and macros. The trees are those of Paren, and the
-- stack of layers is the recursion: a list of macros for each open layer, the innermost first. The
-- strings are interned in the program, so that two are equal when their texts are.
use prog_dir.Base.{
  ℕ, zero, suc, Bool, false, Option, none, some, List, [], ◌∷◌, if◌then◌else◌, ◌>>=◌, bytes_eq,
  Bytes, codes,
}
use prog_dir.Paren.{ParenAtom, null, text_atom, node_atom, append_atom}

-- `macro`, with the names of its arguments; the null pointer is the name of an empty argument.
pub record Macro : Type 0 where
  pub name : Bytes
  pub args : List (Option Bytes)
  pub body : ParenAtom

-- The list of a tree that the macro or the file gives, in front of the peers behind it.
abbrev pub insert_atoms : ParenAtom → ParenAtom → ParenAtom
insert_atoms atoms peer = append_atom atoms peer

-- The paths that `process_include` goes through, with the parser of a file as a parameter: it gives the
-- null pointer for a file that it cannot read. `none` is a failure.
unfoldable pub process_include : (Bytes → ParenAtom) → ParenAtom → Option ParenAtom
process_include parse_file null = some null
process_include parse_file (node_atom l c child peer) = none
process_include parse_file (text_atom l c path peer) =
    let rest = process_include parse_file peer in
    elim (parse_file path) [
      | null ↦ none
      | text_atom l' c' text more ↦
          rest >>= λ atoms. some (append_atom (text_atom l' c' text more) atoms)
      | node_atom l' c' child more ↦
          rest >>= λ atoms. some (append_atom (node_atom l' c' child more) atoms)
    ]

-- The name of an argument that may have a default value, which is not used.
abbrev pub arg_name : ParenAtom → Option (Option Bytes)
arg_name null = some none
arg_name (node_atom l c child peer) = none
arg_name (text_atom l c name null) = some (some name)
arg_name (text_atom l c name (text_atom l' c' value null)) = some (some name)
arg_name (text_atom l c name (node_atom l' c' value null)) = some (some name)
arg_name _ = none

unfoldable pub read_macro_arg_list : ParenAtom → Option (List (Option Bytes))
read_macro_arg_list null = some []
read_macro_arg_list (text_atom l c name peer) =
    read_macro_arg_list peer >>= λ args. some (some name ∷ args)
read_macro_arg_list (node_atom l c child peer) =
    arg_name child >>= λ name. read_macro_arg_list peer >>= λ args. some (name ∷ args)

-- `read_macro` on what follows the word `macro`: a name, a list of arguments, and a body.
unfoldable pub read_macro : ParenAtom → Option Macro
read_macro (text_atom l c name (node_atom l' c' arg_list (text_atom l'' c'' text peer))) =
    read_macro_arg_list arg_list >>= λ args.
    some record { name = name; args = args; body = text_atom l'' c'' text peer }
read_macro (text_atom l c name (node_atom l' c' arg_list (node_atom l'' c'' child peer))) =
    read_macro_arg_list arg_list >>= λ args.
    some record { name = name; args = args; body = node_atom l'' c'' child peer }
read_macro _ = none

-- The arguments of a call with the names of the macro; `none` when they are too few or too many.
unfoldable pub match_args :
    List (Option Bytes) → ParenAtom → Option (List (Option Bytes × ParenAtom))
match_args [] null = some []
match_args [] _ = none
match_args (name ∷ args) null = none
match_args (name ∷ args) (text_atom l c text peer) =
    match_args args peer >>= λ rest. some ((name, text_atom l c text null) ∷ rest)
match_args (name ∷ args) (node_atom l c child peer) =
    match_args args peer >>= λ rest. some ((name, node_atom l c child null) ∷ rest)

abbrev pub is_name : Option Bytes → Bytes → Bool
is_name none text = false
is_name (some name) text = bytes_eq name text

-- The argument that a text of the body stands for: the last one of that name.
unfoldable pub argument_of : List (Option Bytes × ParenAtom) → Bytes → Option ParenAtom
argument_of [] text = none
argument_of ((name, arg) ∷ args) text =
    let later = argument_of args text in
    elim later [ some a ↦ some a | none ↦ if is_name name text then some arg else none ]

-- The child of an argument at the place of a text of the body.
abbrev pub put_child : ℕ → ℕ → Bytes → Option ParenAtom → ParenAtom → ParenAtom
put_child l c text (some (text_atom l' c' word peer')) peer = text_atom l c word peer
put_child l c text (some (node_atom l' c' child peer')) peer = node_atom l c child peer
put_child l c text _ peer = text_atom l c text peer

-- The body with its matches set to the arguments, which `add_arg_list_matches` has found in the whole
-- tree, and copied by `_dupe_tree`.
unfoldable pub substitute : List (Option Bytes × ParenAtom) → ParenAtom → ParenAtom
substitute args null = null
substitute args (text_atom l c text peer) =
    put_child l c text (argument_of args text) (substitute args peer)
substitute args (node_atom l c child peer) =
    node_atom l c (substitute args child) (substitute args peer)

unfoldable pub apply_macro : Macro → ParenAtom → Option ParenAtom
apply_macro macro arguments =
    match_args macro.args arguments >>= λ args. some (substitute args macro.body)

unfoldable pub find_macro : List Macro → Bytes → Option Macro
find_macro [] name = none
find_macro (m ∷ macros) name =
    let rest = find_macro macros name in if bytes_eq m.name name then some m else rest

-- From the innermost layer out.
unfoldable pub find_layer : List (List Macro) → Bytes → Option Macro
find_layer [] name = none
find_layer (macros ∷ layers) name =
    let outer = find_layer layers name in
    elim (find_macro macros name) [ some m ↦ some m | none ↦ outer ]

-- What to do with a node, by its first child.
pub data Action : Type 0 where
  fail_action descend : Action
  replace : ParenAtom → Action
  define : Macro → Action

abbrev pub replace_or_fail : Option ParenAtom → Action
replace_or_fail none = fail_action
replace_or_fail (some atoms) = replace atoms

abbrev pub define_or_fail : Option Macro → Action
define_or_fail none = fail_action
define_or_fail (some macro) = define macro

abbrev pub call_action : Option Macro → ParenAtom → Action
call_action none arguments = descend
call_action (some macro) arguments = replace_or_fail (apply_macro macro arguments)

unfoldable pub action_of : (Bytes → ParenAtom) → List (List Macro) → ParenAtom → Action
action_of parse_file layers (text_atom l c word peer) =
    if bytes_eq word (codes "include")
    then replace_or_fail (process_include parse_file peer)
    else if bytes_eq word (codes "macro")
    then define_or_fail (read_macro peer)
    else call_action (find_layer layers word) peer
action_of parse_file layers _ = descend

-- A macro goes to the front of the innermost layer.
abbrev pub define_in : Macro → List (List Macro) → List (List Macro)
define_in macro [] = (macro ∷ []) ∷ []
define_in macro (macros ∷ layers) = (macro ∷ macros) ∷ layers

-- A result that may be a failure, with what follows it.
abbrev pub then_atom :
    Option (Option ParenAtom) → (ParenAtom → ParenAtom) → Option (Option ParenAtom)
then_atom none f = none
then_atom (some none) f = some none
then_atom (some (some atoms)) f = some (some (f atoms))

abbrev pub then_node :
    ℕ → ℕ → Option (Option ParenAtom) → Option (Option ParenAtom) → Option (Option ParenAtom)
then_node l c none peers = none
then_node l c (some none) peers = some none
then_node l c (some (some child)) peers = then_atom peers (node_atom l c child)

-- What is done at a node, with the loop from a place on.
abbrev pub take_action :
    (List (List Macro) → ParenAtom → Option (Option ParenAtom))
    → List (List Macro)
    → ℕ
    → ℕ
    → ParenAtom
    → ParenAtom
    → Action
    → Option (Option ParenAtom)
take_action go layers l c child peer fail_action = some none
take_action go layers l c child peer descend =
    then_node l c (go ([] ∷ layers) child) (go layers peer)
take_action go layers l c child peer (replace atoms) = go layers (insert_atoms atoms peer)
take_action go layers l c child peer (define macro) = go (define_in macro layers) peer

module _ (parse_file : Bytes → ParenAtom) where
  -- The loop of `paren_preprocessor` on the atoms from one place of a layer on. What a macro or a file
  -- gives is gone through again, so that a macro that calls itself never ends: `none` is fuel that ran
  -- out.
  unfoldable pub preprocess : ℕ → List (List Macro) → ParenAtom → Option (Option ParenAtom)
  preprocess zero layers atoms = none
  preprocess (suc fuel) layers null = some (some null)
  preprocess (suc fuel) layers (text_atom l c text peer) =
      then_atom (preprocess fuel layers peer) (text_atom l c text)
  preprocess (suc fuel) layers (node_atom l c child peer) =
      take_action (preprocess fuel) layers l c child peer (action_of parse_file layers child)

  -- `paren_preprocessor` on what the parser has given
  unfoldable pub paren_preprocessor : ℕ → ParenAtom → Option (Option ParenAtom)
  paren_preprocessor fuel atoms = preprocess fuel ([] ∷ []) atoms
