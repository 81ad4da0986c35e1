-- ===== src/Paren/Macros.antt =====
-- src/paren-parser/paren-preprocessor.c: trees that stay as they are, calls of macros, and macros that
-- never end.
use prog_dir.Base.{
  ℕ, zero, suc, ◌+◌, ◌<◌, ◌≡◌, refl, ap, ◌∙◌, ◌≢◌, ◌↔◌, false, Option, none, some, List, [], ◌∷◌,
  arith, ◌>>=◌, bytes_eq, Bytes, length, codes,
}
use prog_dir.Paren.{ParenAtom, null, text_atom, node_atom, append_atom}
use prog_dir.Paren.Preprocessor.{
  paren_preprocessor, Macro, match_args, substitute, apply_macro, find_macro, find_layer, descend,
  action_of, preprocess, argument_of, replace, take_action,
}

-- The atoms of a tree.
abbrev pub tree_size : ParenAtom → ℕ
tree_size null = 0
tree_size (text_atom l c text peer) = suc (tree_size peer)
tree_size (node_atom l c child peer) = suc (tree_size child + tree_size peer)

-- A node that starts with this is neither an include nor the definition of a macro.
abbrev pub IsOrdinary : ParenAtom → Type 0
IsOrdinary (text_atom l c word peer) =
    (bytes_eq word (codes "include") ≡ false) × (bytes_eq word (codes "macro") ≡ false)
IsOrdinary _ = Unit

abbrev pub IsPlain : ParenAtom → Type 0
IsPlain null = Unit
IsPlain (text_atom l c text peer) = IsPlain peer
IsPlain (node_atom l c child peer) = IsOrdinary child × IsPlain child × IsPlain peer

abbrev NoMacros : List (List Macro) → Type 0
NoMacros layers = (name : Bytes) → find_layer layers name ≡ none

action_of-descend :
    (parse_file : Bytes → ParenAtom) (layers : List (List Macro)) (child : ParenAtom)
    → NoMacros layers
    → IsOrdinary child
    → action_of parse_file layers child ≡ descend
unfolding action_of
action_of-descend parse_file layers null n h = refl
action_of-descend parse_file layers (node_atom l c child peer) n h = refl
action_of-descend parse_file layers (text_atom l c word peer) n (i, m) = rw (i, m, n word) refl

no_more_macros : (layers : List (List Macro)) → NoMacros layers → NoMacros ([] ∷ layers)
unfolding find_layer find_macro
no_more_macros layers n name = n name

preprocess-IsPlain :
    (parse_file : Bytes → ParenAtom) (fuel : ℕ) (layers : List (List Macro)) (atoms : ParenAtom)
    → NoMacros layers
    → IsPlain atoms
    → tree_size atoms < fuel
    → preprocess parse_file fuel layers atoms ≡ some (some atoms)
unfolding preprocess
preprocess-IsPlain parse_file zero layers atoms n h l = absurd (omega arith)
preprocess-IsPlain parse_file (suc fuel) layers null n h l = refl
preprocess-IsPlain parse_file (suc fuel) layers (text_atom k c text peer) n h l =
    rw (preprocess-IsPlain parse_file fuel layers peer n h (omega arith)) refl
preprocess-IsPlain parse_file (suc fuel) layers (node_atom k c child peer) n (o, hc, hp) l =
    let inner : NoMacros ([] ∷ layers) = no_more_macros layers n in
    ap (take_action (preprocess parse_file fuel) layers k c child peer)
      (action_of-descend parse_file layers child n o)
    ∙ rw
        (
          take_action,
          preprocess-IsPlain parse_file fuel ([] ∷ layers) child inner hc (omega arith),
          preprocess-IsPlain parse_file fuel layers peer n hp (omega arith),
        )
        refl

-- A tree without includes and definitions of macros comes out as it is, and there is fuel enough with
-- one unit for each atom and one more.
pub paren_preprocessor-IsPlain :
    (parse_file : Bytes → ParenAtom) (fuel : ℕ) (atoms : ParenAtom)
    → IsPlain atoms
    → tree_size atoms < fuel
    → paren_preprocessor parse_file fuel atoms ≡ some (some atoms)
unfolding paren_preprocessor find_layer find_macro
paren_preprocessor-IsPlain parse_file fuel atoms h l =
    preprocess-IsPlain parse_file fuel ([] ∷ []) atoms (λ name. refl) h l

-- The arguments of a call.
abbrev pub count_atoms : ParenAtom → ℕ
count_atoms null = 0
count_atoms (text_atom l c text peer) = suc (count_atoms peer)
count_atoms (node_atom l c child peer) = suc (count_atoms peer)

bind_none {ℓ κ} :
    {A : Type ℓ} {B : Type κ} (o : Option A) (f : A → B)
    → (o ≡ none) ↔ ((o >>= λ a. some (f a)) ≡ none)
bind_none none f = (λ _. refl, λ _. refl)
bind_none (some a) f = (λ e. cc, λ e. cc)

↔-trans : {P Q R : Type 0} → P ↔ Q → Q ↔ R → P ↔ R
↔-trans p q = (λ x. q.0 (p.0 x), λ y. p.1 (q.1 y))

↔-flip : {P Q : Type 0} → P ↔ Q → Q ↔ P
↔-flip p = (p.1, p.0)

suc_differs : (m n : ℕ) → (m ≢ n) ↔ (suc m ≢ suc n)
suc_differs m n = (λ h e. h (omega arith), λ h e. h (omega arith))

match_args_lem :
    (names : List (Option Bytes)) (arguments : ParenAtom)
    → (match_args names arguments ≡ none) ↔ (length names ≢ count_atoms arguments)
unfolding match_args
match_args_lem [] null = (λ e. cc, λ n. absurd (n refl))
match_args_lem [] (text_atom l c text peer) = (λ e. λ h. omega arith, λ n. refl)
match_args_lem [] (node_atom l c child peer) = (λ e. λ h. omega arith, λ n. refl)
match_args_lem (name ∷ names) null = (λ e. λ h. omega arith, λ n. refl)
match_args_lem (name ∷ names) (text_atom l c text peer) =
    ↔-trans
      (↔-flip (bind_none (match_args names peer) (λ rest. (name, text_atom l c text null) ∷ rest)))
      (↔-trans (match_args_lem names peer) (suc_differs (length names) (count_atoms peer)))
match_args_lem (name ∷ names) (node_atom l c child peer) =
    ↔-trans
      (↔-flip (bind_none (match_args names peer) (λ rest. (name, node_atom l c child null) ∷ rest)))
      (↔-trans (match_args_lem names peer) (suc_differs (length names) (count_atoms peer)))

-- A call of a macro fails exactly when it has not as many arguments as the macro.
pub apply_macro_fails :
    (macro : Macro) (arguments : ParenAtom)
    → (apply_macro macro arguments ≡ none) ↔ (length macro.args ≢ count_atoms arguments)
unfolding apply_macro
apply_macro_fails macro arguments =
    let matched = match_args macro.args arguments in
    let (there, back) = bind_none matched (λ args. substitute args macro.body) in
    let (short, long) = match_args_lem macro.args arguments in
    (λ e. short (back e), λ n. there (long n))

substitute-none : (atoms : ParenAtom) → substitute [] atoms ≡ atoms
unfolding substitute argument_of
substitute-none null = refl
substitute-none (text_atom l c text peer) = ap (text_atom l c text) (substitute-none peer)
substitute-none (node_atom l c child peer) = rw (substitute-none child, substitute-none peer) refl

action_of-call :
    (parse_file : Bytes → ParenAtom) (layers : List (List Macro)) (macro : Macro) (l c l' c' : ℕ)
    → IsOrdinary (text_atom l' c' macro.name null)
    → find_layer layers macro.name ≡ some macro
    → macro.args ≡ []
    → macro.body ≡ node_atom l c (text_atom l' c' macro.name null) null
    → action_of parse_file layers (text_atom l' c' macro.name null)
      ≡ replace (node_atom l c (text_atom l' c' macro.name null) null)
unfolding action_of apply_macro match_args
action_of-call parse_file layers macro l c l' c' (i, m) f a b =
    let applied : apply_macro macro null
        ≡ some (node_atom l c (text_atom l' c' macro.name null) null) =
      rw (a) (ap some (substitute-none macro.body ∙ b)) in
    rw (i, m, f, applied) refl

-- A macro without arguments, whose body is a call of itself, is gone through for ever: no fuel is enough.
pub paren_preprocessor_never_ends :
    (parse_file : Bytes → ParenAtom) (fuel : ℕ) (layers : List (List Macro)) (macro : Macro)
    (l c l' c' : ℕ) (peer : ParenAtom)
    → IsOrdinary (text_atom l' c' macro.name null)
    → find_layer layers macro.name ≡ some macro
    → macro.args ≡ []
    → macro.body ≡ node_atom l c (text_atom l' c' macro.name null) null
    → preprocess parse_file fuel layers (node_atom l c (text_atom l' c' macro.name null) peer)
      ≡ none
unfolding preprocess append_atom
paren_preprocessor_never_ends parse_file zero layers macro l c l' c' peer o f a b = refl
paren_preprocessor_never_ends parse_file (suc fuel) layers macro l c l' c' peer o f a b =
    ap (take_action (preprocess parse_file fuel) layers l c (text_atom l' c' macro.name null) peer)
      (action_of-call parse_file layers macro l c l' c' o f a b)
    ∙ paren_preprocessor_never_ends parse_file fuel layers macro l c l' c' peer o f a b
