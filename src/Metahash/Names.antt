-- ===== src/Metahash/Names.antt =====
-- src/metahash/metahash.c, metahash_identify_name and metahash_identify_list.
use prog_dir.Base.{
  ℕ, ◌≡◌, refl, sym, ap, ◌∙◌, ◌≢◌, inl, inr, Bool, true, false, not, ◌&&◌, List, [], ◌∷◌, ◌++◌,
  append-nil, append_assoc, arith, ◌==◌, if◌then◌else◌, Bool-cases, Bytes, All,
}
use prog_dir.Metahash.Ids.{metahash_identity}
use prog_dir.Metahash.{metahash_identify_list, metahash_identify_name, identify_loop}

-- Names with commas between them.
abbrev pub join_names : Bytes → List Bytes → Bytes
join_names name [] = name
join_names name (next ∷ names) = name ++ (b',' ∷ join_names next names)

abbrev pub IsName : Bytes → Type 0
IsName = All {A = ℕ} (λ c. c ≢ b',')

abbrev is_known : Bytes → Bool
is_known name = not (metahash_identify_name name == metahash_identity)

abbrev pub all_known : List Bytes → Bool
all_known [] = true
all_known (name ∷ names) = is_known name && all_known names

-- The ids of the names in front of the first that is not known.
abbrev pub known_ids : List Bytes → List ℕ
known_ids [] = []
known_ids (name ∷ names) =
    let rest = known_ids names in if is_known name then metahash_identify_name name ∷ rest else []

loop_name :
    (list : List ℕ) (name add rest : Bytes)
    → IsName name
    → identify_loop list add (name ++ rest) ≡ identify_loop list (add ++ name) rest
unfolding identify_loop
loop_name list [] add rest h = rw (append-nil add) refl
loop_name list (c ∷ name) add rest (n, h) =
    let test : (c == b',') ≡ false = ground arith in
    rw (test) (
      loop_name list name (add ++ c ∷ []) rest h
      ∙ ap (λ t. identify_loop list t rest) (append_assoc add (c ∷ []) name))

loop_names :
    (list : List ℕ) (name : Bytes) (names : List Bytes)
    → IsName name
    → All IsName names
    → identify_loop list [] (join_names name names)
      ≡ (all_known (name ∷ names), list ++ known_ids (name ∷ names))
unfolding identify_loop
loop_names list name [] h hs =
    ap (identify_loop list []) (sym (append-nil name))
    ∙ loop_name list name [] [] h
    ∙ elim (Bool-cases (metahash_identify_name name == metahash_identity)) [
      | inl e ↦ rw (e, append-nil list) refl
      | inr e ↦ rw (e) refl
    ]
loop_names list name (next ∷ names) h (n, hs) =
    let id = metahash_identify_name name in
    loop_name list name [] (b',' ∷ join_names next names) h
    ∙ elim (Bool-cases (id == metahash_identity)) [
      | inl e ↦ rw (e, append-nil list) refl
      | inr e ↦ rw (e) (
          loop_names (list ++ id ∷ []) next names n hs
          ∙ rw (append_assoc list (id ∷ []) (known_ids (next ∷ names))) refl)
    ]

-- A list of names without commas in them, one or more, separated by commas: the call succeeds when
-- each name is known, and appends to the list the ids of those in front of the first unknown one.
pub metahash_identify_list_lem :
    (list : List ℕ) (name : Bytes) (names : List Bytes)
    → IsName name
    → All IsName names
    → metahash_identify_list list (join_names name names)
      ≡ (all_known (name ∷ names), list ++ known_ids (name ∷ names))
unfolding metahash_identify_list
metahash_identify_list_lem list name names h hs = loop_names list name names h hs
