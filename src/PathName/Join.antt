-- ===== src/PathName/Join.antt =====
-- src/path/path.c, path_cat and _path_mkdir: the parts of a path name.
use prog_dir.Base.{
  ℕ, ◌≡◌, refl, sym, ap, ◌∙◌, inl, inr, Bool, true, false, ◌&&◌, List, [], ◌∷◌, ◌++◌, append-nil,
  ◌==◌, if◌then◌else◌, Bool-cases, List-cases, Bytes,
}
use prog_dir.PathName.{
  trim_cons, make_last, path_cat, path_separator, trim_end, trim_begin, mkdir_loop, path_mkdir,
}

-- A part is closed when it has a character.
abbrev close_part : Bytes → List Bytes → List Bytes
close_part [] parts = parts
close_part (c ∷ part) parts = (c ∷ part) ∷ parts

-- The parts of a path name between separators, without the empty ones, behind the part that was begun.
abbrev pub parts_from : Bytes → Bytes → List Bytes
parts_from part [] = close_part part []
parts_from part (c ∷ path) =
    let next = parts_from [] path in
    let more = parts_from (part ++ c ∷ []) path in
    if c == path_separator then close_part part next else more

abbrev pub parts : Bytes → List Bytes
parts path = parts_from [] path

close_part-append :
    (part : Bytes) (xs ys : List Bytes) → close_part part xs ++ ys ≡ close_part part (xs ++ ys)
close_part-append [] xs ys = refl
close_part-append (c ∷ part) xs ys = refl

parts-append :
    (part a b : Bytes) → parts_from part (a ++ (path_separator ∷ b)) ≡ parts_from part a ++ parts b
parts-append part [] b = sym (close_part-append part [] (parts b))
parts-append part (c ∷ a) b = elim (Bool-cases (c == path_separator)) [
  | inl e ↦ rw (e) (
      ap (close_part part) (parts-append [] a b) ∙ sym (close_part-append part (parts a) (parts b)))
  | inr e ↦ rw (e) (parts-append (part ++ c ∷ []) a b)
]

parts-trim_begin : (b : Bytes) → parts (trim_begin b) ≡ parts b
unfolding trim_begin
parts-trim_begin [] = refl
parts-trim_begin (c ∷ b) = elim (Bool-cases (c == path_separator)) [
  | inl e ↦ rw (e) (parts-trim_begin b)
  | inr e ↦
      let kept : (if c == path_separator then trim_begin b else c ∷ b) ≡ c ∷ b = rw (e) refl in
      ap parts kept
]

parts-trim_cons :
    (part : Bytes) (c : ℕ) (rest : Bytes)
    → parts_from part (trim_cons c rest) ≡ parts_from part (c ∷ rest)
parts-trim_cons part c [] = elim (Bool-cases (c == path_separator)) [
  | inl e ↦ rw (e) refl
  | inr e ↦ rw (e, e) refl
]
parts-trim_cons part c (d ∷ rest) = refl

parts_from-trim_end : (part a : Bytes) → parts_from part (trim_end a) ≡ parts_from part a
unfolding trim_end
parts_from-trim_end part [] = refl
parts_from-trim_end part (c ∷ a) =
    parts-trim_cons part c (trim_end a) ∙ elim (Bool-cases (c == path_separator)) [
      | inl e ↦ rw (e) (ap (close_part part) (parts_from-trim_end [] a))
      | inr e ↦ rw (e) (parts_from-trim_end (part ++ c ∷ []) a)
    ]

-- The parts of two names joined are those of the first and then those of the second, whatever
-- separators the first ends with and the second begins with.
pub parts-path_cat : (a b : Bytes) → parts (path_cat a b) ≡ parts a ++ parts b
unfolding path_cat
parts-path_cat a b = elim (List-cases (trim_end a)) [
  | inl e ↦ rw (path_cat, e) (ap (λ t. t ++ parts b) (ap parts (sym e) ∙ parts_from-trim_end [] a))
  | inr (c, rest, e) ↦
      rw (path_cat, e)
        (parts-append [] (c ∷ rest) (trim_begin b)
          ∙ ap (◌++◌ (parts (c ∷ rest))) (parts-trim_begin b)
          ∙ ap (λ t. t ++ parts b) (ap parts (sym e) ∙ parts_from-trim_end [] a))
]

-- The paths that end in front of a separator, in order.
abbrev pub parents : Bytes → Bytes → List Bytes
parents before [] = []
parents before (c ∷ rest) =
    let next = parents (before ++ c ∷ []) rest in
    if c == path_separator then before ∷ next else next

-- The calls that are made of a list of them: up to the first that fails.
abbrev pub tried : (Bytes → Bool) → List Bytes → List Bytes
tried mkdir [] = []
tried mkdir (path ∷ paths) =
    let rest = tried mkdir paths in if mkdir path then path ∷ rest else path ∷ []

abbrev pub all_made : (Bytes → Bool) → List Bytes → Bool
all_made mkdir [] = true
all_made mkdir (path ∷ paths) = mkdir path && all_made mkdir paths

mkdir_loop_lem :
    (mkdir : Bytes → Bool) (before rest : Bytes)
    → mkdir_loop mkdir before rest
      ≡ (all_made mkdir (parents before rest), tried mkdir (parents before rest))
unfolding mkdir_loop
mkdir_loop_lem mkdir before [] = refl
mkdir_loop_lem mkdir before (c ∷ rest) =
    let ih = mkdir_loop_lem mkdir (before ++ c ∷ []) rest in
    elim (Bool-cases (c == path_separator)) [
      | inl e ↦ elim (Bool-cases (mkdir before)) [
        | inl f ↦ rw (e, f) (ap (λ t. (t.0, before ∷ t.1)) ih)
        | inr f ↦ rw (e, f) refl
      ]
      | inr e ↦ rw (e) ih
    ]

-- The directories that `_path_mkdir` is to make: those above the target, without the root, and the
-- target when it is wanted.
abbrev above : Bytes → List Bytes
above [] = []
above (c ∷ rest) = if c == path_separator then parents (c ∷ []) rest else parents [] (c ∷ rest)

abbrev pub directories : Bytes → Bool → List Bytes
directories path make_target = above path ++ (if make_target then path ∷ [] else [])

last_lem :
    (mkdir : Bytes → Bool) (path : Bytes) (paths : List Bytes)
    → make_last mkdir path true (all_made mkdir paths, tried mkdir paths)
      ≡ (all_made mkdir (paths ++ path ∷ []), tried mkdir (paths ++ path ∷ []))
last_lem mkdir path [] = elim (Bool-cases (mkdir path)) [
  | inl e ↦ rw (e) refl
  | inr e ↦ rw (e) refl
]
last_lem mkdir path (first ∷ paths) = elim (Bool-cases (mkdir first)) [
  | inl e ↦
      let ih = last_lem mkdir path paths in
      elim (Bool-cases (all_made mkdir paths)) [
        | inl f ↦ rw (e, f) (ap (λ t. (t.0, first ∷ t.1)) (rw (f) at ih))
        | inr f ↦ rw (e, f) (ap (λ t. (t.0, first ∷ t.1)) (rw (f) at ih))
      ]
  | inr e ↦ rw (e) refl
]

loop_above :
    (mkdir : Bytes → Bool) (c : ℕ) (rest : Bytes)
    → (if c == path_separator
        then mkdir_loop mkdir (c ∷ []) rest
        else mkdir_loop mkdir [] (c ∷ rest))
      ≡ (all_made mkdir (above (c ∷ rest)), tried mkdir (above (c ∷ rest)))
loop_above mkdir c rest = elim (Bool-cases (c == path_separator)) [
  | inl e ↦ rw (e) (mkdir_loop_lem mkdir (c ∷ []) rest)
  | inr e ↦
      let same : above (c ∷ rest) ≡ parents [] (c ∷ rest) = rw (e) refl in
      let whole : (if c == path_separator
            then mkdir_loop mkdir (c ∷ []) rest
            else mkdir_loop mkdir [] (c ∷ rest))
          ≡ mkdir_loop mkdir [] (c ∷ rest) =
        rw (e) refl in
      whole
      ∙ mkdir_loop_lem mkdir [] (c ∷ rest)
      ∙ ap (λ t. (all_made mkdir t, tried mkdir t)) (sym same)
]

above-mkdir_loop :
    (mkdir : Bytes → Bool) (path : Bytes) (make_target : Bool)
    → path_mkdir mkdir path make_target
      ≡ make_last mkdir path make_target (all_made mkdir (above path), tried mkdir (above path))
unfolding path_mkdir
above-mkdir_loop mkdir [] make_target = refl
above-mkdir_loop mkdir (c ∷ rest) make_target =
    ap (make_last mkdir (c ∷ rest) make_target) (loop_above mkdir c rest)

-- `_path_mkdir` calls for the directories of the path, from the highest down to the target when it
-- is wanted, up to the first call that fails, and returns whether all of them succeeded.
pub path_mkdir_lem :
    (mkdir : Bytes → Bool) (path : Bytes) (make_target : Bool)
    → path_mkdir mkdir path make_target
      ≡ (all_made mkdir (directories path make_target), tried mkdir (directories path make_target))
path_mkdir_lem mkdir path true = above-mkdir_loop mkdir path true ∙ last_lem mkdir path (above path)
path_mkdir_lem mkdir path false =
    above-mkdir_loop mkdir path false ∙ elim (Bool-cases (all_made mkdir (above path))) [
      | inl e ↦ rw (append-nil (above path), e) refl
      | inr e ↦ rw (append-nil (above path), e) refl
    ]
