-- ===== src/PathName.antt =====
-- src/path/path.c: joining path names, and making the directories of one. A string is the list of its
-- characters; `mkdir` is a parameter.
pub mod Join
mod Runs
use prog_dir.Base.{ℕ, Bool, true, false, ◌&&◌, List, [], ◌∷◌, ◌++◌, ◌==◌, if◌then◌else◌, Bytes}

abbrev pub path_separator : ℕ
path_separator = b'/'

-- A character stays when something does behind it, or when it is no separator.
abbrev pub trim_cons : ℕ → Bytes → Bytes
trim_cons c [] = if c == path_separator then [] else c ∷ []
trim_cons c (d ∷ rest) = c ∷ d ∷ rest

-- The first loop of `path_cat`: what is left of the first name without the separators at its end.
unfoldable pub trim_end : Bytes → Bytes
trim_end [] = []
trim_end (c ∷ a) = let rest = trim_end a in trim_cons c rest

-- The second loop: the second name without the separators at its beginning.
unfoldable pub trim_begin : Bytes → Bytes
trim_begin [] = []
trim_begin (c ∷ b) = let rest = trim_begin b in if c == path_separator then rest else c ∷ b

-- What `path_cat` prints.
unfoldable pub path_cat : Bytes → Bytes → Bytes
path_cat a b = elim (trim_end a) [
  | [] ↦ b
  | c ∷ rest ↦ (c ∷ rest) ++ (path_separator ∷ trim_begin b)
]

module _ (mkdir : Bytes → Bool) where
  -- The loop of `_path_mkdir`, with the path up to `i` and what follows: whether it got to the end,
  -- and the paths that `_mkdir` was called for.
  unfoldable pub mkdir_loop : Bytes → Bytes → Bool × List Bytes
  mkdir_loop before [] = (true, [])
  mkdir_loop before (c ∷ rest) =
      let next = mkdir_loop (before ++ c ∷ []) rest in
      if c == path_separator
      then (if mkdir before then (next.0, before ∷ next.1) else (false, before ∷ []))
      else next

  -- The target, behind the directories above it.
  abbrev pub make_last : Bytes → Bool → Bool × List Bytes → Bool × List Bytes
  make_last path make_target (ok, calls) =
      if ok && make_target then (mkdir path, calls ++ path ∷ []) else (ok, calls)

  unfoldable pub path_mkdir : Bytes → Bool → Bool × List Bytes
  path_mkdir [] make_target = make_last [] make_target (true, [])
  path_mkdir (c ∷ rest) make_target =
      make_last (c ∷ rest) make_target
        (if c == path_separator then mkdir_loop (c ∷ []) rest else mkdir_loop [] (c ∷ rest))
