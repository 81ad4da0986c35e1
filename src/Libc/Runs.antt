-- ===== src/Libc/Runs.antt =====
-- Runs of src/libc/, and instances of the theorems about it.
use prog_dir.Base.{◌≡◌, refl, some, [], ◌∷◌, arith, Bytes, codes}
use prog_dir.Libc.{memcpy, copy_loop, strncpy}
use prog_dir.Libc.Copy.{memcpy_lem, strncpy_lem}

abbrev digits : Bytes
digits = codes "0123456789abcdef"

memcpy_lem_example : memcpy 5 (codes "abcdefghijkl") digits 11 ≡ codes "0123456789al"
memcpy_lem_example = memcpy_lem 5 (codes "abcdefghijkl") digits 11 (omega arith)

strncpy_lem_example :
    strncpy 1 (codes "xxxxxx") (codes "ab") 4 ≡ some (97 ∷ 98 ∷ 0 ∷ 0 ∷ 120 ∷ 120 ∷ [])
strncpy_lem_example = strncpy_lem 1 (codes "xxxxxx") (codes "ab") 4 (omega arith) (omega arith)

-- A source longer than the size that is given is copied as a whole.
too_long : strncpy 0 (codes "xxxxxx") (codes "abcd") 2 ≡ some (codes "abcdxx")
unfolding strncpy memcpy copy_loop
too_long = refl
