-- ===== src/PathName/Runs.antt =====
-- Runs of the functions of src/path.
use prog_dir.Base.{◌≡◌, refl, Bool, true, false, [], ◌∷◌, ltb, Bytes, length, codes}
use prog_dir.PathName.{path_cat, trim_end, trim_begin, mkdir_loop, path_mkdir}
use prog_dir.PathName.Join.{parts, parts-path_cat}

cat_run : path_cat (codes "usr//") (codes "/lib") ≡ codes "usr/lib"
unfolding path_cat trim_end trim_begin
cat_run = refl

-- The root is lost.
cat_root : path_cat (codes "/") (codes "etc") ≡ codes "etc"
unfolding path_cat trim_end trim_begin
cat_root = refl

-- A `mkdir` that knows only short names.
abbrev short_names : Bytes → Bool
short_names path = ltb (length path) 4

mkdir_run : path_mkdir short_names (codes "/a/b/c/d") true ≡ (false, codes "/a" ∷ codes "/a/b" ∷ [])
unfolding path_mkdir mkdir_loop
mkdir_run = refl

parts-path_cat_example :
    parts (path_cat (codes "usr//") (codes "/lib")) ≡ codes "usr" ∷ codes "lib" ∷ []
parts-path_cat_example = parts-path_cat (codes "usr//") (codes "/lib")
