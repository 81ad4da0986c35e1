-- ===== src/Base/Text.antt =====
-- Literal texts as the bytes of C strings, and switches over constants as tables.
use Prim.Native.Char.{code}
use Prim.Native.Nat.{ℕ}
use mathlib.Core.Path.{◌≡◌, refl}
use mathlib.Core.Logic.{◌≢◌}
use Prim.Native.String.{String}
use mathlib.Core.List.{List, [], ◌∷◌, ◌++◌}
use prog_dir.Base.Tests.{◌==◌, if◌then◌else◌, bytes_eq}
use native.Mathlib.Omega.{arith}
use prog_dir.Base.Lists.{Bytes, All}

-- The bytes of an ASCII text.
abbrev pub codes : String → Bytes
codes String.[] = []
codes (String.◌∷◌ c s) = code c ∷ codes s

-- A switch whose cases return constants, with what `default` returns.
abbrev pub switch {ℓ} : {A : Type ℓ} → ℕ → List (ℕ × A) → A → A
switch c [] default = default
switch c ((k, a) ∷ cases) default = let rest = switch c cases default in if c == k then a else rest

-- A loop over a table of names and ids, with what follows the loop.
abbrev pub find_name : Bytes → List (Bytes × ℕ) → ℕ → ℕ
find_name name [] default = default
find_name name ((n, id) ∷ table) default =
    let rest = find_name name table default in if bytes_eq n name then id else rest

-- A C string: what is in front of the first null byte.
unfoldable pub c_string : Bytes → Bytes
c_string [] = []
c_string (c ∷ text) = let rest = c_string text in if c == 0 then [] else c ∷ rest

pub c_string-append :
    (text rest : Bytes) → All (λ c. c ≢ 0) text → c_string (text ++ (0 ∷ rest)) ≡ text
unfolding c_string
c_string-append [] rest h = refl
c_string-append (c ∷ text) rest (n, h) = ground (arith, c_string-append text rest h)
