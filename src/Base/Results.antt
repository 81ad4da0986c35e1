-- ===== src/Base/Results.antt =====
-- How a function that reads a text ends.
use mathlib.Core.Path.{◌≡◌, refl}
use mathlib.Core.Bool.{Bool, true, false}
use prog_dir.Base.Tests.{if◌then◌else◌}

-- `failed` is false or the null pointer; `overrun` has read the byte behind the text; `out_of_fuel`
-- stands for nothing in the program.
pub data Result {ℓ} (A : Type ℓ) : Type ℓ where
  ok : A → Result A
  failed overrun out_of_fuel : Result A

abbrev pub bind {ℓ κ} : {A : Type ℓ} {B : Type κ} → Result A → (A → Result B) → Result B
bind (ok a) f = f a
bind failed f = failed
bind overrun f = overrun
bind out_of_fuel f = out_of_fuel

-- The fuel was enough, and `P` holds of the value when there is one.
abbrev pub Ends {ℓ} : {A : Type ℓ} → (A → Type 0) → Result A → Type 0
Ends P (ok a) = P a
Ends P failed = Unit
Ends P overrun = Unit
Ends P out_of_fuel = ⊥

pub bind-Ends {ℓ κ} :
    {A : Type ℓ} {B : Type κ} (Before : A → Type 0) (After : B → Type 0) (read : Result A)
    (next : A → Result B)
    → Ends Before read
    → ((value : A) → Before value → Ends After (next value))
    → Ends After (bind read next)
bind-Ends Before After (ok a) next h k = k a h
bind-Ends Before After failed next h k = tt
bind-Ends Before After overrun next h k = tt
bind-Ends Before After out_of_fuel next h k = h

pub if-Ends {ℓ} :
    {A : Type ℓ} (P : A → Type 0) (b : Bool) (x y : Result A)
    → (b ≡ true → Ends P x)
    → (b ≡ false → Ends P y)
    → Ends P (if b then x else y)
if-Ends P true x y hx hy = hx refl
if-Ends P false x y hx hy = hy refl
