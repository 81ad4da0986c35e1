-- ===== src/Vluint/Runs.antt =====
-- Runs of the code of src/vluint/vluint.c, and the theorems at concrete inputs.
use prog_dir.Base.{◌≡◌, refl, some, [], ◌∷◌, ◌++◌, arith}
use prog_dir.Vluint.{vluint_read, vluint_write}
use prog_dir.Vluint.RoundTrip.{vluint_read-vluint_write}

write_300 : vluint_write (7 ∷ []) 300 ≡ 7 ∷ 172 ∷ 2 ∷ []
unfolding vluint_write
write_300 = refl

-- A padded form, which `vluint_write` never makes, is accepted.
read_padded :
    vluint_read (129 ∷ 0 ∷ 9 ∷ [])
    ≡ some (record { result = 1; vluint = 129 ∷ 0 ∷ []; rest = 9 ∷ [] })
unfolding vluint_read
read_padded = refl

vluint_read-vluint_write_example :
    vluint_read (vluint_write [] 300 ++ 5 ∷ [])
    ≡ some (record { result = 300; vluint = vluint_write [] 300; rest = 5 ∷ [] })
vluint_read-vluint_write_example = vluint_read-vluint_write 300 (5 ∷ []) (omega arith)
