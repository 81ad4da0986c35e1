-- ===== src/Libc/Compare.antt =====
-- src/libc/strcmp: what the comparison says.
use prog_dir.Base.{
  ℕ, ◌≡◌, refl, sym, ◌≢◌, ◌↔◌, inl, inr, [], ◌∷◌, ◌==◌, Bool-cases, eq_of_test, ne_of_test, Bytes,
  All,
}
use prog_dir.Libc.{strcmp}

head_of : (c d : ℕ) (s t : Bytes) → c ∷ s ≡ d ∷ t → c ≡ d
head_of c d s t h = cc

tail_of : (c d : ℕ) (s t : Bytes) → c ∷ s ≡ d ∷ t → s ≡ t
tail_of c d s t h = cc

-- Two strings without null bytes compare as equal exactly when they are the same.
pub strcmp_lem :
    (s t : Bytes)
    → All (λ c. c ≢ 0) s
    → All (λ c. c ≢ 0) t
    → ((strcmp s t).0 ≡ (strcmp s t).1) ↔ (s ≡ t)
unfolding strcmp
strcmp_lem [] [] p q = (λ h. refl, λ h. refl)
strcmp_lem [] (d ∷ t) p (n, q) = (λ h. absurd (n (sym h)), λ h. cc)
strcmp_lem (c ∷ s) [] (m, p) q = (λ h. absurd (m h), λ h. cc)
strcmp_lem (c ∷ s) (d ∷ t) (m, p) (n, q) = elim (Bool-cases (c == d)) [
  | inl e ↦
      let same : c ≡ d = eq_of_test c d e in
      let (there, back) = strcmp_lem s t p q in
      (rw e (λ h. cc (same, there h), λ h. back (tail_of c d s t h)))
  | inr e ↦
      (rw e (λ h. absurd (ne_of_test c d e h), λ h. absurd (ne_of_test c d e (head_of c d s t h))))
]
