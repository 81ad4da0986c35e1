-- ===== src/Dzip/Match.antt =====
-- src/dzip: repeats in the window. What `check_match` and `setup_match` find is what the decoder's
-- copying loop writes.
use prog_dir.Base.{
  ℕ, zero, suc, ◌+◌, ◌-◌, ◌%◌, ◌≤◌, ◌<◌, ◌≡◌, refl, sym, ap, ◌∙◌, inl, inr, [], ◌∷◌, ◌++◌,
  append_assoc, arith, leb, Bool-cases, Bytes, length, get_or, take, drop, length-append,
  length-take, length-drop,
}
use prog_dir.Dzip.Deflate.{check_match, setup_match, DzipDeflateState}
use prog_dir.Dzip.Inflate.{copy_match}
use prog_dir.Base.Slices.{get_or-drop, get_or-take, get_or-append, take_snoc}
use prog_dir.Dzip.Format.{u32_mod, read_le32}

-- The `count` bytes from `progress` on lie in the window, and each repeats the byte `distance`
-- before it.
pub record IsRepeat (window : Bytes) (progress distance count : ℕ) : Type 0 where
  pub distance_pos : 0 < distance
  pub distance_le : distance ≤ progress
  pub inside : progress + count ≤ length window
  pub repeats :
      (k : ℕ)
      → k < count
      → get_or window (progress + k) 0 ≡ get_or window (progress - distance + k) 0

check_match-le : (scan back : Bytes) → check_match scan back ≤ length scan
unfolding check_match
check_match-le [] back = omega arith
check_match-le (x ∷ scan) [] = omega arith
check_match-le (x ∷ scan) (y ∷ back) = ground (arith, check_match-le scan back)

check_match_sound :
    (scan back : Bytes) (k : ℕ) → k < check_match scan back → get_or scan k 0 ≡ get_or back k 0
unfolding check_match
check_match_sound [] back k h = absurd (omega arith)
check_match_sound (x ∷ scan) [] k h = absurd (omega arith)
check_match_sound (x ∷ scan) (y ∷ back) zero h = ground arith
check_match_sound (x ∷ scan) (y ∷ back) (suc k) h = ground (arith, check_match_sound scan back k)

check_match-IsRepeat :
    (window : Bytes) (progress distance : ℕ)
    → 0 < distance
    → distance ≤ progress
    → progress < length window
    → IsRepeat window progress distance
        (check_match (drop progress window) (drop (progress - distance) window))
check_match-IsRepeat window p d pos le lt =
    let scan = drop p window in
    let back = drop (p - d) window in
    record {
      distance_pos = pos;
      distance_le = le;
      inside = omega (arith, check_match-le scan back, length-drop p window);
      repeats = λ k h.
          sym (get_or-drop p k window 0)
          ∙ check_match_sound scan back k h
          ∙ get_or-drop (p - d) k window 0;
    }

-- A state that `setup_match` leaves, with the loop's counters as they were.
pub record IsSetUp (window : Bytes) (s t : DzipDeflateState) : Type 0 where
  pub progress : t.window_progress ≡ s.window_progress
  pub literal : t.literal_begin ≡ s.literal_begin
  pub found : 0 < t.match_length → IsRepeat window s.window_progress t.match_distance t.match_length

-- Whatever the table of recent positions holds, a match that `setup_match` reports is one.
pub setup_match-IsSetUp :
    (s : DzipDeflateState) (window : Bytes)
    → s.window_progress < length window
    → length window < u32_mod
    → IsSetUp window s (setup_match s window)
unfolding setup_match
setup_match-IsSetUp s window lt small =
    let slot = read_le32 (drop s.window_progress window) % 16963 in
    elim (Bool-cases (leb s.window_progress (s.recent slot))) [
      | inl newer ↦
          rw newer (record { progress = refl; literal = refl; found = λ h. absurd (omega arith) })
      | inr older ↦
          let distance = s.window_progress - s.recent slot in
          let back = drop (s.window_progress - distance) window in
          let scan = drop s.window_progress window in
          let found =
            check_match-IsRepeat window s.window_progress distance (ground arith) (omega arith)
              lt in
          let fits : check_match scan back % u32_mod ≡ check_match scan back =
            omega (arith, found.inside) in
          rw older (record { progress = refl; literal = refl; found = λ _. rw fits found })
    ]

copy_match-suc :
    (count distance : ℕ) (output : Bytes)
    → copy_match (suc count) distance output
      ≡ copy_match count distance (output ++ get_or output (length output - distance) 0 ∷ [])
unfolding copy_match
copy_match-suc count distance output = refl

IsRepeat-next :
    (window : Bytes) (progress distance count : ℕ)
    → IsRepeat window progress distance (suc count)
    → IsRepeat window (suc progress) distance count
IsRepeat-next window p d n r = record {
  distance_pos = r.distance_pos;
  distance_le = omega arith;
  inside = omega arith;
  repeats = λ k h.
      ap (λ t. get_or window t 0) (the_next k)
      ∙ r.repeats (suc k) (omega arith)
      ∙ ap (λ t. get_or window t 0) (the_source k);
}
  where
    the_next : (k : ℕ) → suc p + k ≡ p + suc k
    the_next k = omega arith

    the_source : (k : ℕ) → p - d + suc k ≡ suc p - d + k
    the_source k = omega (arith, r.distance_le)

-- The byte that the copying loop takes, on an output that ends with the window up to `progress`.
copied_byte :
    (window base : Bytes) (progress distance count : ℕ)
    → IsRepeat window progress distance (suc count)
    → get_or (base ++ take progress window) (length (base ++ take progress window) - distance) 0
      ≡ get_or window progress 0
copied_byte window base p d n r =
    ap (λ t. get_or (base ++ take p window) t 0) place
    ∙ get_or-append base (take p window) (p - d) 0
    ∙ get_or-take (p - d) p window 0 (omega (arith, r.distance_le, r.distance_pos))
    ∙ ap (λ t. get_or window t 0) source
    ∙ sym (r.repeats 0 (omega arith))
    ∙ ap (λ t. get_or window t 0) target
  where
    place : length (base ++ take p window) - d ≡ length base + (p - d)
    place =
        omega
          (arith, length-append base (take p window), length-take p window, r.distance_le, r.inside)

    source : p - d ≡ p - d + 0
    source = omega arith

    target : p + 0 ≡ p
    target = omega arith

-- The copying loop of the decoder appends exactly the repeated bytes of the window.
pub copy_match-IsRepeat :
    (window base : Bytes) (progress distance count : ℕ)
    → IsRepeat window progress distance count
    → copy_match count distance (base ++ take progress window)
      ≡ base ++ take (progress + count) window
copy_match-IsRepeat window base p d zero r =
    unfold copy_match in ap (λ t. base ++ take t window) (omega arith)
copy_match-IsRepeat window base p d (suc n) r =
    copy_match-suc n d (base ++ take p window)
    ∙ ap (copy_match n d) grown
    ∙ copy_match-IsRepeat window base (suc p) d n (IsRepeat-next window p d n r)
    ∙ ap (λ t. base ++ take t window) count
  where
    grown :
        (base ++ take p window)
          ++ get_or (base ++ take p window) (length (base ++ take p window) - d) 0 ∷ []
        ≡ base ++ take (suc p) window
    grown = rw (copied_byte window base p d n r) (
        append_assoc base (take p window) (get_or window p 0 ∷ [])
        ∙ ap (◌++◌ base) (sym (take_snoc p window 0 (omega (arith, r.inside)))))

    count : suc p + n ≡ p + suc n
    count = omega arith
