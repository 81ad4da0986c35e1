-- ===== src/Tar/States.antt =====
-- src/tar/read.c: the states that an update can end in.
use prog_dir.Base.{
  ℕ, ◌-◌, ◌≡◌, refl, ◌⊎◌, inl, inr, Bool, true, false, ◌||◌, Option, none, some, ltb, ◌==◌,
  if◌then◌else◌, ◌>>=◌, Bytes, length, get_or,
}
use prog_dir.Tar.{
  TarState, tar_error, tar_dir, tar_file, tar_symlink, tar_end, lnktype, tar_block_size, regtype,
  symtype, dirtype, gnutype_longlink, gnutype_longname, tar_longname, tar_longlink,
}
use prog_dir.Tar.Read.{
  TarUpdate, read_mode, tar_get_size, tar_get_mode, block_is_zero, not_ready, is_link, read_size,
  read_item, read_header, long_part, tar_update_mem, record_mem,
}
use mathlib.Core.Path.{subst}

-- An item that is ready.
abbrev pub IsItemType : ℕ → Type 0
IsItemType type = (type ≡ tar_file) ⊎ ((type ≡ tar_dir) ⊎ ((type ≡ tar_symlink) ⊎ (type ≡ lnktype)))

abbrev pub IsOutcome : TarUpdate → Type 0
IsOutcome u =
    ((u.success ≡ false)
      × (u.state.ready ≡ true)
      × ((u.state.type ≡ tar_error) ⊎ (u.state.type ≡ tar_end)))
    ⊎ (((u.success ≡ true) × (u.state.ready ≡ true) × IsItemType u.state.type)
        ⊎ ((u.success ≡ true) × (u.state.ready ≡ false)))

if_IsOutcome :
    (b : Bool) (u v : TarUpdate) → IsOutcome u → IsOutcome v → IsOutcome (if b then u else v)
if_IsOutcome true u v h k = h
if_IsOutcome false u v h k = k

read_mode-IsOutcome : (s : TarState) (mem : Bytes) → IsItemType s.type → IsOutcome (read_mode s mem)
unfolding read_mode
read_mode-IsOutcome s mem h =
    if_IsOutcome (s.type == tar_file || (s.type == tar_dir || is_link s.type)) _ _
      (if_IsOutcome (tar_get_mode mem).1 _ _ (inr (inl (refl, refl, h)))
        (inl (refl, refl, inl refl)))
      (inr (inl (refl, refl, h)))

read_size-IsOutcome : (s : TarState) (mem : Bytes) → IsItemType s.type → IsOutcome (read_size s mem)
unfolding read_size
read_size-IsOutcome s mem h =
    if_IsOutcome (s.type == tar_file) _ _
      (if_IsOutcome (tar_get_size s.size mem).1 _ _ (read_mode-IsOutcome _ mem h)
        (inl (refl, refl, inl refl)))
      (read_mode-IsOutcome s mem h)

read_item-IsOutcome :
    (longname longlink : Bool) (s : TarState) (mem : Bytes)
    → IsItemType s.type
    → IsOutcome (read_item longname longlink s mem)
unfolding read_item
read_item-IsOutcome true true s mem h =
    if_IsOutcome (is_link s.type) _ _ (read_size-IsOutcome s mem h) (inl (refl, refl, inl refl))
read_item-IsOutcome true false s mem h =
    if_IsOutcome (is_link s.type) _ _ (read_size-IsOutcome _ mem h) (read_size-IsOutcome s mem h)
read_item-IsOutcome false true s mem h =
    if_IsOutcome (is_link s.type) _ _ (read_size-IsOutcome _ mem h) (inl (refl, refl, inl refl))
read_item-IsOutcome false false s mem h =
    if_IsOutcome (is_link s.type) _ _ (read_size-IsOutcome _ mem h) (read_size-IsOutcome _ mem h)

read_header-IsOutcome :
    (longname longlink : Bool) (s : TarState) (mem : Bytes)
    → IsOutcome (read_header longname longlink s mem)
unfolding read_header
read_header-IsOutcome longname longlink s mem =
    let flag = get_or mem 156 0 in
    if_IsOutcome (ltb (length mem) tar_block_size) _ _ (inr (inr (refl, refl))) (
      if_IsOutcome (block_is_zero 64 mem) _ _
        (if_IsOutcome (s.type == tar_end) _ _ (inl (refl, refl, inr refl)) (inr (inr (refl, refl))))
        (if_IsOutcome (flag == regtype) _ _ (read_item-IsOutcome longname longlink _ mem (inl refl))
          (if_IsOutcome (flag == dirtype) _ _
            (read_item-IsOutcome longname longlink _ mem (inr (inl refl)))
            (if_IsOutcome (flag == symtype) _ _
              (read_item-IsOutcome longname longlink _ mem (inr (inr (inl refl))))
              (if_IsOutcome (flag == lnktype) _ _
                (read_item-IsOutcome longname longlink _ mem (inr (inr (inr refl))))
                (if_IsOutcome (flag == gnutype_longname) _ _ (inr (inr (refl, refl))) (
                  if_IsOutcome (flag == gnutype_longlink) _ _ (inr (inr (refl, refl)))
                    (inl (refl, refl, inl refl)))))))))

-- The copy of a negative size, or an outcome.
abbrev pub Updates : Option TarUpdate → Type 0
Updates none = Unit
Updates (some u) = IsOutcome u

if_Updates :
    (b : Bool) (u v : Option TarUpdate) → Updates u → Updates v → Updates (if b then u else v)
if_Updates true u v h k = h
if_Updates false u v h k = k

recorded-Updates :
    (recorded : Option (Bytes × Bytes)) (f : Bytes × Bytes → TarUpdate)
    → ((p : Bytes × Bytes) → IsOutcome (f p))
    → Updates (recorded >>= λ p. some (f p))
recorded-Updates none f h = tt
recorded-Updates (some p) f h = h p

long_part-Updates :
    (s : TarState) (path : Bytes) (with_path : Bytes → TarState) (mem : Bytes) (next : TarUpdate)
    → IsOutcome next
    → Updates (long_part s path with_path mem next)
long_part-Updates s path with_path mem next h =
    if_Updates (ltb (length path) s.size) _ _
      (recorded-Updates (record_mem path mem (s.size - length path))
        (λ p. not_ready (with_path p.0) p.1) (λ p. inr (inr (refl, refl))))
      (if_Updates (length path == s.size) _ _ h (inl (refl, refl, inl refl)))

tar_update_mem-Updates : (s : TarState) (mem : Bytes) → Updates (tar_update_mem s mem)
unfolding tar_update_mem
tar_update_mem-Updates old mem =
    let s = record old { ready = false } in
    if_Updates (s.type == tar_longname) _ _
      (long_part-Updates s s.path (λ path. record s { path = path }) mem
        (read_header true false s mem) (read_header-IsOutcome true false s mem))
      (if_Updates (s.type == tar_longlink) _ _
        (long_part-Updates s s.link_path (λ path. record s { link_path = path }) mem
          (read_header false true s mem) (read_header-IsOutcome false true s mem))
        (read_header-IsOutcome false false s mem))

-- An update fails with the type of an error or of an end, or gives a file, a directory, a symbolic link
-- or the flag character of a hard link, and never `TAR_HARDLINK`; otherwise it is not ready.
pub tar_update_mem-IsOutcome :
    (s : TarState) (mem : Bytes) (u : TarUpdate) → tar_update_mem s mem ≡ some u → IsOutcome u
tar_update_mem-IsOutcome s mem u h = subst Updates h (tar_update_mem-Updates s mem)
