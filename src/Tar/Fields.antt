-- ===== src/Tar/Fields.antt =====
-- src/tar/internal/spec.h: where the fields of a header stand.
use prog_dir.Base.{
  ℕ, ◌+◌, ◌-◌, ◌≤◌, ◌≡◌, sym, ap, ◌∙◌, ◌∷◌, ◌++◌, append_assoc, arith, Bytes, length, get_or, drop,
  replicate, length-replicate, length-append,
}
use prog_dir.Base.Slices.{drop-append_add, get_or-drop, drop-drop}
use prog_dir.Tar.Write.{PosixHeader, field, header_tail, header_block}
use mathlib.Core.Path.{subst}

-- The sizes of `struct posix_header`.
pub record IsHeader (h : PosixHeader) : Type 0 where
  pub length_name : length h.name ≡ 100
  pub length_mode : length h.mode ≡ 8
  pub length_uid : length h.uid ≡ 8
  pub length_gid : length h.gid ≡ 8
  pub length_size : length h.size ≡ 12
  pub length_mtime : length h.mtime ≡ 12
  pub length_chksum : length h.chksum ≡ 8
  pub length_linkname : length h.linkname ≡ 100
  pub length_uname : length h.uname ≡ 32
  pub length_gname : length h.gname ≡ 32
  pub length_spare : length h.spare ≡ 12

drop_past : (n m : ℕ) (xs ys : Bytes) → length xs ≡ n → drop (n + m) (xs ++ ys) ≡ drop m ys
drop_past n m xs ys e = subst (λ k. drop (k + m) (xs ++ ys) ≡ drop m ys) e (drop-append_add xs ys m)

pub length-field : (size : ℕ) (text : Bytes) → length text ≤ size → length (field size text) ≡ size
length-field size text h =
    length-append text (replicate (size - length text) 0)
    ∙ omega (arith, length-replicate {A = ℕ} (size - length text) 0)

-- The fields in front of another text.
abbrev pub fields : PosixHeader → Bytes → Bytes
fields h rest =
    h.name
    ++ (h.mode
        ++ (h.uid
            ++ (h.gid
                ++ (h.size
                    ++ (h.mtime
                        ++ (h.chksum ++ (h.typeflag ∷ (h.linkname ++ (header_tail h ++ rest)))))))))

pub header_block-append : (h : PosixHeader) (rest : Bytes) → header_block h ++ rest ≡ fields h rest
unfolding header_block
header_block-append h rest = simp append_assoc

-- What stands at an offset of the header.
module _ (h : PosixHeader) (wf : IsHeader h) (rest : Bytes) where
  abbrev At : ℕ → Bytes → Type 0
  At offset text = (tail : Bytes) × (drop offset (fields h rest) ≡ text ++ tail)

  pub mode-At : At 100 h.mode
  mode-At = (_, drop_past 100 0 h.name _ wf.length_name)

  pub size-At : At 124 h.size
  size-At = (
    _,
    drop_past 100 24 h.name _ wf.length_name
        ∙ drop_past 8 16 h.mode _ wf.length_mode
        ∙ drop_past 8 8 h.uid _ wf.length_uid
        ∙ drop_past 8 0 h.gid _ wf.length_gid,
  )

  flag_at : drop 156 (fields h rest) ≡ h.typeflag ∷ (h.linkname ++ (header_tail h ++ rest))
  flag_at =
      drop_past 100 56 h.name _ wf.length_name
      ∙ drop_past 8 48 h.mode _ wf.length_mode
      ∙ drop_past 8 40 h.uid _ wf.length_uid
      ∙ drop_past 8 32 h.gid _ wf.length_gid
      ∙ drop_past 12 20 h.size _ wf.length_size
      ∙ drop_past 12 8 h.mtime _ wf.length_mtime
      ∙ drop_past 8 0 h.chksum _ wf.length_chksum

  pub typeflag_at : get_or (fields h rest) 156 0 ≡ h.typeflag
  typeflag_at = sym (get_or-drop 156 0 (fields h rest) 0) ∙ ap (λ t. get_or t 0 0) flag_at

  pub linkname-At : At 157 h.linkname
  linkname-At = (_, sym (drop-drop 1 156 (fields h rest)) ∙ ap (drop 1) flag_at)

  length-header_tail : length (header_tail h) ≡ 255
  unfolding header_tail
  length-header_tail = omega (
    arith,
    length-append h.uname (h.gname ++ (replicate 171 0 ++ h.spare)),
    length-append h.gname (replicate 171 0 ++ h.spare),
    length-append (replicate 171 0) h.spare,
    wf.length_spare,
    wf.length_uname,
    wf.length_gname,
  )

  pub length-header_block : length (header_block h) ≡ 512
  unfolding header_block
  length-header_block = omega (
    arith,
    length-append h.name (
        h.mode
        ++ (h.uid
            ++ (h.gid
                ++ (h.size
                    ++ (h.mtime ++ (h.chksum ++ (h.typeflag ∷ (h.linkname ++ header_tail h)))))))),
    length-append h.mode (
        h.uid
        ++ (h.gid
            ++ (h.size
                ++ (h.mtime ++ (h.chksum ++ (h.typeflag ∷ (h.linkname ++ header_tail h))))))),
    length-append h.uid (
        h.gid
        ++ (h.size ++ (h.mtime ++ (h.chksum ++ (h.typeflag ∷ (h.linkname ++ header_tail h)))))),
    length-append h.gid
        (h.size ++ (h.mtime ++ (h.chksum ++ (h.typeflag ∷ (h.linkname ++ header_tail h))))),
    length-append h.size (h.mtime ++ (h.chksum ++ (h.typeflag ∷ (h.linkname ++ header_tail h)))),
    length-append h.mtime (h.chksum ++ (h.typeflag ∷ (h.linkname ++ header_tail h))),
    length-append h.chksum (h.typeflag ∷ (h.linkname ++ header_tail h)),
    length-append h.linkname (header_tail h),
    length-header_tail,
    wf.length_name,
    wf.length_mode,
    wf.length_uid,
    wf.length_gid,
    wf.length_size,
    wf.length_mtime,
    wf.length_chksum,
    wf.length_linkname,
  )
