-- ===== src/Download/Extraction.antt =====
-- internal/ipadl/download.go: what `copyToFile` and `extractKernelInitramfs` leave at the two paths.
use mathlib.Core.Path.{subst}
use auto_pxe.Prelude.{
  ℕ, ◌≡◌, refl, sym, ap, ◌∙◌, ◌≢◌, ◌⊎◌, inl, inr, arith, Bool, true, false, ◌&&◌, none, some, List,
  [], ◌∷◌, ◌++◌, if◌then◌else◌, Text, codes, length, text_eq, text_beq, text_beq_iff, lookup,
  lookup-insert_ne, lookup-insert_self, lookup-delete_ne, delete, Bool-cases, All, base,
}
use auto_pxe.Download
use auto_pxe.Download.{
  Files, file_exists, Copying, uncreated, broken, unrenamed, copied, part, copy_to_file,
  download_file, Entry, Archive, Progress, Turn, next, complete, failed, Wanted, checked_turn,
  copied_turn, turn, Extracted, finish, extract_entries, extract, tarball_path, wanted, cached,
  opened, Ensured, Environment, extract_cached, extract_failure, ensure_artifacts, Fetch,
  unanswered, answered, tarball_url,
}

length-ne : (s t : Text) (c : ℕ) → length s ≢ length (s ++ c ∷ t)
length-ne [] t c e = omega arith
length-ne (x ∷ s) t c e = length-ne s t c (omega arith)

ne-part : (s : Text) → s ≢ part s
ne-part s e = length-ne s (codes "part") b'.' (ap length e)

-- Another file, that is not the temporary one either, stays as it is.
pub copy_to_file-other :
    (copying : Copying) (content dest : Text) (fs : Files) (p : Text)
    → p ≢ dest
    → p ≢ part dest
    → lookup p (copy_to_file copying content dest fs).0 ≡ lookup p fs
unfolding copy_to_file
copy_to_file-other uncreated content dest fs p a b = refl
copy_to_file-other (broken written true) content dest fs p a b =
    lookup-delete_ne (part dest) p fs (λ e. b (sym e))
copy_to_file-other (broken written false) content dest fs p a b =
    lookup-insert_ne (part dest) p written fs (λ e. b (sym e))
copy_to_file-other unrenamed content dest fs p a b =
    lookup-insert_ne (part dest) p content fs (λ e. b (sym e))
copy_to_file-other copied content dest fs p a b =
    lookup-insert_ne dest p content (delete (part dest) fs) (λ e. a (sym e))
    ∙ lookup-delete_ne (part dest) p fs (λ e. b (sym e))

-- The file itself is written whole, or not at all.
copy_to_file_self :
    (copying : Copying) (content dest : Text) (fs : Files)
    → let r = copy_to_file copying content dest fs in
      lookup dest r.0 ≡ (if r.1 then some content else lookup dest fs)
unfolding copy_to_file
copy_to_file_self uncreated content dest fs = refl
copy_to_file_self (broken written true) content dest fs =
    lookup-delete_ne (part dest) dest fs (λ e. ne-part dest (sym e))
copy_to_file_self (broken written false) content dest fs =
    lookup-insert_ne (part dest) dest written fs (λ e. ne-part dest (sym e))
copy_to_file_self unrenamed content dest fs =
    lookup-insert_ne (part dest) dest content fs (λ e. ne-part dest (sym e))
copy_to_file_self copied content dest fs = lookup-insert_self dest content (delete (part dest) fs)

-- The four paths do not get into each other's way.
pub record IsApart (w : Wanted) : Type 0 where
  pub dests : w.kernel_dest ≢ w.initramfs_dest
  pub kernel_part : w.kernel_dest ≢ part w.initramfs_dest
  pub initramfs_part : w.initramfs_dest ≢ part w.kernel_dest

-- The content that a name in the tarball may stand for.
module _ (P : Text → Text → Type 0) where
  abbrev pub Written : Text → Text → Files → Type 0
  Written want dest fs = (c : Text) × (lookup dest fs ≡ some c) × P want c

  abbrev pub Kept : Text → Text → Files → Files → Type 0
  Kept want dest before fs = (lookup dest fs ≡ lookup dest before) ⊎ Written want dest fs

  Written-same :
      (want dest : Text) (fs gs : Files)
      → lookup dest gs ≡ lookup dest fs
      → Written want dest fs
      → Written want dest gs
  Written-same want dest fs gs e (c, at, p) = (c, e ∙ at, p)

  Kept-same :
      (want dest : Text) (before fs gs : Files)
      → lookup dest gs ≡ lookup dest fs
      → Kept want dest before fs
      → Kept want dest before gs
  Kept-same want dest before fs gs e (inl k) = inl (e ∙ k)
  Kept-same want dest before fs gs e (inr w) = inr (Written-same want dest fs gs e w)

  module _ (w : Wanted) (before : Files) (apart : IsApart w) where
    -- Both files are as before, or written.
    pub record Sound (fs : Files) : Type 0 where
      pub kernel : Kept w.kernel w.kernel_dest before fs
      pub initramfs : Kept w.initramfs w.initramfs_dest before fs

    pub record Going (s : Progress) : Type 0 where
      pub sound : Sound s.files
      pub kernel_written : s.got_kernel ≡ true → Written w.kernel w.kernel_dest s.files
      pub initramfs_written : s.got_initramfs ≡ true → Written w.initramfs w.initramfs_dest s.files

    abbrev OnTurn : Turn → Type 0
    OnTurn (next s) = Going s
    OnTurn (complete s) = Going s
    OnTurn (failed fs) = Sound fs

    checked_turn-OnTurn : (s : Progress) → Going s → OnTurn (checked_turn s)
    unfolding checked_turn
    checked_turn-OnTurn s g = elim (Bool-cases (s.got_kernel && s.got_initramfs)) [
      | inl e ↦ rw e g
      | inr e ↦ rw e g
    ]

    copied_turn-OnTurn :
        (r : Files × Bool) (arrived : Files → Progress)
        → Sound r.0
        → (r.1 ≡ true → Going (arrived r.0))
        → OnTurn (copied_turn r arrived)
    unfolding copied_turn
    copied_turn-OnTurn (fs, true) arrived h g = checked_turn-OnTurn (arrived fs) (g refl)
    copied_turn-OnTurn (fs, false) arrived h g = h

    copied_self :
        (want dest : Text) (c : Copying) (content : Text) (fs : Files)
        → P want content
        → (copy_to_file c content dest fs).1 ≡ true
        → Written want dest (copy_to_file c content dest fs).0
    copied_self want dest c content fs p e =
        (content, ground (arith, copy_to_file_self c content dest fs), p)

    kept_self :
        (want dest : Text) (c : Copying) (content : Text) (fs : Files)
        → P want content
        → Kept want dest before fs
        → Kept want dest before (copy_to_file c content dest fs).0
    kept_self want dest c content fs p k = elim (Bool-cases (copy_to_file c content dest fs).1) [
      | inl ok ↦ inr (copied_self want dest c content fs p ok)
      | inr bad ↦
          Kept-same want dest before fs _ (ground (arith, copy_to_file_self c content dest fs)) k
    ]

    kernel_turn :
        (e : Entry) (s : Progress)
        → P w.kernel e.content
        → Going s
        → OnTurn (
            copied_turn
              (copy_to_file e.copying e.content w.kernel_dest s.files)
              (λ fs. record s { files = fs; got_kernel = true }))
    kernel_turn e s p g =
        let r : Files × Bool = copy_to_file e.copying e.content w.kernel_dest s.files in
        let same : lookup w.initramfs_dest r.0 ≡ lookup w.initramfs_dest s.files =
          copy_to_file-other e.copying e.content w.kernel_dest s.files w.initramfs_dest
            (λ q. apart.dests (sym q)) apart.initramfs_part in
        let sound : Sound r.0 = record {
          kernel = kept_self w.kernel w.kernel_dest e.copying e.content s.files p g.sound.kernel;
          initramfs =
              Kept-same w.initramfs w.initramfs_dest before s.files r.0 same g.sound.initramfs;
        } in
        copied_turn-OnTurn r _ sound (λ ok. record {
          sound = sound;
          kernel_written = λ _. copied_self w.kernel w.kernel_dest e.copying e.content s.files p ok;
          initramfs_written = λ h.
              Written-same w.initramfs w.initramfs_dest s.files r.0 same (g.initramfs_written h);
        })

    initramfs_turn :
        (e : Entry) (s : Progress)
        → P w.initramfs e.content
        → Going s
        → OnTurn (
            copied_turn
              (copy_to_file e.copying e.content w.initramfs_dest s.files)
              (λ fs. record s { files = fs; got_initramfs = true }))
    initramfs_turn e s p g =
        let r : Files × Bool = copy_to_file e.copying e.content w.initramfs_dest s.files in
        let same : lookup w.kernel_dest r.0 ≡ lookup w.kernel_dest s.files =
          copy_to_file-other e.copying e.content w.initramfs_dest s.files w.kernel_dest apart.dests
            apart.kernel_part in
        let sound : Sound r.0 = record {
          kernel = Kept-same w.kernel w.kernel_dest before s.files r.0 same g.sound.kernel;
          initramfs =
              kept_self w.initramfs w.initramfs_dest e.copying e.content s.files p
                g.sound.initramfs;
        } in
        copied_turn-OnTurn r _ sound (λ ok. record {
          sound = sound;
          kernel_written =
              λ h. Written-same w.kernel w.kernel_dest s.files r.0 same (g.kernel_written h);
          initramfs_written =
              λ _. copied_self w.initramfs w.initramfs_dest e.copying e.content s.files p ok;
        })

    turn-OnTurn :
        (e : Entry) (s : Progress)
        → (e.is_regular ≡ true → P (base e.name) e.content)
        → Going s
        → OnTurn (turn w e s)
    unfolding turn
    turn-OnTurn e s p g = elim (Bool-cases e.is_regular) [
      | inr other ↦ simp other g
      | inl regular ↦ elim (Bool-cases (text_beq (base e.name) w.kernel)) [
        | inl k ↦
            simp (regular, k)
              (kernel_turn e s (subst (λ t. P t e.content) ((text_beq_iff _ _).0 k) (p regular)) g)
        | inr nk ↦ elim (Bool-cases (text_beq (base e.name) w.initramfs)) [
          | inl k ↦
              simp (regular, nk, k)
                (initramfs_turn e s
                  (subst (λ t. P t e.content) ((text_beq_iff _ _).0 k) (p regular)) g)
          | inr ni ↦ simp (regular, nk, ni) (checked_turn-OnTurn s g)
        ]
      ]
    ]

    -- What an extraction leaves, with an error or without.
    pub record OnExtracted (r : Extracted) : Type 0 where
      pub sound : Sound r.files
      pub kernel_written : r.error ≡ none → Written w.kernel w.kernel_dest r.files
      pub initramfs_written : r.error ≡ none → Written w.initramfs w.initramfs_dest r.files

    finish-OnExtracted : (s : Progress) → Going s → OnExtracted (finish s)
    unfolding finish
    finish-OnExtracted s g = record {
      sound = g.sound;
      kernel_written = λ h. g.kernel_written (ground arith);
      initramfs_written = λ h. g.initramfs_written (ground arith);
    }

    pub extract_entries-OnExtracted :
        (is_complete : Bool) (es : List Entry) (s : Progress)
        → All (λ e. e.is_regular ≡ true → P (base e.name) e.content) es
        → Going s
        → OnExtracted (extract_entries w is_complete es s)
    unfolding extract_entries
    extract_entries-OnExtracted true [] s p g = finish-OnExtracted s g
    extract_entries-OnExtracted false [] s p g = record {
      sound = g.sound;
      kernel_written = λ h. cc;
      initramfs_written = λ h. cc;
    }
    extract_entries-OnExtracted is_complete (e ∷ es) s p g =
        go (turn w e s) (turn-OnTurn e s p.0 g)
          (λ s' g'. extract_entries-OnExtracted is_complete es s' p.1 g')
      where
        go :
            (t : Turn)
            → OnTurn t
            → ((s' : Progress) → Going s' → OnExtracted (extract_entries w is_complete es s'))
            → OnExtracted (elim t [
              | next s' ↦ extract_entries w is_complete es s'
              | complete s' ↦ finish s'
              | failed fs ↦ record { files = fs; error = some Download.uncopied }
            ])
        go (next s') h rec = rec s' h
        go (complete s') h rec = finish-OnExtracted s' h
        go (failed fs) h rec = record {
          sound = h;
          kernel_written = λ h. cc;
          initramfs_written = λ h. cc;
        }
