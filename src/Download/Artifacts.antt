-- ===== src/Download/Artifacts.antt =====
-- internal/ipadl/download.go: what is at the two paths after `EnsureArtifacts`.

use mathlib.Core.List.{Memᴰ}
use auto_pxe.Prelude.{
  ◌==◌, ◌≡◌, refl, ◌∙◌, ◌≢◌, ◌⊎◌, inl, inr, arith, Bool, true, false, ◌&&◌, not, Option, none, some,
  List, [], ◌∷◌, Text, text_eq, lookup, Bool-cases, All, base,
}
use auto_pxe.Config.{Ipa}
use auto_pxe.Download.Extraction.{
  IsApart, Kept, Written, OnExtracted, extract_entries-OnExtracted, copy_to_file-other,
}
use auto_pxe.Download.{
  Files, file_exists, part, download_file, Entry, Archive, ExtractError, extract, tarball_path,
  wanted, cached, opened, Ensured, Failure, mkdir_failed, Environment, extract_cached,
  extract_failure, ensure_artifacts, Fetch, unanswered, answered, tarball_url,
}

-- The tarball is none of the two files, nor is its temporary file.
pub record IsOutside (ipa : Ipa) : Type 0 where
  pub apart : IsApart (wanted ipa)
  pub kernel :
      (ipa.kernel ≢ tarball_path ipa.download) × (ipa.kernel ≢ part (tarball_path ipa.download))
  pub initramfs :
      (ipa.initramfs ≢ tarball_path ipa.download)
      × (ipa.initramfs ≢ part (tarball_path ipa.download))

-- The content of a regular entry of this name in the tarball, which was in the cache or is downloaded.
abbrev pub FromTarball : Environment → Ipa → Files → Text → Text → Type 0
FromTarball env ipa fs want content =
    (a : Archive) × (e : Entry) × (opened env
        (lookup (tarball_path ipa.download) (cached env ipa fs).0)
      ≡ some a)
    × Memᴰ e a.entries
    × (e.is_regular ≡ true)
    × (base e.name ≡ want)
    × (e.content ≡ content)

All-of_Mem {ℓ κ} :
    {A : Type ℓ} (Q : A → Type κ) (xs : List A) → ((x : A) → Memᴰ x xs → Q x) → All Q xs
All-of_Mem Q [] h = tt
All-of_Mem Q (x ∷ xs) h = (h x (Memᴰ.head refl), All-of_Mem Q xs (λ y m. h y (Memᴰ.tail m)))

download_file-other :
    (f : Fetch) (dest : Text) (fs : Files) (p : Text)
    → p ≢ dest
    → p ≢ part dest
    → lookup p (download_file f dest fs).0 ≡ lookup p fs
unfolding download_file
download_file-other unanswered dest fs p a b = refl
download_file-other (answered status body copying) dest fs p a b =
    elim (Bool-cases (status == 200)) [
      | inl ok ↦ rw ok (copy_to_file-other copying body dest fs p a b)
      | inr bad ↦ rw bad refl
    ]

cached-other :
    (env : Environment) (ipa : Ipa) (fs : Files) (p : Text)
    → p ≢ tarball_path ipa.download
    → p ≢ part (tarball_path ipa.download)
    → lookup p (cached env ipa fs).0 ≡ lookup p fs
unfolding cached
cached-other env ipa fs p a b = elim (Bool-cases (file_exists (tarball_path ipa.download) fs)) [
  | inl there ↦ rw there refl
  | inr absent ↦ rw absent (
      download_file-other (env.fetch (tarball_url ipa.download)) (tarball_path ipa.download) fs p a
        b)
]

module _ (env : Environment) (ipa : Ipa) (fs : Files) (outside : IsOutside ipa) where
  abbrev gs : Files
  gs = (cached env ipa fs).0

  extract-OnExtracted :
      (o : Option Archive)
      → opened env (lookup (tarball_path ipa.download) gs) ≡ o
      → OnExtracted
          (FromTarball env ipa fs)
          (wanted ipa)
          gs
          outside.apart
          (extract (wanted ipa) o gs)
  unfolding extract
  extract-OnExtracted none e = record {
    sound = record { kernel = inl refl; initramfs = inl refl };
    kernel_written = λ h. cc;
    initramfs_written = λ h. cc;
  }
  extract-OnExtracted (some a) e =
      extract_entries-OnExtracted (FromTarball env ipa fs) (wanted ipa) gs outside.apart
        a.is_complete a.entries _
        (All-of_Mem _ a.entries (λ x m regular. (a, x, e, m, regular, refl, refl)))
        (record {
          sound = record { kernel = inl refl; initramfs = inl refl };
          kernel_written = λ h. cc;
          initramfs_written = λ h. cc;
        })

  -- Each file as before, or written from the tarball; without an error, written.
  abbrev pub IsWhole : Ensured → Type 0
  IsWhole r =
      Kept (FromTarball env ipa fs) (wanted ipa).kernel ipa.kernel fs r.files
      × Kept (FromTarball env ipa fs) (wanted ipa).initramfs ipa.initramfs fs r.files

  kept_rebased :
      (P : Text → Text → Type 0) (want p : Text) (hs : Files)
      → lookup p gs ≡ lookup p fs
      → Kept P want p gs hs
      → Kept P want p fs hs
  kept_rebased P want p hs e (inl k) = inl (k ∙ e)
  kept_rebased P want p hs e (inr w) = inr w

  -- Both files are as they were, or written, and written if there was no error.
  record IsExtracted (r : Ensured) : Type 0 where
    whole : IsWhole r
    kernel_written :
        r.error ≡ none → Written (FromTarball env ipa fs) (wanted ipa).kernel ipa.kernel r.files
    initramfs_written :
        r.error ≡ none
        → Written (FromTarball env ipa fs) (wanted ipa).initramfs ipa.initramfs r.files

  extract_cached-IsExtracted : (ok : Bool) → IsExtracted (extract_cached env ipa (gs, ok))
  unfolding extract_cached wanted
  extract_cached-IsExtracted false = record {
    whole = (
      inl (cached-other env ipa fs ipa.kernel outside.kernel.0 outside.kernel.1),
      inl (cached-other env ipa fs ipa.initramfs outside.initramfs.0 outside.initramfs.1),
    );
    kernel_written = λ h. cc;
    initramfs_written = λ h. cc;
  }
  extract_cached-IsExtracted true =
      let o : Option Archive = opened env (lookup (tarball_path ipa.download) gs) in
      let x = extract-OnExtracted o refl in
      record {
        whole = (
          kept_rebased (FromTarball env ipa fs) _ ipa.kernel _
              (cached-other env ipa fs ipa.kernel outside.kernel.0 outside.kernel.1) x.sound.kernel,
          kept_rebased (FromTarball env ipa fs) _ ipa.initramfs _
              (cached-other env ipa fs ipa.initramfs outside.initramfs.0 outside.initramfs.1)
              x.sound.initramfs,
        );
        kernel_written = λ h. x.kernel_written (no_failure _ h);
        initramfs_written = λ h. x.initramfs_written (no_failure _ h);
      }
    where
      no_failure : (e : Option ExtractError) → extract_failure e ≡ none → e ≡ none
      no_failure none h = refl
      no_failure (some e) h = cc

  IsWhole-unchanged : (e : Option Failure) → IsWhole (record { files = fs; error = e })
  unfolding wanted
  IsWhole-unchanged e = (inl refl, inl refl)

  IsExtracted-cached : IsExtracted (extract_cached env ipa (cached env ipa fs))
  IsExtracted-cached = extract_cached-IsExtracted (cached env ipa fs).1

  -- If the tarball and its temporary file are none of the two files, and the two files and their temporary
  -- files are different, then each file is, with or without an error, as it was before, or has the whole
  -- content of a regular entry of its name in the tarball.
  pub ensure_artifacts-IsWhole : IsWhole (ensure_artifacts env ipa fs)
  unfolding ensure_artifacts
  ensure_artifacts-IsWhole =
      elim (Bool-cases (file_exists ipa.kernel fs && file_exists ipa.initramfs fs)) [
        | inl there ↦ simp there (IsWhole-unchanged none)
        | inr missing ↦
            elim (Bool-cases
              (not (env.made_cache && (env.made_kernel_dir && env.made_initramfs_dir)))) [
                | inl bad ↦ simp (missing, bad) (IsWhole-unchanged (some mkdir_failed))
                | inr made ↦ simp (missing, made) IsExtracted-cached.whole
              ]
      ]

  -- Both files are there, and they were, or both come from the tarball.
  abbrev pub IsPresent : Files → Type 0
  IsPresent hs =
      (file_exists ipa.kernel hs ≡ true)
      × (file_exists ipa.initramfs hs ≡ true)
      × ((hs ≡ fs)
          ⊎ Written (FromTarball env ipa fs) (wanted ipa).kernel ipa.kernel hs
            × Written (FromTarball env ipa fs) (wanted ipa).initramfs ipa.initramfs hs)

  Written-IsPresent :
      (hs : Files)
      → Written (FromTarball env ipa fs) (wanted ipa).kernel ipa.kernel hs
      → Written (FromTarball env ipa fs) (wanted ipa).initramfs ipa.initramfs hs
      → IsPresent hs
  unfolding file_exists
  Written-IsPresent hs (c, at, p) (d, at', p') =
      (rw at refl, rw at' refl, inr ((c, at, p), (d, at', p')))

  -- With the same paths: if it reports no error, both files are there afterwards. Either nothing has
  -- changed, or each of them has the whole content of a regular entry of its name in the tarball.
  pub ensure_artifacts-IsPresent :
      (ensure_artifacts env ipa fs).error ≡ none → IsPresent (ensure_artifacts env ipa fs).files
  unfolding ensure_artifacts
  ensure_artifacts-IsPresent =
      elim (Bool-cases (file_exists ipa.kernel fs && file_exists ipa.initramfs fs)) [
        | inl there ↦ simp there (λ h. (ground arith, ground arith, inl refl))
        | inr missing ↦
            elim (Bool-cases
              (not (env.made_cache && (env.made_kernel_dir && env.made_initramfs_dir)))) [
                | inl bad ↦ simp (missing, bad) (λ h. cc)
                | inr made ↦
                    simp (missing, made)
                      (λ h.
                        Written-IsPresent _ (IsExtracted-cached.kernel_written h)
                          (IsExtracted-cached.initramfs_written h))
              ]
      ]
