-- ===== src/Http/Served.antt =====
-- Which files the HTTP server of internal/httpsrv/server.go serves.
use auto_pxe.Prelude.{
  last_part, base, ℕ, ◌==◌, ◌≡◌, refl, sym, ap, ◌∙◌, Bool, true, false, not, ◌&&◌, List, [], ◌∷◌,
  ◌++◌, if◌then◌else◌, arith, Text, codes, is_empty, text_beq, text_beq_iff, has_byte, has_prefix,
  trim_prefix, trim_prefix-append, after_prefix, trim_end, contains, split, prepend, All, Lacks,
  split-Lacks, ◌⊎◌, inl, inr,
}
use mathlib.Core.Path.{subst}
use auto_pxe.Http.{
  Server, not_found, file, is_refused, handle_image, handle_index, handle_boot_ipxe, respond,
}

last_part-All :
    (P : Text → Type 0) (p : Text) (ps : List Text) → P p → All P ps → P (last_part p ps)
unfolding last_part
last_part-All P p [] h k = h
last_part-All P p (q ∷ ps) h k = last_part-All P q ps k.0 k.1

last_part-cons :
    (p q : Text) (ps : List Text) → is_empty ps ≡ false → last_part p ps ≡ last_part q ps
unfolding last_part is_empty
last_part-cons p q [] h = cc
last_part-cons p q (r ∷ ps) h = refl

prepend-last :
    (c : ℕ) (ps : List Text)
    → is_empty (last_part [] ps) ≡ false
    → is_empty (last_part [] (prepend c ps)) ≡ false
unfolding last_part prepend is_empty
prepend-last c [] h = refl
prepend-last c (p ∷ []) h = refl
prepend-last c (p ∷ q ∷ ps) h = h

split-last :
    (x c : ℕ) (rest : Text)
    → is_empty (last_part [] (split x rest)) ≡ false
    → is_empty (last_part [] (split x (c ∷ rest))) ≡ false
unfolding split last_part
split-last x c rest h = go (c == x)
  where
    go :
        (b : Bool)
        → is_empty (last_part [] (if b then [] ∷ split x rest else prepend c (split x rest)))
          ≡ false
    go true = h
    go false = prepend-last c (split x rest) h

split-last_one : (x c : ℕ) → (c == x) ≡ false → is_empty (last_part [] (split x (c ∷ []))) ≡ false
unfolding split last_part prepend is_empty
split-last_one x c h = ground arith

-- What is left after the separators at the end are gone does not end in an empty part.
trim_end-last :
    (x : ℕ) (s : Text)
    → is_empty (trim_end x s) ≡ false
    → is_empty (last_part [] (split x (trim_end x s))) ≡ false
unfolding trim_end is_empty
trim_end-last x [] h = cc
trim_end-last x (c ∷ cs) h = go (trim_end x cs) (c == x) refl (trim_end-last x cs) h
  where
    go :
        (rest : Text) (b : Bool)
        → (c == x) ≡ b
        → (is_empty rest ≡ false → is_empty (last_part [] (split x rest)) ≡ false)
        → is_empty (if is_empty rest && b then [] else c ∷ rest) ≡ false
        → is_empty (last_part [] (split x (if is_empty rest && b then [] else c ∷ rest))) ≡ false
    go [] true e rec k = cc
    go [] false e rec k = split-last_one x c e
    go (d ∷ rest) b e rec k = split-last x c (d ∷ rest) (rec refl)

base-last :
    (path : Text)
    → is_empty (trim_end b'/' path) ≡ false
    → base path ≡ last_part [] (split b'/' (trim_end b'/' path))
unfolding base trim_end is_empty
base-last [] h = cc
base-last (c ∷ cs) h = ground arith

-- A base name has no separator, and is not empty.
pub base-part :
    (path : Text)
    → is_empty (trim_end b'/' path) ≡ false
    → (is_empty (base path) ≡ false) × Lacks b'/' (base path)
unfolding has_byte
base-part path h =
    let e = sym (base-last path h) in
    (
      subst (λ t. is_empty t ≡ false) e (trim_end-last b'/' path h),
      subst (Lacks b'/') e
          (last_part-All (Lacks b'/') [] _ lacks_nothing (split-Lacks b'/' (trim_end b'/' path))),
    )
  where
    lacks_nothing : Lacks b'/' []
    lacks_nothing = refl

handle_image-file :
    (path f : Text) (s : Server)
    → handle_image path s ≡ file f
    → (trim_prefix (codes "/images/") path ≡ s.image_name) × (f ≡ s.cfg.deploy.image)
unfolding handle_image
handle_image-file path f s h =
    go (is_refused (trim_prefix (codes "/images/") path))
      (text_beq (trim_prefix (codes "/images/") path) s.image_name) refl h
  where
    go :
        (a b : Bool)
        → text_beq (trim_prefix (codes "/images/") path) s.image_name ≡ b
        → (if a then not_found else if not b then not_found else file s.cfg.deploy.image) ≡ file f
        → (trim_prefix (codes "/images/") path ≡ s.image_name) × (f ≡ s.cfg.deploy.image)
    go true b e k = cc
    go false false e k = cc
    go false true e k = ((text_beq_iff _ _).0 e, cc)

handle_index-file : (path f : Text) (s : Server) → handle_index path s ≡ file f → ⊥
unfolding handle_index
handle_index-file path f s h = ground arith

-- The only files served are the kernel, the initramfs and the image, each on its own path only.
pub respond-file :
    (path mac f : Text) (s : Server)
    → respond path mac s ≡ file f
    → (path ≡ codes "/ipa.kernel") × (f ≡ s.cfg.ipa.kernel)
      ⊎ (path ≡ codes "/ipa.initramfs") × (f ≡ s.cfg.ipa.initramfs)
      ⊎ (path ≡ codes "/images/" ++ s.image_name) × (f ≡ s.cfg.deploy.image)
unfolding respond handle_boot_ipxe
respond-file path mac f s h =
    go (text_beq path (codes "/boot.ipxe")) (text_beq path (codes "/ipa.kernel"))
      (text_beq path (codes "/ipa.initramfs")) (has_prefix (codes "/images/") path) refl refl refl h
  where
    Goal : Type 0
    Goal =
        (path ≡ codes "/ipa.kernel") × (f ≡ s.cfg.ipa.kernel)
        ⊎ (path ≡ codes "/ipa.initramfs") × (f ≡ s.cfg.ipa.initramfs)
        ⊎ (path ≡ codes "/images/" ++ s.image_name) × (f ≡ s.cfg.deploy.image)

    go :
        (a b c d : Bool)
        → text_beq path (codes "/ipa.kernel") ≡ b
        → text_beq path (codes "/ipa.initramfs") ≡ c
        → has_prefix (codes "/images/") path ≡ d
        → (if a
            then handle_boot_ipxe mac s
            else if b
            then file s.cfg.ipa.kernel
            else if c
            then file s.cfg.ipa.initramfs
            else if d
            then handle_image path s
            else handle_index path s)
          ≡ file f
        → Goal
    go true b c d eb ec ed k = cc
    go false true c d eb ec ed k = inl ((text_beq_iff _ _).0 eb, cc)
    go false false true d eb ec ed k = inr (inl ((text_beq_iff _ _).0 ec, cc))
    go false false false true eb ec ed k =
        let (named, same) = handle_image-file path f s k in
        inr (
          inr (
            trim_prefix-append (codes "/images/") path ed ∙ ap (λ t. codes "/images/" ++ t) named,
            same,
          ))
    go false false false false eb ec ed k = absurd (handle_index-file path f s k)

pub is_refused-part :
    (p : Text)
    → is_empty p ≡ false
    → contains (codes "..") p ≡ false
    → Lacks b'/' p
    → Lacks 0 p
    → is_refused p ≡ false
unfolding is_refused
is_refused-part p a b c d = ground arith

pub handle_image-named :
    (s : Server)
    → is_refused s.image_name ≡ false
    → handle_image (codes "/images/" ++ s.image_name) s ≡ file s.cfg.deploy.image
unfolding handle_image trim_prefix after_prefix
handle_image-named s h = ground (arith, (text_beq_iff s.image_name s.image_name).1 refl)
