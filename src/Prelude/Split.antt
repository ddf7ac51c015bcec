-- ===== src/Prelude/Split.antt =====
-- `split` and `join` at one byte undo each other.
use Prim.Native.Nat.{ℕ}
use mathlib.Core.Path.{◌≡◌, refl, ap, ◌∙◌}
use mathlib.Core.Bool.{Bool, true, false}
use mathlib.Core.List.{List, [], ◌∷◌, ◌++◌}
use native.Mathlib.Omega.{arith}
use auto_pxe.Prelude.Tests.{◌==◌, if◌then◌else◌}
use auto_pxe.Prelude.Eq.{Text}
use auto_pxe.Prelude.Strings.{is_empty}
use auto_pxe.Prelude.Lists.{All}
use auto_pxe.Prelude.Affix.{has_byte, prepend, split, join}

-- The byte is not in the text.
abbrev pub Lacks : ℕ → Text → Type 0
Lacks x s = has_byte x s ≡ false

prepend-All :
    (x c : ℕ) (ps : List Text) → (c == x) ≡ false → All (Lacks x) ps → All (Lacks x) (prepend c ps)
unfolding prepend has_byte
prepend-All x c [] h k = (ground arith, tt)
prepend-All x c (p ∷ ps) h k = (ground (arith, k.0), k.1)

-- No part has the separator.
pub split-Lacks : (sep : ℕ) (s : Text) → All (Lacks sep) (split sep s)
unfolding split has_byte
split-Lacks sep [] = (refl, tt)
split-Lacks sep (c ∷ cs) = go (c == sep) refl (split-Lacks sep cs)
  where
    go :
        (b : Bool)
        → (c == sep) ≡ b
        → All (Lacks sep) (split sep cs)
        → All (Lacks sep) (if b then [] ∷ split sep cs else prepend c (split sep cs))
    go true e rec = (refl, rec)
    go false e rec = prepend-All sep c (split sep cs) e rec

-- What the text lacks, its parts lack.
pub split-All : (sep x : ℕ) (s : Text) → Lacks x s → All (Lacks x) (split sep s)
unfolding split has_byte
split-All sep x [] h = (refl, tt)
split-All sep x (c ∷ cs) h = go (c == sep) (split-All sep x cs (ground arith))
  where
    go :
        (b : Bool)
        → All (Lacks x) (split sep cs)
        → All (Lacks x) (if b then [] ∷ split sep cs else prepend c (split sep cs))
    go true rec = (refl, rec)
    go false rec = prepend-All x c (split sep cs) (ground arith) rec

pub Lacks-append : (x : ℕ) (s t : Text) → Lacks x s → Lacks x t → Lacks x (s ++ t)
unfolding has_byte
Lacks-append x [] t h k = k
Lacks-append x (c ∷ s) t h k = ground (arith, Lacks-append x s t)

pub join-Lacks :
    (sep x : ℕ) (ps : List Text) → (sep == x) ≡ false → All (Lacks x) ps → Lacks x (join sep ps)
unfolding join has_byte
join-Lacks sep x [] h k = refl
join-Lacks sep x (p ∷ []) h k = k.0
join-Lacks sep x (p ∷ q ∷ ps) h k =
    Lacks-append x p (sep ∷ join sep (q ∷ ps)) k.0 (ground (arith, join-Lacks sep x (q ∷ ps) h k.1))

pub split-part : (sep : ℕ) (p : Text) → Lacks sep p → split sep p ≡ p ∷ []
unfolding split has_byte prepend
split-part sep [] h = refl
split-part sep (c ∷ p) h = ground (arith, split-part sep p)

split-append : (sep : ℕ) (p t : Text) → Lacks sep p → split sep (p ++ sep ∷ t) ≡ p ∷ split sep t
unfolding split has_byte prepend
split-append sep [] t h = ground arith
split-append sep (c ∷ p) t h = ground (arith, split-append sep p t)

pub split-join :
    (sep : ℕ) (p : Text) (ps : List Text)
    → All (Lacks sep) (p ∷ ps)
    → split sep (join sep (p ∷ ps)) ≡ p ∷ ps
unfolding join
split-join sep p [] h = split-part sep p h.0
split-join sep p (q ∷ ps) h =
    split-append sep p (join sep (q ∷ ps)) h.0 ∙ ap (λ t. p ∷ t) (split-join sep q ps h.1)

prepend-Any : (c : ℕ) (ps : List Text) → is_empty (prepend c ps) ≡ false
unfolding prepend is_empty
prepend-Any c [] = refl
prepend-Any c (p ∷ ps) = refl

-- There is always a part.
pub split-Any : (sep : ℕ) (s : Text) → is_empty (split sep s) ≡ false
unfolding split is_empty
split-Any sep [] = refl
split-Any sep (c ∷ cs) = ground (arith, prepend-Any c (split sep cs))

join-empty_cons : (sep : ℕ) (s : Text) → join sep ([] ∷ split sep s) ≡ sep ∷ join sep (split sep s)
unfolding join split prepend is_empty
join-empty_cons sep s = go (split sep s) (split-Any sep s)
  where
    go : (ps : List Text) → is_empty ps ≡ false → join sep ([] ∷ ps) ≡ sep ∷ join sep ps
    go [] h = cc
    go (p ∷ ps) h = refl

join-prepend :
    (sep c : ℕ) (ps : List Text) → is_empty ps ≡ false → join sep (prepend c ps) ≡ c ∷ join sep ps
unfolding join prepend is_empty
join-prepend sep c [] h = cc
join-prepend sep c (p ∷ []) h = refl
join-prepend sep c (p ∷ q ∷ ps) h = refl

pub join-split : (sep : ℕ) (s : Text) → join sep (split sep s) ≡ s
unfolding split join
join-split sep [] = refl
join-split sep (c ∷ cs) = go (c == sep) refl (join-split sep cs)
  where
    go :
        (b : Bool)
        → (c == sep) ≡ b
        → join sep (split sep cs) ≡ cs
        → join sep (if b then [] ∷ split sep cs else prepend c (split sep cs)) ≡ c ∷ cs
    go true e rec = join-empty_cons sep cs ∙ ground (arith, rec)
    go false e rec = join-prepend sep c (split sep cs) (split-Any sep cs) ∙ ap (λ t. c ∷ t) rec
