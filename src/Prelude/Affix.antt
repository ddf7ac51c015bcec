-- ===== src/Prelude/Affix.antt =====
-- The parts of Go's `strings` about prefixes, suffixes and separators.
use Prim.Native.Nat.{ℕ}
use mathlib.Core.Path.{◌≡◌, refl}
use native.Mathlib.Omega.{arith}
use mathlib.Core.Bool.{Bool, true, false, ◌&&◌, ◌||◌}
use mathlib.Core.List.{List, [], ◌∷◌, ◌++◌}
use mathlib.Core.Option.{Option, none, some}
use auto_pxe.Prelude.Tests.{◌==◌, if◌then◌else◌}
use auto_pxe.Prelude.Eq.{Text, text_beq, codes}
use auto_pxe.Prelude.Strings.{is_empty}
use auto_pxe.Prelude.Lists.{is_some}

-- What follows the prefix.
unfoldable pub after_prefix : Text → Text → Option Text
after_prefix [] s = some s
after_prefix (p ∷ ps) [] = none
after_prefix (p ∷ ps) (c ∷ cs) = let rest = after_prefix ps cs in if p == c then rest else none

unfoldable pub has_prefix : Text → Text → Bool
unfolding after_prefix
has_prefix p s = is_some (after_prefix p s)

unfoldable pub trim_prefix : Text → Text → Text
unfolding after_prefix
trim_prefix p s = elim (after_prefix p s) [ some rest ↦ rest | none ↦ s ]

unfoldable pub has_suffix : Text → Text → Bool
unfolding text_beq
has_suffix suffix [] = text_beq suffix []
has_suffix suffix (c ∷ cs) = text_beq suffix (c ∷ cs) || has_suffix suffix cs

-- The suffix is not empty.
unfoldable pub trim_suffix : Text → Text → Text
unfolding text_beq
trim_suffix suffix [] = []
trim_suffix suffix (c ∷ cs) =
    let rest = trim_suffix suffix cs in if text_beq suffix (c ∷ cs) then [] else c ∷ rest

-- `TrimLeft`, `TrimRight` and `Trim`, of one byte.
unfoldable pub trim_start : ℕ → Text → Text
trim_start x [] = []
trim_start x (c ∷ cs) = let rest = trim_start x cs in if c == x then rest else c ∷ cs

unfoldable pub trim_end : ℕ → Text → Text
unfolding is_empty
trim_end x [] = []
trim_end x (c ∷ cs) = let rest = trim_end x cs in if is_empty rest && c == x then [] else c ∷ rest

unfoldable pub trim : ℕ → Text → Text
unfolding trim_start trim_end
trim x s = trim_end x (trim_start x s)

unfoldable pub has_byte : ℕ → Text → Bool
has_byte x [] = false
has_byte x (c ∷ cs) = c == x || has_byte x cs

-- `Contains`
unfoldable pub contains : Text → Text → Bool
unfolding has_prefix is_empty
contains t [] = is_empty t
contains t (c ∷ s) = has_prefix t (c ∷ s) || contains t s

-- `Split` at one byte.
unfoldable pub prepend : ℕ → List Text → List Text
prepend c [] = (c ∷ []) ∷ []
prepend c (p ∷ ps) = (c ∷ p) ∷ ps

unfoldable pub split : ℕ → Text → List Text
unfolding prepend
split sep [] = [] ∷ []
split sep (c ∷ cs) = let rest = split sep cs in if c == sep then [] ∷ rest else prepend c rest

-- `Join` with one byte.
unfoldable pub join : ℕ → List Text → Text
join sep [] = []
join sep (p ∷ []) = p
join sep (p ∷ q ∷ ps) = p ++ sep ∷ join sep (q ∷ ps)

-- `Cut` at one byte.
unfoldable pub cut : ℕ → Text → Option (Text × Text)
cut sep [] = none
cut sep (c ∷ cs) =
    let rest = cut sep cs in
    if c == sep then some ([], cs) else elim rest [ none ↦ none | some (a, b) ↦ some (c ∷ a, b) ]

-- `filepath.Base`
unfoldable pub last_part : Text → List Text → Text
last_part p [] = p
last_part p (q ∷ ps) = last_part q ps

unfoldable pub base : Text → Text
unfolding is_empty trim_end split last_part
base path =
    let s = trim_end b'/' path in
    if is_empty path
    then codes "."
    else if is_empty s
    then codes "/"
    else last_part [] (split b'/' s)

pub after_prefix-some : (p s r : Text) → after_prefix p s ≡ some r → s ≡ p ++ r
unfolding after_prefix
after_prefix-some [] s r h = ground arith
after_prefix-some (p ∷ ps) [] r h = cc
after_prefix-some (p ∷ ps) (c ∷ cs) r h = ground (arith, after_prefix-some ps cs r)

pub trim_prefix-append : (p s : Text) → has_prefix p s ≡ true → s ≡ p ++ trim_prefix p s
unfolding has_prefix trim_prefix
trim_prefix-append p s h = go (after_prefix p s) refl h
  where
    go :
        (o : Option Text)
        → after_prefix p s ≡ o
        → is_some o ≡ true
        → s ≡ p ++ (elim o [ some rest ↦ rest | none ↦ s ])
    go none e k = cc
    go (some r) e k = after_prefix-some p s r e

pub after_prefix-append : (p r : Text) → after_prefix p (p ++ r) ≡ some r
unfolding after_prefix
after_prefix-append [] r = refl
after_prefix-append (c ∷ p) r = ground (arith, after_prefix-append p r)
