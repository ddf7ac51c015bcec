-- ===== src/Dns/Sorting.antt =====
-- internal/dns/server.go: the order of the wildcards, by the comparison that `New` hands to `sort.Slice`.
use auto_pxe.Prelude.{◌≤◌, ◌≡◌, Bool, true, false, List, [], ◌∷◌, arith, length}
use mathlib.Core.List.{Memᴰ}
use auto_pxe.Dns.{WildcardEntry, Sort, comes_before}

-- A comparison that `sort.Slice` allows: a strict weak order.
pub record IsWeakOrder (less : WildcardEntry → WildcardEntry → Bool) : Type 0 where
  pub asymmetric : (x y : WildcardEntry) → less x y ≡ true → less y x ≡ false
  pub transitive : (x y z : WildcardEntry) → less x y ≡ false → less y z ≡ false → less x z ≡ false

-- No entry comes before one that stands ahead of it.
abbrev pub IsSorted : (WildcardEntry → WildcardEntry → Bool) → List WildcardEntry → Type 0
IsSorted less [] = Unit
IsSorted less (w ∷ ws) = ((x : WildcardEntry) → Memᴰ x ws → less x w ≡ false) × IsSorted less ws

-- What `sort.Slice` promises: the same entries, in the order of the comparison.
pub record IsSort (sort : Sort) : Type 0 where
  pub ordered :
      (less : WildcardEntry → WildcardEntry → Bool) (ws : List WildcardEntry)
      → IsWeakOrder less
      → IsSorted less (sort less ws)
  pub sound :
      (less : WildcardEntry → WildcardEntry → Bool) (ws : List WildcardEntry) (w : WildcardEntry)
      → Memᴰ w (sort less ws)
      → Memᴰ w ws
  pub complete :
      (less : WildcardEntry → WildcardEntry → Bool) (ws : List WildcardEntry) (w : WildcardEntry)
      → Memᴰ w ws
      → Memᴰ w (sort less ws)

pub comes_before-IsWeakOrder : IsWeakOrder comes_before
unfolding comes_before
comes_before-IsWeakOrder = record {
  asymmetric = λ x y h. ground (arith, h);
  transitive = λ x y z h k. ground (arith, h, k);
}

-- The suffixes get no longer.
abbrev pub IsDescending : List WildcardEntry → Type 0
IsDescending [] = Unit
IsDescending (w ∷ ws) =
    ((x : WildcardEntry) → Memᴰ x ws → length x.suffix ≤ length w.suffix) × IsDescending ws

pub descending : (ws : List WildcardEntry) → IsSorted comes_before ws → IsDescending ws
unfolding comes_before
descending [] h = tt
descending (w ∷ ws) (top, h) = ((λ x m. let e = top x m in ground (arith, e)), descending ws h)
