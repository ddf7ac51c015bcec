-- ===== src/Prelude/Map.antt =====
-- A Go map as an association list. Iteration runs over the list, in its order; a theorem that
-- holds for every list holds for every order of iteration.
use mathlib.Core.Path.{◌≡◌, refl}
use mathlib.Core.Logic.{◌≢◌}
use mathlib.Core.Option.{Option, none, some}
use mathlib.Core.List.{List, [], ◌∷◌}
use native.Mathlib.Omega.{arith}
use auto_pxe.Prelude.Tests.{if◌then◌else◌}
use auto_pxe.Prelude.Eq.{Key, ◌=?◌}

module _ {ℓ} {K V : Type ℓ} ⦃e : Key K⦄ where
  unfoldable pub lookup : K → List (K × V) → Option V
  lookup k [] = none
  lookup k ((j, v) ∷ m) = if j =? k then some v else lookup k m

  -- `m[k] = v`
  unfoldable pub insert : K → V → List (K × V) → List (K × V)
  insert k v [] = (k, v) ∷ []
  insert k v ((j, w) ∷ m) = if j =? k then (k, v) ∷ m else (j, w) ∷ insert k v m

  -- `delete(m, k)`
  unfoldable pub delete : K → List (K × V) → List (K × V)
  delete k [] = []
  delete k ((j, w) ∷ m) = if j =? k then delete k m else (j, w) ∷ delete k m

  pub lookup-insert :
      (k j : K) (v : V) (m : List (K × V))
      → lookup j (insert k v m) ≡ (if k =? j then some v else lookup j m)
  unfolding lookup insert
  lookup-insert k j v [] = refl
  lookup-insert k j v ((i, w) ∷ m) =
      ground (arith, e.same_iff k j, e.same_iff i k, e.same_iff i j, lookup-insert k j v m)

  pub lookup-delete :
      (k j : K) (m : List (K × V)) → lookup j (delete k m) ≡ (if k =? j then none else lookup j m)
  unfolding lookup delete
  lookup-delete k j [] = ground arith
  lookup-delete k j ((i, w) ∷ m) =
      ground (arith, e.same_iff k j, e.same_iff i k, e.same_iff i j, lookup-delete k j m)

  -- No key stands twice.
  abbrev pub Distinct : List (K × V) → Type ℓ
  Distinct [] = Unit
  Distinct ((k, v) ∷ m) = (lookup k m ≡ none) × Distinct m

  pub Distinct-insert : (k : K) (v : V) (m : List (K × V)) → Distinct m → Distinct (insert k v m)
  unfolding lookup insert
  Distinct-insert k v [] d = (refl, tt)
  Distinct-insert k v ((i, w) ∷ m) d =
      ground (arith, e.same_iff i k, e.same_iff k i, lookup-insert k i v m, Distinct-insert k v m)

  pub Distinct-delete : (k : K) (m : List (K × V)) → Distinct m → Distinct (delete k m)
  unfolding lookup delete
  Distinct-delete k [] d = tt
  Distinct-delete k ((i, w) ∷ m) d = ground (arith, lookup-delete k i m, Distinct-delete k m)

  -- Every entry of the list is what the map holds under its key.
  abbrev pub Holds : List (K × V) → List (K × V) → Type ℓ
  Holds m [] = Unit
  Holds m ((k, v) ∷ es) = (lookup k m ≡ some v) × Holds m es

  Holds-cons :
      (k : K) (v : V) (m es : List (K × V))
      → lookup k es ≡ none
      → Holds m es
      → Holds ((k, v) ∷ m) es
  unfolding lookup
  Holds-cons k v m [] fresh h = tt
  Holds-cons k v m ((i, w) ∷ es) fresh h =
      ground (arith, e.same_iff k i, e.same_iff i k, Holds-cons k v m es)

  pub Holds-self : (m : List (K × V)) → Distinct m → Holds m m
  unfolding lookup
  Holds-self [] d = tt
  Holds-self ((k, v) ∷ m) d =
      ground (arith, (e.same_iff k k).1 refl, Holds-cons k v m m d.0 (Holds-self m d.1))

  -- Deleting a key leaves the entries under other keys.
  pub Holds-delete :
      (k : K) (m es : List (K × V)) → lookup k es ≡ none → Holds m es → Holds (delete k m) es
  unfolding lookup
  Holds-delete k m [] fresh h = tt
  Holds-delete k m ((i, w) ∷ es) fresh h =
      ground (arith, e.same_iff k i, e.same_iff i k, lookup-delete k i m, Holds-delete k m es)

  pub lookup-insert_self : (k : K) (v : V) (m : List (K × V)) → lookup k (insert k v m) ≡ some v
  lookup-insert_self k v m = ground (arith, lookup-insert k k v m, (e.same_iff k k).1 refl)

  pub lookup-insert_ne :
      (k j : K) (v : V) (m : List (K × V)) → k ≢ j → lookup j (insert k v m) ≡ lookup j m
  lookup-insert_ne k j v m h = ground (arith, lookup-insert k j v m, e.same_iff k j)

  pub lookup-delete_self : (k : K) (m : List (K × V)) → lookup k (delete k m) ≡ none
  lookup-delete_self k m = ground (arith, lookup-delete k k m, (e.same_iff k k).1 refl)

  pub lookup-delete_ne : (k j : K) (m : List (K × V)) → k ≢ j → lookup j (delete k m) ≡ lookup j m
  lookup-delete_ne k j m h = ground (arith, lookup-delete k j m, e.same_iff k j)
