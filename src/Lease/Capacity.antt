-- ===== src/Lease/Capacity.antt =====
-- The number of leases that an allocator hands out at a time.
use auto_pxe.Prelude.{
  ℕ, zero, suc, ◌+◌, ◌≤◌, ◌<◌, ◌≡◌, refl, sym, ◌⊎◌, true, false, none, some, List, [], ◌∷◌, arith,
  ◌==◌, Text, length, lookup, nat_eq, text_eq, text_beq_iff, inl, inr, Bool-cases, if◌then◌else◌,
  Returns, Returns-map, Distinct,
}
use mathlib.Core.Path.{subst}
use auto_pxe.Storage.{Disk}
use auto_pxe.Lease.{Lease, FileFormat, Allocator, ip_to_u32, in_pool}
use auto_pxe.Lease.Ops.{member, pool_size}
use auto_pxe.Lease.Invariant.{Inv}
use auto_pxe.Lease.Room.{remove_one, length-remove_one}
use auto_pxe.Lease.History.{Call, history, history-Inv}

-- No number occurs twice.
abbrev IsApart : List ℕ → Type 0
IsApart [] = Unit
IsApart (x ∷ xs) = (member x xs ≡ false) × IsApart xs

-- Removing a number leaves no new one, and not that one.
remove_one-IsApart :
    (x : ℕ) (ys : List ℕ)
    → IsApart ys
    → IsApart (remove_one x ys)
      × (member x (remove_one x ys) ≡ false)
      × ((z : ℕ) → member z (remove_one x ys) ≡ true → member z ys ≡ true)
unfolding remove_one member
remove_one-IsApart x [] d = (tt, refl, λ z h. h)
remove_one-IsApart x (y ∷ ys) d =
    let (e, f, g) = remove_one-IsApart x ys d.1 in
    elim (Bool-cases (x == y)) [
      | inl same ↦ rw same (d.1, ground (arith, d.0), λ z h. ground arith)
      | inr other ↦
          rw other ((ground (arith, g y, d.0), e), ground (arith, f), λ z h. ground (arith, g z))
    ]

length-remove_one_absent :
    (x : ℕ) (ys : List ℕ) → member x ys ≡ false → length (remove_one x ys) ≡ length ys
unfolding remove_one member
length-remove_one_absent x [] h = refl
length-remove_one_absent x (y ∷ ys) h = ground (arith, length-remove_one_absent x ys)

-- Different numbers, `n` in a row, are at most `n` numbers.
length-IsApart :
    (n s : ℕ) (ys : List ℕ)
    → IsApart ys
    → ((x : ℕ) → member x ys ≡ true → (s ≤ x) × (x < s + n))
    → length ys ≤ n
unfolding member
length-IsApart zero s [] d h = omega arith
length-IsApart zero s (y ∷ ys) d h = absurd (omega (arith, h y (ground arith)))
length-IsApart (suc n) s ys d h =
    let (e, f, g) = remove_one-IsApart s ys d in
    let fewer =
      length-IsApart n (s + 1) (remove_one s ys) e
        (λ x k. let (lo, hi) = h x (g x k) in (ground (arith, f), omega arith)) in
    elim (Bool-cases (member s ys)) [
      | inl first ↦ omega (arith, fewer, length-remove_one s ys first)
      | inr absent ↦ omega (arith, fewer, length-remove_one_absent s ys absent)
    ]

-- The addresses of the leases.
addresses : List (Text × Lease) → List ℕ
addresses [] = []
addresses ((m, l) ∷ ds) = elim (ip_to_u32 l.ip) [ none ↦ addresses ds | some v ↦ v ∷ addresses ds ]

-- The leases have addresses, and no two of them the same.
abbrev IsOwned : List (ℕ × Text) → List (Text × Lease) → Type 0
IsOwned by_ip ds =
    (m : Text) (l : Lease)
    → lookup m ds ≡ some l
    → (v : ℕ) × (ip_to_u32 l.ip ≡ some v) × (lookup v by_ip ≡ some m)

module _ (by_ip : List (ℕ × Text)) where
  IsOwned-rest :
      (m : Text) (l : Lease) (ds : List (Text × Lease))
      → lookup m ds ≡ none
      → IsOwned by_ip ((m, l) ∷ ds)
      → IsOwned by_ip ds
  unfolding lookup
  IsOwned-rest m l ds new h k r e = h k r (ground (arith, text_beq_iff m k))

  member-addresses :
      (v : ℕ) (ds : List (Text × Lease))
      → Distinct ds
      → IsOwned by_ip ds
      → member v (addresses ds) ≡ true
      → (m : Text) × (l : Lease) × (lookup m ds ≡ some l) × (lookup v by_ip ≡ some m)
  unfolding addresses member lookup
  member-addresses v [] d h e = cc
  member-addresses v ((m, l) ∷ ds) d h e =
      let (w, at, owner) = h m l (ground (arith, text_beq_iff m m)) in
      elim (Bool-cases (w == v)) [
        | inl same ↦ (m, l, ground (arith, text_beq_iff m m), ground arith)
        | inr other ↦
            let (n, r, there, mine) =
              member-addresses v ds d.1 (IsOwned-rest m l ds d.0 h) (ground arith) in
            (n, r, ground (arith, text_beq_iff m n), mine)
      ]

  addresses-IsApart :
      (ds : List (Text × Lease))
      → Distinct ds
      → IsOwned by_ip ds
      → IsApart (addresses ds) × (length (addresses ds) ≡ length ds)
  unfolding addresses lookup
  addresses-IsApart [] d h = (tt, refl)
  addresses-IsApart ((m, l) ∷ ds) d h =
      let (v, at, owner) = h m l (ground (arith, text_beq_iff m m)) in
      let (e, f) = addresses-IsApart ds d.1 (IsOwned-rest m l ds d.0 h) in
      let here : addresses ((m, l) ∷ ds) ≡ v ∷ addresses ds = ground (arith, at) in
      subst (λ xs. IsApart xs × (length xs ≡ length ((m, l) ∷ ds))) (sym here)
        ((apart v owner (Bool-cases (member v (addresses ds))), e), omega (arith, f))
    where
      apart :
          (v : ℕ)
          → lookup v by_ip ≡ some m
          → (member v (addresses ds) ≡ true) ⊎ (member v (addresses ds) ≡ false)
          → member v (addresses ds) ≡ false
      apart v owner (inr absent) = absent
      apart v owner (inl twice) =
          let (n, r, there, mine) = member-addresses v ds d.1 (IsOwned-rest m l ds d.0 h) twice in
          absurd (ground (arith, d.0))

-- The leases that the allocator may hold.
abbrev pub capacity : Allocator → ℕ
capacity a = if a.has_pool then pool_size a else 0

module _ (a : Allocator) (i : Inv a) where
  within :
      (x : ℕ)
      → member x (addresses a.dynamic) ≡ true
      → (a.has_pool ≡ true) × (a.pool_start ≤ x) × (x ≤ a.pool_end)
  unfolding in_pool
  within x h =
      let (m, l, there, owner) =
        member-addresses a.by_ip x a.dynamic i.linked.distinct i.linked.indexed h in
      let (inside, unbound, undeclined) = i.free x m owner in
      (ground (arith, inside), ground (arith, inside), ground (arith, inside))

  pub dynamic-le : length a.dynamic ≤ capacity a
  dynamic-le =
      let (apart, same) = addresses-IsApart a.by_ip a.dynamic i.linked.distinct i.linked.indexed in
      elim (Bool-cases a.has_pool) [
        | inl p ↦
            let (le, word) = i.range p in
            let few =
              length-IsApart (pool_size a) a.pool_start (addresses a.dynamic) apart
                (λ x h. let (q, lo, hi) = within x h in (lo, omega arith)) in
            ground (arith, few, same)
        | inr p ↦
            let few =
              length-IsApart 0 0 (addresses a.dynamic) apart
                (λ x h. let (q, lo, hi) = within x h in absurd (cc (q, p))) in
            ground (arith, few, same)
      ]

-- After any sequence of calls on an allocator with the invariant, it holds at most as many dynamic
-- leases as the pool has addresses, and none if there is no pool.
pub history-le :
    (cs : List Call) (a : Allocator) (d : Disk FileFormat)
    → Inv a
    → Returns (λ r. length r.0.dynamic ≤ capacity r.0) (history cs a d)
history-le cs a d i =
    Returns-map (λ r. Inv r.0) (λ r. length r.0.dynamic ≤ capacity r.0) (history cs a d)
      (λ r h. dynamic-le r.0 h) (history-Inv cs a d i)
