-- ===== src/Lease/Room.antt =====
-- A pool with more addresses than are held: a new client gets one of them.
use auto_pxe.Prelude.{
  ℕ, zero, suc, ◌+◌, ◌≤◌, ◌<◌, ◌≡◌, refl, true, false, ◌||◌, Option, none, some, List, [], ◌∷◌,
  ◌++◌, arith, ◌==◌, Text, length, lookup, nat_eq, inl, inr, Option-cases, if◌then◌else◌, is_empty,
  Returns, Returns-map, is_some, not, ◌&&◌,
}
use auto_pxe.Net.Canon.{canon}
use auto_pxe.Storage.{Disk, Io, succeeds}
use auto_pxe.Lease.{
  Lease, FileFormat, Allocator, Done, ip_to_u32, ip_to_u32-u32_to_ip, static_ip_set,
}
use auto_pxe.Lease.Ops.{member, pool_size, allocate, lookup_lease}
use auto_pxe.Lease.Invariant.{Inv}
use auto_pxe.Lease.Fresh.{is_unavailable, NewLease, allocate-NewLease}

unfoldable pub remove_one : ℕ → List ℕ → List ℕ
remove_one x [] = []
remove_one x (y ∷ ys) = if x == y then ys else y ∷ remove_one x ys

pub length-remove_one :
    (x : ℕ) (ys : List ℕ) → member x ys ≡ true → length ys ≡ suc (length (remove_one x ys))
unfolding member remove_one
length-remove_one x [] h = cc
length-remove_one x (y ∷ ys) h = ground (arith, length-remove_one x ys)

pub member-remove_one :
    (x z : ℕ) (ys : List ℕ) → x < z → member z ys ≡ true → member z (remove_one x ys) ≡ true
unfolding member remove_one
member-remove_one x z [] lt h = cc
member-remove_one x z (y ∷ ys) lt h = ground (arith, member-remove_one x z ys)

-- A list that has `n` numbers in a row is at least as long.
le-length :
    (n s : ℕ) (ys : List ℕ) → ((x : ℕ) → s ≤ x → x < s + n → member x ys ≡ true) → n ≤ length ys
le-length zero s ys h = omega arith
le-length (suc n) s ys h =
    let shorter =
      le-length n (s + 1) (remove_one s ys)
        (λ x lo hi. member-remove_one s x ys (omega arith) (h x (omega arith) (omega arith))) in
    omega (arith, shorter, length-remove_one s ys (h s (omega arith) (omega arith)))

member-append : (x : ℕ) (ys zs : List ℕ) → member x (ys ++ zs) ≡ member x ys || member x zs
unfolding member
member-append x [] zs = refl
member-append x (y ∷ ys) zs = ground (arith, member-append x ys zs)

length-append : (ys zs : List ℕ) → length (ys ++ zs) ≡ length ys + length zs
length-append [] zs = omega arith
length-append (y ∷ ys) zs = omega (arith, length-append ys zs)

-- The keys of a map.
keys {ℓ} : {V : Type ℓ} → List (ℕ × V) → List ℕ
keys [] = []
keys ((v, x) ∷ m) = v ∷ keys m

length-keys {ℓ} : {V : Type ℓ} (m : List (ℕ × V)) → length (keys m) ≡ length m
unfolding keys
length-keys [] = refl
length-keys ((v, x) ∷ m) = omega (arith, length-keys m)

member-keys : {V : Type 0} (v : ℕ) (m : List (ℕ × V)) → is_some (lookup v m) ≡ member v (keys m)
unfolding keys member lookup
member-keys v [] = refl
member-keys v ((w, x) ∷ m) = ground (arith, member-keys v m)

length-static_ip_set :
    (s : List (Text × Lease)) (vs : List ℕ) → static_ip_set s ≡ some vs → length vs ≡ length s
unfolding static_ip_set
length-static_ip_set [] vs h = ground arith
length-static_ip_set ((m, l) ∷ s) vs h = elim (Option-cases (ip_to_u32 l.ip)) [
  | inl e ↦ ground arith
  | inr (v, e) ↦ elim (Option-cases (static_ip_set s)) [
    | inl e' ↦ ground arith
    | inr (ws, e') ↦ ground (arith, length-static_ip_set s ws e')
  ]
]

module _ (now : ℕ) (a : Allocator) (i : Inv a) where
  -- The addresses that are leased, bound or declined.
  held : List ℕ
  unfolding keys
  held = keys a.by_ip ++ (i.statics ++ keys a.declined)

  member-held : (v : ℕ) → is_unavailable now a i.statics v ≡ true → member v held ≡ true
  unfolding held
  member-held v h = ground (
    arith,
    member-append v (keys a.by_ip) (i.statics ++ keys a.declined),
    member-append v i.statics (keys a.declined),
    member-keys v a.by_ip,
    member-keys v a.declined,
  )

  length-held : length held ≡ length a.by_ip + (length a.static + length a.declined)
  unfolding held
  length-held = omega (
    arith,
    length-append (keys a.by_ip) (i.statics ++ keys a.declined),
    length-append i.statics (keys a.declined),
    length-keys a.by_ip,
    length-keys a.declined,
    length-static_ip_set a.static i.statics i.statics_lem,
  )

  -- An available address of the pool is leased to the client, without an error if the save succeeds.
  abbrev pub IsGiven : Io → Done × Option Lease → Type 0
  IsGiven io r =
      (v : ℕ) × (l : Lease) × (r.1 ≡ some l)
      × (is_some r.0.error ≡ (not (is_empty a.lease_file) && not (succeeds io)))
      × (ip_to_u32 l.ip ≡ some v)
      × (a.pool_start ≤ v)
      × (v ≤ a.pool_end)
      × (is_unavailable now a i.statics v ≡ false)

  no_room :
      a.pool_start ≤ a.pool_end
      → ((x : ℕ) → a.pool_start ≤ x → x ≤ a.pool_end → is_unavailable now a i.statics x ≡ true)
      → pool_size a ≤ length held
  no_room le all =
      le-length (pool_size a) a.pool_start held (λ x lo hi. member-held x (all x lo (omega arith)))

  IsGiven-of_NewLease :
      a.has_pool ≡ true
      → length a.by_ip + (length a.static + length a.declined) < pool_size a
      → (io : Io) (r : Done × Option Lease) → NewLease now a i io r
      → IsGiven io r
  IsGiven-of_NewLease p room io r (inl (v, l, given, saved, at, lo, hi, free, first)) =
      let (le, word) = i.range p in
      (v, l, given, saved, rw at (ip_to_u32-u32_to_ip v (omega arith)), lo, hi, free)
  IsGiven-of_NewLease p room io r (inr (refused, error, all)) =
      let (le, word) = i.range p in absurd (omega (arith, no_room le all, length-held))

-- In a state with the invariant and with a pool that has more addresses than there are owned addresses,
-- static bindings and declined addresses together, a client with a non-empty MAC that `Lookup` finds no
-- lease for is given a lease of an address of the pool that is neither leased, nor bound, nor declined
-- until later. With it comes an error if there is a lease file and writing it fails, and none otherwise.
pub allocate-IsGiven :
    (now : ℕ) (io : Io) (mac : Text) (a : Allocator) (d : Disk FileFormat) (i : Inv a)
    → is_empty (canon mac) ≡ false
    → a.has_pool ≡ true
    → lookup_lease now mac a ≡ none
    → length a.by_ip + (length a.static + length a.declined) < pool_size a
    → Returns (IsGiven now a i io) (allocate now io mac a d)
allocate-IsGiven now io mac a d i given p new room =
    Returns-map _ _ (allocate now io mac a d) (IsGiven-of_NewLease now a i p room io)
      (allocate-NewLease now io mac a d i given p new)
