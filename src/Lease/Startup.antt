-- ===== src/Lease/Startup.antt =====
-- `NewAllocator`: a validated configuration and a lease file without contradiction give an allocator
-- with its invariant.

use auto_pxe.Prelude.{
  ℕ, ◌^◌, ◌≤◌, ◌<◌, ◌≡◌, refl, Bool, true, false, ◌||◌, Option, none, some, List, [], ◌∷◌, arith,
  ltb, Text, to_lower, lookup, insert, nat_eq, text_eq, ◌=?◌, All, inl, inr, Bool-cases, Returns,
  Returns-bind, is_empty,
}
use auto_pxe.Net.Ip.{Ip, nil, v4, v16, is_nil}
use auto_pxe.Storage.{Content, document, garbage, Disk}
use auto_pxe.Config.{Static, Pool, Dhcp}
use auto_pxe.Config.Valid.{IsValidDhcp}
use auto_pxe.Config.Checks.{IsIp4, IsValidPool, IsValidStatic}
use auto_pxe.Lease.{Lease, LeaseRecord, FileFormat, Allocator, ip_to_u32, static_ip_set}
use auto_pxe.Lease.Load.{
  Result, ok, err, static_lease, static_leases, base, pool_range, with_pool, and_load, load_content,
  load, load_leases, load_all_declined, new_allocator,
}
use auto_pxe.Lease.Linked.{Linked-nil}
use auto_pxe.Lease.Invariant.{Inv}
use auto_pxe.Lease.Restore.{
  IsCoherent, Starts, NotDeclined, Loading, AreNew, load_leases-Loading, load_all_declined-Inv,
}

-- The lease has an IPv4 address.
abbrev pub HasIp : Text × Lease → Type 0
HasIp e = (v : ℕ) × (ip_to_u32 e.1.ip ≡ some v)

static_ip_set-Returns :
    (s : List (Text × Lease)) → All HasIp s → (vs : List ℕ) × (static_ip_set s ≡ some vs)
unfolding static_ip_set
static_ip_set-Returns [] h = ([], refl)
static_ip_set-Returns ((m, l) ∷ s) ((v, at), h) =
    let (vs, rest) = static_ip_set-Returns s h in (v ∷ vs, rw (at, rest) refl)

HasIp-insert :
    (m : Text) (l : Lease) (s : List (Text × Lease))
    → HasIp (m, l)
    → All HasIp s
    → All HasIp (insert m l s)
unfolding insert
HasIp-insert m l [] h k = (h, tt)
HasIp-insert m l ((n, r) ∷ s) h k = elim (Bool-cases (n =? m)) [
  | inl e ↦ rw e (h, k.1)
  | inr e ↦ rw e (k.0, HasIp-insert m l s h k.1)
]

-- A binding with an address, of a validated configuration.
abbrev pub HasAddress : Static → Type 0
HasAddress s = is_nil s.parsed_ip ≡ false

ip_to_u32-IsIp4 :
    (ip : Ip) → IsIp4 ip → is_nil ip ≡ false → (v : ℕ) × (ip_to_u32 ip ≡ some v) × (v < 2 ^ 32)
unfolding ip_to_u32
ip_to_u32-IsIp4 nil h k = cc
ip_to_u32-IsIp4 (v4 a b c d) h k = (_, refl, omega arith)
ip_to_u32-IsIp4 (v16 _ _ _ _ _ _ _ _) h k = elim h [ ]

static_leases-HasIp :
    (c : Dhcp) (ss : List Static) (out : List (Text × Lease))
    → All IsValidStatic ss
    → All HasAddress ss
    → All HasIp out
    → All HasIp (static_leases c ss out)
unfolding static_leases static_lease
static_leases-HasIp c [] out h k o = o
static_leases-HasIp c (s ∷ ss) out (h, hs) (k, ks) o =
    let (v, at, _) = ip_to_u32-IsIp4 s.parsed_ip h.ip k in
    static_leases-HasIp c ss _ hs ks
      (HasIp-insert (to_lower s.mac) (static_lease c s) out (v, at) o)

-- Before the lease file is read: no lease, no declined address.
record IsEmpty (time : ℕ) (a : Allocator) : Type 0 where
  statics : List ℕ
  statics_lem : static_ip_set a.static ≡ some statics
  range : a.has_pool ≡ true → (a.pool_start ≤ a.pool_end) × (a.pool_end < 2 ^ 32)
  dynamic : a.dynamic ≡ []
  by_ip : a.by_ip ≡ []
  declined : a.declined ≡ []
  lease_time : a.lease_time ≡ time

IsEmpty-Inv : (time : ℕ) (a : Allocator) → IsEmpty time a → Inv a
unfolding lookup
IsEmpty-Inv time a e = record {
  linked = rw (e.dynamic, e.by_ip) Linked-nil;
  range = e.range;
  declined_distinct = rw e.declined tt;
  statics = e.statics;
  statics_lem = e.statics_lem;
  free = λ v m h. absurd (ground arith);
  unbound = λ m l h. absurd (ground arith);
}

AreNew-nil : (es : List (Text × LeaseRecord)) (a : Allocator) → a.dynamic ≡ [] → AreNew es a
unfolding lookup
AreNew-nil [] a e = tt
AreNew-nil (x ∷ es) a e = (rw e refl, AreNew-nil es a e)

-- What the code returns, if it is no error, satisfies `P`.
abbrev pub OnResult : (Allocator → Type 0) → Result Allocator → Type 0
OnResult P (ok a) = P a
OnResult P (err e) = Unit

-- The file's document, if there is one that parses, holds no contradiction.
abbrev pub IsCoherentFile : Option (Content FileFormat) → Type 0
IsCoherentFile (some (document f)) = IsCoherent f
IsCoherentFile _ = Unit

load_content-Inv :
    (now time : ℕ) (o : Option (Content FileFormat)) (a : Allocator)
    → IsEmpty time a
    → IsCoherentFile o
    → Returns (OnResult (Starts time)) (load_content now o a)
unfolding load_content lookup
load_content-Inv now time none a e h = (IsEmpty-Inv time a e, e.lease_time)
load_content-Inv now time (some garbage) a e h = tt
load_content-Inv now time (some (document f)) a e h = simp e.statics_lem (
    Returns-bind (Loading time e.statics (NotDeclined f.declined)) (OnResult (Starts time))
      (load_leases now e.statics f.leases a) _
      (load_leases-Loading now time e.statics (NotDeclined f.declined) f.leases a h.macs h.apart
        (start, AreNew-nil f.leases a e.dynamic))
      λ b s.
        Returns-bind (Starts time) (OnResult (Starts time))
          (load_all_declined now e.statics f.declined b) (λ c. some (ok c))
          (load_all_declined-Inv now time e.statics f.declined b (record {
            inv = s.inv;
            statics_lem = s.statics_lem;
            apart = s.leased;
            lease_time = s.lease_time;
          }))
          (λ c i. i))
  where
    start : Loading time e.statics (NotDeclined f.declined) a
    start = record {
      inv = IsEmpty-Inv time a e;
      statics_lem = e.statics_lem;
      declined = e.declined;
      lease_time = e.lease_time;
      leased = λ v m k. absurd (ground (arith, e.by_ip));
    }

load-Inv :
    (now time : ℕ) (readable : Bool) (d : Disk FileFormat) (a : Allocator)
    → IsEmpty time a
    → IsCoherentFile d.file
    → Returns (OnResult (Starts time)) (load now readable d a)
unfolding load
load-Inv now time readable d a e h = elim (Bool-cases (is_empty a.lease_file)) [
  | inl none_named ↦ rw none_named (IsEmpty-Inv time a e, e.lease_time)
  | inr named ↦ elim (Bool-cases readable) [
    | inl fine ↦ rw (named, fine) (load_content-Inv now time d.file a e h)
    | inr failing ↦ rw (named, failing) tt
  ]
]

with_pool-IsEmpty :
    (c : Dhcp) (statics : List ℕ) (range : Option (ℕ × ℕ))
    → static_ip_set (base c).static ≡ some statics
    → ((start end : ℕ) → range ≡ some (start, end) → end < 2 ^ 32)
    → OnResult (IsEmpty c.parsed_lease) (with_pool (base c) range)
unfolding with_pool
with_pool-IsEmpty c statics none e h = record {
  statics = statics;
  statics_lem = e;
  range = λ p. cc p;
  dynamic = refl;
  by_ip = refl;
  declined = refl;
  lease_time = refl;
}
with_pool-IsEmpty c statics (some (start, end)) e h = elim (Bool-cases (ltb end start)) [
  | inl crossed ↦ rw crossed tt
  | inr ordered ↦ rw ordered (record {
    statics = statics;
    statics_lem = e;
    range = λ p. (ground arith, h start end refl);
    dynamic = refl;
    by_ip = refl;
    declined = refl;
    lease_time = refl;
  })
]

pool_range-lt :
    (p : Pool)
    → IsValidPool p
    → Returns (λ r. (start end : ℕ) → r ≡ some (start, end) → end < 2 ^ 32) (pool_range p)
unfolding pool_range
pool_range-lt p v = elim (Bool-cases (is_nil p.parsed_start || is_nil p.parsed_end)) [
  | inl absent ↦ rw absent (λ s e h. cc h)
  | inr given ↦
      let (x, at_x, _) = ip_to_u32-IsIp4 p.parsed_start v.start (ground arith) in
      let (y, at_y, lt) = ip_to_u32-IsIp4 p.parsed_end v.end (ground arith) in
      simp (given, at_x, at_y) (λ s e h. ground arith)
]

-- For a validated configuration in which every static binding has an IPv4 address, and a lease file
-- that is absent, does not parse, or holds no MAC with two leases and no leased address that is
-- declined, `NewAllocator` does not panic, and the allocator that it returns, if it reports no error,
-- has the invariant and the configured lease time.
pub new_allocator-Inv :
    (now : ℕ) (readable : Bool) (d : Disk FileFormat) (c : Dhcp)
    → IsValidDhcp c
    → All HasAddress c.static
    → IsCoherentFile d.file
    → Returns (OnResult (Starts c.parsed_lease)) (new_allocator now readable d c)
unfolding new_allocator
new_allocator-Inv now readable d c v addresses coherent =
    let (statics, e) =
      static_ip_set-Returns (base c).static
        (static_leases-HasIp c c.static [] v.statics addresses tt) in
    Returns-bind (λ r. (start end : ℕ) → r ≡ some (start, end) → end < 2 ^ 32)
      (OnResult (Starts c.parsed_lease)) (pool_range c.pool)
      (λ r. and_load now readable d (with_pool (base c) r)) (pool_range-lt c.pool v.pool)
      (λ r h. loads (with_pool (base c) r) (with_pool-IsEmpty c statics r e h))
  where
    loads :
        (r : Result Allocator)
        → OnResult (IsEmpty c.parsed_lease) r
        → Returns (OnResult (Starts c.parsed_lease)) (and_load now readable d r)
    loads (ok a) e = load-Inv now c.parsed_lease readable d a e coherent
    loads (err x) e = tt
