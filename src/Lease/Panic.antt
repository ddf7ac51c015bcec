-- ===== src/Lease/Panic.antt =====
-- The one way in which `Allocate` fails to answer: a static binding with no IPv4 address.
use auto_pxe.Prelude.{
  ℕ, ◌≡◌, refl, true, false, none, some, List, [], ◌∷◌, arith, Text, lookup, nat_eq, text_eq, inl,
  inr, Bool-cases, is_empty, ◌=?◌,
}
use auto_pxe.Net.Canon.{canon}
use auto_pxe.Storage.{Disk, Io}
use auto_pxe.Lease.{Lease, FileFormat, Allocator, ip_to_u32, static_ip_set}
use auto_pxe.Lease.Ops.{allocate_fresh, allocate_dynamic, allocate_canonical, allocate}
use auto_pxe.Lease.Linked.{Linked}
use auto_pxe.Lease.Reap.{Swept, reap_expired-Swept}
use auto_pxe.Net.Ip.{nil}

static_ip_set-nil :
    (m : Text) (l : Lease) (s : List (Text × Lease))
    → lookup m s ≡ some l
    → l.ip ≡ nil
    → static_ip_set s ≡ none
unfolding static_ip_set lookup ip_to_u32
static_ip_set-nil m l [] h e = cc
static_ip_set-nil m l ((n, r) ∷ s) h e = elim (Bool-cases (n =? m)) [
  | inl here ↦ let same : r.ip ≡ nil = ground arith in rw same refl
  | inr there ↦ rw (static_ip_set-nil m l s (ground arith) e) (ground arith)
]

-- If a static binding has no IPv4 address and there is a pool, `Allocate` panics for every client with
-- a non-empty MAC that has no lease and no binding of its own.
pub allocate-panics :
    (now : ℕ) (io : Io) (mac n : Text) (l : Lease) (a : Allocator) (d : Disk FileFormat)
    → Linked a.dynamic a.by_ip
    → is_empty (canon mac) ≡ false
    → a.has_pool ≡ true
    → lookup (canon mac) a.static ≡ none
    → lookup (canon mac) a.dynamic ≡ none
    → lookup n a.static ≡ some l
    → l.ip ≡ nil
    → allocate now io mac a d ≡ none
unfolding allocate allocate_canonical allocate_dynamic allocate_fresh
allocate-panics now io mac n l a d k given p unbound free bound no_ip =
    simp (given, unbound, s.result, gone, p, static_ip_set-nil n l a.static bound no_ip)
  where
    s : Swept now a
    s = reap_expired-Swept now a k

    gone : lookup (canon mac) s.dynamic ≡ none
    gone = ground (arith, s.left (canon mac))
