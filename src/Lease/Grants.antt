-- ===== src/Lease/Grants.antt =====
-- What a client gets from `Allocate` is what `Lookup` then says, and a client keeps its address.
use auto_pxe.Prelude.{
  ℕ, ◌+◌, ◌<◌, ◌≡◌, refl, false, Option, none, some, List, arith, Text, lookup, nat_eq, text_eq,
  lookup-insert_self, inl, inr, Bool-cases, is_empty, Returns,
}
use auto_pxe.Net.Canon.{canon}
use auto_pxe.Storage.{Disk, Io}
use auto_pxe.Lease.{Lease, FileFormat, Allocator, static_ip_set}
use auto_pxe.Lease.Ops.{
  Search, found, exhausted, out_of_fuel, fresh_lease, bind_lease, allocate_found, allocate_fresh,
  renew, allocate_dynamic, allocate_canonical, allocate, or_unexpired, lookup_lease,
}
use auto_pxe.Lease.Reap.{Swept, reap_expired-Swept}
use auto_pxe.Lease.Invariant.{Inv, swept}

-- `Lookup` at a canonical MAC.
abbrev served : ℕ → Text → Allocator → Option Lease
served now m a = or_unexpired now (lookup m a.static) (lookup m a.dynamic)

module _ (now : ℕ) (io : Io) (m : Text) (a : Allocator) (d : Disk FileFormat)
    (positive : 0 < a.lease_time) where
  allocate_found-granted :
      (s : Search)
      → lookup m a.static ≡ none
      → (l : Lease) → (allocate_found now io m a d s).1 ≡ some l
      → served now m (allocate_found now io m a d s).0.state ≡ some l
  unfolding allocate_found bind_lease fresh_lease
  allocate_found-granted exhausted unbound l e = cc
  allocate_found-granted out_of_fuel unbound l e = cc
  allocate_found-granted (found v) unbound l e =
      ground (arith, lookup-insert_self m (fresh_lease a now m v) a.dynamic)

  allocate_fresh-granted :
      (statics : List ℕ)
      → static_ip_set a.static ≡ some statics
      → lookup m a.static ≡ none
      → Returns
          (λ r. (l : Lease) → r.1 ≡ some l → served now m r.0.state ≡ some l)
          (allocate_fresh now io m a d)
  unfolding allocate_fresh
  allocate_fresh-granted statics e unbound = elim (Bool-cases a.has_pool) [
    | inr no_pool ↦ simp no_pool (λ l h. cc)
    | inl pool ↦ simp (pool, e) (λ l h. allocate_found-granted _ unbound l h)
  ]

  allocate_dynamic-granted :
      (statics : List ℕ) (o : Option Lease)
      → static_ip_set a.static ≡ some statics
      → lookup m a.static ≡ none
      → Returns
          (λ r. (l : Lease) → r.1 ≡ some l → served now m r.0.state ≡ some l)
          (allocate_dynamic now io m a d o)
  unfolding allocate_dynamic renew
  allocate_dynamic-granted statics none e unbound = allocate_fresh-granted statics e unbound
  allocate_dynamic-granted statics (some l) e unbound =
      λ k h. ground (arith, lookup-insert_self m (renew now a l) a.dynamic)

module _ (now : ℕ) (io : Io) (m : Text) (a : Allocator) (d : Disk FileFormat) (i : Inv a) where
  -- The state after `reapExpiredLocked`.
  reaped : Swept now a
  reaped = reap_expired-Swept now a i.linked

  allocate_canonical-granted :
      (o : Option Lease)
      → 0 < a.lease_time
      → lookup m a.static ≡ o
      → Returns
          (λ r. (l : Lease) → r.1 ≡ some l → served now m r.0.state ≡ some l)
          (allocate_canonical now io m a d o)
  unfolding allocate_canonical renew swept
  allocate_canonical-granted (some l) positive e =
      λ k h. ground (arith, lookup-insert_self m (renew now a l) a.static)
  allocate_canonical-granted none positive e = rw reaped.result (
      allocate_dynamic-granted now io m (swept a i now reaped) d positive i.statics _ i.statics_lem
        e)

  -- Who is served already is served the same address, until one lease time from now.
  allocate_canonical-stable :
      (o : Option Lease) (l : Lease)
      → lookup m a.static ≡ o
      → served now m a ≡ some l
      → Returns (λ r. r.1 ≡ some (renew now a l)) (allocate_canonical now io m a d o)
  unfolding allocate_canonical renew
  allocate_canonical-stable (some k) l e h = ground arith
  allocate_canonical-stable none l e h =
      let held : lookup m reaped.dynamic ≡ some l = ground (arith, reaped.left m) in
      rw (reaped.result, held) refl

-- In a state with the invariant and with a positive lease time, `Allocate` does not panic, and a lease
-- that it returns is the one that `Lookup` then finds.
pub allocate-granted :
    (now : ℕ) (io : Io) (mac : Text) (a : Allocator) (d : Disk FileFormat)
    → Inv a
    → 0 < a.lease_time
    → Returns
        (λ r. (l : Lease) → r.1 ≡ some l → lookup_lease now mac r.0.state ≡ some l)
        (allocate now io mac a d)
unfolding allocate lookup_lease
allocate-granted now io mac a d i positive = elim (Bool-cases (is_empty (canon mac))) [
  | inl none_given ↦ rw none_given (λ l h. cc)
  | inr given ↦ rw given (allocate_canonical-granted now io (canon mac) a d i _ positive refl)
]

-- In a state with the invariant, a client with a non-empty MAC that `Lookup` finds a lease for gets
-- that lease from `Allocate`, extended to one lease time from now and otherwise unchanged.
pub allocate-stable :
    (now : ℕ) (io : Io) (mac : Text) (a : Allocator) (d : Disk FileFormat) (l : Lease)
    → Inv a
    → is_empty (canon mac) ≡ false
    → lookup_lease now mac a ≡ some l
    → Returns
        (λ r. r.1 ≡ some (record l { expires = now + a.lease_time }))
        (allocate now io mac a d)
unfolding allocate lookup_lease renew
allocate-stable now io mac a d l i given h =
    rw given (allocate_canonical-stable now io (canon mac) a d i _ l refl h)
