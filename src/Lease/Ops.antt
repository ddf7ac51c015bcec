-- ===== src/Lease/Ops.antt =====
-- internal/lease/lease.go: saving, reaping, `Allocate` and `Lookup`.
use auto_pxe.Prelude.{
  ℕ, suc, zero, ◌+◌, ◌-◌, ◌%◌, ◌^◌, Bool, false, ◌||◌, Option, none, some, List, [], ◌∷◌, ltb, ◌==◌,
  if◌then◌else◌, Text, is_empty, lookup, insert, delete, ◌>>=◌, is_some, nat_eq, text_eq,
}
use auto_pxe.Net.Canon.{canon}
use auto_pxe.Net.Ip.{ip_string}
use auto_pxe.Storage.{Disk, Io, IoError, replace}
use auto_pxe.Lease.{
  Lease, LeaseRecord, DeclinedRecord, FileFormat, DeclinedLease, Allocator, Done, Error, empty_mac,
  no_pool, pool_exhausted, io_failed, ip_to_u32, u32_to_ip, static_ip_set,
}

-- `x.After(now)`
abbrev pub after : ℕ → ℕ → Bool
after x now = ltb now x

unfoldable pub save_leases :
    List (Text × Lease) → List (Text × LeaseRecord) → List (Text × LeaseRecord)
save_leases [] out = out
save_leases ((mac, l) ∷ ls) out =
    save_leases ls (insert mac (record { ip = ip_string l.ip; expires = l.expires }) out)

unfoldable pub save_declined :
    List (ℕ × DeclinedLease) → List (Text × DeclinedRecord) → List (Text × DeclinedRecord)
save_declined [] out = out
save_declined ((v, d) ∷ ds) out =
    save_declined ds
      (insert (ip_string (u32_to_ip v)) (record { mac = d.mac; expires_at = d.expires_at }) out)

abbrev pub current_version : ℕ
current_version = 1

-- The document that `saveLocked` writes.
unfoldable pub to_file : Allocator → FileFormat
unfolding save_leases save_declined
to_file a = record {
  version = current_version;
  leases = save_leases a.dynamic [];
  declined = save_declined a.declined [];
}

unfoldable pub write_file : Io → FileFormat → Disk FileFormat → Disk FileFormat × Option IoError
unfolding replace
write_file io f d = replace io (record f { version = current_version }) d

abbrev pub lifted : Option IoError → Option Error
lifted none = none
lifted (some e) = some (io_failed e)

unfoldable pub save_locked : Io → Allocator → Disk FileFormat → Done
unfolding write_file to_file
save_locked io a d =
    if is_empty a.lease_file
    then record { state = a; disk = d; error = none }
    else (let (d', e) = write_file io (to_file a) d in
        record { state = a; disk = d'; error = lifted e })

-- `delete(a.byIP, v); delete(a.dynamic, mac)`
unfoldable pub forget : Text → ℕ → Allocator → Allocator
forget mac v a = record a { by_ip = delete v a.by_ip; dynamic = delete mac a.dynamic }

unfoldable pub reap_lease : ℕ → Text × Lease → Allocator → Option Allocator
unfolding forget
reap_lease now (mac, l) a =
    if after l.expires now then some a else (do v ← ip_to_u32 l.ip; some (forget mac v a))

unfoldable pub reap_leases : ℕ → List (Text × Lease) → Allocator → Option Allocator
unfolding reap_lease
reap_leases now [] a = some a
reap_leases now (e ∷ es) a = do a' ← reap_lease now e a; reap_leases now es a'

unfoldable pub reap_declined :
    ℕ → List (ℕ × DeclinedLease) → List (ℕ × DeclinedLease) → List (ℕ × DeclinedLease)
reap_declined now [] m = m
reap_declined now ((ip, d) ∷ es) m =
    reap_declined now es (if after d.expires_at now then m else delete ip m)

unfoldable pub reap_expired : ℕ → Allocator → Option Allocator
unfolding reap_leases reap_declined
reap_expired now a = do
  a' ← reap_leases now a.dynamic a
  some (record a' { declined = reap_declined now a'.declined a'.declined })

unfoldable pub member : ℕ → List ℕ → Bool
member v [] = false
member v (w ∷ ws) = v == w || member v ws

abbrev pub still_declined : ℕ → Option DeclinedLease → Bool
still_declined now none = false
still_declined now (some d) = after d.expires_at now

-- The three tests by which the search passes over an address.
unfoldable pub is_taken : Allocator → List ℕ → ℕ → ℕ → Bool
unfolding member
is_taken a statics now v =
    is_some (lookup v a.by_ip) || (member v statics || still_declined now (lookup v a.declined))

pub data Search : Type 0 where
  found : ℕ → Search
  exhausted out_of_fuel : Search

-- `for v := a.poolStart; ; v++`, with `uint32` numbers.
unfoldable pub search_pool : (ℕ → Bool) → ℕ → ℕ → ℕ → Search
search_pool taken last zero v = out_of_fuel
search_pool taken last (suc fuel) v =
    let rest = search_pool taken last fuel ((v + 1) % 2 ^ 32) in
    if taken v then (if v == last then exhausted else rest) else found v

abbrev pub pool_size : Allocator → ℕ
pool_size a = a.pool_end + 1 - a.pool_start

unfoldable pub fresh_lease : Allocator → ℕ → Text → ℕ → Lease
fresh_lease a now m v = record {
  mac = m;
  ip = u32_to_ip v;
  gateway = a.default_gateway;
  dns = a.default_dns;
  hostname = [];
  expires = now + a.lease_time;
  static = false;
}

abbrev pub refuse : Allocator → Disk FileFormat → Error → Done × Option Lease
refuse a d e = (record { state = a; disk = d; error = some e }, none)

unfoldable pub bind_lease : Allocator → Text → ℕ → Lease → Allocator
bind_lease a m v l = record a { dynamic = insert m l a.dynamic; by_ip = insert v m a.by_ip }

-- What follows the search. The search ends (`search_pool-ends`), so the last case is never taken.
unfoldable pub allocate_found :
    ℕ → Io → Text → Allocator → Disk FileFormat → Search → Done × Option Lease
unfolding bind_lease fresh_lease save_locked
allocate_found now io m a d (found v) =
    let l = fresh_lease a now m v in (save_locked io (bind_lease a m v l) d, some l)
allocate_found now io m a d exhausted = refuse a d pool_exhausted
allocate_found now io m a d out_of_fuel = refuse a d pool_exhausted

unfoldable pub allocate_fresh :
    ℕ → Io → Text → Allocator → Disk FileFormat → Option (Done × Option Lease)
unfolding static_ip_set is_taken search_pool allocate_found
allocate_fresh now io m a d =
    if a.has_pool
    then (do
      statics ← static_ip_set a.static
      some (
          allocate_found now io m a d
            (search_pool (is_taken a statics now) a.pool_end (pool_size a) a.pool_start)))
    else some (refuse a d no_pool)

unfoldable pub renew : ℕ → Allocator → Lease → Lease
renew now a l = record l { expires = now + a.lease_time }

-- After `reapExpiredLocked`: the lease that the MAC holds is extended, or a new one is made.
unfoldable pub allocate_dynamic :
    ℕ → Io → Text → Allocator → Disk FileFormat → Option Lease → Option (Done × Option Lease)
unfolding renew save_locked allocate_fresh
allocate_dynamic now io m a d (some l) =
    let l' = renew now a l in
    some (save_locked io (record a { dynamic = insert m l' a.dynamic }) d, some l')
allocate_dynamic now io m a d none = allocate_fresh now io m a d

unfoldable pub allocate_canonical :
    ℕ → Io → Text → Allocator → Disk FileFormat → Option Lease → Option (Done × Option Lease)
unfolding renew reap_expired allocate_dynamic
allocate_canonical now io m a d (some l) =
    let l' = renew now a l in
    some (
      record { state = record a { static = insert m l' a.static }; disk = d; error = none },
      some l',
    )
allocate_canonical now io m a d none = do
  a' ← reap_expired now a
  allocate_dynamic now io m a' d (lookup m a'.dynamic)

-- `Allocate`. `none` is a panic.
unfoldable pub allocate : ℕ → Io → Text → Allocator → Disk FileFormat → Option (Done × Option Lease)
unfolding canon is_empty allocate_canonical
allocate now io mac a d =
    let m = canon mac in
    if is_empty m
    then some (refuse a d empty_mac)
    else allocate_canonical now io m a d (lookup m a.static)

abbrev pub unexpired : ℕ → Option Lease → Option Lease
unexpired now none = none
unexpired now (some l) = if after l.expires now then some l else none

abbrev pub or_unexpired : ℕ → Option Lease → Option Lease → Option Lease
or_unexpired now (some l) dyn = some l
or_unexpired now none dyn = unexpired now dyn

-- `Lookup`
unfoldable pub lookup_lease : ℕ → Text → Allocator → Option Lease
unfolding canon
lookup_lease now mac a =
    let m = canon mac in or_unexpired now (lookup m a.static) (lookup m a.dynamic)
