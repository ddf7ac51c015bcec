-- ===== src/Lease/Freeing.antt =====
-- internal/lease/lease.go: `Release`, `Decline`, `ClearDynamic` and `ClearLeaseFile`.
use auto_pxe.Prelude.{
  ℕ, ◌+◌, ◌&&◌, not, Option, none, some, List, [], if◌then◌else◌, Text, is_empty, lookup, insert,
  delete, ◌>>=◌, nat_eq, text_eq,
}
use auto_pxe.Net.Canon.{canon}
use auto_pxe.Net.Ip.{Ip, to_4, is_nil, equal_4}
use auto_pxe.Storage.{Disk, Io, IoError}
use auto_pxe.Lease.{
  Lease, FileFormat, Allocator, Done, empty_mac, invalid_declined_ip, ip_to_u32, in_pool,
  static_ip_set,
}
use auto_pxe.Lease.Ops.{current_version, write_file, save_locked, forget, member}

unfoldable pub release_found :
    Io → Text → Ip → Allocator → Disk FileFormat → Option Lease → Option Done
unfolding forget save_locked
release_found io m ip a d none = some (record { state = a; disk = d; error = none })
release_found io m ip a d (some l) =
    if not (is_nil (to_4 ip)) && not (equal_4 l.ip (to_4 ip))
    then some (record { state = a; disk = d; error = none })
    else (do v ← ip_to_u32 l.ip; some (save_locked io (forget m v a) d))

-- `Release`
unfoldable pub release : Io → Text → Ip → Allocator → Disk FileFormat → Option Done
unfolding canon is_empty release_found to_4 equal_4
release io mac ip a d =
    let m = canon mac in
    if is_empty m
    then some (record { state = a; disk = d; error = some empty_mac })
    else release_found io m ip a d (lookup m a.dynamic)

-- The owner of a declined address loses its lease.
unfoldable pub evict : ℕ → Option Text → Allocator → Allocator
evict v none a = a
evict v (some owner) a = record a { dynamic = delete owner a.dynamic; by_ip = delete v a.by_ip }

unfoldable pub hold_out : ℕ → Text → ℕ → List ℕ → Allocator → Allocator
unfolding member in_pool
hold_out now m v statics a =
    if not (member v statics) && in_pool a v
    then record a {
      declined = insert v (record { mac = m; expires_at = now + a.lease_time }) a.declined;
    }
    else a

-- `Decline`
unfoldable pub decline : ℕ → Io → Text → Ip → Allocator → Disk FileFormat → Option Done
unfolding canon evict hold_out static_ip_set save_locked
decline now io mac ip a d =
    if is_nil (to_4 ip)
    then some (record { state = a; disk = d; error = some invalid_declined_ip })
    else (do
      v ← ip_to_u32 (to_4 ip)
      let a1 = evict v (lookup v a.by_ip) a
      statics ← static_ip_set a1.static
      some (save_locked io (hold_out now (canon mac) v statics a1) d))

-- `ClearDynamic`
unfoldable pub clear_dynamic : Io → Allocator → Disk FileFormat → Done
unfolding save_locked
clear_dynamic io a d = save_locked io (record a { dynamic = []; by_ip = []; declined = [] }) d

-- `ClearLeaseFile`
unfoldable pub clear_lease_file : Io → Text → Disk FileFormat → Disk FileFormat × Option IoError
unfolding write_file is_empty
clear_lease_file io path d =
    if is_empty path
    then (d, none)
    else write_file io (record { version = current_version; leases = []; declined = [] }) d
