-- ===== src/Lease/Tests.antt =====
-- The allocator at work, as in internal/lease/lease_test.go, and the theorems at concrete inputs.
use auto_pxe.Prelude.{
  ℕ, ◌+◌, ◌==◌, ◌≡◌, refl, ◌≢◌, true, false, Option, none, some, List, [], ◌∷◌, arith, Text, codes,
  lookup, insert, nat_eq, text_eq, text_beq, inl, is_empty, Returns, length, ◌≤◌, is_some, false,
}
use auto_pxe.Net.Canon.{canon}
use auto_pxe.Net.Ip.{nil, v4, to_4}
use auto_pxe.Storage.{Disk, all_well, document}
use auto_pxe.Config.{Dhcp}
use auto_pxe.Lease.{
  Lease, FileFormat, Allocator, Done, ip_to_u32, u32_to_ip, in_pool, static_ip_set,
}
use auto_pxe.Lease.Ops.{search_pool, allocate, lookup_lease, save_locked, member}
use auto_pxe.Lease.Load.{new_allocator, ok}
use auto_pxe.Lease.Linked.{Linked-nil}
use auto_pxe.Lease.Invariant.{Inv}
use auto_pxe.Lease.Removal
use auto_pxe.Lease.Allocate
use auto_pxe.Lease.Apart
use auto_pxe.Lease.Grants
use auto_pxe.Lease.Fresh
use auto_pxe.Lease.Room
use auto_pxe.Lease.Capacity
use auto_pxe.Lease.Held
use auto_pxe.Lease.Saved
use auto_pxe.Lease.Panic
use auto_pxe.Lease.History
use auto_pxe.Lease.Search
use auto_pxe.Lease.Freeing.{decline}
use auto_pxe.Lease.Reap

abbrev hour : ℕ
hour = 3600000000000

abbrev pub config : Dhcp
config = record {
  subnet = codes "192.168.100.0/24";
  gateway = codes "192.168.100.1";
  dns = [];
  lease_time = codes "1h";
  lease_file = codes "/tmp/leases.json";
  pool = record {
    start = [];
    end = [];
    parsed_start = v4 192 168 100 100;
    parsed_end = v4 192 168 100 102;
  };
  static = [];
  domain_name = [];
  search_domains = [];
  parsed_subnet = none;
  parsed_gateway = v4 192 168 100 1;
  parsed_dns = v4 8 8 8 8 ∷ [];
  parsed_lease = hour;
}

abbrev pub empty_disk : Disk FileFormat
empty_disk = record { file = none; tmp = none }

abbrev start : ℕ
start = 0xc0a86464

-- The allocator of the tests, with the pool 192.168.100.100 to 192.168.100.102.
abbrev pub fresh : Allocator
fresh = record {
  lease_file = config.lease_file;
  default_gateway = config.parsed_gateway;
  default_dns = config.parsed_dns;
  lease_time = hour;
  static = [];
  has_pool = true;
  pool_start = 0xc0a86464;
  pool_end = 0xc0a86466;
  dynamic = [];
  by_ip = [];
  declined = [];
}

new_allocator_runs : new_allocator 5 true empty_disk config ≡ some (ok fresh)
unfolding new_allocator
new_allocator_runs = refl

abbrev mac_1 : Text
mac_1 = codes "aa:bb:cc:dd:ee:01"

abbrev mac_2 : Text
mac_2 = codes "aa:bb:cc:dd:ee:02"

abbrev lease_1 : Lease
lease_1 = record {
  mac = mac_1;
  ip = v4 192 168 100 100;
  gateway = fresh.default_gateway;
  dns = fresh.default_dns;
  hostname = [];
  expires = 5 + hour;
  static = false;
}

abbrev one : Allocator
one = record fresh { dynamic = (mac_1, lease_1) ∷ []; by_ip = (start, mac_1) ∷ [] }

abbrev state_of : Option (Done × Option Lease) → Option Allocator
state_of none = none
state_of (some r) = some r.0.state

allocate_first :
    state_of (allocate 5 all_well (codes "AA-BB-CC-DD-EE-01") fresh empty_disk) ≡ some one
unfolding allocate lookup insert u32_to_ip
allocate_first = refl

pub fresh-Inv : Inv fresh
unfolding static_ip_set lookup
fresh-Inv = record {
  linked = Linked-nil;
  range = λ _. omega arith;
  declined_distinct = tt;
  statics = [];
  statics_lem = refl;
  free = λ v m h. cc;
  unbound = λ m l h. cc;
}

one-Inv : Inv one
unfolding allocate lookup insert u32_to_ip
one-Inv = Allocate.allocate-Inv 5 all_well mac_1 fresh empty_disk fresh-Inv

abbrev lease_2 : Lease
lease_2 = record lease_1 { mac = mac_2; ip = v4 192 168 100 101 }

abbrev two : Allocator
two = record one {
  dynamic = (mac_1, lease_1) ∷ (mac_2, lease_2) ∷ [];
  by_ip = (start, mac_1) ∷ (start + 1, mac_2) ∷ [];
}

two-Inv : Inv two
unfolding allocate lookup insert u32_to_ip text_beq
two-Inv = Allocate.allocate-Inv 5 all_well mac_2 one empty_disk one-Inv

lookup_lease-apart_example : ip_to_u32 lease_1.ip ≢ ip_to_u32 lease_2.ip
unfolding lookup_lease lookup canon text_beq
lookup_lease-apart_example =
    Apart.lookup_lease-apart two 6 mac_1 mac_2 lease_1 lease_2 two-Inv refl refl (λ h. cc)
      (inl refl)

allocate-Inv_example : Inv one
unfolding allocate lookup insert u32_to_ip text_beq
allocate-Inv_example = Allocate.allocate-Inv 5 all_well mac_1 fresh empty_disk fresh-Inv

allocate-NewLease_example :
    Returns (Fresh.NewLease 5 fresh fresh-Inv all_well) (allocate 5 all_well mac_1 fresh empty_disk)
unfolding canon lookup_lease lookup text_beq is_empty
allocate-NewLease_example =
    Fresh.allocate-NewLease 5 all_well mac_1 fresh empty_disk fresh-Inv refl refl refl

allocate-stable_example :
    Returns
      (λ r. r.1 ≡ some (record lease_1 { expires = 6 + hour }))
      (allocate 6 all_well mac_1 one empty_disk)
unfolding canon lookup_lease lookup text_beq is_empty
allocate-stable_example =
    Grants.allocate-stable 6 all_well mac_1 one empty_disk lease_1 one-Inv refl refl

allocate-granted_example :
    Returns
      (λ r. (l : Lease) → r.1 ≡ some l → lookup_lease 5 mac_1 r.0.state ≡ some l)
      (allocate 5 all_well mac_1 fresh empty_disk)
allocate-granted_example =
    Grants.allocate-granted 5 all_well mac_1 fresh empty_disk fresh-Inv (omega arith)

one_unbound : member start one-Inv.statics ≡ false
unfolding static_ip_set member
one_unbound = ground (arith, one-Inv.statics_lem)

decline-IsHeld_example :
    Returns
      (λ r.
        Held.IsHeld (canon mac_2) (6 + hour) one-Inv.statics start r.state
        × Held.IsEvicted one start r.state)
      (decline 6 all_well mac_2 (v4 192 168 100 100) one empty_disk)
unfolding ip_to_u32 in_pool to_4
decline-IsHeld_example =
    Held.decline-IsHeld 6 all_well mac_2 (v4 192 168 100 100) one empty_disk one-Inv start refl refl
      refl one_unbound

decline-Inv_example :
    Removal.KeepsInv (decline 6 all_well mac_1 (v4 192 168 100 100) one empty_disk)
decline-Inv_example =
    Removal.decline-Inv 6 all_well mac_1 (v4 192 168 100 100) one empty_disk one-Inv

-- The first address is taken.
search_pool-Searched_example :
    Search.Searched
      (λ v. v == start)
      start
      (start + 2)
      (search_pool (λ v. v == start) (start + 2) 3 start)
search_pool-Searched_example =
    Search.search_pool-Searched (λ v. v == start) (start + 2) (omega arith) 3 start (omega arith)
      (omega arith)

reap_expired-Swept_example : Reap.Swept (5 + hour) one
reap_expired-Swept_example = Reap.reap_expired-Swept (5 + hour) one one-Inv.linked

-- One lease, and an address that is declined.
abbrev mixed : Allocator
mixed = record one { declined = (start + 2, record { mac = mac_2; expires_at = 9 }) ∷ [] }

save_locked-IsSnapshot_example :
    let r = save_locked all_well mixed empty_disk in
    (r.state ≡ mixed)
    × (r.error ≡ none
        → (f : FileFormat) × (r.disk.file ≡ some (document f)) × Saved.IsSnapshot mixed f)
    × (r.error ≢ none → r.disk.file ≡ empty_disk.file)
    × (is_some r.error ≡ false)
unfolding is_empty lookup
save_locked-IsSnapshot_example =
    Saved.save_locked-IsSnapshot all_well mixed empty_disk refl (refl, tt) (refl, tt)
      (omega arith, tt)

-- A binding to the address `2001:db8::1`, as the configuration accepts it.
abbrev bound_v6 : Allocator
bound_v6 = record fresh { static = (mac_2, record lease_2 { ip = nil; static = true }) ∷ [] }

allocate-panics_example : allocate 5 all_well mac_1 bound_v6 empty_disk ≡ none
unfolding canon lookup text_beq is_empty
allocate-panics_example =
    Panic.allocate-panics 5 all_well mac_1 mac_2 (record lease_2 { ip = nil; static = true })
      bound_v6 empty_disk Linked-nil refl refl refl refl refl refl

-- A client gets a lease, a second one declines the address, and the first one asks again.
abbrev calls : List History.Call
calls =
    History.allocates 5 all_well mac_1
    ∷ History.declines 6 all_well mac_2 (v4 192 168 100 100)
    ∷ History.allocates 7 all_well mac_1
    ∷ []

history-Inv_example : Returns (λ r. Inv r.0) (History.history calls fresh empty_disk)
history-Inv_example = History.history-Inv calls fresh empty_disk fresh-Inv

-- One of three addresses is leased.
allocate-IsGiven_example :
    Returns (Room.IsGiven 6 one one-Inv all_well) (allocate 6 all_well mac_2 one empty_disk)
unfolding canon lookup_lease lookup text_beq is_empty
allocate-IsGiven_example =
    Room.allocate-IsGiven 6 all_well mac_2 one empty_disk one-Inv refl refl refl (omega arith)

history-le_example :
    Returns
      (λ r. length r.0.dynamic ≤ Capacity.capacity r.0)
      (History.history calls fresh empty_disk)
history-le_example = Capacity.history-le calls fresh empty_disk fresh-Inv
