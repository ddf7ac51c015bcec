-- ===== src/Lease/Load.antt =====
-- internal/lease/lease.go: `NewAllocator` and `load`.
use auto_pxe.Prelude.{
  ℕ, Bool, true, false, ◌&&◌, ◌||◌, not, Option, none, some, List, [], ◌∷◌, ltb, if◌then◌else◌,
  Text, is_empty, to_lower, lookup, insert, ◌>>=◌, is_some, nat_eq, text_eq,
}
use auto_pxe.Config.{Static, Pool, Dhcp}
use auto_pxe.Net.Canon.{canon}
use auto_pxe.Net.Ip.{Ip, nil, to_4, is_nil}
use auto_pxe.Net.Ip.Parse.{parse_ip}
use auto_pxe.Storage.{Content, document, garbage, Disk}
use auto_pxe.Lease.{
  Lease, LeaseRecord, DeclinedRecord, FileFormat, Allocator, Error, start_after_end, read_failed,
  parse_failed, ip_to_u32, in_pool, static_ip_set,
}
use auto_pxe.Lease.Ops.{after, member}

pub data Result {ℓ} (A : Type ℓ) : Type ℓ where
  ok : A → Result A
  err : Error → Result A

abbrev pub is_valid_record : ℕ → Text → Ip → ℕ → Bool
is_valid_record now m ip expires = not (is_empty m || (is_nil ip || not (after expires now)))

-- The tests of the loop that need the address as a number.
unfoldable pub is_loadable : List ℕ → Allocator → Text → ℕ → Bool
unfolding in_pool member
is_loadable statics a m v =
    not (is_some (lookup m a.static))
    && (in_pool a v && (not (member v statics) && not (is_some (lookup v a.by_ip))))

unfoldable pub restored : Allocator → Text → Ip → ℕ → Lease
restored a m ip expires = record {
  mac = m;
  ip = ip;
  gateway = a.default_gateway;
  dns = a.default_dns;
  hostname = [];
  expires = expires;
  static = false;
}

-- The body of the loop over `f.Leases`.
unfoldable pub load_lease : ℕ → List ℕ → Text × LeaseRecord → Allocator → Option Allocator
unfolding canon to_4 parse_ip is_empty is_loadable restored
load_lease now statics (mac, rec) a =
    let m = canon mac in
    let ip = to_4 (parse_ip rec.ip) in
    if is_valid_record now m ip rec.expires
    then (do
      v ← ip_to_u32 ip
      some (
          if is_loadable statics a m v
          then record a {
            dynamic = insert m (restored a m ip rec.expires) a.dynamic;
            by_ip = insert v m a.by_ip;
          }
          else a))
    else some a

unfoldable pub load_leases : ℕ → List ℕ → List (Text × LeaseRecord) → Allocator → Option Allocator
unfolding load_lease
load_leases now statics [] a = some a
load_leases now statics (e ∷ es) a = do
  a' ← load_lease now statics e a
  load_leases now statics es a'

-- The body of the loop over `f.Declined`.
unfoldable pub load_declined : ℕ → List ℕ → Text × DeclinedRecord → Allocator → Option Allocator
unfolding canon to_4 parse_ip in_pool member
load_declined now statics (address, rec) a =
    let ip = to_4 (parse_ip address) in
    if is_nil ip || not (after rec.expires_at now) then some a else (do
      v ← ip_to_u32 ip
      some (
          if in_pool a v && not (member v statics)
          then record a {
            declined =
                insert v (record { mac = canon rec.mac; expires_at = rec.expires_at }) a.declined;
          }
          else a))

unfoldable pub load_all_declined :
    ℕ → List ℕ → List (Text × DeclinedRecord) → Allocator → Option Allocator
unfolding load_declined
load_all_declined now statics [] a = some a
load_all_declined now statics (e ∷ es) a = do
  a' ← load_declined now statics e a
  load_all_declined now statics es a'

unfoldable pub load_content :
    ℕ → Option (Content FileFormat) → Allocator → Option (Result Allocator)
unfolding static_ip_set load_leases load_all_declined
load_content now none a = some (ok a)
load_content now (some garbage) a = some (err parse_failed)
load_content now (some (document f)) a = do
  statics ← static_ip_set a.static
  a1 ← load_leases now statics f.leases a
  a2 ← load_all_declined now statics f.declined a1
  some (ok a2)

-- `load`. Reading a file that exists may fail.
unfoldable pub load : ℕ → Bool → Disk FileFormat → Allocator → Option (Result Allocator)
unfolding is_empty load_content
load now readable d a =
    if is_empty a.lease_file
    then some (ok a)
    else (if readable then load_content now d.file a else some (err read_failed))

abbrev or_default : Ip → Ip → Ip
or_default nil d = d
or_default ip d = ip

unfoldable pub static_lease : Dhcp → Static → Lease
unfolding to_lower
static_lease c s = record {
  mac = to_lower s.mac;
  ip = s.parsed_ip;
  gateway = or_default s.parsed_gateway c.parsed_gateway;
  dns = if is_empty s.parsed_dns then c.parsed_dns else s.parsed_dns;
  hostname = s.hostname;
  expires = 0;
  static = true;
}

unfoldable pub static_leases : Dhcp → List Static → List (Text × Lease) → List (Text × Lease)
unfolding static_lease
static_leases c [] out = out
static_leases c (s ∷ ss) out = static_leases c ss (insert (to_lower s.mac) (static_lease c s) out)

-- Both ends of the pool, where they are configured.
unfoldable pub pool_range : Pool → Option (Option (ℕ × ℕ))
unfolding ip_to_u32
pool_range p = if is_nil p.parsed_start || is_nil p.parsed_end then some none else (do
  start ← ip_to_u32 p.parsed_start
  end ← ip_to_u32 p.parsed_end
  some (some (start, end)))

abbrev pub base : Dhcp → Allocator
base c = record {
  lease_file = c.lease_file;
  default_gateway = c.parsed_gateway;
  default_dns = c.parsed_dns;
  lease_time = c.parsed_lease;
  static = static_leases c c.static [];
  has_pool = false;
  pool_start = 0;
  pool_end = 0;
  dynamic = [];
  by_ip = [];
  declined = [];
}

unfoldable pub with_pool : Allocator → Option (ℕ × ℕ) → Result Allocator
with_pool a none = ok a
with_pool a (some (start, end)) =
    if ltb end start
    then err start_after_end
    else ok (record a { has_pool = true; pool_start = start; pool_end = end })

abbrev pub and_load : ℕ → Bool → Disk FileFormat → Result Allocator → Option (Result Allocator)
and_load now readable d (ok a) = load now readable d a
and_load now readable d (err e) = some (err e)

-- `NewAllocator`
unfoldable pub new_allocator : ℕ → Bool → Disk FileFormat → Dhcp → Option (Result Allocator)
unfolding load static_leases pool_range with_pool
new_allocator now readable d c = do
  range ← pool_range c.pool
  and_load now readable d (with_pool (base c) range)
