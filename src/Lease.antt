-- ===== src/Lease.antt =====
-- internal/lease/lease.go: the types of the allocator, and its addresses as numbers of 32 bits.
-- Time is a number of nanoseconds; 0 is the zero time.
pub mod Ops
pub mod Freeing
pub mod Saved
pub mod Linked
pub mod Search
pub mod Reap
pub mod Invariant
pub mod Removal
pub mod Allocate
pub mod Load
pub mod Restore
pub mod Startup
pub mod Apart
pub mod Grants
pub mod Fresh
pub mod Held
pub mod Panic
pub mod History
pub mod Steady
pub mod Room
pub mod Capacity
pub mod Tests
use auto_pxe.Prelude.{
  ℕ, ◌+◌, ◌*◌, ◌/◌, ◌%◌, ◌≤◌, ◌<◌, ◌≡◌, refl, Bool, true, false, ◌&&◌, Option, none, some, List, [],
  ◌∷◌, leb, Text, ◌>>=◌, arith,
}
use auto_pxe.Net.Ip.{Ip, nil, v4, v16, to_4}
use auto_pxe.Storage.{Disk, IoError}

pub record Lease : Type 0 where
  pub mac : Text
  pub ip : Ip
  pub gateway : Ip
  pub dns : List Ip
  pub hostname : Text
  pub expires : ℕ
  pub static : Bool

pub record LeaseRecord : Type 0 where
  pub ip : Text
  pub expires : ℕ

pub record DeclinedRecord : Type 0 where
  pub mac : Text
  pub expires_at : ℕ

-- The lease file. A map that is absent from it is empty.
pub record FileFormat : Type 0 where
  pub version : ℕ
  pub leases : List (Text × LeaseRecord)
  pub declined : List (Text × DeclinedRecord)

pub record DeclinedLease : Type 0 where
  pub mac : Text
  pub expires_at : ℕ

-- The clock and the outcome of file operations are arguments of the calls. The mutex makes each
-- call one step.
pub record Allocator : Type 0 where
  pub lease_file : Text
  pub default_gateway : Ip
  pub default_dns : List Ip
  pub lease_time : ℕ
  pub static : List (Text × Lease)
  pub has_pool : Bool
  pub pool_start : ℕ
  pub pool_end : ℕ
  pub dynamic : List (Text × Lease)
  pub by_ip : List (ℕ × Text)
  pub declined : List (ℕ × DeclinedLease)

pub data Error : Type 0 where
  empty_mac no_pool pool_exhausted invalid_declined_ip start_after_end read_failed parse_failed :
      Error
  io_failed : IoError → Error

-- The state after a call, and the error that it returns.
pub record Done : Type 0 where
  pub state : Allocator
  pub disk : Disk FileFormat
  pub error : Option Error

u32_of : Ip → Option ℕ
u32_of (v4 a b c d) = some (a * 16777216 + b * 65536 + c * 256 + d)
u32_of nil = none
u32_of (v16 _ _ _ _ _ _ _ _) = none

-- `none` is the panic of indexing a nil slice.
unfoldable pub ip_to_u32 : Ip → Option ℕ
unfolding u32_of to_4
ip_to_u32 ip = u32_of (to_4 ip)

unfoldable pub u32_to_ip : ℕ → Ip
u32_to_ip v = v4 (v / 16777216 % 256) (v / 65536 % 256) (v / 256 % 256) (v % 256)

-- The numbers of the addresses are below 2 ^ 32.
pub ip_to_u32-u32_to_ip : (v : ℕ) → v < 4294967296 → ip_to_u32 (u32_to_ip v) ≡ some v
unfolding ip_to_u32 u32_to_ip
ip_to_u32-u32_to_ip v h = ground arith

unfoldable pub in_pool : Allocator → ℕ → Bool
in_pool a v = a.has_pool && (leb a.pool_start v && leb v a.pool_end)

-- The set of addresses with a static binding, as a list.
unfoldable pub static_ip_set : List (Text × Lease) → Option (List ℕ)
unfolding ip_to_u32
static_ip_set [] = some []
static_ip_set ((_, l) ∷ ls) = do v ← ip_to_u32 l.ip; vs ← static_ip_set ls; some (v ∷ vs)
