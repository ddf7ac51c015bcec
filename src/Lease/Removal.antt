-- ===== src/Lease/Removal.antt =====
-- The operations that take leases away: `Release`, `Decline`, `ClearDynamic`.
use mathlib.Core.Path.{subst}
use auto_pxe.Prelude.{
  ℕ, ◌+◌, ◌*◌, ◌≡◌, refl, sym, false, Option, none, some, arith, Text, lookup, nat_eq, text_eq,
  Distinct-insert, lookup-delete, lookup-insert, inl, inr, Bool-cases, is_empty, not, ◌&&◌, Returns,
}
use auto_pxe.Net.Canon.{canon}
use auto_pxe.Net.Ip.{Ip, to_4, to_4-cases, is_nil, equal_4}
use auto_pxe.Storage.{Disk, Io}
use auto_pxe.Lease.{Lease, FileFormat, Allocator, Done, ip_to_u32, in_pool}
use auto_pxe.Lease.Ops.{forget, member, save_locked}
use auto_pxe.Lease.Linked.{Linked-nil}
use auto_pxe.Lease.Freeing.{release, release_found, evict, hold_out, decline, clear_dynamic}
use auto_pxe.Lease.Invariant.{Inv, save_locked-state, forget-Inv}

saved-Inv : (io : Io) (a : Allocator) (d : Disk FileFormat) → Inv a → Inv (save_locked io a d).state
saved-Inv io a d i = subst Inv (sym (save_locked-state io a d)) i

pub ip_to_u32-to_4 : (ip : Ip) → is_nil (to_4 ip) ≡ false → (v : ℕ) × (ip_to_u32 (to_4 ip) ≡ some v)
unfolding ip_to_u32
ip_to_u32-to_4 ip h = elim (to_4-cases ip) [
  | inl e ↦ cc (e)
  | inr (a, b, c, d, e) ↦ (a * 16777216 + b * 65536 + c * 256 + d, rw e)
]

-- The call does not panic, and the state that it leaves has the invariant.
abbrev pub KeepsInv : Option Done → Type 0
KeepsInv = Returns λ r. Inv r.state

module _ (a : Allocator) (i : Inv a) (d : Disk FileFormat) (io : Io) where
  release_found-Inv :
      (m : Text) (ip : Ip) (o : Option Lease)
      → lookup m a.dynamic ≡ o
      → KeepsInv (release_found io m ip a d o)
  unfolding release_found
  release_found-Inv m ip none e = i
  release_found-Inv m ip (some l) e =
      elim (Bool-cases (not (is_nil (to_4 ip)) && not (equal_4 l.ip (to_4 ip)))) [
        | inl other ↦ rw other i
        | inr same ↦
            let (v, at, _) = i.linked.indexed m l e in
            rw (same, at) (saved-Inv io (forget m v a) d (forget-Inv a i m l v e at))
      ]

  -- In a state with the invariant `Release` does not panic, and it keeps the invariant.
  pub release-Inv : (mac : Text) (ip : Ip) → KeepsInv (release io mac ip a d)
  unfolding release
  release-Inv mac ip = elim (Bool-cases (is_empty (canon mac))) [
    | inl none_given ↦ rw none_given i
    | inr given ↦ rw given (release_found-Inv (canon mac) ip _ refl)
  ]

  -- In a state with the invariant `ClearDynamic` keeps it.
  pub clear_dynamic-Inv : Inv (clear_dynamic io a d).state
  unfolding clear_dynamic lookup in_pool
  clear_dynamic-Inv = saved-Inv io _ d (record {
    linked = Linked-nil;
    range = i.range;
    declined_distinct = tt;
    statics = i.statics;
    statics_lem = i.statics_lem;
    free = λ v m h. absurd (ground arith);
    unbound = λ m l h. absurd (ground arith);
  })

-- The address `v` has no owner in `b`, which differs from `a` in the leases only.
record Evicted (a b : Allocator) (v : ℕ) : Type 0 where
  inv : Inv b
  unowned : lookup v b.by_ip ≡ none

evict-Evicted :
    (a : Allocator) (v : ℕ) (o : Option Text)
    → Inv a
    → lookup v a.by_ip ≡ o
    → Evicted a (evict v o a) v
unfolding evict forget
evict-Evicted a v none i e = record { inv = i; unowned = e }
evict-Evicted a v (some owner) i e =
    let (l, held, at) = i.linked.owned v owner e in
    record {
      inv = forget-Inv a i owner l v held at;
      unowned = ground (arith, lookup-delete v v a.by_ip);
    }

hold_out-Inv :
    (now : ℕ) (m : Text) (v : ℕ) (a : Allocator) (i : Inv a)
    → lookup v a.by_ip ≡ none
    → Inv (hold_out now m v i.statics a)
unfolding hold_out in_pool
hold_out-Inv now m v a i u = elim (Bool-cases (not (member v i.statics) && in_pool a v)) [
  | inr outside ↦ rw outside i
  | inl inside ↦ rw inside (record {
    linked = i.linked;
    range = i.range;
    declined_distinct = Distinct-insert v _ a.declined i.declined_distinct;
    statics = i.statics;
    statics_lem = i.statics_lem;
    free = λ w n h.
        let (p, q, r) = i.free w n h in
        (
          p,
          q,
          ground (
            arith,
            lookup-insert v w (record { mac = m; expires_at = now + a.lease_time }) a.declined,
          ),
        );
    unbound = i.unbound;
  })
]

-- In a state with the invariant `Decline` does not panic, and it keeps the invariant.
pub decline-Inv :
    (now : ℕ) (io : Io) (mac : Text) (ip : Ip) (a : Allocator) (d : Disk FileFormat)
    → Inv a
    → KeepsInv (decline now io mac ip a d)
unfolding decline
decline-Inv now io mac ip a d i = elim (Bool-cases (is_nil (to_4 ip))) [
  | inl bad ↦ rw bad i
  | inr good ↦
      let (v, at) = ip_to_u32-to_4 ip good in
      let e = evict-Evicted a v _ i refl in
      rw (good, at, e.inv.statics_lem)
        (saved-Inv io _ d (hold_out-Inv now (canon mac) v _ e.inv e.unowned))
]
