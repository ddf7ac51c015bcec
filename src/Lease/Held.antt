-- ===== src/Lease/Held.antt =====
-- `Decline`: the address is held out for one lease time.
use mathlib.Core.Path.{subst}
use auto_pxe.Prelude.{
  ℕ, ◌+◌, ◌<◌, ◌≡◌, refl, sym, ◌≢◌, true, false, Option, none, some, List, arith, Text, lookup,
  insert, nat_eq, text_eq, lookup-insert_self, lookup-delete_self, lookup-delete, text_beq_iff,
  Returns, ◌∙◌, ap,
}
use auto_pxe.Net.Canon.{canon}
use auto_pxe.Net.Ip.{Ip}
use auto_pxe.Storage.{Disk, Io}
use auto_pxe.Lease.{Lease, FileFormat, Allocator, ip_to_u32, in_pool, static_ip_set}
use auto_pxe.Lease.Ops.{member}
use auto_pxe.Lease.Invariant.{Inv, save_locked-state}
use auto_pxe.Net.Ip.{to_4, is_nil}
use auto_pxe.Lease.Freeing.{evict, hold_out, decline}
use auto_pxe.Lease.Fresh.{is_unavailable}

evict_clears :
    (a : Allocator) (v : ℕ) (o : Option Text)
    → lookup v a.by_ip ≡ o
    → (lookup v (evict v o a).by_ip ≡ none)
      × ((evict v o a).static ≡ a.static)
      × (in_pool (evict v o a) v ≡ in_pool a v)
      × ((evict v o a).lease_time ≡ a.lease_time)
unfolding evict in_pool
evict_clears a v none e = (e, refl, refl, refl)
evict_clears a v (some owner) e = (lookup-delete_self v a.by_ip, refl, refl, refl)

-- No client has a lease of the address, and the one that had it has none at all.
abbrev pub HasLost : Allocator → ℕ → List (Text × Lease) → Type 0
HasLost a v dynamic =
    ((owner : Text) → lookup v a.by_ip ≡ some owner → lookup owner dynamic ≡ none)
    × ((m : Text) (l : Lease) → lookup m dynamic ≡ some l → ip_to_u32 l.ip ≢ some v)

abbrev pub IsEvicted : Allocator → ℕ → Allocator → Type 0
IsEvicted a v b = HasLost a v b.dynamic

evict-IsEvicted :
    (a : Allocator) (v : ℕ) (o : Option Text)
    → Inv a
    → lookup v a.by_ip ≡ o
    → IsEvicted a v (evict v o a)
unfolding evict
evict-IsEvicted a v none i e = (
  λ owner h. cc (e, h),
  λ m l h at. let (w, at', own) = i.linked.indexed m l h in absurd (ground arith),
)
evict-IsEvicted a v (some o) i e = (
  λ owner h. ground (arith, lookup-delete_self o a.dynamic),
  λ m l h at.
      let (w, at', own) = i.linked.indexed m l (ground (arith, lookup-delete o m a.dynamic)) in
      absurd (ground (arith, lookup-delete o m a.dynamic, text_beq_iff o m)),
)

hold_out-dynamic :
    (now : ℕ) (m : Text) (v : ℕ) (statics : List ℕ) (a : Allocator)
    → (hold_out now m v statics a).dynamic ≡ a.dynamic
unfolding hold_out
hold_out-dynamic now m v statics a = ground arith

-- The address `v` has no owner, is declined until `until`, and is not available before that.
abbrev pub IsHeld : Text → ℕ → List ℕ → ℕ → Allocator → Type 0
IsHeld m until statics v a =
    (lookup v a.by_ip ≡ none)
    × (lookup v a.declined ≡ some (record { mac = m; expires_at = until }))
    × ((later : ℕ) → later < until → is_unavailable later a statics v ≡ true)

hold_out-IsHeld :
    (now : ℕ) (m : Text) (v : ℕ) (statics : List ℕ) (a : Allocator)
    → lookup v a.by_ip ≡ none
    → in_pool a v ≡ true
    → member v statics ≡ false
    → IsHeld m (now + a.lease_time) statics v (hold_out now m v statics a)
unfolding hold_out
hold_out-IsHeld now m v statics a unowned inside unbound =
    simp (inside, unbound) (unowned, self, λ later h. ground (arith, self))
  where
    self :
        lookup v (insert v (record { mac = m; expires_at = now + a.lease_time }) a.declined)
        ≡ some (record { mac = m; expires_at = now + a.lease_time })
    self = lookup-insert_self v _ a.declined

-- In a state with the invariant, a declined address of the pool with no static binding loses its
-- owner, which has no dynamic lease any more, and no client has a dynamic lease of the address. It is
-- recorded with the client that declined it, and in the state that `Decline` leaves it is unavailable to
-- new leases at every time before one lease time has passed.
pub decline-IsHeld :
    (now : ℕ) (io : Io) (mac : Text) (ip : Ip) (a : Allocator) (d : Disk FileFormat) (i : Inv a)
    (v : ℕ)
    → is_nil (to_4 ip) ≡ false
    → ip_to_u32 (to_4 ip) ≡ some v
    → in_pool a v ≡ true
    → member v i.statics ≡ false
    → Returns
        (λ r. IsHeld (canon mac) (now + a.lease_time) i.statics v r.state × IsEvicted a v r.state)
        (decline now io mac ip a d)
unfolding decline
decline-IsHeld now io mac ip a d i v good at inside unbound =
    let b = evict v (lookup v a.by_ip) a in
    let (gone, same, pool, time) = evict_clears a v (lookup v a.by_ip) refl in
    let statics : static_ip_set b.static ≡ some i.statics = ap static_ip_set same ∙ i.statics_lem in
    let c = hold_out now (canon mac) v i.statics b in
    let held : IsHeld (canon mac) (now + a.lease_time) i.statics v c =
      subst (λ t. IsHeld (canon mac) (now + t) i.statics v c) time
        (hold_out-IsHeld now (canon mac) v i.statics b gone (pool ∙ inside) unbound) in
    let evicted : IsEvicted a v c =
      subst (HasLost a v) (sym (hold_out-dynamic now (canon mac) v i.statics b))
        (evict-IsEvicted a v (lookup v a.by_ip) i refl) in
    rw (good, at, statics)
      (subst (λ x. IsHeld (canon mac) (now + a.lease_time) i.statics v x × IsEvicted a v x)
        (sym (save_locked-state io _ d)) (held, evicted))
