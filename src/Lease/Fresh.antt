-- ===== src/Lease/Fresh.antt =====
-- A client with no lease: it gets the lowest address that is available, and is refused only if none is.
use mathlib.Core.Path.{subst}
use auto_pxe.Prelude.{
  ℕ, ◌≤◌, ◌<◌, ◌≡◌, refl, sym, Bool, true, false, Option, none, some, List, arith, Text, lookup,
  nat_eq, text_eq, inl, inr, Option-cases, is_empty, ◌||◌, Returns, is_some, not, ◌&&◌, ◌⊎◌, ◌∙◌,
}
use auto_pxe.Net.Canon.{canon}
use auto_pxe.Storage.{Disk, Io, succeeds}
use auto_pxe.Lease.{Lease, FileFormat, Allocator, Done, pool_exhausted, u32_to_ip, static_ip_set}
use auto_pxe.Lease.Ops.{
  member, is_taken, Search, found, exhausted, out_of_fuel, search_pool, pool_size, fresh_lease,
  bind_lease, allocate_found, allocate_fresh, allocate_canonical, allocate, unexpired, or_unexpired,
  still_declined, lookup_lease,
}
use auto_pxe.Lease.Saved.{save_locked-error}
use auto_pxe.Lease.Search.{Searched, search_pool-Searched}
use auto_pxe.Lease.Reap.{Swept, reap_expired-Swept, lookup-reap_declined}
use auto_pxe.Lease.Invariant.{Inv, swept, kept_owner}

-- The owner of an address, if any, has a lease whose time has not run out.
abbrev pub is_leased : ℕ → Allocator → Option Text → Bool
is_leased now a none = false
is_leased now a (some m) = is_some (unexpired now (lookup m a.dynamic))

-- Leased, bound by the configuration, or declined a short time ago.
abbrev pub is_unavailable : ℕ → Allocator → List ℕ → ℕ → Bool
is_unavailable now a statics v =
    is_leased now a (lookup v a.by_ip)
    || (member v statics || still_declined now (lookup v a.declined))

allocate_fresh_in_pool :
    (now : ℕ) (io : Io) (m : Text) (b : Allocator) (d : Disk FileFormat) (statics : List ℕ)
    → b.has_pool ≡ true
    → static_ip_set b.static ≡ some statics
    → allocate_fresh now io m b d
      ≡ some (
          allocate_found now io m b d
            (search_pool (is_taken b statics now) b.pool_end (pool_size b) b.pool_start))
unfolding allocate_fresh
allocate_fresh_in_pool now io m b d statics p e = simp (p, e)

module _ (now : ℕ) (a : Allocator) (i : Inv a) where
  unfoldable pub s : Swept now a
  s = reap_expired-Swept now a i.linked

  swept_owner :
      (v : ℕ) (o : Option Text)
      → lookup v s.by_ip ≡ o
      → is_some o ≡ is_leased now a (lookup v a.by_ip)
  swept_owner v (some m) e =
      let (l, held, at) = s.linked.owned v m e in
      let kept : lookup v a.by_ip ≡ some m = kept_owner a i now s v m e in ground (arith, s.left m)
  swept_owner v none e = elim (Option-cases (lookup v a.by_ip)) [
    | inl free ↦ rw free refl
    | inr (m, own) ↦
        let (l, held, at) = i.linked.owned v m own in
        elim (Option-cases (lookup m s.dynamic)) [
          | inl gone ↦ ground (arith, s.left m)
          | inr (k, kept) ↦
              let (w, at', own') = s.linked.indexed m k kept in ground (arith, s.left m)
        ]
  ]

  is_taken-swept :
      (v : ℕ) → is_taken (swept a i now s) i.statics now v ≡ is_unavailable now a i.statics v
  unfolding is_taken swept
  is_taken-swept v = ground (
    arith,
    swept_owner v (lookup v s.by_ip) refl,
    lookup-reap_declined now v a.declined i.declined_distinct,
  )

  -- The error is that of the save: there is one if there is a lease file, and replacing it fails.
  abbrev pub IsSaved : Io → Done → Type 0
  IsSaved io r = is_some r.error ≡ (not (is_empty a.lease_file) && not (succeeds io))

  -- What a client without a lease gets.
  abbrev pub NewLease : Io → Done × Option Lease → Type 0
  NewLease io r =
      ((v : ℕ) × (l : Lease) × (r.1 ≡ some l)
        × IsSaved io r.0
        × (l.ip ≡ u32_to_ip v)
        × (a.pool_start ≤ v)
        × (v ≤ a.pool_end)
        × (is_unavailable now a i.statics v ≡ false)
        × ((x : ℕ) → a.pool_start ≤ x → x < v → is_unavailable now a i.statics x ≡ true))
      ⊎ ((r.1 ≡ none)
          × (r.0.error ≡ some pool_exhausted)
          × ((x : ℕ) → a.pool_start ≤ x → x ≤ a.pool_end → is_unavailable now a i.statics x ≡ true))

  module _ (io : Io) (m : Text) (d : Disk FileFormat) where
    allocate_found-NewLease :
        (r : Search)
        → Searched (is_taken (swept a i now s) i.statics now) a.pool_start a.pool_end r
        → NewLease io (allocate_found now io m (swept a i now s) d r)
    unfolding allocate_found fresh_lease swept bind_lease
    allocate_found-NewLease exhausted h =
        inr (refl, refl, λ x lo hi. sym (is_taken-swept x) ∙ h x lo hi)
    allocate_found-NewLease out_of_fuel h = elim h [ ]
    allocate_found-NewLease (found v) (lo, hi, free, first) = inl (
      v,
      _,
      refl,
      save_locked-error io _ d,
      refl,
      lo,
      hi,
      sym (is_taken-swept v) ∙ free,
      λ x le lt. sym (is_taken-swept x) ∙ first x le lt,
    )

    allocate_canonical-NewLease :
        (o : Option Lease)
        → lookup m a.static ≡ o
        → or_unexpired now o (lookup m a.dynamic) ≡ none
        → a.has_pool ≡ true
        → Returns (NewLease io) (allocate_canonical now io m a d o)
    unfolding allocate_canonical swept
    allocate_canonical-NewLease (some l) e h p = cc
    allocate_canonical-NewLease none e h p =
        let gone : lookup m s.dynamic ≡ none = ground (arith, s.left m) in
        let (le, word) = i.range p in
        rw (s.result, gone)
          (subst (Returns (NewLease io))
            (sym (allocate_fresh_in_pool now io m (swept a i now s) d i.statics p i.statics_lem))
            (allocate_found-NewLease _
              (search_pool-Searched _ a.pool_end word (pool_size a) a.pool_start le (omega arith))))

-- In a state with the invariant and with a pool, a client with a non-empty MAC that `Lookup` finds no
-- lease for is given the lowest address of the pool that is neither leased, nor bound by the
-- configuration, nor declined until later; with it comes an error if there is a lease file and writing it
-- fails, and none otherwise. If there is no such address, and only then, it gets no lease, and the error
-- that the pool is exhausted.
pub allocate-NewLease :
    (now : ℕ) (io : Io) (mac : Text) (a : Allocator) (d : Disk FileFormat) (i : Inv a)
    → is_empty (canon mac) ≡ false
    → a.has_pool ≡ true
    → lookup_lease now mac a ≡ none
    → Returns (NewLease now a i io) (allocate now io mac a d)
unfolding allocate lookup_lease
allocate-NewLease now io mac a d i given p h =
    rw given (allocate_canonical-NewLease now a i io (canon mac) d _ refl h p)
