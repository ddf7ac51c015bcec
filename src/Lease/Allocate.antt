-- ===== src/Lease/Allocate.antt =====
-- `Allocate` does not panic and keeps the invariant.
use mathlib.Core.Path.{subst}
use auto_pxe.Prelude.{
  ℕ, ◌≡◌, refl, sym, true, Option, none, some, List, [], ◌∷◌, arith, Text, lookup, insert, nat_eq,
  text_eq, Distinct, lookup-insert, text_beq_iff, inl, inr, Bool-cases, Option-cases, is_empty,
  Returns, OnSome, is_some, ◌=?◌,
}
use auto_pxe.Net.Canon.{canon}
use auto_pxe.Storage.{Disk, Io}
use auto_pxe.Lease.{
  Lease, FileFormat, DeclinedLease, Allocator, Done, ip_to_u32-u32_to_ip, in_pool, static_ip_set,
}
use auto_pxe.Lease.Ops.{
  reap_declined, save_locked, is_taken, Search, found, exhausted, out_of_fuel, pool_size,
  fresh_lease, allocate_found, allocate_fresh, renew, allocate_dynamic, allocate_canonical,
  allocate, still_declined, reap_expired,
}
use auto_pxe.Lease.Linked.{Linked-renew}
use auto_pxe.Lease.Search.{Searched, search_pool-Searched}
use auto_pxe.Lease.Reap.{Swept, reap_expired-Swept, unexpired_declined, lookup-reap_declined}
use auto_pxe.Lease.Invariant.{bind_lease-Inv, Inv, save_locked-state, swept, swept-Inv}

-- The call does not panic, and the state that it leaves has the invariant.
abbrev pub Keeps : Option (Done × Option Lease) → Type 0
Keeps = Returns λ r. Inv r.0.state

-- Every declined address is still held out, as after `reapExpiredLocked`.
abbrev pub AllHeld : ℕ → Allocator → Type 0
AllHeld now a = (v : ℕ) → still_declined now (lookup v a.declined) ≡ is_some (lookup v a.declined)

saved-Keeps :
    (io : Io) (a : Allocator) (d : Disk FileFormat) (l : Option Lease)
    → Inv a
    → Keeps (some (save_locked io a d, l))
saved-Keeps io a d l i = subst Inv (sym (save_locked-state io a d)) i

static_ip_set-insert :
    (m : Text) (l l' : Lease) (s : List (Text × Lease))
    → lookup m s ≡ some l
    → l'.ip ≡ l.ip
    → static_ip_set (insert m l' s) ≡ static_ip_set s
unfolding static_ip_set lookup insert
static_ip_set-insert m l l' [] h e = cc
static_ip_set-insert m l l' ((n, r) ∷ s) h e = elim (Bool-cases (n =? m)) [
  | inl here ↦ rw here (ground arith)
  | inr there ↦ rw (there, static_ip_set-insert m l l' s (ground arith) e)
]

module _ (now : ℕ) (io : Io) (m : Text) (a : Allocator) (d : Disk FileFormat) (i : Inv a) where
  allocate_found-Inv :
      (s : Search)
      → a.has_pool ≡ true
      → AllHeld now a
      → lookup m a.dynamic ≡ none
      → lookup m a.static ≡ none
      → Searched (is_taken a i.statics now) a.pool_start a.pool_end s
      → Inv (allocate_found now io m a d s).0.state
  unfolding allocate_found is_taken in_pool fresh_lease
  allocate_found-Inv exhausted p held fresh unbound h = i
  allocate_found-Inv out_of_fuel p held fresh unbound h = i
  allocate_found-Inv (found v) p held fresh unbound (lo, hi, free, first) =
      subst Inv (sym (save_locked-state io _ d)) (
        bind_lease-Inv m a i v (fresh_lease a now m v) fresh unbound (ground (arith, held v))
          (ip_to_u32-u32_to_ip v (ground (arith, i.range p)))
          (ground arith, ground (arith, held v), ground (arith, held v)))

  allocate_fresh-Inv :
      AllHeld now a
      → lookup m a.dynamic ≡ none
      → lookup m a.static ≡ none
      → Keeps (allocate_fresh now io m a d)
  unfolding allocate_fresh
  allocate_fresh-Inv held fresh unbound = elim (Bool-cases a.has_pool) [
    | inr no_pool ↦ simp no_pool i
    | inl p ↦
        let (le, word) = i.range p in
        simp (p, i.statics_lem)
          (allocate_found-Inv _ p held fresh unbound (
            search_pool-Searched (is_taken a i.statics now) a.pool_end word (pool_size a)
              a.pool_start le (omega arith)))
  ]

  allocate_dynamic-Inv :
      (o : Option Lease)
      → lookup m a.dynamic ≡ o
      → AllHeld now a
      → lookup m a.static ≡ none
      → Keeps (allocate_dynamic now io m a d o)
  unfolding allocate_dynamic renew in_pool
  allocate_dynamic-Inv none e held unbound = allocate_fresh-Inv held e unbound
  allocate_dynamic-Inv (some l) e held unbound = saved-Keeps io _ d (some (renew now a l)) (record {
    linked = Linked-renew i.linked m l (renew now a l) e refl;
    range = i.range;
    declined_distinct = i.declined_distinct;
    statics = i.statics;
    statics_lem = i.statics_lem;
    free = i.free;
    unbound = λ n r h. elim (Bool-cases (m =? n)) [
      | inl q ↦ rw (← (text_beq_iff m n).0 q) unbound
      | inr q ↦ i.unbound n r (ground (arith, lookup-insert m n (renew now a l) a.dynamic))
    ];
  })

  allocate_static-Inv :
      (l : Lease) → lookup m a.static ≡ some l → Keeps (allocate_canonical now io m a d (some l))
  unfolding allocate_canonical renew in_pool
  allocate_static-Inv l e = record {
    linked = i.linked;
    range = i.range;
    declined_distinct = i.declined_distinct;
    statics = i.statics;
    statics_lem = rw (static_ip_set-insert m l (renew now a l) a.static e refl) i.statics_lem;
    free = i.free;
    unbound = λ n r h.
        ground
          (arith, i.unbound n r h, lookup-insert m n (renew now a l) a.static, text_beq_iff m n);
  }

held_or_gone :
    (now : ℕ) (o : Option DeclinedLease)
    → still_declined now (unexpired_declined now o) ≡ is_some (unexpired_declined now o)
held_or_gone now o = ground arith

AllHeld-reap_declined :
    (now : ℕ) (m : List (ℕ × DeclinedLease))
    → Distinct m
    → (v : ℕ)
    → still_declined now (lookup v (reap_declined now m m))
      ≡ is_some (lookup v (reap_declined now m m))
AllHeld-reap_declined now m d v =
    rw (lookup-reap_declined now v m d) (held_or_gone now (lookup v m))

allocate_canonical-Inv :
    (now : ℕ) (io : Io) (m : Text) (a : Allocator) (d : Disk FileFormat) (i : Inv a)
    (o : Option Lease)
    → lookup m a.static ≡ o
    → Keeps (allocate_canonical now io m a d o)
unfolding allocate_canonical swept
allocate_canonical-Inv now io m a d i (some l) e = allocate_static-Inv now io m a d i l e
allocate_canonical-Inv now io m a d i none e = rw s.result (
    allocate_dynamic-Inv now io m (swept a i now s) d (swept-Inv a i now s) _ refl
      (AllHeld-reap_declined now a.declined i.declined_distinct) e)
  where
    s : Swept now a
    s = reap_expired-Swept now a i.linked

-- In a state with the invariant `Allocate` does not panic, and it keeps the invariant, with or
-- without a write error.
pub allocate-Inv :
    (now : ℕ) (io : Io) (mac : Text) (a : Allocator) (d : Disk FileFormat)
    → Inv a
    → Keeps (allocate now io mac a d)
unfolding allocate
allocate-Inv now io mac a d i = elim (Bool-cases (is_empty (canon mac))) [
  | inl none_given ↦ rw none_given i
  | inr given ↦ rw given (allocate_canonical-Inv now io (canon mac) a d i _ refl)
]

-- A call without an error has a lease.
abbrev pub HasLease : Done × Option Lease → Type 0
HasLease r = r.0.error ≡ none → is_some r.1 ≡ true

allocate_fresh-HasLease :
    (now : ℕ) (io : Io) (m : Text) (a : Allocator) (d : Disk FileFormat)
    → OnSome HasLease (allocate_fresh now io m a d)
unfolding allocate_fresh
allocate_fresh-HasLease now io m a d = elim (Bool-cases a.has_pool) [
  | inr no_pool ↦ simp no_pool (λ e. cc)
  | inl p ↦ elim (Option-cases (static_ip_set a.static)) [
    | inl e ↦ simp (p, e) tt
    | inr (vs, e) ↦ simp (p, e) (found_or_error _)
  ]
]
  where
    found_or_error : (s : Search) → HasLease (allocate_found now io m a d s)
    found_or_error (found v) e = refl
    found_or_error exhausted e = cc
    found_or_error out_of_fuel e = cc

pub allocate-HasLease :
    (now : ℕ) (io : Io) (mac : Text) (a : Allocator) (d : Disk FileFormat)
    → OnSome HasLease (allocate now io mac a d)
unfolding allocate
allocate-HasLease now io mac a d = elim (Bool-cases (is_empty (canon mac))) [
  | inl e ↦ rw e (λ h. cc)
  | inr e ↦ rw e (canonical (lookup (canon mac) a.static))
]
  where
    dynamic :
        (b : Allocator) (o : Option Lease)
        → OnSome HasLease (allocate_dynamic now io (canon mac) b d o)
    dynamic b none = allocate_fresh-HasLease now io (canon mac) b d
    dynamic b (some l) = λ h. refl

    canonical : (o : Option Lease) → OnSome HasLease (allocate_canonical now io (canon mac) a d o)
    canonical (some l) = λ h. refl
    canonical none = elim (Option-cases (reap_expired now a)) [
      | inl e ↦ rw e tt
      | inr (b, e) ↦ rw e (dynamic b (lookup (canon mac) b.dynamic))
    ]
