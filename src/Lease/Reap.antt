-- ===== src/Lease/Reap.antt =====
-- `reapExpiredLocked`: what is left of the leases and of the declined addresses.
use auto_pxe.Prelude.{
  ℕ, ◌≡◌, refl, true, false, Option, none, some, List, [], ◌∷◌, arith, Text, lookup, delete, nat_eq,
  text_eq, Distinct, Holds, Holds-self, Holds-delete, lookup-delete, text_beq_iff, if◌then◌else◌,
  inl, inr, Bool-cases,
}
use auto_pxe.Lease.{Lease, DeclinedLease, Allocator, ip_to_u32}
use auto_pxe.Lease.Ops.{
  after, unexpired, forget, reap_lease, reap_leases, reap_declined, reap_expired,
}
use auto_pxe.Lease.Linked.{Linked, Linked-forget}

-- What an entry leaves under its key, and otherwise what the map held.
abbrev left_declined : ℕ → Option DeclinedLease → Option DeclinedLease → Option DeclinedLease
left_declined now none held = held
left_declined now (some d) held = if after d.expires_at now then some d else none

lookup-reap_entries :
    (now v : ℕ) (es m : List (ℕ × DeclinedLease))
    → Distinct es
    → Holds m es
    → lookup v (reap_declined now es m) ≡ left_declined now (lookup v es) (lookup v m)
unfolding reap_declined lookup
lookup-reap_entries now v [] m d h = refl
lookup-reap_entries now v ((ip, x) ∷ es) m d h = elim (Bool-cases (after x.expires_at now)) [
  | inl live ↦ rw live (ground (arith, lookup-reap_entries now v es m d.1 h.1))
  | inr over ↦ rw over (
      ground (
        arith,
        lookup-delete ip v m,
        lookup-reap_entries now v es (delete ip m) d.1 (Holds-delete ip m es d.0 h.1),
      ))
]

abbrev pub unexpired_declined : ℕ → Option DeclinedLease → Option DeclinedLease
unexpired_declined now o = left_declined now o none

-- Exactly the declined addresses whose time has not run out stay.
pub lookup-reap_declined :
    (now v : ℕ) (m : List (ℕ × DeclinedLease))
    → Distinct m
    → lookup v (reap_declined now m m) ≡ unexpired_declined now (lookup v m)
lookup-reap_declined now v m d = ground (arith, lookup-reap_entries now v m m d (Holds-self m d))

abbrev left_lease : ℕ → Option Lease → Option Lease → Option Lease
left_lease now none held = held
left_lease now (some l) held = unexpired now (some l)

record Reaped (now : ℕ) (es : List (Text × Lease)) (a : Allocator) : Type 0 where
  dynamic : List (Text × Lease)
  by_ip : List (ℕ × Text)
  result : reap_leases now es a ≡ some (record a { dynamic = dynamic; by_ip = by_ip })
  linked : Linked dynamic by_ip
  left : (m : Text) → lookup m dynamic ≡ left_lease now (lookup m es) (lookup m a.dynamic)

module _ (now : ℕ) (m : Text) (l : Lease) (es : List (Text × Lease)) (a : Allocator)
    (fresh : lookup m es ≡ none) (held : lookup m a.dynamic ≡ some l) where
  Reaped-live : after l.expires now ≡ true → Reaped now es a → Reaped now ((m, l) ∷ es) a
  unfolding reap_leases reap_lease lookup
  Reaped-live live r = record {
    dynamic = r.dynamic;
    by_ip = r.by_ip;
    result = rw live r.result;
    linked = r.linked;
    left = λ n. ground (arith, r.left n, text_beq_iff m n);
  }

  Reaped-over :
      (v : ℕ)
      → ip_to_u32 l.ip ≡ some v
      → after l.expires now ≡ false
      → Reaped now es (forget m v a)
      → Reaped now ((m, l) ∷ es) a
  unfolding reap_leases reap_lease lookup forget
  Reaped-over v at over r = record {
    dynamic = r.dynamic;
    by_ip = r.by_ip;
    result = rw (over, at) r.result;
    linked = r.linked;
    left = λ n. ground (arith, r.left n, text_beq_iff m n, lookup-delete m n a.dynamic);
  }

reap_entries :
    (now : ℕ) (es : List (Text × Lease)) (a : Allocator)
    → Linked a.dynamic a.by_ip
    → Distinct es
    → Holds a.dynamic es
    → Reaped now es a
unfolding reap_leases lookup forget
reap_entries now [] a k d h = record {
  dynamic = a.dynamic;
  by_ip = a.by_ip;
  result = refl;
  linked = k;
  left = λ m. refl;
}
reap_entries now ((m, l) ∷ es) a k d h = elim (Bool-cases (after l.expires now)) [
  | inl live ↦ Reaped-live now m l es a d.0 h.0 live (reap_entries now es a k d.1 h.1)
  | inr over ↦
      let (v, at, _) = k.indexed m l h.0 in
      Reaped-over now m l es a d.0 h.0 v at over (
        reap_entries now es (forget m v a) (Linked-forget k m l v h.0 at) d.1
          (Holds-delete m a.dynamic es d.0 h.1))
]

-- What `reapExpiredLocked` leaves: the leases whose time has not run out, linked with their addresses.
pub record Swept (now : ℕ) (a : Allocator) : Type 0 where
  pub dynamic : List (Text × Lease)
  pub by_ip : List (ℕ × Text)
  pub result :
      reap_expired now a
      ≡ some (record a {
        dynamic = dynamic;
        by_ip = by_ip;
        declined = reap_declined now a.declined a.declined;
      })
  pub linked : Linked dynamic by_ip
  pub left : (m : Text) → lookup m dynamic ≡ unexpired now (lookup m a.dynamic)

-- If every lease is linked with its address, `reapExpiredLocked` does not panic, it drops exactly the
-- leases whose time has run out and reaps the declined addresses, and what stays is linked.
pub reap_expired-Swept : (now : ℕ) (a : Allocator) → Linked a.dynamic a.by_ip → Swept now a
unfolding reap_expired
reap_expired-Swept now a k = record {
  dynamic = r.dynamic;
  by_ip = r.by_ip;
  result = rw r.result;
  linked = r.linked;
  left = λ m. ground (arith, r.left m);
}
  where
    r : Reaped now a.dynamic a
    r = reap_entries now a.dynamic a k k.distinct (Holds-self a.dynamic k.distinct)
