-- ===== src/Lease/Invariant.antt =====
-- The invariant of the allocator; removing a lease and reaping what has run out keep it.
use auto_pxe.Prelude.{
  ◌=?◌, ==_iff, text_beq_iff, lookup-insert, ℕ, ◌^◌, ◌≤◌, ◌<◌, ◌≡◌, true, false, none, some, List,
  [], ◌∷◌, arith, Text, lookup, delete, nat_eq, text_eq, Distinct, Distinct-delete, lookup-delete,
  inl, inr, Bool-cases,
}
use auto_pxe.Storage.{Disk, Io}
use auto_pxe.Lease.{Lease, FileFormat, DeclinedLease, Allocator, ip_to_u32, in_pool, static_ip_set}
use auto_pxe.Lease.Ops.{bind_lease, after, forget, reap_declined, member, save_locked}
use mathlib.Core.Path.{subst}
use auto_pxe.Lease.Linked.{Linked-bind, Linked, Linked-forget}
use auto_pxe.Lease.Reap.{Swept, lookup-reap_declined}

-- An address that may be leased: in the pool, with no static binding, not declined.
abbrev pub IsFree : Allocator → List ℕ → ℕ → Type 0
IsFree a statics v =
    (in_pool a v ≡ true) × (member v statics ≡ false) × (lookup v a.declined ≡ none)

pub record Inv (a : Allocator) : Type 0 where
  pub linked : Linked a.dynamic a.by_ip
  pub range : a.has_pool ≡ true → (a.pool_start ≤ a.pool_end) × (a.pool_end < 2 ^ 32)
  pub declined_distinct : Distinct a.declined
  pub statics : List ℕ
  pub statics_lem : static_ip_set a.static ≡ some statics
  pub free : (v : ℕ) (m : Text) → lookup v a.by_ip ≡ some m → IsFree a statics v
  pub unbound : (m : Text) (l : Lease) → lookup m a.dynamic ≡ some l → lookup m a.static ≡ none

pub save_locked-state :
    (io : Io) (a : Allocator) (d : Disk FileFormat) → (save_locked io a d).state ≡ a
unfolding save_locked
save_locked-state io a d = ground arith

Distinct-reap_declined :
    (now : ℕ) (es m : List (ℕ × DeclinedLease)) → Distinct m → Distinct (reap_declined now es m)
unfolding reap_declined
Distinct-reap_declined now [] m d = d
Distinct-reap_declined now ((v, x) ∷ es) m d = elim (Bool-cases (after x.expires_at now)) [
  | inl live ↦ rw live (Distinct-reap_declined now es m d)
  | inr over ↦ rw over (Distinct-reap_declined now es (delete v m) (Distinct-delete v m d))
]

module _ (a : Allocator) (i : Inv a) where
  pub forget-Inv :
      (m : Text) (l : Lease) (v : ℕ)
      → lookup m a.dynamic ≡ some l
      → ip_to_u32 l.ip ≡ some v
      → Inv (forget m v a)
  unfolding forget in_pool
  forget-Inv m l v held at = record {
    linked = Linked-forget i.linked m l v held at;
    range = i.range;
    declined_distinct = i.declined_distinct;
    statics = i.statics;
    statics_lem = i.statics_lem;
    free = λ w n h. i.free w n (ground (arith, lookup-delete v w a.by_ip));
    unbound = λ n r h. i.unbound n r (ground (arith, lookup-delete m n a.dynamic));
  }

  module _ (now : ℕ) (s : Swept now a) where
    unfoldable pub swept : Allocator
    swept = record a {
      dynamic = s.dynamic;
      by_ip = s.by_ip;
      declined = reap_declined now a.declined a.declined;
    }

    -- What is left was there before.
    pub kept_lease :
        (m : Text) (l : Lease) → lookup m s.dynamic ≡ some l → lookup m a.dynamic ≡ some l
    kept_lease m l h = ground (arith, s.left m)

    pub kept_owner : (v : ℕ) (m : Text) → lookup v s.by_ip ≡ some m → lookup v a.by_ip ≡ some m
    kept_owner v m h =
        let (l, hl, e) = s.linked.owned v m h in
        let (w, e', hw) = i.linked.indexed m l (kept_lease m l hl) in ground arith

    pub swept-Inv : Inv swept
    unfolding swept in_pool
    swept-Inv = record {
      linked = s.linked;
      range = i.range;
      declined_distinct = Distinct-reap_declined now a.declined a.declined i.declined_distinct;
      statics = i.statics;
      statics_lem = i.statics_lem;
      free = λ v m h.
          let (p, q, r) = i.free v m (kept_owner v m h) in
          (p, q, ground (arith, lookup-reap_declined now v a.declined i.declined_distinct));
      unbound = λ m l h. i.unbound m l (kept_lease m l h);
    }

module _ (m : Text) (a : Allocator) (i : Inv a) where
  -- A lease of a free address joins the table.
  pub bind_lease-Inv :
      (v : ℕ) (l : Lease)
      → lookup m a.dynamic ≡ none
      → lookup m a.static ≡ none
      → lookup v a.by_ip ≡ none
      → ip_to_u32 l.ip ≡ some v
      → IsFree a i.statics v
      → Inv (bind_lease a m v l)
  unfolding bind_lease in_pool
  bind_lease-Inv v l fresh unbound unowned at f = record {
    linked = Linked-bind i.linked m l v fresh unowned at;
    range = i.range;
    declined_distinct = i.declined_distinct;
    statics = i.statics;
    statics_lem = i.statics_lem;
    free = λ w n h. elim (Bool-cases (v =? w)) [
      | inl e ↦ subst (IsFree a i.statics) ((==_iff v w).0 e) f
      | inr e ↦ i.free w n (ground (arith, lookup-insert v w m a.by_ip))
    ];
    unbound = λ n r h. elim (Bool-cases (m =? n)) [
      | inl e ↦ rw (← (text_beq_iff m n).0 e) unbound
      | inr e ↦ i.unbound n r (ground (arith, lookup-insert m n l a.dynamic))
    ];
  }
