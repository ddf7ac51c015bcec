-- ===== src/Lease/Linked.antt =====
-- The two indexes of the dynamic leases, by MAC and by address, agree: the invariant that keeps an
-- address from being leased twice.
use auto_pxe.Prelude.{
  ℕ, ◌≡◌, ◌≢◌, none, some, List, [], arith, Text, lookup, insert, delete, nat_eq, text_eq, Distinct,
  Distinct-insert, Distinct-delete, lookup-insert, lookup-delete, text_beq_iff, inl, inr,
  Bool-cases, ◌=?◌,
}
use auto_pxe.Lease.{Lease, ip_to_u32}

pub record Linked (dynamic : List (Text × Lease)) (by_ip : List (ℕ × Text)) : Type 0 where
  pub distinct : Distinct dynamic
  pub owned :
      (v : ℕ) (m : Text)
      → lookup v by_ip ≡ some m
      → (l : Lease) × (lookup m dynamic ≡ some l) × (ip_to_u32 l.ip ≡ some v)
  pub indexed :
      (m : Text) (l : Lease)
      → lookup m dynamic ≡ some l
      → (v : ℕ) × (ip_to_u32 l.ip ≡ some v) × (lookup v by_ip ≡ some m)

pub Linked-nil : Linked [] []
unfolding lookup
Linked-nil = record {
  distinct = tt;
  owned = λ v m h. absurd (ground arith);
  indexed = λ m l h. absurd (ground arith);
}

module _ {dynamic : List (Text × Lease)} {by_ip : List (ℕ × Text)} (k : Linked dynamic by_ip) where
  -- No address has two owners.
  pub Linked-unique :
      (m n : Text) (l r : Lease)
      → lookup m dynamic ≡ some l
      → lookup n dynamic ≡ some r
      → ip_to_u32 l.ip ≡ ip_to_u32 r.ip
      → m ≡ n
  Linked-unique m n l r hl hr e = ground (arith, k.indexed m l hl, k.indexed n r hr)

  module _ (m : Text) (l : Lease) (v : ℕ) (held : lookup m dynamic ≡ some l)
      (at : ip_to_u32 l.ip ≡ some v) where
    same_address : (r : Lease) → lookup m dynamic ≡ some r → ip_to_u32 r.ip ≡ some v
    same_address r h = ground arith

    survives :
        (w : ℕ) (n : Text) (r : Lease)
        → v ≢ w
        → lookup n dynamic ≡ some r
        → ip_to_u32 r.ip ≡ some w
        → lookup n (delete m dynamic) ≡ some r
    survives w n r apart h e =
        ground (arith, lookup-delete m n dynamic, text_beq_iff m n, same_address r)

    owned-forget :
        (w : ℕ) (n : Text)
        → lookup w (delete v by_ip) ≡ some n
        → (r : Lease) × (lookup n (delete m dynamic) ≡ some r) × (ip_to_u32 r.ip ≡ some w)
    owned-forget w n h = let (r, hr, e) = k.owned w n there in (r, survives w n r apart hr e, e)
      where
        there : lookup w by_ip ≡ some n
        there = ground (arith, lookup-delete v w by_ip)

        apart : v ≢ w
        apart = ground (arith, lookup-delete v w by_ip)

    indexed-forget :
        (n : Text) (r : Lease)
        → lookup n (delete m dynamic) ≡ some r
        → (w : ℕ) × (ip_to_u32 r.ip ≡ some w) × (lookup w (delete v by_ip) ≡ some n)
    indexed-forget n r h = (own.0, own.1, kept)
      where
        there : lookup n dynamic ≡ some r
        there = ground (arith, lookup-delete m n dynamic)

        own : (w : ℕ) × (ip_to_u32 r.ip ≡ some w) × (lookup w by_ip ≡ some n)
        own = k.indexed n r there

        kept : lookup own.0 (delete v by_ip) ≡ some n
        kept = ground (
          arith,
          own.1,
          own.2,
          lookup-delete v own.0 by_ip,
          lookup-delete m n dynamic,
          text_beq_iff m n,
          Linked-unique m n l r held there,
        )

    -- A lease and its address go together.
    pub Linked-forget : Linked (delete m dynamic) (delete v by_ip)
    Linked-forget = record {
      distinct = Distinct-delete m dynamic k.distinct;
      owned = owned-forget;
      indexed = indexed-forget;
    }

  -- A new lease, for a MAC with none, of an address that nobody holds.
  module _ (m : Text) (l : Lease) (v : ℕ) (free : lookup m dynamic ≡ none)
      (unowned : lookup v by_ip ≡ none) (at : ip_to_u32 l.ip ≡ some v) where
    owned-bind :
        (w : ℕ) (n : Text)
        → lookup w (insert v m by_ip) ≡ some n
        → (r : Lease) × (lookup n (insert m l dynamic) ≡ some r) × (ip_to_u32 r.ip ≡ some w)
    owned-bind w n h = elim (Bool-cases (v =? w)) [
      | inl here ↦ (
        l,
        ground (arith, lookup-insert v w m by_ip, lookup-insert m n l dynamic, text_beq_iff m n),
        ground arith,
      )
      | inr there ↦
          let (r, hr, e) = k.owned w n (ground (arith, lookup-insert v w m by_ip)) in
          (r, ground (arith, lookup-insert m n l dynamic, text_beq_iff m n), e)
    ]

    indexed-bind :
        (n : Text) (r : Lease)
        → lookup n (insert m l dynamic) ≡ some r
        → (w : ℕ) × (ip_to_u32 r.ip ≡ some w) × (lookup w (insert v m by_ip) ≡ some n)
    indexed-bind n r h = elim (Bool-cases (m =? n)) [
      | inl here ↦ (
        v,
        ground (arith, lookup-insert m n l dynamic),
        ground (arith, lookup-insert v v m by_ip, text_beq_iff m n),
      )
      | inr there ↦
          let (w, e, hw) = k.indexed n r (ground (arith, lookup-insert m n l dynamic)) in
          (w, e, ground (arith, lookup-insert v w m by_ip))
    ]

    pub Linked-bind : Linked (insert m l dynamic) (insert v m by_ip)
    Linked-bind = record {
      distinct = Distinct-insert m l dynamic k.distinct;
      owned = owned-bind;
      indexed = indexed-bind;
    }

  -- A lease may change in all but its address.
  module _ (m : Text) (l l' : Lease) (held : lookup m dynamic ≡ some l) (at : l'.ip ≡ l.ip) where
    owned-renew :
        (w : ℕ) (n : Text)
        → lookup w by_ip ≡ some n
        → (r : Lease) × (lookup n (insert m l' dynamic) ≡ some r) × (ip_to_u32 r.ip ≡ some w)
    owned-renew w n h = elim (Bool-cases (m =? n)) [
      | inl here ↦
          let (r, hr, e) = k.owned w n h in
          (l', ground (arith, lookup-insert m n l' dynamic), ground (arith, text_beq_iff m n))
      | inr there ↦
          let (r, hr, e) = k.owned w n h in (r, ground (arith, lookup-insert m n l' dynamic), e)
    ]

    indexed-renew :
        (n : Text) (r : Lease)
        → lookup n (insert m l' dynamic) ≡ some r
        → (w : ℕ) × (ip_to_u32 r.ip ≡ some w) × (lookup w by_ip ≡ some n)
    indexed-renew n r h = elim (Bool-cases (m =? n)) [
      | inl here ↦
          let (w, e, hw) = k.indexed m l held in
          (w, ground (arith, lookup-insert m n l' dynamic), ground (arith, text_beq_iff m n))
      | inr there ↦ k.indexed n r (ground (arith, lookup-insert m n l' dynamic))
    ]

    pub Linked-renew : Linked (insert m l' dynamic) by_ip
    Linked-renew = record {
      distinct = Distinct-insert m l' dynamic k.distinct;
      owned = owned-renew;
      indexed = indexed-renew;
    }
