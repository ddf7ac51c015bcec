-- ===== src/Lease/Restore.antt =====
-- `load`: reading a lease file that holds no contradiction builds an allocator with its invariant.
use mathlib.Core.Path.{subst}
use auto_pxe.Prelude.{
  ℕ, ◌≡◌, refl, sym, ◌∙◌, ◌≢◌, true, false, not, ◌&&◌, ◌||◌, Option, none, some, List, [], ◌∷◌,
  arith, Text, text_eq, nat_eq, ==_iff, ◌=?◌, any, All, lookup, insert, lookup-insert,
  Distinct-insert, inl, inr, Bool-cases, Returns, Returns-bind,
}
use auto_pxe.Net.Canon.{canon}
use auto_pxe.Net.Ip.{to_4, is_nil}
use auto_pxe.Net.Ip.Parse.{parse_ip}
use auto_pxe.Lease.{
  LeaseRecord, DeclinedRecord, FileFormat, Allocator, Lease, DeclinedLease, ip_to_u32, in_pool,
  static_ip_set,
}
use auto_pxe.Lease.Ops.{member, after, bind_lease}
use auto_pxe.Lease.Load.{
  is_valid_record, is_loadable, restored, load_lease, load_leases, load_declined, load_all_declined,
}
use auto_pxe.Lease.Invariant.{Inv, bind_lease-Inv}
use auto_pxe.Lease.Removal.{ip_to_u32-to_4}

-- The address that a text of the file names, as a number.
abbrev pub address : Text → Option ℕ
address s = ip_to_u32 (to_4 (parse_ip s))

-- No two keys of the leases name one MAC.
abbrev pub DistinctMacs : List (Text × LeaseRecord) → Type 0
DistinctMacs [] = Unit
DistinctMacs (e ∷ es) = (any (λ k. canon e.0 =? canon k.0) es ≡ false) × DistinctMacs es

-- The address is not among the declined ones.
abbrev pub NotDeclined : List (Text × DeclinedRecord) → ℕ → Type 0
NotDeclined [] v = Unit
NotDeclined (d ∷ ds) v = (address d.0 ≢ some v) × NotDeclined ds v

-- A file without contradiction: no MAC has two leases, no leased address is declined.
pub record IsCoherent (f : FileFormat) : Type 0 where
  pub macs : DistinctMacs f.leases
  pub apart : All (λ e. (v : ℕ) → address e.1.ip ≡ some v → NotDeclined f.declined v) f.leases

-- The lookups that the rest of the loop needs to find nothing.
abbrev pub AreNew : List (Text × LeaseRecord) → Allocator → Type 0
AreNew es a = All (λ e. lookup (canon e.0) a.dynamic ≡ none) es

-- The allocator has its invariant and its lease time.
abbrev pub Starts : ℕ → Allocator → Type 0
Starts time a = Inv a × (a.lease_time ≡ time)

-- The state in the loop over the leases: no address is declined yet, and those leased satisfy `P`.
pub record Loading (time : ℕ) (statics : List ℕ) (P : ℕ → Type 0) (a : Allocator) : Type 0 where
  pub inv : Inv a
  pub statics_lem : static_ip_set a.static ≡ some statics
  pub declined : a.declined ≡ []
  pub lease_time : a.lease_time ≡ time
  pub leased : (v : ℕ) (m : Text) → lookup v a.by_ip ≡ some m → P v

AreNew-bind :
    (a : Allocator) (m : Text) (v : ℕ) (l : Lease) (es : List (Text × LeaseRecord))
    → any (λ k. m =? canon k.0) es ≡ false
    → AreNew es a
    → AreNew es (bind_lease a m v l)
unfolding any bind_lease
AreNew-bind a m v l [] h k = tt
AreNew-bind a m v l (e ∷ es) h k = (
  ground (arith, lookup-insert m (canon e.0) l a.dynamic, k.0),
  AreNew-bind a m v l es (ground arith) k.1,
)

module _ (now time : ℕ) (statics : List ℕ) (P : ℕ → Type 0) where
  -- The state after one entry, and that the entries that follow are still new.
  abbrev Goes : List (Text × LeaseRecord) → Allocator → Type 0
  Goes es a = Loading time statics P a × AreNew es a

  loaded :
      (a : Allocator) (m : Text) (v : ℕ) (l : Lease) (es : List (Text × LeaseRecord))
      → is_loadable statics a m v ≡ true
      → ip_to_u32 l.ip ≡ some v
      → P v
      → any (λ k. m =? canon k.0) es ≡ false
      → lookup m a.dynamic ≡ none
      → Goes es a
      → Goes es (bind_lease a m v l)
  unfolding is_loadable bind_lease lookup
  loaded a m v l es ok at p other fresh (s, k) =
      let same : s.inv.statics ≡ statics = cc (sym s.inv.statics_lem ∙ s.statics_lem) in
      let clear : lookup v a.declined ≡ none =
        subst (λ ds. lookup v ds ≡ none) (sym s.declined) refl in
      (
        record {
          inv =
              bind_lease-Inv m a s.inv v l fresh (ground arith) (ground arith) at
                (ground arith, subst (λ vs. member v vs ≡ false) (sym same) (ground arith), clear);
          statics_lem = s.statics_lem;
          declined = s.declined;
          lease_time = s.lease_time;
          leased = λ w n h. elim (Bool-cases (v =? w)) [
            | inl e ↦ subst P ((==_iff v w).0 e) p
            | inr e ↦ s.leased w n (ground (arith, lookup-insert v w m a.by_ip))
          ];
        },
        AreNew-bind a m v l es other k,
      )

  -- One entry of a file in which its MAC occurs once.
  load_lease-Goes :
      (mac : Text) (rec : LeaseRecord) (es : List (Text × LeaseRecord)) (a : Allocator)
      → ((v : ℕ) → address rec.ip ≡ some v → P v)
      → any (λ k. canon mac =? canon k.0) es ≡ false
      → Goes ((mac, rec) ∷ es) a
      → Returns (Goes es) (load_lease now statics (mac, rec) a)
  unfolding load_lease bind_lease restored
  load_lease-Goes mac rec es a p other (s, (fresh, k)) =
      elim (Bool-cases (is_valid_record now (canon mac) (to_4 (parse_ip rec.ip)) rec.expires)) [
        | inr skipped ↦ rw skipped (s, k)
        | inl valid ↦
            let (v, at) = ip_to_u32-to_4 (parse_ip rec.ip) (ground arith) in
            elim (Bool-cases (is_loadable statics a (canon mac) v)) [
              | inr refused ↦ simp (valid, at, refused) (s, k)
              | inl taken ↦
                  simp (valid, at, taken)
                    (loaded a (canon mac) v
                      (restored a (canon mac) (to_4 (parse_ip rec.ip)) rec.expires) es taken at
                      (p v at) other fresh (s, k))
            ]
      ]

  pub load_leases-Loading :
      (es : List (Text × LeaseRecord)) (a : Allocator)
      → DistinctMacs es
      → All (λ e. (v : ℕ) → address e.1.ip ≡ some v → P v) es
      → Goes es a
      → Returns (Loading time statics P) (load_leases now statics es a)
  unfolding load_leases
  load_leases-Loading [] a d p g = g.0
  load_leases-Loading ((mac, rec) ∷ es) a d p g =
      Returns-bind (Goes es) (Loading time statics P) (load_lease now statics (mac, rec) a)
        (load_leases now statics es) (load_lease-Goes mac rec es a p.0 d.0 g)
        (λ b h. load_leases-Loading es b d.1 p.1 h)

-- The state in the loop over the declined addresses: none of those that follow is leased.
pub record Declining (time : ℕ) (statics : List ℕ) (ds : List (Text × DeclinedRecord))
    (a : Allocator) : Type 0 where
  pub inv : Inv a
  pub statics_lem : static_ip_set a.static ≡ some statics
  pub apart : (v : ℕ) (m : Text) → lookup v a.by_ip ≡ some m → NotDeclined ds v
  pub lease_time : a.lease_time ≡ time

module _ (now time : ℕ) (statics : List ℕ) where
  held_out :
      (a : Allocator) (v : ℕ) (x : DeclinedLease) (d : Text × DeclinedRecord)
      (ds : List (Text × DeclinedRecord))
      → address d.0 ≡ some v
      → Declining time statics (d ∷ ds) a
      → Declining time statics ds (record a { declined = insert v x a.declined })
  unfolding in_pool
  held_out a v x d ds at g = record {
    inv = record {
      linked = g.inv.linked;
      range = g.inv.range;
      declined_distinct = Distinct-insert v x a.declined g.inv.declined_distinct;
      statics = g.inv.statics;
      statics_lem = g.inv.statics_lem;
      free = λ w n h.
          let (p, q, r) = g.inv.free w n h in
          let (other, _) = g.apart w n h in (p, q, ground (arith, lookup-insert v w x a.declined));
      unbound = g.inv.unbound;
    };
    statics_lem = g.statics_lem;
    apart = λ w n h. (g.apart w n h).1;
    lease_time = g.lease_time;
  }

  skipped_entry :
      (a : Allocator) (d : Text × DeclinedRecord) (ds : List (Text × DeclinedRecord))
      → Declining time statics (d ∷ ds) a
      → Declining time statics ds a
  skipped_entry a d ds g = record {
    inv = g.inv;
    statics_lem = g.statics_lem;
    apart = λ w n h. (g.apart w n h).1;
    lease_time = g.lease_time;
  }

  load_declined-Declining :
      (text : Text) (rec : DeclinedRecord) (ds : List (Text × DeclinedRecord)) (a : Allocator)
      → Declining time statics ((text, rec) ∷ ds) a
      → Returns (Declining time statics ds) (load_declined now statics (text, rec) a)
  unfolding load_declined
  load_declined-Declining text rec ds a g =
      elim (Bool-cases (is_nil (to_4 (parse_ip text)) || not (after rec.expires_at now))) [
        | inl over ↦ rw over (skipped_entry a (text, rec) ds g)
        | inr live ↦
            let (v, at) = ip_to_u32-to_4 (parse_ip text) (ground arith) in
            elim (Bool-cases (in_pool a v && not (member v statics))) [
              | inr outside ↦ simp (live, at, outside) (skipped_entry a (text, rec) ds g)
              | inl inside ↦ simp (live, at, inside) (held_out a v _ (text, rec) ds at g)
            ]
      ]

  pub load_all_declined-Inv :
      (ds : List (Text × DeclinedRecord)) (a : Allocator)
      → Declining time statics ds a
      → Returns (Starts time) (load_all_declined now statics ds a)
  unfolding load_all_declined
  load_all_declined-Inv [] a g = (g.inv, g.lease_time)
  load_all_declined-Inv ((text, rec) ∷ ds) a g =
      Returns-bind (Declining time statics ds) (Starts time)
        (load_declined now statics (text, rec) a) (load_all_declined now statics ds)
        (load_declined-Declining text rec ds a g) (λ b h. load_all_declined-Inv ds b h)
