-- ===== src/Dns/Names.antt =====
-- Which names the server answers by itself.
use auto_pxe.Prelude.{
  ℕ, ◌≡◌, refl, ap, ◌∙◌, Bool, true, false, not, ◌&&◌, ◌||◌, Option, some, List, [], ◌∷◌, arith,
  Text, is_empty, lookup, insert, lookup-insert, text_eq, text_beq, text_beq_iff, if◌then◌else◌,
  inl, inr, ◌⊎◌, ◌++◌, codes, lower_byte, to_lower, has_byte, trim_suffix, trim, Bool-cases,
  Option-cases,
}
use mathlib.Core.List.{Memᴰ}
use auto_pxe.Net.Ip.{Ip}
use auto_pxe.Config.{Static, DnsStatic, Config}
use auto_pxe.Lease.{Allocator, Lease}
use auto_pxe.Lease.Ops.{lookup_lease}
use auto_pxe.State.{Tracker, is_deployed}
use auto_pxe.Dns.{
  fqdn, deployed_lease, deployed_a, is_set, local_a, static_records, Sort, new_server,
}

-- A binding whose machine is published: it has a name, is deployed, and holds the lease.
abbrev pub IsPublished : ℕ → Tracker → Allocator → Static → Lease → Type 0
IsPublished now tracker leaser st l =
    (is_empty st.hostname ≡ false)
    × (is_deployed st.mac tracker ≡ true)
    × (lookup_lease now st.mac leaser ≡ some l)

deployed_lease-IsPublished :
    (now : ℕ) (tracker : Tracker) (leaser : Allocator) (st : Static) (l : Lease)
    → deployed_lease now tracker leaser st ≡ some l
    → IsPublished now tracker leaser st l
unfolding deployed_lease
deployed_lease-IsPublished now tracker leaser st l h = ground arith

-- Some binding of the list with this name is published at the address.
abbrev pub Publishes : ℕ → Tracker → Allocator → Text → List Static → Text → Ip → Type 0
Publishes now tracker leaser domain sts qname ip =
    (st : Static) × (l : Lease) × (Memᴰ st sts)
    × (fqdn domain st.hostname ≡ qname)
    × (l.ip ≡ ip)
    × IsPublished now tracker leaser st l

Publishes-cons :
    (now : ℕ) (tracker : Tracker) (leaser : Allocator) (domain : Text) (st : Static)
    (sts : List Static) (qname : Text) (ip : Ip)
    → Publishes now tracker leaser domain sts qname ip
    → Publishes now tracker leaser domain (st ∷ sts) qname ip
Publishes-cons now tracker leaser domain st sts qname ip (r, l, at, named, same, published) =
    (r, l, Memᴰ.tail at, named, same, published)

deployed_a-Publishes :
    (now : ℕ) (tracker : Tracker) (leaser : Allocator) (domain qname : Text) (sts : List Static)
    (ip : Ip)
    → deployed_a now tracker leaser domain qname sts ≡ some ip
    → Publishes now tracker leaser domain sts qname ip
unfolding deployed_a
deployed_a-Publishes now tracker leaser domain qname [] ip h = cc
deployed_a-Publishes now tracker leaser domain qname (st ∷ sts) ip h =
    elim (Bool-cases (text_beq (fqdn domain st.hostname) qname)) [
      | inr other ↦
          Publishes-cons now tracker leaser domain st sts qname ip
            (deployed_a-Publishes now tracker leaser domain qname sts ip (ground arith))
      | inl named ↦ elim (Option-cases (deployed_lease now tracker leaser st)) [
        | inl e ↦
            Publishes-cons now tracker leaser domain st sts qname ip
              (deployed_a-Publishes now tracker leaser domain qname sts ip (ground arith))
        | inr (l, e) ↦ (
          st,
          l,
          Memᴰ.head refl,
          (text_beq_iff _ _).0 named,
          ground arith,
          deployed_lease-IsPublished now tracker leaser st l e,
        )
      ]
    ]

-- Some static record of the list has this name and this address.
abbrev pub IsStatic : Text → List DnsStatic → Text → Ip → Type 0
IsStatic domain ss qname ip =
    (d : DnsStatic) × (Memᴰ d ss) × (fqdn domain d.name ≡ qname) × (d.parsed_ip ≡ ip)

static_records-IsStatic :
    (reverse_addr : Text → Option Text) (domain : Text) (ss : List DnsStatic) (a : List (Text × Ip))
    (ptr : List (Text × Text)) (qname : Text) (ip : Ip)
    → lookup qname (static_records reverse_addr domain ss (a, ptr)).0 ≡ some ip
    → IsStatic domain ss qname ip ⊎ (lookup qname a ≡ some ip)
unfolding static_records
static_records-IsStatic reverse_addr domain [] a ptr qname ip h = inr h
static_records-IsStatic reverse_addr domain (s ∷ ss) a ptr qname ip h = go (
    static_records-IsStatic reverse_addr domain ss (insert (fqdn domain s.name) s.parsed_ip a) _
      qname ip h)
  where
    go :
        IsStatic domain ss qname ip
          ⊎ (lookup qname (insert (fqdn domain s.name) s.parsed_ip a) ≡ some ip)
        → IsStatic domain (s ∷ ss) qname ip ⊎ (lookup qname a ≡ some ip)
    go (inl (d, at, named, same)) = inl (d, Memᴰ.tail at, named, same)
    go (inr e) = elim (Bool-cases (text_beq (fqdn domain s.name) qname)) [
      | inl this ↦ inl (
        s,
        Memᴰ.head refl,
        (text_beq_iff _ _).0 this,
        ground (arith, lookup-insert (fqdn domain s.name) qname s.parsed_ip a),
      )
      | inr other ↦ inr ground (arith, lookup-insert (fqdn domain s.name) qname s.parsed_ip a)
    ]

-- For a server set up from a configuration: an address that it gives for a name by itself is that of a
-- static record of the configuration with this name or, if deployed machines are registered, the leased
-- address of a binding with this name whose machine is deployed.
pub local_a-Publishes :
    (reverse_addr : Text → Option Text) (sort : Sort) (cfg : Config) (now : ℕ) (tracker : Tracker)
    (leaser : Allocator) (qname : Text) (ip : Ip)
    → local_a now tracker leaser qname (new_server reverse_addr sort cfg) ≡ some ip
    → IsStatic cfg.dns.domain cfg.dns.static qname ip
      ⊎ ((is_set cfg.dns.register_deployed ≡ true)
          × Publishes now tracker leaser cfg.dns.domain cfg.dhcp.static qname ip)
unfolding local_a new_server lookup
local_a-Publishes reverse_addr sort cfg now tracker leaser qname ip h =
    elim (Option-cases (lookup qname (new_server reverse_addr sort cfg).static_a)) [
      | inr (k, e) ↦
          elim (static_records-IsStatic reverse_addr cfg.dns.domain cfg.dns.static [] [] qname ip
            (ground arith)) [ inl r ↦ inl r | inr none_yet ↦ cc ]
      | inl e ↦ elim (Bool-cases (is_set cfg.dns.register_deployed)) [
        | inl on ↦ inr (
          on,
          deployed_a-Publishes now tracker leaser cfg.dns.domain qname cfg.dhcp.static ip
              (ground arith),
        )
        | inr off ↦ ground arith
      ]
    ]

lower_byte-idempotent : (c : ℕ) → lower_byte (lower_byte c) ≡ lower_byte c
unfolding lower_byte
lower_byte-idempotent c = ground arith

to_lower-idempotent : (s : Text) → to_lower (to_lower s) ≡ to_lower s
unfolding to_lower
to_lower-idempotent [] = refl
to_lower-idempotent (c ∷ s) = simp (lower_byte-idempotent, to_lower-idempotent s)

to_lower-append : (s t : Text) → to_lower (s ++ t) ≡ to_lower s ++ to_lower t
unfolding to_lower
to_lower-append [] t = refl
to_lower-append (c ∷ s) t = simp (to_lower-append s t)

or-true : (b : Bool) → (b || true) ≡ true
or-true true = refl
or-true false = refl

has_byte-append : (x : ℕ) (s t : Text) → has_byte x t ≡ true → has_byte x (s ++ t) ≡ true
unfolding has_byte
has_byte-append x [] t h = h
has_byte-append x (c ∷ s) t h = simp (has_byte-append x s t h, or-true)

not_empty-append : (s : Text) → text_beq [] (s ++ codes ".") ≡ false
unfolding text_beq
not_empty-append [] = refl
not_empty-append (c ∷ s) = refl

pub trim_suffix-append_dot : (s : Text) → trim_suffix (codes ".") (s ++ codes ".") ≡ s
unfolding trim_suffix text_beq
trim_suffix-append_dot [] = refl
trim_suffix-append_dot (c ∷ s) = ground (arith, not_empty-append s, trim_suffix-append_dot s)

and-false : (b : Bool) → (b && false) ≡ false
and-false true = refl
and-false false = refl

module _ (domain : Text) where
  -- A lower-case name with the domain, unless it has a dot or there is no domain.
  abbrev in_domain : Text → Text
  in_domain lower =
      if not (is_empty domain) && not (has_byte b'.' lower)
      then lower ++ b'.' ∷ to_lower (trim b'.' domain)
      else lower

  to_lower-in_domain : (l : Text) → to_lower l ≡ l → to_lower (in_domain l) ≡ in_domain l
  unfolding to_lower lower_byte
  to_lower-in_domain l h = elim (Bool-cases (not (is_empty domain) && not (has_byte b'.' l))) [
    | inl adds ↦ simp (
      adds,
      to_lower-append l (b'.' ∷ to_lower (trim b'.' domain)),
      h,
      to_lower-idempotent (trim b'.' domain),
    )
    | inr keeps ↦ simp (keeps, h)
  ]

  in_domain-idempotent : (l : Text) → in_domain (in_domain l) ≡ in_domain l
  unfolding has_byte
  in_domain-idempotent l = elim (Bool-cases (not (is_empty domain) && not (has_byte b'.' l))) [
    | inl adds ↦
        simp (adds, has_byte-append b'.' l (b'.' ∷ to_lower (trim b'.' domain)) refl, and-false)
    | inr keeps ↦ simp keeps
  ]

-- A full name is not changed by making it full again.
fqdn-idempotent : (domain name : Text) → fqdn domain (fqdn domain name) ≡ fqdn domain name
unfolding fqdn
fqdn-idempotent domain name =
    ap (λ t. in_domain domain (to_lower t) ++ codes ".")
      (trim_suffix-append_dot (in_domain domain lower))
    ∙ ap (λ t. in_domain domain t ++ codes ".")
        (to_lower-in_domain domain lower (to_lower-idempotent _))
    ∙ ap (λ t. t ++ codes ".") (in_domain-idempotent domain lower)
  where
    lower : Text
    lower = to_lower (trim_suffix (codes ".") name)
