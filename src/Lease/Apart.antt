-- ===== src/Lease/Apart.antt =====
-- Two clients are not served one address.
use auto_pxe.Prelude.{
  ℕ, ◌≡◌, sym, ◌≢◌, true, none, some, List, [], ◌∷◌, arith, Text, lookup, nat_eq, text_eq, inl, inr,
  Option-cases, ◌⊎◌, ◌∙◌,
}
use auto_pxe.Net.Canon.{canon}
use auto_pxe.Lease.{Lease, Allocator, ip_to_u32, static_ip_set}
use auto_pxe.Lease.Ops.{member, lookup_lease}
use auto_pxe.Lease.Linked.{Linked-unique}
use auto_pxe.Lease.Invariant.{Inv}

-- A static lease is in the table of static leases, another one in the table of dynamic leases.
lookup_lease-cases :
    (now : ℕ) (mac : Text) (a : Allocator) {l : Lease}
    → lookup_lease now mac a ≡ some l
    → (lookup (canon mac) a.static ≡ some l) ⊎ (lookup (canon mac) a.dynamic ≡ some l)
unfolding lookup_lease
lookup_lease-cases now mac a h = ground arith

member-static_ip_set :
    (m : Text) (l : Lease) (v : ℕ) (s : List (Text × Lease)) (vs : List ℕ)
    → lookup m s ≡ some l
    → ip_to_u32 l.ip ≡ some v
    → static_ip_set s ≡ some vs
    → member v vs ≡ true
unfolding static_ip_set member lookup
member-static_ip_set m l v [] vs h at e = cc
member-static_ip_set m l v ((n, r) ∷ s) vs h at e = elim (Option-cases (ip_to_u32 r.ip)) [
  | inl bad ↦ ground arith
  | inr (w, here) ↦ elim (Option-cases (static_ip_set s)) [
    | inl bad ↦ ground arith
    | inr (ws, rest) ↦ ground (arith, member-static_ip_set m l v s ws)
  ]
]

dynamic-ne-static :
    (a : Allocator) (i : Inv a) (m n : Text) (l r : Lease)
    → lookup m a.dynamic ≡ some l
    → lookup n a.static ≡ some r
    → ip_to_u32 l.ip ≢ ip_to_u32 r.ip
dynamic-ne-static a i m n l r hl hr e =
    let (v, at, own) = i.linked.indexed m l hl in
    let (_, outside, _) = i.free v m own in
    ground (arith, member-static_ip_set n r v a.static i.statics hr (sym e ∙ at) i.statics_lem)

-- In a state with the invariant two clients with different canonical MACs, not both of them bound by
-- the configuration, are served different addresses at any time.
pub lookup_lease-apart :
    (a : Allocator) (now : ℕ) (mac mac' : Text) (l r : Lease)
    → Inv a
    → lookup_lease now mac a ≡ some l
    → lookup_lease now mac' a ≡ some r
    → canon mac ≢ canon mac'
    → (lookup (canon mac) a.static ≡ none) ⊎ (lookup (canon mac') a.static ≡ none)
    → ip_to_u32 l.ip ≢ ip_to_u32 r.ip
lookup_lease-apart a now mac mac' l r i hl hr ne dyn e = elim (lookup_lease-cases now mac a hl) [
  | inl s ↦ elim (lookup_lease-cases now mac' a hr) [
    | inl s' ↦ ground arith
    | inr d' ↦ dynamic-ne-static a i _ _ r l d' s (sym e)
  ]
  | inr d ↦ elim (lookup_lease-cases now mac' a hr) [
    | inl s' ↦ dynamic-ne-static a i _ _ l r d s' e
    | inr d' ↦ ne (Linked-unique i.linked _ _ l r d d' e)
  ]
]
