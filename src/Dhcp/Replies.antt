-- ===== src/Dhcp/Replies.antt =====
-- internal/dhcp/server.go: what the replies hold.
use auto_pxe.Prelude.{
  ℕ, Bool, true, false, Option, none, some, List, [], ◌∷◌, ◌≡◌, refl, ap, ◌∙◌, arith, if◌then◌else◌,
  any,
}
use auto_pxe.Config.{Config, IpNet}
use auto_pxe.Net.Ip.{Ip}
use auto_pxe.Pxe.{Arch, MessageType, Request, detect_arch, is_ipxe}
use auto_pxe.State.{Tracker}
use auto_pxe.Lease.{Lease, Allocator}
use auto_pxe.Lease.Ops.{lookup_lease}
use auto_pxe.Dhcp.{
  Modifier, with_message_type, with_your_ip, opt_class_identifier, option_vendor_specific, Boot,
  Reply, select_boot, modifiers, with_boot, reply_type, client_mac, gated, answer,
}

-- The options that mark a PXE offer.
unfoldable pub is_marker : Modifier → Bool
is_marker (opt_class_identifier c) = true
is_marker (option_vendor_specific bs) = true
is_marker _ = false

-- The address that a reply gives to the client, and its type.
unfoldable pub offered : List Modifier → Option Ip
offered [] = none
offered (with_your_ip ip ∷ ms) = some ip
offered (m ∷ ms) = offered ms

unfoldable pub offered_type : List Modifier → Option MessageType
offered_type [] = none
offered_type (with_message_type t ∷ ms) = some t
offered_type (m ∷ ms) = offered_type ms

-- A reply with nothing to boot from: no boot file, no boot options, no PXE marker.
pub record IsPlain (r : Reply) : Type 0 where
  pub no_file : r.boot_file_name ≡ none
  pub no_options : r.boot_options ≡ []
  pub no_marker : any is_marker r.modifiers ≡ false

modifiers-deployed :
    (cfg : Config) (t : MessageType) (arch : Arch) (subnet : IpNet) (l : Lease)
    → any is_marker (modifiers cfg t arch true subnet l) ≡ false
unfolding modifiers any is_marker
modifiers-deployed cfg t arch subnet l = ground arith

modifiers-offered :
    (cfg : Config) (t : MessageType) (arch : Arch) (deployed : Bool) (subnet : IpNet) (l : Lease)
    → (offered (modifiers cfg t arch deployed subnet l) ≡ some l.ip)
      × (offered_type (modifiers cfg t arch deployed subnet l) ≡ some t)
unfolding modifiers offered offered_type
modifiers-offered cfg t arch deployed subnet l = (refl, refl)

-- If there is a reply, it satisfies `P`.
abbrev pub IfSent : (Reply → Type 0) → Option Reply → Type 0
IfSent P none = Unit
IfSent P (some r) = P r

with_boot-deployed :
    (cfg : Config) (b : Option Boot) (mods : List Modifier)
    → let r = with_boot cfg true b mods in
      (r.modifiers ≡ mods) × (r.boot_file_name ≡ none) × (r.boot_options ≡ [])
unfolding with_boot
with_boot-deployed cfg b mods = ground arith

with_boot-modifiers :
    (cfg : Config) (deployed : Bool) (b : Option Boot) (mods : List Modifier)
    → (with_boot cfg deployed b mods).modifiers ≡ mods
unfolding with_boot
with_boot-modifiers cfg deployed b mods = ground arith

-- The reply offers the lease's address, as the answer to this kind of request.
abbrev pub Offers : MessageType → Lease → Reply → Type 0
Offers t l r = (offered r.modifiers ≡ some l.ip) × (offered_type r.modifiers ≡ some (reply_type t))

module _ (built : Request → List Modifier → Bool) (cfg : Config) (tracker : Option Tracker)
    (req : Request) where
  answer-IsPlain :
      (subnet : IpNet) (l : Lease)
      → gated tracker (client_mac req) ≡ true
      → IfSent IsPlain (answer built cfg tracker req subnet l)
  unfolding answer
  answer-IsPlain subnet l g =
      rw g (go (built req (modifiers cfg (reply_type req.message_type) arch true subnet l)))
    where
      arch : Arch
      arch = detect_arch req.client_arch

      boot : Option Boot
      boot = select_boot cfg arch (is_ipxe req) (client_mac req)

      mods : List Modifier
      mods = modifiers cfg (reply_type req.message_type) arch true subnet l

      go : (b : Bool) → IfSent IsPlain (if b then some (with_boot cfg true boot mods) else none)
      go false = tt
      go true =
          let (same, file, options) = with_boot-deployed cfg boot mods in
          record {
            no_file = file;
            no_options = options;
            no_marker =
                ap (any is_marker) same
                ∙ modifiers-deployed cfg (reply_type req.message_type) arch subnet l;
          }

  answer-Offers :
      (subnet : IpNet) (l : Lease)
      → IfSent (Offers req.message_type l) (answer built cfg tracker req subnet l)
  unfolding answer
  answer-Offers subnet l = go (built req mods)
    where
      arch : Arch
      arch = detect_arch req.client_arch

      deployed : Bool
      deployed = gated tracker (client_mac req)

      mods : List Modifier
      mods = modifiers cfg (reply_type req.message_type) arch deployed subnet l

      go :
          (b : Bool)
          → IfSent (Offers req.message_type l) (
              if b
              then some (
                  with_boot cfg deployed (select_boot cfg arch (is_ipxe req) (client_mac req)) mods)
              else none)
      go false = tt
      go true =
          rw with_boot-modifiers
            (modifiers-offered cfg (reply_type req.message_type) arch deployed subnet l)

  -- The reply offers the lease that `Lookup` now finds for the client. If the client is deployed,
  -- the reply has nothing to boot from.
  abbrev pub IsAnswer : ℕ → Allocator → Reply → Type 0
  IsAnswer now a r =
      (l : Lease) × (lookup_lease now (client_mac req) a ≡ some l)
      × Offers req.message_type l r
      × (gated tracker (client_mac req) ≡ true → IsPlain r)

  pub answer-IsAnswer :
      (now : ℕ) (a : Allocator) (subnet : IpNet) (l : Lease)
      → lookup_lease now (client_mac req) a ≡ some l
      → IfSent (IsAnswer now a) (answer built cfg tracker req subnet l)
  answer-IsAnswer now a subnet l found =
      both (answer built cfg tracker req subnet l) (answer-Offers subnet l)
        (answer-IsPlain subnet l)
    where
      both :
          (o : Option Reply)
          → IfSent (Offers req.message_type l) o
          → (gated tracker (client_mac req) ≡ true → IfSent IsPlain o)
          → IfSent (IsAnswer now a) o
      both none h k = tt
      both (some r) h k = (l, found, h, k)
