-- ===== src/Dhcp/Handling.antt =====
-- internal/dhcp/server.go: the handler of a packet with the allocator and its invariant.
use auto_pxe.Prelude.{
  ℕ, ◌<◌, Bool, true, false, Option, none, some, List, ◌≡◌, refl, inl, inr, arith, Text, Returns,
  Returns-and, OnSome-of_Returns, Returns-bind, Option-cases,
}
use auto_pxe.Config.{Config, IpNet}
use auto_pxe.Net.Ip.{Ip}
use auto_pxe.Storage.{Disk, Io}
use auto_pxe.Pxe.{MessageType, discover, request, decline, release, Request}
use auto_pxe.State.{Tracker}
use auto_pxe.Lease
use auto_pxe.Lease.{Lease, FileFormat, Allocator, Done}
use auto_pxe.Lease.Ops.{lookup_lease}
use auto_pxe.Lease.Invariant.{Inv}
use auto_pxe.Lease.Allocate.{HasLease, allocate-Inv, allocate-HasLease}
use auto_pxe.Lease.Grants.{allocate-granted}
use auto_pxe.Lease.Removal.{release-Inv, decline-Inv}
use auto_pxe.Dhcp.{
  Modifier, Handled, requested_or_client_ip, client_mac, answer_allocated, silent, serve,
  serve_release, decline_ip, serve_decline, handle, handle_packet,
}
use auto_pxe.Dhcp.Replies.{IfSent, IsAnswer, answer-IsAnswer}

module _ (built : Request → List Modifier → Bool) (cfg : Config) (tracker : Option Tracker)
    (req : Request) where
  -- The allocator stays sound, and a reply is an answer.
  abbrev pub IsSound : ℕ → Handled → Type 0
  IsSound now h = Inv h.leaser × IfSent (IsAnswer built cfg tracker req now h.leaser) h.reply

  module _ (now : ℕ) (io : Io) (subnet : IpNet)
      (configured : cfg.dhcp.parsed_subnet ≡ some subnet) where
    answer_allocated-IsSound :
        (r : Done × Option Lease)
        → Inv r.0.state
        → ((l : Lease) → r.1 ≡ some l → lookup_lease now (client_mac req) r.0.state ≡ some l)
        → HasLease r
        → Returns (IsSound now) (answer_allocated built cfg tracker req r)
    unfolding answer_allocated
    answer_allocated-IsSound (r, lease) i granted has = elim (Option-cases r.error) [
      | inr (e, h) ↦ simp h (i, tt)
      | inl h ↦ elim (Option-cases lease) [
        | inl missing ↦ absurd (ground (arith, has h))
        | inr (l, given) ↦
            simp (h, given, configured)
              (i, answer-IsAnswer built cfg tracker req now r.state subnet l (granted l given))
      ]
    ]

    serve-IsSound :
        (a : Allocator) (d : Disk FileFormat)
        → Inv a
        → 0 < a.lease_time
        → Returns (IsSound now) (serve built now io cfg tracker req a d)
    unfolding serve
    serve-IsSound a d i positive =
        Returns-bind _ _ call (answer_allocated built cfg tracker req)
          (Returns-and _ _ call
            (Returns-and _ _ call (allocate-Inv now io mac a d i)
              (OnSome-of_Returns _ call (allocate-granted now io mac a d i positive)))
            (allocate-HasLease now io mac a d))
          (λ r h. answer_allocated-IsSound r h.0.0 h.0.1 h.1)
      where
        mac : Text
        mac = client_mac req

        call : Option (Done × Option Lease)
        call = Lease.Ops.allocate now io mac a d

    -- Nothing is sent.
    abbrev IsSilent : Handled → Type 0
    IsSilent h = Inv h.leaser × (h.reply ≡ none)

    release-IsSilent :
        (a : Allocator) (d : Disk FileFormat)
        → Inv a
        → Returns IsSilent (serve_release built io req a d)
    unfolding serve_release
    release-IsSilent a d i =
        Returns-bind _ _ (Lease.Freeing.release io (client_mac req) req.client_ip a d)
          (silent built) (release-Inv a i d io (client_mac req) req.client_ip) (λ r h. (h, refl))

    decline_ip-IsSilent :
        (a : Allocator) (d : Disk FileFormat) (o : Option Ip)
        → Inv a
        → Returns IsSilent (decline_ip built now io req a d o)
    unfolding decline_ip
    decline_ip-IsSilent a d none i = (i, refl)
    decline_ip-IsSilent a d (some ip) i =
        Returns-bind _ _ (Lease.Freeing.decline now io (client_mac req) ip a d) (silent built)
          (decline-Inv now io (client_mac req) ip a d i) (λ r h. (h, refl))

    decline-IsSilent :
        (a : Allocator) (d : Disk FileFormat)
        → Inv a
        → Returns IsSilent (serve_decline built now io req a d)
    unfolding serve_decline
    decline-IsSilent a d i = decline_ip-IsSilent a d (requested_or_client_ip req) i

    -- A message of any other type than these is not answered.
    abbrev pub is_served : MessageType → Bool
    is_served discover = true
    is_served request = true
    is_served _ = false

    abbrev pub IsHandled : MessageType → Handled → Type 0
    IsHandled t h = IsSound now h × (is_served t ≡ false → h.reply ≡ none)

    unsent : (t : MessageType) (o : Option Handled) → Returns IsSilent o → Returns (IsHandled t) o
    unsent t none h = h
    unsent t (some r) (i, e) = ((i, rw e tt), λ _. e)

    sent :
        (t : MessageType) (o : Option Handled)
        → is_served t ≡ true
        → Returns (IsSound now) o
        → Returns (IsHandled t) o
    sent t none s h = h
    sent t (some r) s h = (h, λ e. cc)

    handle-IsHandled :
        (t : MessageType) (a : Allocator) (d : Disk FileFormat)
        → Inv a
        → 0 < a.lease_time
        → Returns (IsHandled t) (handle built now io cfg tracker req t a d)
    unfolding handle
    handle-IsHandled discover a d i p =
        sent discover (serve built now io cfg tracker req a d) refl (serve-IsSound a d i p)
    handle-IsHandled request a d i p =
        sent request (serve built now io cfg tracker req a d) refl (serve-IsSound a d i p)
    handle-IsHandled release a d i p =
        unsent release (serve_release built io req a d) (release-IsSilent a d i)
    handle-IsHandled decline a d i p =
        unsent decline (serve_decline built now io req a d) (decline-IsSilent a d i)
    handle-IsHandled t a d i p = ((i, tt), λ _. refl)

-- With a configured subnet, a positive lease time and the allocator's invariant, no packet makes the
-- handler panic, and every packet leaves the allocator with its invariant. A
-- reply goes out for `DHCPDISCOVER` and `DHCPREQUEST` only; it offers, or acknowledges, the address
-- of the lease that `Lookup` then finds for the client, and if the client is deployed it has neither
-- a boot file nor a boot option nor a PXE marker.
pub handle_packet-IsHandled :
    (built : Request → List Modifier → Bool) (now : ℕ) (io : Io) (cfg : Config)
    (tracker : Option Tracker) (req : Request) (subnet : IpNet) (a : Allocator)
    (d : Disk FileFormat)
    → (configured : cfg.dhcp.parsed_subnet ≡ some subnet) → Inv a
    → 0 < a.lease_time
    → Returns
        (IsHandled built cfg tracker req now io subnet configured req.message_type)
        (handle_packet built now io cfg tracker req a d)
unfolding handle_packet
handle_packet-IsHandled built now io cfg tracker req subnet a d configured i p =
    handle-IsHandled built cfg tracker req now io subnet configured req.message_type a d i p
