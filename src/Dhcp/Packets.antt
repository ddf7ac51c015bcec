-- ===== src/Dhcp/Packets.antt =====
-- internal/dhcp/server.go: the packets of a server's life, one after the other. A handler makes one call
-- of the allocator, so handlers that run side by side are in the order of these calls.
use auto_pxe.Prelude.{
  ℕ, ◌<◌, ◌≡◌, refl, sym, Bool, Option, none, some, List, [], ◌∷◌, Returns, OnSome, OnSome-bind,
  ◌>>=◌, inl, inr, Option-cases,
}
use mathlib.Core.Path.{subst}
use auto_pxe.Config.{Config, IpNet}
use auto_pxe.Net.Ip.{Ip}
use auto_pxe.Storage.{Disk, Io}
use auto_pxe.Pxe.{MessageType, discover, request, decline, release, Request}
use auto_pxe.State.{Tracker}
use auto_pxe.Lease
use auto_pxe.Lease.{Lease, FileFormat, Allocator, Done}
use auto_pxe.Lease.Invariant.{Inv}
use auto_pxe.Lease.Steady.{Steady, allocate-Steady, release-Steady, decline-Steady}
use auto_pxe.Dhcp
use auto_pxe.Dhcp.{
  Modifier, Handled, requested_or_client_ip, client_mac, answer_allocated, silent, serve,
  serve_release, decline_ip, serve_decline, handle, handle_packet,
}
use auto_pxe.Dhcp.Handling.{IsHandled, handle_packet-IsHandled}

-- A packet with the time and the outcome of the writes that its handler meets, and the tracker as it then is.
pub record Packet : Type 0 where
  pub req : Request
  pub now : ℕ
  pub io : Io
  pub tracker : Option Tracker

module _ (built : Request → List Modifier → Bool) (cfg : Config) where
  module _ (time now : ℕ) (io : Io) (tracker : Option Tracker) (req : Request) (a : Allocator)
      (d : Disk FileFormat) (h : Steady time a) where
    answer_allocated-Steady :
        (r : Done × Option Lease)
        → Steady time r.0.state
        → OnSome (λ x. Steady time x.leaser) (answer_allocated built cfg tracker req r)
    unfolding answer_allocated
    answer_allocated-Steady (r, lease) k = elim (Option-cases r.error) [
      | inr (e, q) ↦ simp q k
      | inl q ↦ simp q (of_lease lease cfg.dhcp.parsed_subnet)
    ]
      where
        of_lease :
            (o : Option Lease) (s : Option IpNet)
            → OnSome
                (λ (x : Handled). Steady time x.leaser)
                (o >>= λ l. s >>= λ n. some (record {
                  leaser = r.state;
                  disk = r.disk;
                  reply = Dhcp.answer built cfg tracker req n l;
                }))
        of_lease none s = tt
        of_lease (some l) none = tt
        of_lease (some l) (some n) = k

    serve-Steady : OnSome (λ x. Steady time x.leaser) (serve built now io cfg tracker req a d)
    unfolding serve
    serve-Steady =
        OnSome-bind _ _ (Lease.Ops.allocate now io (client_mac req) a d)
          (answer_allocated built cfg tracker req)
          (allocate-Steady time now io (client_mac req) a d h) (λ r k. answer_allocated-Steady r k)

    serve_release-Steady : OnSome (λ x. Steady time x.leaser) (serve_release built io req a d)
    unfolding serve_release silent
    serve_release-Steady =
        OnSome-bind _ _ (Lease.Freeing.release io (client_mac req) req.client_ip a d) (silent built)
          (release-Steady time now io (client_mac req) a d h req.client_ip) (λ r k. k)

    decline_ip-Steady :
        (o : Option Ip) → OnSome (λ x. Steady time x.leaser) (decline_ip built now io req a d o)
    unfolding decline_ip silent
    decline_ip-Steady none = h
    decline_ip-Steady (some ip) =
        OnSome-bind _ _ (Lease.Freeing.decline now io (client_mac req) ip a d) (silent built)
          (decline-Steady time now io (client_mac req) ip a d h) (λ r k. k)

    handle-Steady :
        (t : MessageType)
        → OnSome (λ x. Steady time x.leaser) (handle built now io cfg tracker req t a d)
    unfolding handle serve_decline
    handle-Steady discover = serve-Steady
    handle-Steady request = serve-Steady
    handle-Steady release = serve_release-Steady
    handle-Steady decline = decline_ip-Steady (requested_or_client_ip req)
    handle-Steady t = h

    handle_packet-Steady :
        OnSome (λ x. Steady time x.leaser) (handle_packet built now io cfg tracker req a d)
    unfolding handle_packet
    handle_packet-Steady = handle-Steady req.message_type

  module _ (subnet : IpNet) (configured : cfg.dhcp.parsed_subnet ≡ some subnet) where
    -- Each packet is handled, in the state that the ones before it leave.
    abbrev pub AllHandled : List Packet → Allocator → Disk FileFormat → Type 0
    AllHandled [] a d = Unit
    AllHandled (p ∷ ps) a d =
        Returns
          (λ h.
            IsHandled built cfg p.tracker p.req p.now p.io subnet configured p.req.message_type h
            × AllHandled ps h.leaser h.disk)
          (handle_packet built p.now p.io cfg p.tracker p.req a d)

    pub packets-AllHandled :
        (ps : List Packet) (a : Allocator) (d : Disk FileFormat)
        → Inv a
        → 0 < a.lease_time
        → AllHandled ps a d
    packets-AllHandled [] a d i positive = tt
    packets-AllHandled (p ∷ ps) a d i positive =
        go (handle_packet built p.now p.io cfg p.tracker p.req a d)
          (handle_packet-IsHandled built p.now p.io cfg p.tracker p.req subnet a d configured i
            positive)
          (handle_packet-Steady a.lease_time p.now p.io p.tracker p.req a d refl)
          (λ h j k. packets-AllHandled ps h.leaser h.disk j k)
      where
        go :
            (o : Option Handled)
            → Returns
                (IsHandled built cfg p.tracker p.req p.now p.io subnet configured
                  p.req.message_type)
                o
            → OnSome (λ x. Steady a.lease_time x.leaser) o
            → ((h : Handled)
                → Inv h.leaser
                → 0 < h.leaser.lease_time
                → AllHandled ps h.leaser h.disk)
            → Returns
                (λ h.
                  IsHandled built cfg p.tracker p.req p.now p.io subnet configured
                    p.req.message_type h
                  × AllHandled ps h.leaser h.disk)
                o
        go none handled steady rest = elim handled [ ]
        go (some h) handled steady rest =
            (handled, rest h handled.0.0 (subst (λ t. 0 < t) (sym steady) positive))
