-- ===== src/Ironic/Gate.antt =====
-- From a finished deployment to the DHCP handler: internal/ironic/deploy.go, internal/state and
-- internal/dhcp together.
use mathlib.Core.Path.{subst}
use auto_pxe.Prelude.{
  ℕ, ◌+◌, ◌≤◌, ◌<◌, ◌≡◌, sym, ap, ◌∙◌, Bool, true, false, Option, none, some, List, Text, is_empty,
  length, any, inl, inr, Returns,
}
use auto_pxe.Storage.{Disk, Io}
use auto_pxe.Config.{Config, IpNet}
use auto_pxe.Node.{Node, new, done}
use auto_pxe.State
use auto_pxe.State.{Tracker, is_deployed}
use auto_pxe.State.Tracked.{names}
use auto_pxe.Pxe.{Request}
use auto_pxe.Lease
use auto_pxe.Lease.{Allocator}
use auto_pxe.Lease.Invariant.{Inv}
use auto_pxe.Dhcp.{Modifier, Reply, Handled, client_mac, gated, handle_packet}
use auto_pxe.Dhcp.Replies.{IsPlain, IfSent, IsAnswer}
use auto_pxe.Dhcp.Handling.{IsHandled, handle_packet-IsHandled}
use auto_pxe.Ironic.{Server}
use auto_pxe.Ironic.Deploy.{time_limit, Agent, Driven, returned, drive_deploy}
use auto_pxe.Ironic.Deploy.Polling.{is_final}
use auto_pxe.Ironic.Deploy.Outcome.{IsDone, Ends, drive_deploy-Ends_of_final}

-- A handled packet without a reply, or with a plain one.
abbrev pub HasPlainReply : Handled → Type 0
HasPlainReply h = IfSent IsPlain h.reply

IsPlain-of_answer :
    (built : Request → List Modifier → Bool) (cfg : Config) (tracker : Option Tracker)
    (req : Request) (now : ℕ) (a : Allocator) (o : Option Reply)
    → gated tracker (client_mac req) ≡ true
    → IfSent (IsAnswer built cfg tracker req now a) o
    → IfSent IsPlain o
IsPlain-of_answer built cfg tracker req now a none g h = tt
IsPlain-of_answer built cfg tracker req now a (some r) g (l, found, offers, plain) = plain g

handled_plain :
    (built : Request → List Modifier → Bool) (cfg : Config) (tracker : Option Tracker)
    (req : Request) (now : ℕ) (io : Io) (subnet : IpNet)
    (configured : cfg.dhcp.parsed_subnet ≡ some subnet) (o : Option Handled)
    → gated tracker (client_mac req) ≡ true
    → Returns (IsHandled built cfg tracker req now io subnet configured req.message_type) o
    → Returns HasPlainReply o
handled_plain built cfg tracker req now io subnet configured none g h = elim h [ ]
handled_plain built cfg tracker req now io subnet configured (some r) g h =
    IsPlain-of_answer built cfg tracker req now r.leaser r.reply g h.0.1

-- A driver that has left its node failed has not left it done.
done_of_Ends :
    (now : ℕ) (io : Io) (s : Server) (agent : Agent) (t : Tracker) (d : Disk State.FileFormat)
    (macs : List Text) (r : Driven)
    → r.node.state ≡ done
    → Ends now io s agent t d macs (returned r)
    → IsDone now io s agent t d macs r
done_of_Ends now io s agent t d macs r e (inl ended) = ended
done_of_Ends now io s agent t d macs r e (inr gave_up) = absurd (cc (sym e ∙ gave_up.state))

-- Once a driver that started on a new node with a UUID of eight bytes or more and a callback URL, and
-- whose agent sooner or later reported the end of the command or outlasted the deadline, has left its node
-- done, a DHCP packet from any MAC of the node is handled without a panic, and a reply to it has no boot
-- file, no boot option and no PXE marker. The DHCP server has a configured subnet, a positive lease time
-- and the allocator's invariant.
pub drive_deploy-HasPlainReply :
    (now : ℕ) (io : Io) (s : Server) (agent : Agent) (t : Tracker) (d : Disk State.FileFormat)
    (drive : Text) (n : Node) (r : Driven) (built : Request → List Modifier → Bool) (later : ℕ)
    (cfg : Config) (req : Request) (subnet : IpNet) (a : Allocator) (leases : Disk Lease.FileFormat)
    → 8 ≤ length n.uuid
    → is_empty n.callback_url ≡ false
    → n.state ≡ new
    → any (is_final (agent.begun + time_limit)) agent.polls ≡ true
    → drive_deploy now io s agent (some t) d drive n ≡ returned r
    → r.node.state ≡ done
    → names (client_mac req) n.macs ≡ true
    → cfg.dhcp.parsed_subnet ≡ some subnet
    → Inv a
    → 0 < a.lease_time
    → Returns HasPlainReply (handle_packet built later io cfg r.tracker req a leases)
drive_deploy-HasPlainReply now io s agent t d drive n r built later cfg req subnet a leases long
      given fresh f ran is_done mine configured i positive =
    let ends = drive_deploy-Ends_of_final now io s agent t d drive n long given fresh f in
    let ended =
      done_of_Ends now io s agent t d n.macs r is_done
        (subst (Ends now io s agent t d n.macs) ran ends) in
    let gate =
      ap (λ o. gated o (client_mac req)) ended.tracker_lem ∙ ended.gated (client_mac req) mine in
    handled_plain built cfg r.tracker req later io subnet configured _ gate (
      handle_packet-IsHandled built later io cfg r.tracker req subnet a leases configured i
        positive)
