-- ===== src/Dhcp.antt =====
-- internal/dhcp/server.go: the handler of one packet. A reply is the list of modifiers that
-- `dhcpv4.NewReplyFromRequest` is given, and the fields that the handler sets afterwards; whether
-- that library function succeeds is a parameter. Logging leaves no trace.
pub mod Replies
pub mod Handling
pub mod Packets
pub mod Tests
use auto_pxe.Prelude.{
  ℕ, ◌/◌, Bool, true, false, ◌&&◌, ◌||◌, not, Option, none, some, List, [], ◌∷◌, ◌++◌,
  if◌then◌else◌, Text, codes, to_lower, is_empty, print_number, ◌>>=◌,
}
use auto_pxe.Net.Mac.{mac_string}
use auto_pxe.Net.Ip.{Ip, nil, v4, to_4, is_nil, equal_4, ip_string}
use auto_pxe.Config.{Config, IpNet}
use auto_pxe.Storage.{Disk, Io}
use auto_pxe.Pxe.{
  Arch, unknown, bios_x86, uefi_x64, uefi_arm64, MessageType, discover, offer, request, decline,
  ack, nak, release, inform, other_type, Request, detect_arch, is_ipxe, firmware_bootfile,
}
use auto_pxe.Lease
use auto_pxe.Lease.{Lease, FileFormat, Allocator, Done}
use auto_pxe.State.{Tracker, is_deployed}

pub data Modifier : Type 0 where
  with_reply : Modifier
  with_message_type : MessageType → Modifier
  with_your_ip with_server_ip : Ip → Modifier
  with_netmask : Text → Modifier
  with_lease_time : ℕ → Modifier
  opt_server_identifier opt_router : Ip → Modifier
  opt_dns : List Ip → Modifier
  opt_host_name opt_domain_name : Text → Modifier
  with_domain_search_list : List Text → Modifier
  opt_class_identifier : Text → Modifier
  option_vendor_specific : List ℕ → Modifier

pub data BootOption : Type 0 where
  opt_boot_file_name opt_tftp_server_name : Text → BootOption

-- `boot_file_name` is `none` where the handler leaves the field as the library built it.
pub record Reply : Type 0 where
  pub modifiers : List Modifier
  pub server_host_name : Text
  pub boot_file_name : Option Text
  pub boot_options : List BootOption

-- The state of the allocator and its disk after a packet, and the reply that is sent.
pub record Handled : Type 0 where
  pub leaser : Allocator
  pub disk : Disk FileFormat
  pub reply : Option Reply

abbrev non_zero : Ip → Option Ip
non_zero ip4 = if is_nil ip4 || equal_4 ip4 (v4 0 0 0 0) then none else some ip4

-- `requestedOrClientIP`
unfoldable pub requested_or_client_ip : Request → Option Ip
unfolding to_4 equal_4
requested_or_client_ip req = elim (non_zero (to_4 req.requested_ip)) [
  | some ip ↦ some ip
  | none ↦ non_zero (to_4 req.client_ip)
]

-- `selectBoot`: an URL for iPXE, or the name of a boot file.
pub data Boot : Type 0 where
  boot_url boot_file : Text → Boot

unfoldable pub select_boot : Config → Arch → Bool → Text → Option Boot
unfolding ip_string print_number firmware_bootfile
select_boot cfg arch true mac = some (
    boot_url (
      codes "http://"
      ++ (ip_string cfg.listen.parsed_ip
          ++ (codes ":"
              ++ (print_number cfg.listen.http_port ++ (codes "/boot.ipxe?mac=" ++ mac))))))
select_boot cfg arch false mac = elim (firmware_bootfile arch) [
  | some name ↦ some (boot_file name)
  | none ↦ none
]

abbrev when {ℓ} : {A : Type ℓ} → Bool → List A → List A
when true xs = xs
when false xs = []

abbrev pub is_known : Arch → Bool
is_known unknown = false
is_known _ = true

unfoldable pub modifiers : Config → MessageType → Arch → Bool → IpNet → Lease → List Modifier
modifiers cfg reply_type arch deployed subnet l =
    (with_reply
      ∷ with_message_type reply_type
      ∷ with_your_ip l.ip
      ∷ with_server_ip cfg.listen.parsed_ip
      ∷ with_netmask subnet.mask
      ∷ with_lease_time (cfg.dhcp.parsed_lease / 1000000000)
      ∷ opt_server_identifier cfg.listen.parsed_ip
      ∷ opt_router l.gateway
      ∷ [])
    ++ (when (not (is_empty l.dns)) (opt_dns l.dns ∷ [])
        ++ (when (not (is_empty l.hostname)) (opt_host_name l.hostname ∷ [])
            ++ (when (not (is_empty cfg.dhcp.domain_name))
                  (opt_domain_name cfg.dhcp.domain_name ∷ [])
                ++ (when (not (is_empty cfg.dhcp.search_domains))
                      (with_domain_search_list cfg.dhcp.search_domains ∷ [])
                    ++ when (is_known arch && not deployed) (
                        opt_class_identifier (codes "PXEClient")
                        ∷ option_vendor_specific (0x06 ∷ 0x01 ∷ 0x08 ∷ 0xff ∷ [])
                        ∷ [])))))

-- The boot fields: none for a MAC that is deployed, nor where `selectBoot` gives nothing.
unfoldable pub with_boot : Config → Bool → Option Boot → List Modifier → Reply
unfolding ip_string
with_boot cfg deployed boot mods = elim (chosen deployed boot) [
  | none ↦ record {
    modifiers = mods;
    server_host_name = host;
    boot_file_name = none;
    boot_options = [];
  }
  | some name ↦ record {
    modifiers = mods;
    server_host_name = host;
    boot_file_name = some name;
    boot_options = opt_boot_file_name name ∷ opt_tftp_server_name host ∷ [];
  }
]
  where
    host : Text
    host = ip_string cfg.listen.parsed_ip

    chosen : Bool → Option Boot → Option Text
    chosen true b = none
    chosen false none = none
    chosen false (some (boot_url url)) = some url
    chosen false (some (boot_file name)) = some name

abbrev pub reply_type : MessageType → MessageType
reply_type request = ack
reply_type _ = offer

abbrev pub client_mac : Request → Text
client_mac req = to_lower (mac_string req.client_hw_addr)

-- `s.tracker != nil && s.tracker.IsDeployed(mac)`
abbrev pub gated : Option Tracker → Text → Bool
gated none mac = false
gated (some t) mac = is_deployed mac t

module _ (built : Request → List Modifier → Bool) where
  -- The reply for a lease.
  unfoldable pub answer : Config → Option Tracker → Request → IpNet → Lease → Option Reply
  unfolding to_lower mac_string is_deployed detect_arch is_ipxe select_boot modifiers with_boot
  answer cfg tracker req subnet l =
      let mac = client_mac req in
      let arch = detect_arch req.client_arch in
      let deployed = gated tracker mac in
      let mods = modifiers cfg (reply_type req.message_type) arch deployed subnet l in
      if built req mods
      then some (with_boot cfg deployed (select_boot cfg arch (is_ipxe req) mac) mods)
      else none

  -- A failed allocation ends the handler; so does an error of saving, with the lease in memory.
  unfoldable pub answer_allocated :
      Config → Option Tracker → Request → Done × Option Lease → Option Handled
  unfolding answer
  answer_allocated cfg tracker req (r, lease) = elim r.error [
    | some e ↦ some (record { leaser = r.state; disk = r.disk; reply = none })
    | none ↦ do
      l ← lease
      subnet ← cfg.dhcp.parsed_subnet
      some (record { leaser = r.state; disk = r.disk; reply = answer cfg tracker req subnet l })
  ]

  -- `DHCPDISCOVER` and `DHCPREQUEST`.
  unfoldable pub serve :
      ℕ → Io → Config → Option Tracker → Request → Allocator → Disk FileFormat → Option Handled
  unfolding answer_allocated Lease.Ops.allocate
  serve now io cfg tracker req a d = do
    r ← Lease.Ops.allocate now io (client_mac req) a d
    answer_allocated cfg tracker req r

  unfoldable pub silent : Done → Option Handled
  silent r = some (record { leaser = r.state; disk = r.disk; reply = none })

  unfoldable pub serve_release : Io → Request → Allocator → Disk FileFormat → Option Handled
  unfolding silent to_lower mac_string Lease.Freeing.release
  serve_release io req a d = do
    r ← Lease.Freeing.release io (client_mac req) req.client_ip a d
    silent r

  -- The same case once the requested address is read.
  unfoldable pub decline_ip :
      ℕ → Io → Request → Allocator → Disk FileFormat → Option Ip → Option Handled
  unfolding silent to_lower mac_string Lease.Freeing.decline
  decline_ip now io req a d none = some (record { leaser = a; disk = d; reply = none })
  decline_ip now io req a d (some ip) = do
    r ← Lease.Freeing.decline now io (client_mac req) ip a d
    silent r

  unfoldable pub serve_decline : ℕ → Io → Request → Allocator → Disk FileFormat → Option Handled
  unfolding decline_ip requested_or_client_ip
  serve_decline now io req a d = decline_ip now io req a d (requested_or_client_ip req)

  -- `handle`. `none` is a panic.
  unfoldable pub handle :
      ℕ
      → Io
      → Config
      → Option Tracker
      → Request
      → MessageType
      → Allocator
      → Disk FileFormat
      → Option Handled
  unfolding serve serve_release serve_decline
  handle now io cfg tracker req discover a d = serve now io cfg tracker req a d
  handle now io cfg tracker req request a d = serve now io cfg tracker req a d
  handle now io cfg tracker req release a d = serve_release io req a d
  handle now io cfg tracker req decline a d = serve_decline now io req a d
  handle now io cfg tracker req _ a d = some (record { leaser = a; disk = d; reply = none })

  -- The server's callback: the type of the message chooses the case.
  unfoldable pub handle_packet :
      ℕ → Io → Config → Option Tracker → Request → Allocator → Disk FileFormat → Option Handled
  unfolding handle
  handle_packet now io cfg tracker req a d = handle now io cfg tracker req req.message_type a d
