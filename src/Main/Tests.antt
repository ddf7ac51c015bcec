-- ===== src/Main/Tests.antt =====
-- The program started on a small site, with a packet from a machine's firmware.
use mathlib.Core.Path.{subst}
use auto_pxe.Prelude.{
  any, text_beq, arith, ◌∙◌, ◌≡◌, refl, sym, true, false, none, some, [], ◌∷◌, codes, Returns,
}
use auto_pxe.Storage.{Disk, document, all_well}
use auto_pxe.Config.Tests.{raw, loaded, raw_loads, loaded-IsValid}
use auto_pxe.Config.Validate
use auto_pxe.Config.Validate.{ok}
use auto_pxe.Config.Checks.{OnOk}
use auto_pxe.Lease
use auto_pxe.Lease.Restore.{IsCoherent, address}
use auto_pxe.Net.Canon.{canon}
use auto_pxe.Net.Ip.Parse.{parse_ip}
use auto_pxe.Lease.{ip_to_u32}
use auto_pxe.Lease.Load.{new_allocator}
use auto_pxe.Lease.Restore.{Starts}
use auto_pxe.Lease.Startup.{OnResult, new_allocator-Inv}
use auto_pxe.Dhcp.Packets.{Packet}
use auto_pxe.Dhcp.Tests.{built, firmware}
use auto_pxe.Download.Tests.{online, loaded-IsOutside}
use auto_pxe.Main.{more, at_end, hash_file, Flags, Environment, Disks, main, finished}
use auto_pxe.Main.Serving

abbrev environment : Environment
environment = record {
  now = 5;
  document = ok raw;
  reads_leases = true;
  reads_state = true;
  io = all_well;
  download = online;
  sha256 = λ bytes. codes "ab";
  image = some (more (codes "QFI") ∷ at_end (codes "x") ∷ []);
  reverse_addr = λ s. none;
  sort = λ before ws. ws;
}

abbrev no_flags : Flags
no_flags = record { forget = []; forget_all = false; list_deployed = false; clear_leases = false }

-- Two leases of the pool and an address that was declined.
abbrev leases : Lease.FileFormat
leases = record {
  version = 1;
  leases =
      (codes "aa:bb:cc:dd:ee:01", record { ip = codes "192.168.100.101"; expires = 900 })
      ∷ (codes "aa:bb:cc:dd:ee:02", record { ip = codes "192.168.100.102"; expires = 900 })
      ∷ [];
  declined =
      (codes "192.168.100.103", record { mac = codes "aa:bb:cc:dd:ee:03"; expires_at = 800 }) ∷ [];
}

abbrev lease_disk : Disk Lease.FileFormat
lease_disk = record { file = some (document leases); tmp = none }

address_1 : address (codes "192.168.100.101") ≡ some 0xc0a86465
unfolding parse_ip ip_to_u32
address_1 = refl

address_2 : address (codes "192.168.100.102") ≡ some 0xc0a86466
unfolding parse_ip ip_to_u32
address_2 = refl

address_3 : address (codes "192.168.100.103") ≡ some 0xc0a86467
unfolding parse_ip ip_to_u32
address_3 = refl

-- The addresses of the leases are not the declined one.
leases-IsCoherent : IsCoherent leases
unfolding any text_beq canon
leases-IsCoherent = record {
  macs = (refl, (refl, tt));
  apart = (
    (λ v h. ((λ e. ground (arith, sym address_1 ∙ h ∙ sym e ∙ address_3)), tt)),
    ((λ v h. ((λ e. ground (arith, sym address_2 ∙ h ∙ sym e ∙ address_3)), tt)), tt),
  );
}

abbrev disks : Disks
disks = record { leases = lease_disk; state = record { file = none; tmp = none }; files = [] }

lists : main environment (record no_flags { list_deployed = true }) disks ≡ some (finished [] disks)
unfolding main
lists = refl

abbrev packet : Packet
packet = record { req = firmware; now = 6; io = all_well; tracker = none }

suitable : OnOk Serving.IsSuitable (Validate.load (ok raw))
suitable = subst (OnOk Serving.IsSuitable) (sym raw_loads) ((refl, tt), loaded-IsOutside)

main-IsServing_example :
    Returns (Serving.OnServing built (packet ∷ packet ∷ [])) (main environment no_flags disks)
unfolding hash_file
main-IsServing_example =
    Serving.main-IsServing built (packet ∷ packet ∷ []) environment no_flags disks (refl, refl)
      suitable leases-IsCoherent refl

new_allocator-Inv_example :
    Returns
      (OnResult (Starts loaded.dhcp.parsed_lease))
      (new_allocator 5 true lease_disk loaded.dhcp)
new_allocator-Inv_example =
    new_allocator-Inv 5 true lease_disk loaded.dhcp loaded-IsValid.dhcp (refl, tt) leases-IsCoherent
