-- ===== src/Dhcp/Tests.antt =====
-- The DHCP handler at a concrete configuration.
use auto_pxe.Prelude.{refl, Bool, true, false, none, some, List, [], ◌∷◌, arith, codes, Returns}
use auto_pxe.Net.Ip.{nil, v4}
use auto_pxe.Storage.{all_well}
use auto_pxe.Config.{Config, IpNet}
use auto_pxe.Pxe.{Request, discover, efi_x86_64}
use auto_pxe.Dhcp.{Modifier, handle_packet}
use auto_pxe.Dhcp.Handling
use auto_pxe.Lease.Tests.{config, empty_disk, fresh, fresh-Inv}

abbrev pub subnet : IpNet
subnet = record { ip = v4 192 168 100 0; mask = 255 ∷ 255 ∷ 255 ∷ 0 ∷ [] }

abbrev pub site : Config
site = record {
  listen = record {
    interface = codes "eth0";
    ip = codes "192.168.100.1";
    dhcp_port = 67;
    tftp_port = 69;
    http_port = 8080;
    ironic_port = 6385;
    parsed_ip = v4 192 168 100 1;
  };
  dhcp = record config { parsed_subnet = some subnet };
  dns = record {
    enabled = false;
    listen = [];
    domain = [];
    upstream = [];
    wildcards = [];
    static = [];
    register_deployed = none;
    ttl = 60;
  };
  ipa = record {
    kernel = codes "/srv/ipa.kernel";
    initramfs = codes "/srv/ipa.initramfs";
    download = record { base_uri = []; flavor = []; branch = []; cache_dir = [] };
  };
  deploy = record {
    image = codes "/srv/image.qcow2";
    image_type = [];
    disk_format = [];
    root_mb = 0;
    root_gb = 0;
  };
  ironic = record { heartbeat_timeout = 300 };
  state_file = codes "/var/lib/autopxe/state.json";
  config_drive = record { user_data = []; meta_data = []; network_data = [] };
}

-- The firmware of an x86-64 UEFI machine asks for an address.
abbrev pub firmware : Request
firmware = record {
  message_type = discover;
  client_hw_addr = 0xaa ∷ 0xbb ∷ 0xcc ∷ 0xdd ∷ 0xee ∷ 0x01 ∷ [];
  client_arch = efi_x86_64 ∷ [];
  user_class = [];
  class_identifier = codes "PXEClient";
  requested_ip = nil;
  client_ip = v4 0 0 0 0;
}

-- Every reply can be built.
abbrev pub built : Request → List Modifier → Bool
built req ms = true

handle_packet-IsHandled_example :
    Returns
      (Handling.IsHandled built site none firmware 5 all_well subnet refl discover)
      (handle_packet built 5 all_well site none firmware fresh empty_disk)
handle_packet-IsHandled_example =
    Handling.handle_packet-IsHandled built 5 all_well site none firmware subnet fresh empty_disk
      refl fresh-Inv (omega arith)
