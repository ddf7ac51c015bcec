-- ===== src/Config/Tests.antt =====
-- A configuration read, completed and validated.
use auto_pxe.Prelude.{◌≡◌, refl, true, none, some, [], ◌∷◌, codes}
use auto_pxe.Net.Ip.{nil, v4}
use auto_pxe.Config.{Config, Static}
use auto_pxe.Config.Validate.{Checked, ok, err, load, validate}
use auto_pxe.Config.Validate
use auto_pxe.Config.Valid

-- A binding of an IPv4 address.
abbrev binding : Static
binding = record {
  mac = codes "AA-BB-CC-DD-EE-01";
  ip = codes "192.168.100.10";
  hostname = codes "node1";
  gateway = [];
  dns = [];
  parsed_mac = [];
  parsed_ip = nil;
  parsed_gateway = nil;
  parsed_dns = [];
}

-- The document of a small site.
abbrev pub raw : Config
raw = record {
  listen = record {
    interface = codes "eth0";
    ip = codes "192.168.100.1";
    dhcp_port = 0;
    tftp_port = 0;
    http_port = 8080;
    ironic_port = 0;
    parsed_ip = nil;
  };
  dhcp = record {
    subnet = codes "192.168.100.0/24";
    gateway = codes "192.168.100.1";
    dns = codes "8.8.8.8" ∷ [];
    lease_time = codes "1h";
    lease_file = codes "/tmp/leases.json";
    pool = record {
      start = codes "192.168.100.100";
      end = codes "192.168.100.102";
      parsed_start = nil;
      parsed_end = nil;
    };
    static = binding ∷ [];
    domain_name = [];
    search_domains = [];
    parsed_subnet = none;
    parsed_gateway = nil;
    parsed_dns = [];
    parsed_lease = 0;
  };
  dns = record {
    enabled = true;
    listen = [];
    domain = codes "lab.local.";
    upstream = codes "1.1.1.1" ∷ [];
    wildcards = [];
    static = [];
    register_deployed = none;
    ttl = 0;
  };
  ipa = record {
    kernel = codes "/srv/ipa.kernel";
    initramfs = codes "/srv/ipa.initramfs";
    download = record { base_uri = []; flavor = []; branch = []; cache_dir = [] };
  };
  deploy = record {
    image = codes "/srv/image.qcow2";
    image_type = [];
    disk_format = [];
    root_mb = 0;
    root_gb = 20;
  };
  ironic = record { heartbeat_timeout = 0 };
  state_file = [];
  config_drive = record { user_data = []; meta_data = []; network_data = [] };
}

abbrev pub loaded_binding : Static
loaded_binding = record binding {
  mac = codes "aa:bb:cc:dd:ee:01";
  parsed_mac = 0xaa ∷ 0xbb ∷ 0xcc ∷ 0xdd ∷ 0xee ∷ 0x01 ∷ [];
  parsed_ip = v4 192 168 100 10;
}

abbrev pub loaded : Config
loaded = record {
  listen = record {
    interface = codes "eth0";
    ip = codes "192.168.100.1";
    dhcp_port = 67;
    tftp_port = 69;
    http_port = 8080;
    ironic_port = 6385;
    parsed_ip = v4 192 168 100 1;
  };
  dhcp = record (raw.dhcp) {
    pool = record (raw.dhcp.pool) {
      parsed_start = v4 192 168 100 100;
      parsed_end = v4 192 168 100 102;
    };
    static = loaded_binding ∷ [];
    domain_name = codes "lab.local";
    search_domains = codes "lab.local" ∷ [];
    parsed_subnet = some (record { ip = v4 192 168 100 0; mask = 255 ∷ 255 ∷ 255 ∷ 0 ∷ [] });
    parsed_gateway = v4 192 168 100 1;
    parsed_dns = v4 8 8 8 8 ∷ [];
    parsed_lease = 3600000000000;
  };
  dns = record (raw.dns) {
    listen = codes "192.168.100.1:53";
    register_deployed = some true;
    ttl = 60;
  };
  ipa = record (raw.ipa) {
    download = record {
      base_uri = codes "https://tarballs.opendev.org/openstack/ironic-python-agent/dib";
      flavor = codes "centos9";
      branch = codes "master";
      cache_dir = codes "/var/lib/autopxe/cache";
    };
  };
  deploy = record (raw.deploy) {
    image_type = codes "whole";
    disk_format = codes "qcow2";
    root_mb = 20480;
  };
  ironic = record { heartbeat_timeout = 300 };
  state_file = codes "/var/lib/autopxe/state.json";
  config_drive = raw.config_drive;
}

pub raw_loads : load (ok raw) ≡ ok loaded
unfolding load
raw_loads = refl

no_interface :
    load (ok (record raw { listen = record (raw.listen) { interface = [] } }))
    ≡ err Validate.interface_required
unfolding load
no_interface = refl

load-IsValid_example : Valid.IsValid loaded
load-IsValid_example = Valid.load-IsValid (ok raw) loaded (refl, refl) raw_loads

pub loaded-IsValid : Valid.IsValid loaded
loaded-IsValid = Valid.load-IsValid (ok raw) loaded (refl, refl) raw_loads
