-- ===== src/Config/Defaults.antt =====
-- internal/config/config.go: `applyDefaults`. Numbers of the configuration are not negative here.
use auto_pxe.Prelude.{
  ℕ, ◌*◌, Bool, true, ◌&&◌, Option, none, some, [], ◌∷◌, ◌++◌, ltb, ◌==◌, if◌then◌else◌, Text,
  codes, is_empty, trim,
}
use auto_pxe.Config.{Listen, Dhcp, IpaDownload, Deploy, Dns, Config}

abbrev pub or_text : Text → Text → Text
or_text s default = if is_empty s then default else s

abbrev pub or_number : ℕ → ℕ → ℕ
or_number n default = if n == 0 then default else n

unfoldable pub default_listen : Listen → Listen
default_listen l = record l {
  dhcp_port = or_number l.dhcp_port 67;
  tftp_port = or_number l.tftp_port 69;
  http_port = or_number l.http_port 80;
  ironic_port = or_number l.ironic_port 6385;
}

unfoldable pub default_deploy : Deploy → Deploy
unfolding is_empty
default_deploy d =
    let root_mb = if d.root_mb == 0 && ltb 0 d.root_gb then d.root_gb * 1024 else d.root_mb in
    record d {
      image_type = or_text d.image_type (codes "whole");
      disk_format = or_text d.disk_format (codes "qcow2");
      root_mb = or_number root_mb 51200;
    }

unfoldable pub default_download : IpaDownload → IpaDownload
unfolding is_empty
default_download d = record d {
  base_uri =
      or_text d.base_uri (codes "https://tarballs.opendev.org/openstack/ironic-python-agent/dib");
  flavor = or_text d.flavor (codes "centos9");
  branch = or_text d.branch (codes "master");
  cache_dir = or_text d.cache_dir (codes "/var/lib/autopxe/cache");
}

abbrev pub or_true : Option Bool → Option Bool
or_true none = some true
or_true (some b) = some b

unfoldable pub default_dns : Listen → Dns → Dns
unfolding is_empty
default_dns l d =
    if d.enabled
    then record d {
      listen = or_text d.listen (l.ip ++ codes ":53");
      register_deployed = or_true d.register_deployed;
      ttl = or_number d.ttl 60;
    }
    else d

-- The lease time and file, and the domain that the DNS section gives.
unfoldable pub default_dhcp : Text → Dhcp → Dhcp
unfolding is_empty trim
default_dhcp domain d =
    let named = record d {
      lease_time = or_text d.lease_time (codes "12h");
      lease_file = or_text d.lease_file (codes "/var/lib/autopxe/leases.json");
    } in
    if is_empty domain then named else record named {
      domain_name = or_text d.domain_name (trim b'.' domain);
      search_domains =
          if is_empty d.search_domains then trim b'.' domain ∷ [] else d.search_domains;
    }

unfoldable pub apply_defaults : Config → Config
unfolding default_listen default_deploy default_download default_dns default_dhcp is_empty
apply_defaults c =
    let listen = default_listen c.listen in
    record c {
      listen = listen;
      dhcp = default_dhcp c.dns.domain c.dhcp;
      dns = default_dns listen c.dns;
      ipa = record (c.ipa) { download = default_download c.ipa.download };
      deploy = default_deploy c.deploy;
      ironic = record { heartbeat_timeout = or_number c.ironic.heartbeat_timeout 300 };
      state_file = or_text c.state_file (codes "/var/lib/autopxe/state.json");
    }
