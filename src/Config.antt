-- ===== src/Config.antt =====
-- The records of internal/config/config.go. A field that the program reads as text or number keeps
-- its name; a nil slice is the empty list.
pub mod Defaults
pub mod Validate
pub mod Checks
pub mod Valid
pub mod Tests
use auto_pxe.Prelude.{ℕ, Bool, Option, List, Text}
use auto_pxe.Net.Ip.{Ip}

pub record IpNet : Type 0 where
  pub ip : Ip
  pub mask : Text

pub record Listen : Type 0 where
  pub interface : Text
  pub ip : Text
  pub dhcp_port : ℕ
  pub tftp_port : ℕ
  pub http_port : ℕ
  pub ironic_port : ℕ
  pub parsed_ip : Ip

pub record Pool : Type 0 where
  pub start : Text
  pub end : Text
  pub parsed_start : Ip
  pub parsed_end : Ip

pub record Static : Type 0 where
  pub mac : Text
  pub ip : Text
  pub hostname : Text
  pub gateway : Text
  pub dns : List Text
  pub parsed_mac : List ℕ
  pub parsed_ip : Ip
  pub parsed_gateway : Ip
  pub parsed_dns : List Ip

pub record Dhcp : Type 0 where
  pub subnet : Text
  pub gateway : Text
  pub dns : List Text
  pub lease_time : Text
  pub lease_file : Text
  pub pool : Pool
  pub static : List Static
  pub domain_name : Text
  pub search_domains : List Text
  pub parsed_subnet : Option IpNet
  pub parsed_gateway : Ip
  pub parsed_dns : List Ip
  pub parsed_lease : ℕ

pub record IpaDownload : Type 0 where
  pub base_uri : Text
  pub flavor : Text
  pub branch : Text
  pub cache_dir : Text

pub record Ipa : Type 0 where
  pub kernel : Text
  pub initramfs : Text
  pub download : IpaDownload

pub record Deploy : Type 0 where
  pub image : Text
  pub image_type : Text
  pub disk_format : Text
  pub root_mb : ℕ
  pub root_gb : ℕ

pub record Ironic : Type 0 where
  pub heartbeat_timeout : ℕ

pub record ConfigDrive : Type 0 where
  pub user_data : Text
  pub meta_data : List (Text × Text)
  pub network_data : Text

pub record Wildcard : Type 0 where
  pub suffix : Text
  pub upstream : List Text

pub record DnsStatic : Type 0 where
  pub name : Text
  pub ip : Text
  pub parsed_ip : Ip

pub record Dns : Type 0 where
  pub enabled : Bool
  pub listen : Text
  pub domain : Text
  pub upstream : List Text
  pub wildcards : List Wildcard
  pub static : List DnsStatic
  pub register_deployed : Option Bool
  pub ttl : ℕ

pub record Config : Type 0 where
  pub listen : Listen
  pub dhcp : Dhcp
  pub dns : Dns
  pub ipa : Ipa
  pub deploy : Deploy
  pub ironic : Ironic
  pub state_file : Text
  pub config_drive : ConfigDrive
