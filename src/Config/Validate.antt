-- ===== src/Config/Validate.antt =====
-- internal/config/config.go: `validate` and `Load`. An error is a constructor for its message, without
-- the values that the message quotes.
use auto_pxe.Prelude.{
  ℕ, Bool, true, false, ◌||◌, not, none, some, List, [], ◌∷◌, ◌++◌, ◌==◌, if◌then◌else◌, Text,
  to_lower, is_empty,
}
use auto_pxe.Net.Mac.{parse_mac, mac_string}
use auto_pxe.Net.Ip.{Ip, to_4, is_nil}
use auto_pxe.Net.Ip.Parse.{parse_ip}
use auto_pxe.Net.Cidr.{parse_cidr}
use auto_pxe.Duration.{parse_duration}
use auto_pxe.Config.{IpNet, Pool, Static, Dhcp, Wildcard, DnsStatic, Dns, Config}
use auto_pxe.Config.Defaults.{apply_defaults}

pub data Invalid : Type 0 where
  unreadable unparsable : Invalid
  interface_required listen_ip_invalid subnet_invalid gateway_invalid dns_invalid
        lease_time_invalid :
      Invalid
  lease_time_not_positive pool_invalid static_mac_invalid static_ip_invalid static_gateway_invalid :
      Invalid
  static_dns_invalid image_required kernel_required dns_name_required dns_ip_invalid : Invalid
  suffix_required upstream_required : Invalid

pub data Checked {ℓ} (A : Type ℓ) : Type ℓ where
  ok : A → Checked A
  err : Invalid → Checked A

infixl 5 ◌>>=◌ ◌>>◌
abbrev pub ◌>>=◌ {ℓ κ} : {A : Type ℓ} {B : Type κ} → Checked A → (A → Checked B) → Checked B
ok a >>= k = k a
err e >>= k = err e

abbrev pub ◌>>◌ {ℓ} : {B : Type ℓ} → Checked (Unit {0}) → Checked B → Checked B
m >> k = m >>= λ _. k

abbrev pub refuse : Bool → Invalid → Checked (Unit {0})
refuse true e = err e
refuse false e = ok tt

-- `net.ParseIP` and its test for nil.
unfoldable pub parsed : Text → Invalid → Checked Ip
unfolding parse_ip
parsed s e = if is_nil (parse_ip s) then err e else ok (to_4 (parse_ip s))

unfoldable pub valid_listen_ip : Text → Checked Ip
unfolding parsed
valid_listen_ip s = do
  ip ← parsed s listen_ip_invalid
  if is_nil ip then err listen_ip_invalid else ok ip

unfoldable pub valid_subnet : Text → Checked IpNet
unfolding parse_cidr
valid_subnet s = elim (parse_cidr s) [
  | none ↦ err subnet_invalid
  | some (ip, mask) ↦ ok (record { ip = ip; mask = mask })
]

-- The addresses are added to those there are.
unfoldable pub valid_dns : Invalid → List Text → List Ip → Checked (List Ip)
unfolding parsed
valid_dns e [] out = ok out
valid_dns e (d ∷ ds) out = do ip ← parsed d e; valid_dns e ds (out ++ ip ∷ [])

unfoldable pub valid_lease_time : Text → Checked ℕ
unfolding parse_duration
valid_lease_time s = elim (parse_duration s) [
  | none ↦ err lease_time_invalid
  | some (negative, d) ↦ if negative || d == 0 then err lease_time_not_positive else ok d
]

unfoldable pub valid_pool : Pool → Checked Pool
unfolding parsed is_empty
valid_pool p =
    if not (is_empty p.start) || not (is_empty p.end)
    then (do
      s ← parsed p.start pool_invalid
      e ← parsed p.end pool_invalid
      ok (record p { parsed_start = s; parsed_end = e }))
    else ok p

unfoldable pub valid_mac : Text → Checked (List ℕ)
unfolding parse_mac
valid_mac s = elim (parse_mac s) [ none ↦ err static_mac_invalid | some mac ↦ ok mac ]

unfoldable pub valid_static : Static → Checked Static
unfolding valid_mac parsed valid_dns to_lower mac_string is_empty
valid_static s = do
  mac ← valid_mac s.mac
  ip ← parsed s.ip static_ip_invalid
  gateway ←
      if is_empty s.gateway then ok s.parsed_gateway else parsed s.gateway static_gateway_invalid
  dns ← valid_dns static_dns_invalid s.dns s.parsed_dns
  ok (record s {
    mac = to_lower (mac_string mac);
    parsed_mac = mac;
    parsed_ip = ip;
    parsed_gateway = gateway;
    parsed_dns = dns;
  })

unfoldable pub valid_statics : List Static → Checked (List Static)
unfolding valid_static
valid_statics [] = ok []
valid_statics (s ∷ ss) = do s' ← valid_static s; ss' ← valid_statics ss; ok (s' ∷ ss')

unfoldable pub valid_dhcp : Dhcp → Checked Dhcp
unfolding valid_subnet parsed valid_dns valid_lease_time valid_pool valid_statics
valid_dhcp d = do
  subnet ← valid_subnet d.subnet
  gateway ← parsed d.gateway gateway_invalid
  dns ← valid_dns dns_invalid d.dns d.parsed_dns
  lease ← valid_lease_time d.lease_time
  pool ← valid_pool d.pool
  statics ← valid_statics d.static
  ok (record d {
    parsed_subnet = some subnet;
    parsed_gateway = gateway;
    parsed_dns = dns;
    parsed_lease = lease;
    pool = pool;
    static = statics;
  })

unfoldable pub valid_dns_statics : List DnsStatic → Checked (List DnsStatic)
unfolding parse_ip is_empty
valid_dns_statics [] = ok []
valid_dns_statics (s ∷ ss) = do
  refuse (is_empty s.name) dns_name_required
  refuse (is_nil (parse_ip s.ip)) dns_ip_invalid
  ss' ← valid_dns_statics ss
  ok (record s { parsed_ip = parse_ip s.ip } ∷ ss')

unfoldable pub valid_wildcards : List Wildcard → Checked (Unit {0})
unfolding is_empty
valid_wildcards [] = ok tt
valid_wildcards (w ∷ ws) = do
  refuse (is_empty w.suffix) suffix_required
  refuse (is_empty w.upstream) upstream_required
  valid_wildcards ws

unfoldable pub valid_names : Dns → Checked Dns
unfolding valid_dns_statics valid_wildcards
valid_names d =
    if d.enabled
    then (do
      statics ← valid_dns_statics d.static
      valid_wildcards d.wildcards
      ok (record d { static = statics }))
    else ok d

unfoldable pub validate : Config → Checked Config
unfolding valid_listen_ip valid_dhcp valid_names is_empty
validate c = do
  refuse (is_empty c.listen.interface) interface_required
  ip ← valid_listen_ip c.listen.ip
  dhcp ← valid_dhcp c.dhcp
  refuse (is_empty c.deploy.image) image_required
  refuse (is_empty c.ipa.kernel || is_empty c.ipa.initramfs) kernel_required
  dns ← valid_names c.dns
  ok (record c { listen = record (c.listen) { parsed_ip = ip }; dhcp = dhcp; dns = dns })

-- `Load`: the document of the file, if it can be read and parses.
unfoldable pub load : Checked Config → Checked Config
unfolding apply_defaults validate
load document = do c ← document; validate (apply_defaults c)
