-- ===== src/Config/Valid.antt =====
-- internal/config/config.go: what `validate` guarantees to the servers.
use mathlib.Core.Path.{subst}
use auto_pxe.Prelude.{
  ◌<◌, ◌≡◌, refl, sym, false, ◌||◌, some, inl, inr, Bool-cases, if◌then◌else◌, Text, is_empty, All,
}
use auto_pxe.Net.Ip.{Ip, nil, v4, v16, is_nil}
use auto_pxe.Config.{IpNet, Dhcp, Config}
use auto_pxe.Config.Defaults.{apply_defaults}
use auto_pxe.Config.Validate
use auto_pxe.Config.Validate.{
  Invalid, Checked, ok, err, ◌>>=◌, ◌>>◌, refuse, parsed, valid_listen_ip, valid_subnet, valid_dns,
  valid_lease_time, valid_pool, valid_mac, valid_static, valid_statics, valid_dhcp, valid_names,
  validate, load,
}
use auto_pxe.Config.Checks.{
  OnOk, OnOk-bind, OnOk-skip, IsIp4, parsed-IsIp4, valid_lease_time-positive, IsValidPool,
  valid_pool-IsValidPool, IsValidStatic, valid_statics-IsValidStatic,
}

pub record IsValidDhcp (d : Dhcp) : Type 0 where
  pub subnet : IpNet
  pub subnet_lem : d.parsed_subnet ≡ some subnet
  pub lease_positive : 0 < d.parsed_lease
  pub pool : IsValidPool d.pool
  pub statics : All IsValidStatic d.static

valid_dhcp-IsValidDhcp : (d : Dhcp) → IsValidPool d.pool → OnOk IsValidDhcp (valid_dhcp d)
unfolding valid_dhcp
valid_dhcp-IsValidDhcp d raw = OnOk-skip IsValidDhcp (valid_subnet d.subnet) _ λ n.
    OnOk-skip IsValidDhcp (parsed d.gateway Validate.gateway_invalid) _ λ g.
      OnOk-skip IsValidDhcp (valid_dns Validate.dns_invalid d.dns d.parsed_dns) _ λ s.
        OnOk-bind (λ t. 0 < t) IsValidDhcp _ _ (valid_lease_time-positive d.lease_time)
          λ t ht. OnOk-bind IsValidPool IsValidDhcp _ _ (valid_pool-IsValidPool d.pool raw) λ p hp.
            OnOk-bind (All IsValidStatic) IsValidDhcp (valid_statics d.static)
              (λ ss. ok (record d {
                parsed_subnet = some n;
                parsed_gateway = g;
                parsed_dns = s;
                parsed_lease = t;
                pool = p;
                static = ss;
              }))
              (valid_statics-IsValidStatic d.static)
              λ ss hss. record {
                subnet = n;
                subnet_lem = refl;
                lease_positive = ht;
                pool = hp;
                statics = hss;
              }

pub record IsValid (c : Config) : Type 0 where
  pub listen_ip : IsIp4 c.listen.parsed_ip
  pub listens : is_nil c.listen.parsed_ip ≡ false
  pub dhcp : IsValidDhcp c.dhcp

valid_listen_ip-IsIp4 : (s : Text) → OnOk (λ ip. IsIp4 ip × (is_nil ip ≡ false)) (valid_listen_ip s)
unfolding valid_listen_ip
valid_listen_ip-IsIp4 s =
    OnOk-bind IsIp4 _ _ _ (parsed-IsIp4 s Validate.listen_ip_invalid) λ ip h. of_ip ip h
  where
    of_ip :
        (ip : Ip)
        → IsIp4 ip
        → OnOk
            (λ a. IsIp4 a × (is_nil a ≡ false))
            (if is_nil ip then err Validate.listen_ip_invalid else ok ip)
    of_ip nil h = tt
    of_ip (v4 a b c d) h = (h, refl)
    of_ip (v16 _ _ _ _ _ _ _ _) h = elim h [ ]

-- The pool of a configuration that has not been validated: no address is parsed.
abbrev pub IsRaw : Config → Type 0
IsRaw c = (c.dhcp.pool.parsed_start ≡ nil) × (c.dhcp.pool.parsed_end ≡ nil)

validate-IsValid : (c : Config) → IsRaw c → OnOk IsValid (validate c)
unfolding validate
validate-IsValid c (start, end) =
    OnOk-skip IsValid (refuse (is_empty c.listen.interface) Validate.interface_required) _ λ u.
      OnOk-bind (λ ip. IsIp4 ip × (is_nil ip ≡ false)) IsValid _ _
        (valid_listen_ip-IsIp4 c.listen.ip)
        λ ip hip. OnOk-bind IsValidDhcp IsValid _ _ (valid_dhcp-IsValidDhcp c.dhcp raw) λ d hd.
          OnOk-skip IsValid (refuse (is_empty c.deploy.image) Validate.image_required) _ λ v.
            OnOk-skip IsValid
              (refuse (is_empty c.ipa.kernel || is_empty c.ipa.initramfs) Validate.kernel_required)
              _
              λ w.
                OnOk-skip IsValid (valid_names c.dns)
                  (λ n.
                    ok (record c {
                      listen = record (c.listen) { parsed_ip = ip };
                      dhcp = d;
                      dns = n;
                    }))
                  λ n. record { listen_ip = hip.0; listens = hip.1; dhcp = hd }
  where
    raw : IsValidPool c.dhcp.pool
    raw = record { start = subst IsIp4 (sym start) tt; end = subst IsIp4 (sym end) tt }

apply_defaults-IsRaw : (c : Config) → IsRaw c → IsRaw (apply_defaults c)
unfolding apply_defaults
apply_defaults-IsRaw c h = elim (Bool-cases (is_empty c.dns.domain)) [
  | inl e ↦ simp e h
  | inr e ↦ simp e h
]

-- A configuration that `Load` returns has a subnet, a positive lease time, an IPv4 address to listen
-- on, static bindings whose MACs are canonical and name their addresses, and addresses of the pool
-- and of the bindings that are nil or four bytes. The document has no parsed addresses of its own.
pub load-IsValid :
    (document : Checked Config) (c : Config)
    → OnOk IsRaw document
    → load document ≡ ok c
    → IsValid c
unfolding load
load-IsValid (ok d) c raw e =
    subst (OnOk IsValid) e (validate-IsValid (apply_defaults d) (apply_defaults-IsRaw d raw))
load-IsValid (err x) c raw e = cc e
