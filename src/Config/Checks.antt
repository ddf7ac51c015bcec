-- ===== src/Config/Checks.antt =====
-- internal/config/config.go: what the tests of `validate` guarantee, one value at a time.
use mathlib.Core.Path.{subst}
use auto_pxe.Prelude.{
  ℕ, ◌<◌, ◌≡◌, refl, Bool, ◌||◌, not, Option, none, some, List, [], ◌∷◌, ◌==◌, arith, inl, inr,
  Bool-cases, if◌then◌else◌, Text, to_lower, is_empty, All,
}
use auto_pxe.Net.Mac.{parse_mac, mac_string}
use auto_pxe.Net.Canon
use auto_pxe.Net.Canon.{canon}
use auto_pxe.Net.Ip.{Ip, nil, v4, v16, to_4, is_nil}
use auto_pxe.Net.Ip.Bounds.{IsIp, parse_ip-IsIp}
use auto_pxe.Net.Ip.Parse.{parse_ip}
use auto_pxe.Duration.{parse_duration}
use auto_pxe.Config.{Pool, Static}
use auto_pxe.Config.Validate
use auto_pxe.Config.Validate.{
  Invalid, Checked, ok, err, ◌>>=◌, ◌>>◌, refuse, parsed, valid_listen_ip, valid_subnet, valid_dns,
  valid_lease_time, valid_pool, valid_mac, valid_static, valid_statics, valid_dhcp, valid_names,
  validate, load,
}

-- A checked value, if there is one, satisfies `P`.
abbrev pub OnOk {ℓ} : {A : Type ℓ} → (A → Type 0) → Checked A → Type 0
OnOk P (ok a) = P a
OnOk P (err e) = Unit

pub OnOk-bind {ℓ κ} :
    {A : Type ℓ} {B : Type κ} (P : A → Type 0) (Q : B → Type 0) (m : Checked A) (k : A → Checked B)
    → OnOk P m
    → ((a : A) → P a → OnOk Q (k a))
    → OnOk Q (m >>= k)
OnOk-bind P Q (ok a) k h f = f a h
OnOk-bind P Q (err e) k h f = tt

-- A checked value about which nothing is needed.
pub OnOk-skip {ℓ κ} :
    {A : Type ℓ} {B : Type κ} (Q : B → Type 0) (m : Checked A) (k : A → Checked B)
    → ((a : A) → OnOk Q (k a))
    → OnOk Q (m >>= k)
OnOk-skip Q (ok a) k f = f a
OnOk-skip Q (err e) k f = tt

-- Nil, or four bytes.
abbrev pub IsIp4 : Ip → Type 0
IsIp4 nil = Unit
IsIp4 (v4 a b c d) = IsIp (v4 a b c d)
IsIp4 (v16 a b c d e f g h) = ⊥

to_4-IsIp4 : (ip : Ip) → IsIp ip → IsIp4 (to_4 ip)
unfolding to_4
to_4-IsIp4 nil h = tt
to_4-IsIp4 (v4 a b c d) h = h
to_4-IsIp4 (v16 a b c d e f g h) w = ground arith

pub parsed-IsIp4 : (s : Text) (e : Invalid) → OnOk IsIp4 (parsed s e)
unfolding parsed
parsed-IsIp4 s e = elim (Bool-cases (is_nil (parse_ip s))) [
  | inl bad ↦ simp bad tt
  | inr good ↦ simp good (to_4-IsIp4 (parse_ip s) (parse_ip-IsIp s))
]

pub valid_lease_time-positive : (s : Text) → OnOk (λ d. 0 < d) (valid_lease_time s)
unfolding valid_lease_time
valid_lease_time-positive s = of_duration (parse_duration s)
  where
    of_duration :
        (o : Option (Bool × ℕ))
        → OnOk
            (λ d. 0 < d)
            (elim o [
              | none ↦ err Validate.lease_time_invalid
              | some (negative, d) ↦
                  if negative || d == 0 then err Validate.lease_time_not_positive else ok d
            ])
    of_duration none = tt
    of_duration (some (negative, d)) = elim (Bool-cases (negative || d == 0)) [
      | inl bad ↦ rw bad tt
      | inr good ↦ rw good (ground arith)
    ]

pub record IsValidPool (p : Pool) : Type 0 where
  pub start : IsIp4 p.parsed_start
  pub end : IsIp4 p.parsed_end

pub valid_pool-IsValidPool : (p : Pool) → IsValidPool p → OnOk IsValidPool (valid_pool p)
unfolding valid_pool
valid_pool-IsValidPool p raw = elim (Bool-cases (not (is_empty p.start) || not (is_empty p.end))) [
  | inr absent ↦ rw absent raw
  | inl given ↦ rw given (
      OnOk-bind IsIp4 IsValidPool _ _ (parsed-IsIp4 p.start Validate.pool_invalid) λ s hs.
        OnOk-bind IsIp4 IsValidPool _ _ (parsed-IsIp4 p.end Validate.pool_invalid)
          λ e he. record { start = hs; end = he })
]

-- The MAC of a binding is canonical and names its parsed address; its IP address is nil or four bytes.
pub record IsValidStatic (s : Static) : Type 0 where
  pub mac : parse_mac s.mac ≡ some s.parsed_mac
  pub canonical : canon s.mac ≡ s.mac
  pub ip : IsIp4 s.parsed_ip

valid_mac-parses : (s : Text) → OnOk (λ mac. parse_mac s ≡ some mac) (valid_mac s)
unfolding valid_mac
valid_mac-parses s = go (parse_mac s) refl
  where
    go :
        (o : Option (List ℕ))
        → parse_mac s ≡ o
        → OnOk
            (λ mac. parse_mac s ≡ some mac)
            (elim o [ none ↦ err Validate.static_mac_invalid | some mac ↦ ok mac ])
    go none e = tt
    go (some mac) e = e

canon_printed :
    (s : Text) (bs : List ℕ) → parse_mac s ≡ some bs → canon s ≡ to_lower (mac_string bs)
unfolding canon
canon_printed s bs h = rw (h, canon) refl

valid_static-IsValidStatic : (s : Static) → OnOk IsValidStatic (valid_static s)
unfolding valid_static
valid_static-IsValidStatic s =
    OnOk-bind (λ mac. parse_mac s.mac ≡ some mac) IsValidStatic _ _ (valid_mac-parses s.mac)
      λ mac hm.
        OnOk-bind IsIp4 IsValidStatic _ _ (parsed-IsIp4 s.ip Validate.static_ip_invalid) λ ip hip.
          OnOk-skip IsValidStatic
            (if is_empty s.gateway
              then ok s.parsed_gateway
              else parsed s.gateway Validate.static_gateway_invalid)
            _
            λ g.
              OnOk-skip IsValidStatic (valid_dns Validate.static_dns_invalid s.dns s.parsed_dns)
                (λ d. ok (record s {
                  mac = to_lower (mac_string mac);
                  parsed_mac = mac;
                  parsed_ip = ip;
                  parsed_gateway = g;
                  parsed_dns = d;
                }))
                λ d.
                  let (again, names) = Canon.canon-canon s.mac mac hm in
                  let printed = canon_printed s.mac mac hm in
                  record {
                    mac = subst (λ t. parse_mac t ≡ some mac) printed names;
                    canonical = subst (λ t. canon t ≡ t) printed again;
                    ip = hip;
                  }

pub valid_statics-IsValidStatic : (ss : List Static) → OnOk (All IsValidStatic) (valid_statics ss)
unfolding valid_statics
valid_statics-IsValidStatic [] = tt
valid_statics-IsValidStatic (s ∷ ss) =
    OnOk-bind IsValidStatic (All IsValidStatic) _ _ (valid_static-IsValidStatic s) λ t ht.
      OnOk-bind (All IsValidStatic) (All IsValidStatic) _ _ (valid_statics-IsValidStatic ss)
        λ ts hts. (ht, hts)
