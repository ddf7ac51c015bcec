-- ===== src/Net/Ip/Bounds.antt =====
-- The bytes and groups of a parsed address are in range.
use auto_pxe.Prelude.{
  ℕ, suc, zero, ◌-◌, Bool, true, false, Option, none, some, List, [], ◌∷◌, arith, inl, inr,
  Bool-cases, ltb, if◌then◌else◌, Text, length, All, All-append, OnSome,
}
use auto_pxe.Net.Ip.{Ip, nil, v4, v16, to_4}
use auto_pxe.Net.Ip.Parse.{
  ipv4_fields, Groups, ipv6_groups, zeros, expand, eight, finish, parse_ipv6, mapped, family, ipv4,
  ipv6, neither, parse_ip, has_zone, Family,
}
use auto_pxe.Net.Ip.Groups.{IsByte, IsGroup, AreGroups, ipv4_fields-IsByte, ipv6_groups-AreGroups}

-- Every byte, or group, of the address is one.
abbrev pub IsIp : Ip → Type 0
IsIp nil = Unit
IsIp (v4 a b c d) = IsByte a × IsByte b × IsByte c × IsByte d
IsIp (v16 a b c d e f g h) =
    IsGroup a × IsGroup b × IsGroup c × IsGroup d × IsGroup e × IsGroup f × IsGroup g × IsGroup h

pub to_4-IsIp : (ip : Ip) → IsIp ip → IsIp (to_4 ip)
unfolding to_4
to_4-IsIp nil h = tt
to_4-IsIp (v4 a b c d) h = h
to_4-IsIp (v16 a b c d e f g h) w = ground arith

zeros-IsGroup : (n : ℕ) → All IsGroup (zeros n)
unfolding zeros
zeros-IsGroup zero = tt
zeros-IsGroup (suc n) = (omega arith, zeros-IsGroup n)

expand-IsGroup :
    (n : ℕ) (missing gs : List ℕ)
    → All IsGroup missing
    → All IsGroup gs
    → All IsGroup (expand n missing gs)
unfolding expand
expand-IsGroup zero missing gs h k = All-append IsGroup missing gs h k
expand-IsGroup (suc n) missing [] h k = h
expand-IsGroup (suc n) missing (g ∷ gs) h k = (k.0, expand-IsGroup n missing gs h k.1)

eight-IsIp : (gs : List ℕ) → All IsGroup gs → IsIp (eight gs)
unfolding eight
eight-IsIp (a ∷ b ∷ c ∷ d ∷ e ∷ f ∷ g ∷ h ∷ []) (ka, (kb, (kc, (kd, (ke, (kf, (kg, (kh, _)))))))) =
    (ka, kb, kc, kd, ke, kf, kg, kh)
eight-IsIp _ k = tt

finish-IsIp : (o : Option Groups) → OnSome AreGroups o → IsIp (finish o)
unfolding finish
finish-IsIp none h = tt
finish-IsIp (some (gs, gap, c ∷ s)) h = tt
finish-IsIp (some (gs, none, [])) h = eight-IsIp gs h
finish-IsIp (some (gs, some k, [])) h = elim (Bool-cases (ltb (length gs) 8)) [
  | inl short ↦
      rw short (eight-IsIp _ (expand-IsGroup k (zeros (8 - length gs)) gs (zeros-IsGroup _) h))
  | inr full ↦ rw full tt
]

mapped-IsIp : (o : Option (List ℕ)) → OnSome (All IsByte) o → IsIp (mapped o)
unfolding mapped
mapped-IsIp (some (a ∷ b ∷ c ∷ d ∷ [])) (ka, (kb, (kc, (kd, _)))) = (
  omega arith,
  omega arith,
  omega arith,
  omega arith,
  omega arith,
  omega arith,
  omega arith,
  omega arith,
)
mapped-IsIp _ h = tt

choose-IsIp : (b : Bool) (x y : Ip) → IsIp x → IsIp y → IsIp (if b then x else y)
choose-IsIp true x y h k = h
choose-IsIp false x y h k = k

finish-ipv6_groups-IsIp : (s : Text) (gap : Option ℕ) → IsIp (finish (ipv6_groups 8 s [] gap))
finish-ipv6_groups-IsIp s gap = finish-IsIp _ (ipv6_groups-AreGroups 8 s [] gap tt)

parse_ipv6-IsIp : (s : Text) → IsIp (parse_ipv6 s)
unfolding parse_ipv6
parse_ipv6-IsIp [] = finish-ipv6_groups-IsIp [] none
parse_ipv6-IsIp (c ∷ []) = finish-ipv6_groups-IsIp (c ∷ []) none
parse_ipv6-IsIp (c ∷ d ∷ []) =
    choose-IsIp _ (v16 0 0 0 0 0 0 0 0) (finish (ipv6_groups 8 (c ∷ d ∷ []) [] none))
      (
        omega arith,
        omega arith,
        omega arith,
        omega arith,
        omega arith,
        omega arith,
        omega arith,
        omega arith,
      )
      (finish-ipv6_groups-IsIp (c ∷ d ∷ []) none)
parse_ipv6-IsIp (c ∷ d ∷ e ∷ s) =
    choose-IsIp _ (finish (ipv6_groups 8 (e ∷ s) [] (some 0)))
      (finish (ipv6_groups 8 (c ∷ d ∷ e ∷ s) [] none)) (finish-ipv6_groups-IsIp (e ∷ s) (some 0))
      (finish-ipv6_groups-IsIp (c ∷ d ∷ e ∷ s) none)

-- A parsed address is in range.
pub parse_ip-IsIp : (s : Text) → IsIp (parse_ip s)
unfolding parse_ip
parse_ip-IsIp s = of_family (family s)
  where
    of_family :
        (f : Family)
        → IsIp (elim f [
          | ipv4 ↦ mapped (ipv4_fields s 0 0 [])
          | ipv6 ↦ if has_zone s then nil else parse_ipv6 s
          | neither ↦ nil
        ])
    of_family ipv4 = mapped-IsIp _ (ipv4_fields-IsByte s 0 0 [] (omega arith) tt)
    of_family ipv6 = choose-IsIp (has_zone s) nil (parse_ipv6 s) tt (parse_ipv6-IsIp s)
    of_family neither = tt
