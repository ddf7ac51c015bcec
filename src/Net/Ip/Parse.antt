-- ===== src/Net/Ip/Parse.antt =====
-- `net.ParseIP`: the texts of both address families. An IPv4 text gives sixteen bytes.
use auto_pxe.Prelude.{
  ℕ, suc, zero, ◌+◌, ◌-◌, ◌*◌, Bool, true, false, ◌&&◌, ◌||◌, Option, none, some, List, [], ◌∷◌,
  ◌++◌, ◌≡◌, refl, leb, ltb, ◌==◌, if◌then◌else◌, Text, length, ◌>>=◌, is_empty, codes, not,
}
use auto_pxe.Net.Mac.{hex_value}
use auto_pxe.Net.Ip.{Ip, nil, v16}

unfoldable pub is_digit : ℕ → Bool
is_digit c = leb b'0' c && leb c b'9'

-- The loop over the text of `a.b.c.d`: the value and the length of the field, and the fields before.
unfoldable pub ipv4_fields : Text → ℕ → ℕ → List ℕ → Option (List ℕ)
unfolding is_digit is_empty
ipv4_fields [] val len done = if length done == 3 then some (done ++ val ∷ []) else none
ipv4_fields (c ∷ s) val len done =
    let more = ipv4_fields s (val * 10 + (c - b'0')) (len + 1) done in
    let next = ipv4_fields s 0 0 (done ++ val ∷ []) in
    if is_digit c
    then (if (len == 1 && val == 0) || ltb 255 (val * 10 + (c - b'0')) then none else more)
    else (if c == b'.' && not (len == 0 || (is_empty s || length done == 3)) then next else none)

-- The digits of a group: its value, its length, and what follows. Five digits are too many.
unfoldable pub hex_run : Text → ℕ → ℕ → Option (ℕ × ℕ × Text)
unfolding hex_value
hex_run [] acc off = some (acc, off, [])
hex_run (c ∷ s) acc off = elim (hex_value c) [
  | none ↦ some (acc, off, c ∷ s)
  | some x ↦ if leb 4 off then none else hex_run s (acc * 16 + x) (off + 1)
]

-- The groups read, where `::` stood among them, and the text left.
abbrev pub Groups : Type 0
Groups = List ℕ × Option ℕ × Text

unfoldable pub add_bytes : List ℕ → Option ℕ → List ℕ → Option Groups
add_bytes groups gap (a ∷ b ∷ c ∷ d ∷ []) =
    some (groups ++ (a * 256 + b) ∷ (c * 256 + d) ∷ [], gap, [])
add_bytes groups gap _ = none

is_gap : Option ℕ → Bool
is_gap none = false
is_gap (some _) = true

unfoldable pub ipv4_tail : Text → List ℕ → Option ℕ → Option Groups
unfolding ipv4_fields add_bytes is_gap
ipv4_tail s groups gap =
    if (length groups == 6 || (is_gap gap && leb (length groups) 6))
    then (ipv4_fields s 0 0 [] >>= add_bytes groups gap)
    else none

-- What follows a group: nothing, a colon and a group, or `::`.
pub data Next : Type 0 where
  stop : Option Groups → Next
  go : Option ℕ → Text → Next

unfoldable pub after_colons : List ℕ → Option ℕ → Text → Next
after_colons groups (some _) t = stop none
after_colons groups none [] = stop (some (groups, some (length groups), []))
after_colons groups none (e ∷ t) = go (some (length groups)) (e ∷ t)

unfoldable pub after_group : List ℕ → Option ℕ → Text → Next
unfolding after_colons
after_group groups gap [] = stop (some (groups, gap, []))
after_group groups gap (c ∷ []) = stop none
after_group groups gap (c ∷ d ∷ s) =
    if c == b':'
    then (if d == b':' then after_colons groups gap s else go gap (d ∷ s))
    else stop none

unfoldable pub is_dot : Text → Bool
is_dot [] = false
is_dot (c ∷ s) = c == b'.'

-- The loop over at most eight groups.
unfoldable pub ipv6_groups : ℕ → Text → List ℕ → Option ℕ → Option Groups
unfolding hex_run ipv4_tail after_group is_dot
ipv6_groups zero s groups gap = some (groups, gap, s)
ipv6_groups (suc n) s groups gap = elim (hex_run s 0 0) [
  | none ↦ none
  | some (acc, off, rest) ↦
      if off == 0
      then none
      else (if is_dot rest
          then ipv4_tail s groups gap
          else (elim (after_group (groups ++ acc ∷ []) gap rest) [
            | stop r ↦ r
            | go gap' t ↦ ipv6_groups n t (groups ++ acc ∷ []) gap'
          ]))
]

unfoldable pub zeros : ℕ → List ℕ
zeros zero = []
zeros (suc n) = 0 ∷ zeros n

-- Zero groups take the place of the gap.
unfoldable pub expand : ℕ → List ℕ → List ℕ → List ℕ
unfolding zeros
expand zero missing gs = missing ++ gs
expand (suc n) missing [] = missing
expand (suc n) missing (g ∷ gs) = g ∷ expand n missing gs

unfoldable pub eight : List ℕ → Ip
eight (a ∷ b ∷ c ∷ d ∷ e ∷ f ∷ g ∷ h ∷ []) = v16 a b c d e f g h
eight _ = nil

unfoldable pub finish : Option Groups → Ip
unfolding expand eight zeros
finish none = nil
finish (some (gs, gap, _ ∷ _)) = nil
finish (some (gs, none, [])) = eight gs
finish (some (gs, some k, [])) =
    if ltb (length gs) 8 then eight (expand k (zeros (8 - length gs)) gs) else nil

unfoldable pub parse_ipv6 : Text → Ip
unfolding ipv6_groups finish
parse_ipv6 (c ∷ d ∷ []) =
    if c == b':' && d == b':'
    then v16 0 0 0 0 0 0 0 0
    else finish (ipv6_groups 8 (c ∷ d ∷ []) [] none)
parse_ipv6 (c ∷ d ∷ e ∷ s) =
    if c == b':' && d == b':'
    then finish (ipv6_groups 8 (e ∷ s) [] (some 0))
    else finish (ipv6_groups 8 (c ∷ d ∷ e ∷ s) [] none)
parse_ipv6 s = finish (ipv6_groups 8 s [] none)

unfoldable pub mapped : Option (List ℕ) → Ip
mapped (some (a ∷ b ∷ c ∷ d ∷ [])) = v16 0 0 0 0 0 65535 (a * 256 + b) (c * 256 + d)
mapped _ = nil

pub data Family : Type 0 where
  ipv4 ipv6 neither : Family

-- The first dot, colon or percent sign decides.
unfoldable pub family : Text → Family
family [] = neither
family (c ∷ s) =
    if c == b'.'
    then ipv4
    else (if c == b':' then ipv6 else (if c == b'%' then neither else family s))

unfoldable pub has_zone : Text → Bool
has_zone [] = false
has_zone (c ∷ s) = c == b'%' || has_zone s

-- A text with a zone names no `net.IP`.
unfoldable pub parse_ip : Text → Ip
unfolding family has_zone parse_ipv6 ipv4_fields mapped
parse_ip s = elim (family s) [
  | ipv4 ↦ mapped (ipv4_fields s 0 0 [])
  | ipv6 ↦ if has_zone s then nil else parse_ipv6 s
  | neither ↦ nil
]

abbrev ParseTests : Type 0
ParseTests =
    (parse_ip (codes "192.168.100.1") ≡ v16 0 0 0 0 0 65535 0xc0a8 0x6401)
    × (parse_ip (codes "192.168.01.1") ≡ nil)
    × (parse_ip (codes "1.2.3") ≡ nil)
    × (parse_ip (codes "1.2.3.256") ≡ nil)
    × (parse_ip (codes "::") ≡ v16 0 0 0 0 0 0 0 0)
    × (parse_ip (codes "2001:db8::1") ≡ v16 0x2001 0xdb8 0 0 0 0 0 1)
    × (parse_ip (codes "::ffff:1.2.3.4") ≡ v16 0 0 0 0 0 65535 0x102 0x304)
    × (parse_ip (codes "fe80::1%eth0") ≡ nil)
    × (parse_ip (codes "1:2:3:4:5:6:7") ≡ nil)
    × (parse_ip (codes "1::2::3") ≡ nil)
    × (parse_ip (codes "::12345") ≡ nil)

parse_tests_hold : ParseTests
unfolding parse_ip
parse_tests_hold = (refl, refl, refl, refl, refl, refl, refl, refl, refl, refl, refl)
