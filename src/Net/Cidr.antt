-- ===== src/Net/Cidr.antt =====
-- `net.ParseCIDR`: an address, a slash and the length of the prefix.
use auto_pxe.Prelude.{
  ℕ, suc, zero, ◌+◌, ◌-◌, ◌*◌, ◌/◌, ◌^◌, Option, none, some, List, [], ◌∷◌, ◌≡◌, refl, leb, ltb,
  if◌then◌else◌, Text, codes, cut, is_empty, ◌>>=◌,
}
use auto_pxe.Net.Ip.{Ip, nil, v4, v16, to_4}
use auto_pxe.Net.Ip.Parse.{is_digit, parse_ip, family, Family, ipv4, ipv6, neither}

-- Digits below the bound that the library sets; nothing else may follow.
prefix_length : ℕ → Text → Option ℕ
unfolding is_digit
prefix_length n [] = some n
prefix_length n (c ∷ s) =
    let next = n * 10 + (c - b'0') in
    let rest = prefix_length next s in
    if is_digit c then (if leb 0xffffff next then none else rest) else none

-- The ones of a prefix of length `n` that fall into the `w` bits from the bit `at` on.
ones : ℕ → ℕ → ℕ → ℕ
ones n w at = if leb (at + w) n then w else n - at

mask_byte : ℕ → ℕ → ℕ
unfolding ones
mask_byte n at = 256 - 2 ^ (8 - ones n 8 at)

mask_bytes : ℕ → ℕ → ℕ → List ℕ
unfolding mask_byte
mask_bytes n at zero = []
mask_bytes n at (suc k) = mask_byte n at ∷ mask_bytes n (at + 8) k

-- A byte or a group with the bits after the prefix cleared.
masked : ℕ → ℕ → ℕ → ℕ → ℕ
unfolding ones
masked n w at x = x / 2 ^ (w - ones n w at) * 2 ^ (w - ones n w at)

mask_ip : ℕ → Ip → Ip
unfolding masked
mask_ip n nil = nil
mask_ip n (v4 a b c d) = v4 (masked n 8 0 a) (masked n 8 8 b) (masked n 8 16 c) (masked n 8 24 d)
mask_ip n (v16 a b c d e f g h) =
    v16 (masked n 16 0 a) (masked n 16 16 b) (masked n 16 32 c) (masked n 16 48 d)
      (masked n 16 64 e) (masked n 16 80 f) (masked n 16 96 g) (masked n 16 112 h)

-- The network of the address: its address and the bytes of its mask.
network : Family → ℕ → Ip → Option (Ip × List ℕ)
unfolding mask_ip mask_bytes to_4
network f n nil = none
network ipv4 n ip = if ltb 32 n then none else some (mask_ip n (to_4 ip), mask_bytes n 0 4)
network ipv6 n ip = if ltb 128 n then none else some (mask_ip n ip, mask_bytes n 0 16)
network neither n ip = none

unfoldable pub parse_cidr : Text → Option (Ip × List ℕ)
unfolding prefix_length network parse_ip family is_empty cut
parse_cidr s = do
  parts ← cut b'/' s
  n ← if is_empty parts.1 then none else prefix_length 0 parts.1
  network (family parts.0) n (parse_ip parts.0)

parse_subnet :
    parse_cidr (codes "192.168.100.7/22") ≡ some (v4 192 168 100 0, 255 ∷ 255 ∷ 252 ∷ 0 ∷ [])
unfolding parse_cidr
parse_subnet = refl

parse_long : parse_cidr (codes "10.0.0.0/33") ≡ none
unfolding parse_cidr
parse_long = refl
