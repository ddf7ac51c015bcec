-- ===== src/Net/Mac.antt =====
-- `net.ParseMAC` and `HardwareAddr.String` of Go's library.
use auto_pxe.Prelude.{
  ℕ, ◌+◌, ◌-◌, ◌*◌, ◌/◌, ◌%◌, Bool, ◌&&◌, ◌||◌, Option, none, some, List, [], ◌∷◌, leb, ltb, ◌==◌,
  if◌then◌else◌, Text, length, get_elem?, ◌>>=◌,
}

-- The value of a hexadecimal digit, `none` for any other byte.
unfoldable pub hex_value : ℕ → Option ℕ
hex_value c =
    if leb b'0' c && leb c b'9'
    then some (c - b'0')
    else (if leb b'a' c && leb c b'f'
        then some (c - b'a' + 10)
        else (if leb b'A' c && leb c b'F' then some (c - b'A' + 10) else none))

-- `xtoi2`: two digits.
unfoldable pub hex_pair : ℕ → ℕ → Option ℕ
unfolding hex_value
hex_pair a b = do x ← hex_value a; y ← hex_value b; some (x * 16 + y)

-- Pairs of digits with a separator between them.
unfoldable pub pairs : ℕ → Text → Option (List ℕ)
unfolding hex_pair
pairs sep (a ∷ b ∷ []) = do x ← hex_pair a b; some (x ∷ [])
pairs sep (a ∷ b ∷ c ∷ s) =
    let rest = pairs sep s in
    if c == sep then (do x ← hex_pair a b; xs ← rest; some (x ∷ xs)) else none
pairs _ _ = none

-- Groups of four digits with a dot between them.
unfoldable pub quads : Text → Option (List ℕ)
unfolding hex_pair
quads (a ∷ b ∷ c ∷ d ∷ []) = do x ← hex_pair a b; y ← hex_pair c d; some (x ∷ y ∷ [])
quads (a ∷ b ∷ c ∷ d ∷ e ∷ s) =
    let rest = quads s in
    if e == b'.'
    then (do x ← hex_pair a b; y ← hex_pair c d; xs ← rest; some (x ∷ y ∷ xs))
    else none
quads _ = none

abbrev pub mac_size : ℕ → Bool
mac_size n = n == 6 || (n == 8 || n == 20)

abbrev pub sized : List ℕ → Option (List ℕ)
sized bs = if mac_size (length bs) then some bs else none

-- The branch of `ParseMAC` for the fifth byte, and the one for the third.
unfoldable pub parse_dotted : Option ℕ → Text → Option (List ℕ)
unfolding quads
parse_dotted none s = none
parse_dotted (some d) s = if d == b'.' then quads s >>= sized else none

unfoldable pub parse_separated : Option ℕ → Text → Option (List ℕ)
unfolding pairs parse_dotted
parse_separated none s = none
parse_separated (some c) s =
    if c == b':' || c == b'-' then pairs c s >>= sized else parse_dotted (get_elem? s 4) s

-- The texts with fewer than 14 bytes, which `ParseMAC` refuses first, have no six pairs.
unfoldable pub parse_mac : Text → Option (List ℕ)
unfolding parse_separated
parse_mac s = parse_separated (get_elem? s 2) s

unfoldable pub hex_digit : ℕ → ℕ
hex_digit x = if ltb x 10 then x + b'0' else x - 10 + b'a'

-- `HardwareAddr.String`
unfoldable pub mac_string : List ℕ → Text
unfolding hex_digit
mac_string [] = []
mac_string (x ∷ []) = hex_digit (x / 16) ∷ hex_digit (x % 16) ∷ []
mac_string (x ∷ y ∷ xs) = hex_digit (x / 16) ∷ hex_digit (x % 16) ∷ b':' ∷ mac_string (y ∷ xs)
