-- ===== src/Net/Ip.antt =====
-- `net.IP` of Go's library: its two lengths, `To4`, `Equal`, `String`, `ParseIP`, and the
-- addresses as numbers of 32 bits.
pub mod Parse
pub mod Groups
pub mod Bounds
use auto_pxe.Prelude.{
  ℕ, suc, zero, ◌+◌, ◌-◌, ◌*◌, ◌/◌, ◌%◌, Bool, true, false, ◌&&◌, ◌||◌, Option, none, some, List,
  [], ◌∷◌, ◌++◌, ◌≡◌, refl, ◌⊎◌, inl, inr, Bool-cases, leb, ltb, ◌==◌, if◌then◌else◌, Text,
  text_beq, codes,
}

-- A nil slice, four bytes, or the eight groups of a slice of sixteen bytes.
pub data Ip : Type 0 where
  nil : Ip
  v4 : ℕ → ℕ → ℕ → ℕ → Ip
  v16 : ℕ → ℕ → ℕ → ℕ → ℕ → ℕ → ℕ → ℕ → Ip

-- The prefix `::ffff:` of an IPv4 address in sixteen bytes.
is_mapped : ℕ → ℕ → ℕ → ℕ → ℕ → ℕ → Bool
is_mapped a b c d e f = a == 0 && (b == 0 && (c == 0 && (d == 0 && (e == 0 && f == 65535))))

-- `To4`
unfoldable pub to_4 : Ip → Ip
unfolding is_mapped
to_4 nil = nil
to_4 (v4 a b c d) = v4 a b c d
to_4 (v16 a b c d e f g h) =
    if is_mapped a b c d e f then v4 (g / 256) (g % 256) (h / 256) (h % 256) else nil

pub to_4-cases :
    (ip : Ip) → (to_4 ip ≡ nil) ⊎ ((a : ℕ) × (b : ℕ) × (c : ℕ) × (d : ℕ) × (to_4 ip ≡ v4 a b c d))
unfolding to_4
to_4-cases nil = inl refl
to_4-cases (v4 a b c d) = inr (a, b, c, d, refl)
to_4-cases (v16 a b c d e f g h) = elim (Bool-cases (is_mapped a b c d e f)) [
  | inl m ↦ inr (g / 256, g % 256, h / 256, h % 256, rw m)
  | inr m ↦ inl (rw m)
]

abbrev pub is_nil : Ip → Bool
is_nil nil = true
is_nil _ = false

bytes_beq : Ip → Ip → Bool
bytes_beq (v4 a b c d) (v4 a' b' c' d') = a == a' && (b == b' && (c == c' && d == d'))
bytes_beq _ _ = false

-- `Equal` with a four-byte address on the right, as the program calls it.
unfoldable pub equal_4 : Ip → Ip → Bool
unfolding bytes_beq to_4
equal_4 ip ip4 = bytes_beq (to_4 ip) ip4

-- A byte in decimal.
unfoldable pub decimal : ℕ → Text
decimal x =
    if ltb x 10
    then (x + b'0') ∷ []
    else (if ltb x 100
        then (x / 10 + b'0') ∷ (x % 10 + b'0') ∷ []
        else (x / 100 + b'0') ∷ (x / 10 % 10 + b'0') ∷ (x % 10 + b'0') ∷ [])

unfoldable pub dotted : ℕ → ℕ → ℕ → ℕ → Text
unfolding decimal
dotted a b c d = decimal a ++ b'.' ∷ (decimal b ++ b'.' ∷ (decimal c ++ b'.' ∷ decimal d))

hex_char : ℕ → ℕ
hex_char x = if ltb x 10 then x + b'0' else x - 10 + b'a'

-- A group in hexadecimal, with no leading zeros.
hex_group : ℕ → Text
unfolding hex_char
hex_group x =
    if ltb x 16
    then hex_char x ∷ []
    else (if ltb x 256
        then hex_char (x / 16) ∷ hex_char (x % 16) ∷ []
        else (if ltb x 4096
            then hex_char (x / 256) ∷ hex_char (x / 16 % 16) ∷ hex_char (x % 16) ∷ []
            else hex_char (x / 4096)
              ∷ hex_char (x / 256 % 16)
              ∷ hex_char (x / 16 % 16)
              ∷ hex_char (x % 16)
              ∷ []))

zero_run : List ℕ → ℕ
zero_run [] = 0
zero_run (zero ∷ gs) = suc (zero_run gs)
zero_run (suc g ∷ gs) = 0

-- The start and the length of the first longest run of two or more zero groups.
longest_run : ℕ → List ℕ → ℕ × ℕ → ℕ × ℕ
unfolding zero_run
longest_run i [] best = best
longest_run i (g ∷ gs) best =
    let l : ℕ = zero_run (g ∷ gs) in
    longest_run (i + 1) gs (if leb 2 l && ltb best.1 l then (i, l) else best)

print_groups : ℕ → ℕ × ℕ → List ℕ → Text
unfolding hex_group
print_groups i run [] = []
print_groups i run (g ∷ gs) = shown ++ print_groups (i + 1) run gs
  where
    shown : Text
    shown =
        if i == run.0
        then b':' ∷ b':' ∷ []
        else (if ltb run.0 i && ltb i (run.0 + run.1)
            then []
            else (if i == 0 || i == run.0 + run.1 then hex_group g else b':' ∷ hex_group g))

-- `String`
unfoldable pub ip_string : Ip → Text
unfolding is_mapped dotted longest_run print_groups
ip_string nil = codes "<nil>"
ip_string (v4 a b c d) = dotted a b c d
ip_string (v16 a b c d e f g h) =
    if is_mapped a b c d e f
    then dotted (g / 256) (g % 256) (h / 256) (h % 256)
    else print_groups 0 (longest_run 0 groups (255, 0)) groups
  where
    groups : List ℕ
    groups = a ∷ b ∷ c ∷ d ∷ e ∷ f ∷ g ∷ h ∷ []

pub print_unspecified : ip_string (v16 0 0 0 0 0 0 0 0) ≡ codes "::"
unfolding ip_string
print_unspecified = refl

pub print_doc : ip_string (v16 0x2001 0xdb8 0 0 1 0 0 1) ≡ codes "2001:db8::1:0:0:1"
unfolding ip_string
print_doc = refl
