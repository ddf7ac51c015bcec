-- ===== src/Duration.antt =====
-- `time.ParseDuration`: nanoseconds from a text like `1h30m`. A fraction is computed exactly, where
-- the library rounds in floating point.
use auto_pxe.Prelude.{
  ℕ, ◌+◌, ◌-◌, ◌*◌, ◌/◌, ◌^◌, Bool, true, false, ◌&&◌, ◌||◌, not, Option, none, some, List, [], ◌∷◌,
  ◌≡◌, refl, ltb, ◌==◌, if◌then◌else◌, Text, text_beq, codes, is_empty, ◌>>=◌,
}
use auto_pxe.Net.Ip.Parse.{is_digit}

is_numeric : ℕ → Bool
unfolding is_digit
is_numeric c = is_digit c || c == b'.'

-- A number and its unit.
abbrev Chunk : Type 0
Chunk = Text × Text

attach : ℕ → List Chunk → List Chunk
unfolding is_numeric is_empty
attach c [] = if is_numeric c then (c ∷ [], []) ∷ [] else ([], c ∷ []) ∷ []
attach c ((n, u) ∷ rest) =
    if is_numeric c
    then (c ∷ n, u) ∷ rest
    else (if is_empty n then ([], c ∷ u) ∷ rest else ([], c ∷ []) ∷ (n, u) ∷ rest)

-- The text as alternating runs of numbers and units.
chunks : Text → List Chunk
unfolding attach
chunks [] = []
chunks (c ∷ s) = attach c (chunks s)

-- The digits after the point: their value and the power of ten that divides it. Digits that would
-- overflow are dropped; a second point is an error.
fraction : ℕ → ℕ → Bool → Text → Option (ℕ × ℕ)
unfolding is_digit
fraction x scale over [] = some (x, scale)
fraction x scale over (c ∷ s) =
    let y = x * 10 + (c - b'0') in
    let full = over || (ltb ((2 ^ 63 - 1) / 10) x || ltb (2 ^ 63) y) in
    let drop = fraction x scale true s in
    let take = fraction y (scale * 10) false s in
    if is_digit c then (if full then drop else take) else none

-- The value before the point, and the fraction.
number : ℕ → Text → Option (ℕ × ℕ × ℕ)
unfolding fraction
number v [] = some (v, 0, 1)
number v (c ∷ s) =
    let y = v * 10 + (c - b'0') in
    let more = if ltb (2 ^ 63 / 10) v || ltb (2 ^ 63) y then none else number y s in
    if c == b'.' then (do f ← fraction 0 1 false s; some (v, f.0, f.1)) else more

unit : Text → Option ℕ
unfolding text_beq
unit u =
    if text_beq u (codes "ns")
    then some 1
    else (if text_beq u (codes "us")
        then some 1000
        else (if text_beq u (0xc2 ∷ 0xb5 ∷ b's' ∷ []) || text_beq u (0xce ∷ 0xbc ∷ b's' ∷ [])
            then some 1000
            else (if text_beq u (codes "ms")
                then some 1000000
                else (if text_beq u (codes "s")
                    then some 1000000000
                    else (if text_beq u (codes "m")
                        then some 60000000000
                        else (if text_beq u (codes "h") then some 3600000000000 else none))))))

at_most : ℕ → ℕ → Option ℕ
at_most limit x = if ltb limit x then none else some x

chunk : Chunk → Option ℕ
unfolding number unit at_most text_beq is_empty
chunk (n, u) = do
  x ← if is_empty n || text_beq n (codes ".") then none else number 0 n
  w ← unit u
  v ← if ltb (2 ^ 63 / w) x.0 then none else some (x.0 * w)
  at_most (2 ^ 63) (v + x.1 * w / x.2)

total : ℕ → List Chunk → Option ℕ
unfolding chunk
total d [] = some d
total d (c ∷ cs) = do v ← chunk c; d' ← at_most (2 ^ 63) (d + v); total d' cs

unsigned : Bool → Text → Option (Bool × ℕ)
unfolding total chunks
unsigned negative s =
    if text_beq s (codes "0")
    then some (false, 0)
    else (if is_empty s then none else (do
      d ← total 0 (chunks s)
      if not negative && ltb (2 ^ 63 - 1) d then none else some (negative, d)))

-- The sign, and the number of nanoseconds.
unfoldable pub parse_duration : Text → Option (Bool × ℕ)
unfolding unsigned
parse_duration [] = none
parse_duration (c ∷ s) =
    if c == b'-'
    then unsigned true s
    else (if c == b'+' then unsigned false s else unsigned false (c ∷ s))

parse_mixed : parse_duration (codes "1h30m0.5s") ≡ some (false, 5400500000000)
unfolding parse_duration
parse_mixed = refl

parse_default : parse_duration (codes "12h") ≡ some (false, 43200000000000)
unfolding parse_duration
parse_default = refl

parse_bad : parse_duration (codes "1.2.3h") ≡ none
unfolding parse_duration
parse_bad = refl
