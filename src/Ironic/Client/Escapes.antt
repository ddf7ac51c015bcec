-- ===== src/Ironic/Client/Escapes.antt =====
-- internal/ironic/ipa/client.go: escaped texts, and what is read in them.
use auto_pxe.Prelude.{
  ℕ, ◌+◌, ◌-◌, ◌*◌, ◌/◌, ◌%◌, ◌<◌, ◌==◌, leb, ◌≡◌, refl, ap, ◌∙◌, Bool, true, false, ◌&&◌, ◌||◌,
  Option, none, some, [], ◌∷◌, ◌++◌, if◌then◌else◌, Text, ◌>>=◌, arith, has_byte, ==_iff, All,
  Bool-cases, inl, inr,
}
use auto_pxe.Ironic.Client.{
  is_unreserved, upper_digit, percent, query_byte, query_escape, is_segment_byte, path_byte,
  path_escape,
}

-- The reading of an escaped text: outside an escape, after its `%`, or after its first digit.
pub data Reading : Type 0 where
  plain percent_read : Reading
  digit_read : ℕ → Reading

hex_value : ℕ → Option ℕ
hex_value c =
    if leb b'0' c && leb c b'9'
    then some (c - b'0')
    else if leb b'A' c && leb c b'F'
    then some (c - 55)
    else if leb b'a' c && leb c b'f'
    then some (c - 87)
    else none

unfoldable put : ℕ → Option Text → Option Text
put c none = none
put c (some t) = some (c ∷ t)

-- The text before the escaping, where a `+` is a blank if `plus` says so.
unfoldable pub read : Bool → Reading → Text → Option Text
unfolding hex_value put
read plus plain [] = some []
read plus percent_read [] = none
read plus (digit_read h) [] = none
read plus plain (c ∷ cs) =
    let next = read plus plain cs in
    let escape = read plus percent_read cs in
    if c == b'%' then escape else put (if plus && c == b'+' then b' ' else c) next
read plus percent_read (c ∷ cs) = do h ← hex_value c; read plus (digit_read h) cs
read plus (digit_read h) (c ∷ cs) = do l ← hex_value c; put (h * 16 + l) (read plus plain cs)

-- A text without an escape is read as it is.
pub read-plain : (t : Text) → has_byte b'%' t ≡ false → read false plain t ≡ some t
unfolding read has_byte put
read-plain [] h = refl
read-plain (c ∷ cs) h = ground (arith, read-plain cs, h)

hex_value-upper_digit : (n : ℕ) → n < 16 → hex_value (upper_digit n) ≡ some n
unfolding hex_value upper_digit
hex_value-upper_digit n lt = ground arith

read-percent :
    (plus : Bool) (c : ℕ) (cs : Text)
    → c < 256
    → read plus plain (percent c ++ cs) ≡ put c (read plus plain cs)
unfolding read percent
read-percent plus c cs lt =
    rw (hex_value-upper_digit (c / 16) (omega arith), hex_value-upper_digit (c % 16) (omega arith))
      (ap (λ x. put x (read plus plain cs)) (omega arith))

read-query_byte :
    (c : ℕ) (cs : Text)
    → c < 256
    → read true plain (query_byte c ++ cs) ≡ put c (read true plain cs)
unfolding read query_byte is_unreserved
read-query_byte c cs lt = ground (arith, read-percent true c cs lt)

path_byte-plain : (c : ℕ) → is_unreserved c || is_segment_byte c ≡ true → c == b'%' ≡ false
unfolding is_unreserved is_segment_byte
path_byte-plain c h = ground arith

read-path_byte :
    (c : ℕ) (cs : Text)
    → c < 256
    → read false plain (path_byte c ++ cs) ≡ put c (read false plain cs)
unfolding read path_byte
read-path_byte c cs lt = elim (Bool-cases (is_unreserved c || is_segment_byte c)) [
  | inl kept ↦ simp (kept, path_byte-plain c kept)
  | inr other ↦ rw other (read-percent false c cs lt)
]

-- Bytes are below 256.
abbrev pub IsBytes : Text → Type 0
IsBytes t = All (λ c. c < 256) t

pub read-query_escape : (t : Text) → IsBytes t → read true plain (query_escape t) ≡ some t
unfolding query_escape read put
read-query_escape [] h = refl
read-query_escape (c ∷ cs) h =
    read-query_byte c (query_escape cs) h.0 ∙ ap (put c) (read-query_escape cs h.1)

pub read-path_escape : (t : Text) → IsBytes t → read false plain (path_escape t) ≡ some t
unfolding path_escape read put
read-path_escape [] h = refl
read-path_escape (c ∷ cs) h =
    read-path_byte c (path_escape cs) h.0 ∙ ap (put c) (read-path_escape cs h.1)

has_byte-append : (x : ℕ) (s t : Text) → has_byte x (s ++ t) ≡ has_byte x s || has_byte x t
unfolding has_byte
has_byte-append x [] t = refl
has_byte-append x (c ∷ s) t = ground (arith, has_byte-append x s t)

-- A byte that is escaped in a part of a path; in a query the blank's `+` is left as well.
abbrev pub IsReserved : ℕ → Type 0
IsReserved x = (is_unreserved x ≡ false) × (x == b'%' ≡ false) × (x == b'+' ≡ false)

has_byte-percent :
    (x c : ℕ)
    → c < 256
    → is_unreserved x ≡ false
    → x == b'%' ≡ false
    → has_byte x (percent c) ≡ false
unfolding has_byte percent upper_digit is_unreserved
has_byte-percent x c lt h e = ground arith

same_byte : (p : ℕ → Bool) (x c : ℕ) → p x ≡ false → p c ≡ true → c == x ≡ false
same_byte p x c h k = elim (Bool-cases (c == x)) [
  | inr apart ↦ apart
  | inl same ↦ absurd (cc ((==_iff c x).0 same, h, k))
]

has_byte-query_byte : (x c : ℕ) → c < 256 → IsReserved x → has_byte x (query_byte c) ≡ false
unfolding has_byte query_byte
has_byte-query_byte x c lt (h, e, f) = elim (Bool-cases (is_unreserved c)) [
  | inl kept ↦ simp (kept, same_byte is_unreserved x c h kept)
  | inr other ↦ elim (Bool-cases (c == b' ')) [
    | inl blank ↦ simp (other, blank) (ground arith)
    | inr escaped ↦ rw (other, escaped) (has_byte-percent x c lt h e)
  ]
]

has_byte-path_byte :
    (x c : ℕ)
    → c < 256
    → IsReserved x
    → is_segment_byte x ≡ false
    → has_byte x (path_byte c) ≡ false
unfolding has_byte path_byte
has_byte-path_byte x c lt (h, e, f) g = elim (Bool-cases (is_unreserved c || is_segment_byte c)) [
  | inl kept ↦
      simp (kept, same_byte (λ y. is_unreserved y || is_segment_byte y) x c (simp (h, g)) kept)
  | inr other ↦ rw other (has_byte-percent x c lt h e)
]

pub has_byte-query_escape :
    (x : ℕ) (t : Text) → IsBytes t → IsReserved x → has_byte x (query_escape t) ≡ false
unfolding query_escape has_byte
has_byte-query_escape x [] b h = refl
has_byte-query_escape x (c ∷ cs) b h =
    has_byte-append x (query_byte c) (query_escape cs)
    ∙ simp (has_byte-query_byte x c b.0 h, has_byte-query_escape x cs b.1 h)

pub has_byte-path_escape :
    (x : ℕ) (t : Text)
    → IsBytes t
    → IsReserved x
    → is_segment_byte x ≡ false
    → has_byte x (path_escape t) ≡ false
unfolding path_escape has_byte
has_byte-path_escape x [] b h g = refl
has_byte-path_escape x (c ∷ cs) b h g =
    has_byte-append x (path_byte c) (path_escape cs)
    ∙ simp (has_byte-path_byte x c b.0 h g, has_byte-path_escape x cs b.1 h g)
