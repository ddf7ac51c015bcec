-- ===== src/Net/Canon.antt =====
-- What the program does with a MAC text: it parses it, prints it again and lowers it. The round
-- trip through the library makes the canonical form one per address.
use mathlib.Core.Path.{subst}
use auto_pxe.Prelude.{
  ℕ, ◌/◌, ◌%◌, ◌<◌, ◌≡◌, refl, sym, ◌∙◌, ◌↔◌, ap, Bool, true, false, ◌||◌, Option, none, some, List,
  [], ◌∷◌, arith, ◌==◌, if◌then◌else◌, Text, length, get_elem?, All, lower_byte, to_lower,
  trim_space, Option-cases, inl, inr, ◌>>=◌,
}
use auto_pxe.Net.Mac.{
  hex_value, hex_pair, hex_digit, pairs, quads, mac_size, sized, parse_dotted, parse_separated,
  parse_mac, mac_string,
}

-- `strings.ToLower(hw.String())` of a text that parses, else the trimmed text in lower case.
unfoldable pub canon : Text → Text
unfolding parse_mac mac_string to_lower trim_space
canon s = elim (parse_mac s) [ some hw ↦ to_lower (mac_string hw) | none ↦ to_lower (trim_space s) ]

abbrev IsByte : ℕ → Type 0
IsByte x = x < 256

hex_value-lt : (c : ℕ) {x : ℕ} → hex_value c ≡ some x → x < 16
unfolding hex_value
hex_value-lt c h = ground arith

hex_value-hex_digit : (d : ℕ) → d < 16 → hex_value (hex_digit d) ≡ some d
unfolding hex_value hex_digit
hex_value-hex_digit d h = ground arith

lower_byte-hex_digit : (d : ℕ) → d < 16 → lower_byte (hex_digit d) ≡ hex_digit d
unfolding lower_byte hex_digit
lower_byte-hex_digit d h = ground arith

hex_pair-IsByte : (a b : ℕ) {x : ℕ} → hex_pair a b ≡ some x → IsByte x
unfolding hex_pair
hex_pair-IsByte a b h = grind (arith, hex_value-lt)

hex_pair-hex_digit : (x : ℕ) → x < 256 → hex_pair (hex_digit (x / 16)) (hex_digit (x % 16)) ≡ some x
unfolding hex_pair
hex_pair-hex_digit x h = ground (arith, hex_value-hex_digit (x / 16), hex_value-hex_digit (x % 16))

pairs-mac_string :
    (x : ℕ) (xs : List ℕ) → All IsByte (x ∷ xs) → pairs b':' (mac_string (x ∷ xs)) ≡ some (x ∷ xs)
unfolding pairs mac_string
pairs-mac_string x [] h = rw (hex_pair-hex_digit, h.0)
pairs-mac_string x (y ∷ xs) h = ground (arith, hex_pair-hex_digit x, pairs-mac_string y xs h.1)

to_lower-mac_string : (bs : List ℕ) → All IsByte bs → to_lower (mac_string bs) ≡ mac_string bs
unfolding to_lower mac_string
to_lower-mac_string [] h = refl
to_lower-mac_string (x ∷ []) h =
    ground (arith, lower_byte-hex_digit (x / 16), lower_byte-hex_digit (x % 16))
to_lower-mac_string (x ∷ y ∷ xs) h = ground (
  arith,
  lower_byte-hex_digit (x / 16),
  lower_byte-hex_digit (x % 16),
  to_lower-mac_string (y ∷ xs) h.1,
)

-- What every result of a parser satisfies.
abbrev Results {ℓ κ} : {A : Type ℓ} → (A → Type κ) → Option A → Type κ
Results P none = Unit
Results P (some a) = P a

Results-bind {ℓ κ} :
    {A B : Type ℓ} (P : A → Type κ) (Q : B → Type κ) (m : Option A) (f : A → Option B)
    → Results P m
    → ((a : A) → P a → Results Q (f a))
    → Results Q (m >>= f)
Results-bind P Q none f h k = tt
Results-bind P Q (some a) f h k = k a h

Results-if {ℓ κ} :
    {A : Type ℓ} (P : A → Type κ) (b : Bool) (m n : Option A)
    → Results P m
    → Results P n
    → Results P (if b then m else n)
Results-if P true m n h k = h
Results-if P false m n h k = k

hex_pair-Results : (a b : ℕ) → Results IsByte (hex_pair a b)
hex_pair-Results a b = elim (Option-cases (hex_pair a b)) [
  | inl e ↦ rw e tt
  | inr (x, e) ↦ rw e (hex_pair-IsByte a b e)
]

pairs-IsByte : (sep : ℕ) (s : Text) → Results (All IsByte) (pairs sep s)
unfolding pairs
pairs-IsByte sep [] = tt
pairs-IsByte sep (a ∷ []) = tt
pairs-IsByte sep (a ∷ b ∷ []) = ground (arith, hex_pair-IsByte a b)
pairs-IsByte sep (a ∷ b ∷ c ∷ s) = ground (arith, hex_pair-IsByte a b, pairs-IsByte sep s)

quads-IsByte : (s : Text) → Results (All IsByte) (quads s)
unfolding quads
quads-IsByte (a ∷ b ∷ c ∷ d ∷ []) =
    Results-bind IsByte _ (hex_pair a b) _ (hex_pair-Results a b)
      λ x hx. Results-bind IsByte _ (hex_pair c d) _ (hex_pair-Results c d) λ y hy. (hx, (hy, tt))
quads-IsByte (a ∷ b ∷ c ∷ d ∷ e ∷ s) =
    Results-if _ (e == b'.') _ none
      (Results-bind IsByte _ (hex_pair a b) _ (hex_pair-Results a b) λ x hx.
        Results-bind IsByte _ (hex_pair c d) _ (hex_pair-Results c d) λ y hy.
          Results-bind (All IsByte) _ (quads s) _ (quads-IsByte s) λ xs hxs. (hx, (hy, hxs)))
      tt
quads-IsByte [] = tt
quads-IsByte (a ∷ []) = tt
quads-IsByte (a ∷ b ∷ []) = tt
quads-IsByte (a ∷ b ∷ c ∷ []) = tt

-- A hardware address: bytes, 6, 8 or 20 of them.
abbrev IsAddress : List ℕ → Type 0
IsAddress bs = All IsByte bs × (mac_size (length bs) ≡ true)

sized-IsAddress : (m : Option (List ℕ)) → Results (All IsByte) m → Results IsAddress (m >>= sized)
sized-IsAddress none h = tt
sized-IsAddress (some bs) h = ground arith

parse_dotted-IsAddress : (d : Option ℕ) (s : Text) → Results IsAddress (parse_dotted d s)
unfolding parse_dotted
parse_dotted-IsAddress none s = tt
parse_dotted-IsAddress (some d) s =
    Results-if _ (d == b'.') _ none (sized-IsAddress (quads s) (quads-IsByte s)) tt

parse_separated-IsAddress : (c : Option ℕ) (s : Text) → Results IsAddress (parse_separated c s)
unfolding parse_separated
parse_separated-IsAddress none s = tt
parse_separated-IsAddress (some c) s =
    Results-if _ (c == b':' || c == b'-') _ _ (sized-IsAddress (pairs c s) (pairs-IsByte c s))
      (parse_dotted-IsAddress (get_elem? s 4) s)

pub parse_mac-IsAddress : (s : Text) {bs : List ℕ} → parse_mac s ≡ some bs → IsAddress bs
unfolding parse_mac
parse_mac-IsAddress s h = subst (Results IsAddress) h (parse_separated-IsAddress (get_elem? s 2) s)

parse_mac-mac_string : (bs : List ℕ) → IsAddress bs → parse_mac (mac_string bs) ≡ some bs
unfolding parse_mac mac_string
parse_mac-mac_string [] h = ground arith
parse_mac-mac_string (x ∷ []) h = ground arith
parse_mac-mac_string (x ∷ y ∷ xs) h = ground (arith, pairs-mac_string x (y ∷ xs) h.0)

-- The printed form of an address is canonical.
canon-mac_string : (bs : List ℕ) → IsAddress bs → canon (mac_string bs) ≡ mac_string bs
unfolding canon
canon-mac_string bs h = rw (parse_mac-mac_string bs h, canon) (to_lower-mac_string bs h.0)

canon_of_parse : (s : Text) (bs : List ℕ) → parse_mac s ≡ some bs → canon s ≡ mac_string bs
unfolding canon
canon_of_parse s bs h = rw (h, canon) (to_lower-mac_string bs (parse_mac-IsAddress s h).0)

-- Two texts that parse have the same canonical form exactly when they name the same address.
pub canon-eq_iff :
    (s t : Text) (bs cs : List ℕ)
    → parse_mac s ≡ some bs
    → parse_mac t ≡ some cs
    → (canon s ≡ canon t) ↔ (bs ≡ cs)
canon-eq_iff s t bs cs hs ht =
    (same, λ e. canon_of_parse s bs hs ∙ ap mac_string e ∙ sym (canon_of_parse t cs ht))
  where
    read : (r : Text) (ds : List ℕ) → parse_mac r ≡ some ds → parse_mac (mac_string ds) ≡ some ds
    read r ds h = parse_mac-mac_string ds (parse_mac-IsAddress r h)

    both : canon s ≡ canon t → some bs ≡ some cs
    both e =
        sym (read s bs hs)
        ∙ ap parse_mac (sym (canon_of_parse s bs hs) ∙ e ∙ canon_of_parse t cs ht)
        ∙ read t cs ht

    same : canon s ≡ canon t → bs ≡ cs
    same e = cc (both e)

-- A text that parses is canonicalised once and for all, and the result still names its address.
pub canon-canon :
    (s : Text) (bs : List ℕ)
    → parse_mac s ≡ some bs
    → (canon (canon s) ≡ canon s) × (parse_mac (canon s) ≡ some bs)
canon-canon s bs h = rw (canon_of_parse s bs h) (canon-mac_string bs a, parse_mac-mac_string bs a)
  where
    a : IsAddress bs
    a = parse_mac-IsAddress s h
