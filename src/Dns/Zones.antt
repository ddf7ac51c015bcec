-- ===== src/Dns/Zones.antt =====
-- internal/dns/server.go: which names a wildcard of the configuration is about.
use auto_pxe.Prelude.{
  ◌≤◌, ◌+◌, ◌≡◌, refl, sym, ap, ◌∙◌, Bool, true, false, ◌&&◌, List, [], ◌∷◌, ◌++◌, arith, Text,
  codes, length, ℕ, if◌then◌else◌, inl, inr, ◌⊎◌, map, lower_byte, to_lower, is_empty, has_suffix,
  trim_suffix, trim, trim_start, trim_end, text_eq, text_beq, text_beq_iff, ◌==◌, Bool-cases,
}
use auto_pxe.Dns.{WildcardEntry, entry_matches}
use auto_pxe.Dns.Names.{trim_suffix-append_dot}

-- The name is the zone or one below it: with the final dot, and the zone also without it.
abbrev pub IsUnder : Text → Text → Type 0
IsUnder qname zone =
    ((pre : Text) × (qname ≡ pre ++ b'.' ∷ (zone ++ codes ".")))
    ⊎ (qname ≡ zone ++ codes ".")
    ⊎ (qname ≡ zone)

-- The text does not begin with the byte.
abbrev pub StartsWithout : ℕ → Text → Type 0
StartsWithout x [] = Unit
StartsWithout x (c ∷ cs) = c == x ≡ false

trim_start-StartsWithout : (x : ℕ) (s : Text) → StartsWithout x (trim_start x s)
unfolding trim_start
trim_start-StartsWithout x [] = tt
trim_start-StartsWithout x (c ∷ cs) = elim (Bool-cases (c == x)) [
  | inl same ↦ rw same (trim_start-StartsWithout x cs)
  | inr other ↦ rw other other
]

trim_end-StartsWithout : (x : ℕ) (s : Text) → StartsWithout x s → StartsWithout x (trim_end x s)
unfolding trim_end
trim_end-StartsWithout x [] h = tt
trim_end-StartsWithout x (c ∷ cs) h = go (is_empty (trim_end x cs) && c == x)
  where
    go : (b : Bool) → StartsWithout x (if b then [] else c ∷ trim_end x cs)
    go true = tt
    go false = h

trim_end-idempotent : (x : ℕ) (s : Text) → trim_end x (trim_end x s) ≡ trim_end x s
unfolding trim_end is_empty
trim_end-idempotent x [] = refl
trim_end-idempotent x (c ∷ cs) = elim (Bool-cases (is_empty (trim_end x cs) && c == x)) [
  | inl gone ↦ rw gone refl
  | inr kept ↦ rw (kept, trim_end-idempotent x cs, kept) refl
]

trim_end-append : (x : ℕ) (s : Text) → trim_end x (s ++ x ∷ []) ≡ trim_end x s
unfolding trim_end is_empty
trim_end-append x [] = ground arith
trim_end-append x (c ∷ cs) =
    ap (λ r. if is_empty r && c == x then [] else c ∷ r) (trim_end-append x cs)

length-trim_end : (x : ℕ) (s : Text) → length (trim_end x s) ≤ length s
unfolding trim_end
length-trim_end x [] = ground arith
length-trim_end x (c ∷ cs) = ground (arith, length-trim_end x cs)

lower_byte-dot : (c : ℕ) → lower_byte c == b'.' ≡ c == b'.'
unfolding lower_byte
lower_byte-dot c = ground arith

to_lower-StartsWithout : (s : Text) → StartsWithout b'.' s → StartsWithout b'.' (to_lower s)
unfolding to_lower
to_lower-StartsWithout [] h = tt
to_lower-StartsWithout (c ∷ cs) h = lower_byte-dot c ∙ h

trim_end-to_lower : (s : Text) → trim_end b'.' (to_lower s) ≡ to_lower (trim_end b'.' s)
unfolding trim_end to_lower is_empty
trim_end-to_lower [] = refl
trim_end-to_lower (c ∷ cs) =
    rw (trim_end-to_lower cs, lower_byte-dot c) (go (trim_end b'.' cs) (c == b'.'))
  where
    go :
        (r : Text) (b : Bool)
        → (if is_empty (map lower_byte r) && b then [] else lower_byte c ∷ map lower_byte r)
          ≡ map lower_byte (if is_empty r && b then [] else c ∷ r)
    go [] true = refl
    go [] false = refl
    go (d ∷ r) b = refl

-- Without dots at its ends.
pub record IsTrimmed (zone : Text) : Type 0 where
  pub start : StartsWithout b'.' zone
  pub end : trim_end b'.' zone ≡ zone

pub trim-IsTrimmed : (s : Text) → IsTrimmed (to_lower (trim b'.' s))
unfolding trim
trim-IsTrimmed s = record {
  start =
      to_lower-StartsWithout _
        (trim_end-StartsWithout b'.' (trim_start b'.' s) (trim_start-StartsWithout b'.' s));
  end = trim_end-to_lower _ ∙ ap to_lower (trim_end-idempotent b'.' (trim_start b'.' s));
}

trim-dotted :
    (z : Text) → is_empty z ≡ false → IsTrimmed z → trim b'.' (b'.' ∷ (z ++ codes ".")) ≡ z
unfolding trim trim_start is_empty
trim-dotted [] h t = cc
trim-dotted (c ∷ cs) h t =
    let first : c == b'.' ≡ false = t.start in rw first (trim_end-append b'.' (c ∷ cs) ∙ t.end)

pub has_suffix-split : (t q : Text) → has_suffix t q ≡ true → (pre : Text) × (q ≡ pre ++ t)
unfolding has_suffix
has_suffix-split t [] h = ([], sym ((text_beq_iff _ _).0 h))
has_suffix-split t (c ∷ cs) h = elim (Bool-cases (text_beq t (c ∷ cs))) [
  | inl whole ↦ ([], sym ((text_beq_iff _ _).0 whole))
  | inr part ↦
      let (pre, e) = has_suffix-split t cs (ground (arith, part, h)) in (c ∷ pre, ap (λ r. c ∷ r) e)
]

has_suffix-whole : (t : Text) → has_suffix t t ≡ true
unfolding has_suffix
has_suffix-whole [] = (text_beq_iff [] []).1 refl
has_suffix-whole (c ∷ cs) = ground (arith, (text_beq_iff (c ∷ cs) (c ∷ cs)).1 refl)

pub has_suffix-append : (t pre : Text) → has_suffix t (pre ++ t) ≡ true
unfolding has_suffix
has_suffix-append t [] = has_suffix-whole t
has_suffix-append t (c ∷ pre) = ground (arith, has_suffix-append t pre)

trim_suffix-cases :
    (q : Text) → (q ≡ trim_suffix (codes ".") q ++ codes ".") ⊎ (q ≡ trim_suffix (codes ".") q)
unfolding trim_suffix
trim_suffix-cases [] = inr refl
trim_suffix-cases (c ∷ cs) = elim (Bool-cases (text_beq (codes ".") (c ∷ cs))) [
  | inl whole ↦ rw whole (inl (sym ((text_beq_iff (codes ".") (c ∷ cs)).0 whole)))
  | inr part ↦ rw part (elim (trim_suffix-cases cs) [
    | inl e ↦ inl (ap (λ r. c ∷ r) e)
    | inr e ↦ inr (ap (λ r. c ∷ r) e)
  ])
]

pub length-append_dot : (r : Text) → length (r ++ codes ".") ≡ length r + 1
length-append_dot [] = refl
length-append_dot (c ∷ r) = ground (arith, length-append_dot r)

-- A text without a dot at its end is left as it is.
trim_suffix-trimmed : (z : Text) → trim_end b'.' z ≡ z → trim_suffix (codes ".") z ≡ z
trim_suffix-trimmed z h = elim (trim_suffix-cases z) [
  | inr e ↦ sym e
  | inl e ↦
      let r = trim_suffix (codes ".") z in
      let short : trim_end b'.' (r ++ codes ".") ≡ trim_end b'.' r = trim_end-append b'.' r in
      let same : length z ≡ length (trim_end b'.' r) =
        ap length (sym h ∙ ap (trim_end b'.') e ∙ short) in
      let long : length z ≡ length r + 1 = ap length e ∙ length-append_dot r in
      absurd (omega (arith, same, long, length-trim_end b'.' r))
]

module _ (qname zone : Text) (us : List Text) (named : is_empty zone ≡ false)
    (trimmed : IsTrimmed zone) where
  abbrev entry : WildcardEntry
  entry = record { suffix = b'.' ∷ (zone ++ codes "."); upstream = us }

  pub entry_matches-IsUnder : entry_matches qname entry ≡ true → IsUnder qname zone
  unfolding entry_matches
  entry_matches-IsUnder h = elim (Bool-cases (has_suffix entry.suffix qname)) [
    | inl below ↦ inl (has_suffix-split entry.suffix qname below)
    | inr other ↦
        let same : trim_suffix (codes ".") qname ≡ zone =
          (text_beq_iff _ _).0 (ground (arith, other, h)) ∙ trim-dotted zone named trimmed in
        elim (trim_suffix-cases qname) [
          | inl e ↦ inr (inl (e ∙ ap (λ r. r ++ codes ".") same))
          | inr e ↦ inr (inr (e ∙ same))
        ]
  ]

  apex : trim_suffix (codes ".") qname ≡ zone → entry_matches qname entry ≡ true
  unfolding entry_matches
  apex e =
      let same : text_beq (trim_suffix (codes ".") qname) (trim b'.' entry.suffix) ≡ true =
        (text_beq_iff _ _).1 (e ∙ sym (trim-dotted zone named trimmed)) in
      ground (arith, same)

  pub IsUnder-entry_matches : IsUnder qname zone → entry_matches qname entry ≡ true
  unfolding entry_matches
  IsUnder-entry_matches (inl (pre, e)) =
      let same : has_suffix entry.suffix qname ≡ true =
        ap (has_suffix entry.suffix) e ∙ has_suffix-append entry.suffix pre in
      ground (arith, same)
  IsUnder-entry_matches (inr (inl e)) =
      apex (ap (trim_suffix (codes ".")) e ∙ trim_suffix-append_dot zone)
  IsUnder-entry_matches (inr (inr e)) =
      apex (ap (trim_suffix (codes ".")) e ∙ trim_suffix-trimmed zone trimmed.end)
