-- ===== src/Net/Ip/Groups.antt =====
-- The bytes and groups that the parser of an address collects are in range.
use auto_pxe.Prelude.{
  ℕ, suc, zero, ◌+◌, ◌-◌, ◌*◌, ◌≤◌, ◌<◌, Bool, true, false, ◌&&◌, ◌||◌, not, Option, none, some,
  List, [], ◌∷◌, ◌++◌, arith, inl, inr, Bool-cases, leb, ltb, ◌==◌, if◌then◌else◌, Text, length,
  ◌>>=◌, is_empty, All, All-append, OnSome,
}
use auto_pxe.Net.Mac.{hex_value}
use auto_pxe.Net.Ip.Parse.{
  is_digit, ipv4_fields, hex_run, Groups, add_bytes, ipv4_tail, after_colons, Next, stop, go,
  after_group, ipv6_groups, is_dot,
}

abbrev pub IsByte : ℕ → Type 0
IsByte x = x < 256

abbrev pub IsGroup : ℕ → Type 0
IsGroup x = x < 65536

pub ipv4_fields-IsByte :
    (s : Text) (val len : ℕ) (fields : List ℕ)
    → IsByte val
    → All IsByte fields
    → OnSome (All IsByte) (ipv4_fields s val len fields)
unfolding ipv4_fields
ipv4_fields-IsByte [] val len fields v f =
    ground (arith, All-append IsByte fields (val ∷ []) f (v, tt))
ipv4_fields-IsByte (c ∷ s) val len fields v f = elim (Bool-cases (is_digit c)) [
  | inl digit ↦ elim (Bool-cases ((len == 1 && val == 0) || ltb 255 (val * 10 + (c - b'0')))) [
    | inl over ↦ rw (digit, over) tt
    | inr small ↦
        rw (digit, small)
          (ipv4_fields-IsByte s (val * 10 + (c - b'0')) (len + 1) fields (ground arith) f)
  ]
  | inr other ↦
      elim (Bool-cases (c == b'.' && not (len == 0 || (is_empty s || length fields == 3)))) [
        | inl dot ↦
            rw (other, dot)
              (ipv4_fields-IsByte s 0 0 (fields ++ val ∷ []) (omega arith)
                (All-append IsByte fields (val ∷ []) f (v, tt)))
        | inr bad ↦ rw (other, bad) tt
      ]
]

hex_value-lt : (c : ℕ) → OnSome (λ x. x < 16) (hex_value c)
unfolding hex_value
hex_value-lt c = ground arith

-- What `n` digits can reach.
abbrev reach : ℕ → ℕ
reach zero = 1
reach (suc zero) = 16
reach (suc (suc zero)) = 256
reach (suc (suc (suc zero))) = 4096
reach _ = 65536

reach-step : (off acc x : ℕ) → off < 4 → acc < reach off → x < 16 → acc * 16 + x < reach (off + 1)
reach-step zero acc x l h k = omega arith
reach-step (suc zero) acc x l h k = omega arith
reach-step (suc (suc zero)) acc x l h k = omega arith
reach-step (suc (suc (suc zero))) acc x l h k = omega arith
reach-step (suc (suc (suc (suc n)))) acc x l h k = absurd (omega arith)

reach-le : (off : ℕ) → reach off ≤ 65536
reach-le zero = omega arith
reach-le (suc zero) = omega arith
reach-le (suc (suc zero)) = omega arith
reach-le (suc (suc (suc zero))) = omega arith
reach-le (suc (suc (suc (suc n)))) = omega arith

abbrev IsRun : ℕ × ℕ × Text → Type 0
IsRun r = IsGroup r.0

hex_run-IsGroup : (s : Text) (acc off : ℕ) → acc < reach off → OnSome IsRun (hex_run s acc off)
unfolding hex_run
hex_run-IsGroup [] acc off h = omega (arith, reach-le off)
hex_run-IsGroup (c ∷ s) acc off h =
    digit (hex_value c) (hex_value-lt c) (λ x k. hex_run-IsGroup s (acc * 16 + x) (off + 1) k)
  where
    digit :
        (o : Option ℕ)
        → OnSome (λ x. x < 16) o
        → ((x : ℕ)
            → acc * 16 + x < reach (off + 1)
            → OnSome IsRun (hex_run s (acc * 16 + x) (off + 1)))
        → OnSome IsRun (elim o [
          | none ↦ some (acc, off, c ∷ s)
          | some x ↦ if leb 4 off then none else hex_run s (acc * 16 + x) (off + 1)
        ])
    digit none k more = omega (arith, reach-le off)
    digit (some x) k more = elim (Bool-cases (leb 4 off)) [
      | inl over ↦ rw over tt
      | inr few ↦ rw few (more x (reach-step off acc x (ground arith) h k))
    ]

abbrev pub AreGroups : Groups → Type 0
AreGroups r = All IsGroup r.0

add_bytes-AreGroups :
    (groups : List ℕ) (gap : Option ℕ) (bs : List ℕ)
    → All IsGroup groups
    → All IsByte bs
    → OnSome AreGroups (add_bytes groups gap bs)
unfolding add_bytes
add_bytes-AreGroups groups gap [] h k = tt
add_bytes-AreGroups groups gap (a ∷ []) h k = tt
add_bytes-AreGroups groups gap (a ∷ b ∷ []) h k = tt
add_bytes-AreGroups groups gap (a ∷ b ∷ c ∷ []) h k = tt
add_bytes-AreGroups groups gap (a ∷ b ∷ c ∷ d ∷ []) h (ka, (kb, (kc, (kd, _)))) =
    All-append IsGroup groups _ h (omega arith, (omega arith, tt))
add_bytes-AreGroups groups gap (a ∷ b ∷ c ∷ d ∷ e ∷ bs) h k = tt

ipv4_tail-AreGroups :
    (s : Text) (groups : List ℕ) (gap : Option ℕ)
    → All IsGroup groups
    → OnSome AreGroups (ipv4_tail s groups gap)
unfolding ipv4_tail
ipv4_tail-AreGroups s groups gap h =
    onto (ipv4_fields s 0 0 []) (ipv4_fields-IsByte s 0 0 [] (omega arith) tt) _
  where
    onto :
        (o : Option (List ℕ))
        → OnSome (All IsByte) o
        → (b : Bool) → OnSome AreGroups (if b then (o >>= add_bytes groups gap) else none)
    onto o k false = tt
    onto none k true = tt
    onto (some bs) k true = add_bytes-AreGroups groups gap bs h k

abbrev AreNext : Next → Type 0
AreNext (stop r) = OnSome AreGroups r
AreNext (go gap t) = Unit

after_colons-AreNext :
    (groups : List ℕ) (gap : Option ℕ) (t : Text)
    → All IsGroup groups
    → AreNext (after_colons groups gap t)
unfolding after_colons
after_colons-AreNext groups (some _) t h = tt
after_colons-AreNext groups none [] h = h
after_colons-AreNext groups none (e ∷ t) h = tt

after_group-AreNext :
    (groups : List ℕ) (gap : Option ℕ) (rest : Text)
    → All IsGroup groups
    → AreNext (after_group groups gap rest)
unfolding after_group
after_group-AreNext groups gap [] h = h
after_group-AreNext groups gap (c ∷ []) h = tt
after_group-AreNext groups gap (c ∷ d ∷ s) h = ground (arith, after_colons-AreNext groups gap s h)

pub ipv6_groups-AreGroups :
    (n : ℕ) (s : Text) (groups : List ℕ) (gap : Option ℕ)
    → All IsGroup groups
    → OnSome AreGroups (ipv6_groups n s groups gap)
unfolding ipv6_groups
ipv6_groups-AreGroups zero s groups gap h = h
ipv6_groups-AreGroups (suc n) s groups gap h =
    group (hex_run s 0 0) (hex_run-IsGroup s 0 0 (omega arith))
      (λ l gap' t k. ipv6_groups-AreGroups n t l gap' k)
  where
    next :
        (l : List ℕ)
        → All IsGroup l
        → (x : Next) → AreNext x
        → ((l : List ℕ) (gap' : Option ℕ) (t : Text)
            → All IsGroup l
            → OnSome AreGroups (ipv6_groups n t l gap'))
        → OnSome AreGroups (elim x [ stop r ↦ r | go gap' t ↦ ipv6_groups n t l gap' ])
    next l k (stop r) a more = a
    next l k (go gap' t) a more = more l gap' t k

    group :
        (o : Option (ℕ × ℕ × Text))
        → OnSome IsRun o
        → ((l : List ℕ) (gap' : Option ℕ) (t : Text)
            → All IsGroup l
            → OnSome AreGroups (ipv6_groups n t l gap'))
        → OnSome AreGroups (elim o [
          | none ↦ none
          | some (acc, off, rest) ↦
              if off == 0
              then none
              else (if is_dot rest
                  then ipv4_tail s groups gap
                  else (elim (after_group (groups ++ acc ∷ []) gap rest) [
                    | stop r ↦ r
                    | go gap' t ↦ ipv6_groups n t (groups ++ acc ∷ []) gap'
                  ]))
        ])
    group none k more = tt
    group (some (acc, off, rest)) k more =
        let l = All-append IsGroup groups (acc ∷ []) h (k, tt) in
        let after =
          next (groups ++ acc ∷ []) l (after_group (groups ++ acc ∷ []) gap rest)
            (after_group-AreNext _ gap rest l) more in
        elim (Bool-cases (off == 0)) [
          | inl empty ↦ rw empty tt
          | inr given ↦ elim (Bool-cases (is_dot rest)) [
            | inl dot ↦ rw (given, dot) (ipv4_tail-AreGroups s groups gap h)
            | inr none_there ↦ rw (given, none_there) after
          ]
        ]
