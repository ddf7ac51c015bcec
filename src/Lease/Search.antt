-- ===== src/Lease/Search.antt =====
-- The loop of `Allocate` over the pool: it ends, and finds the first address that is not taken.
use auto_pxe.Prelude.{
  ℕ, zero, suc, ◌+◌, ◌%◌, ◌^◌, ◌≤◌, ◌<◌, ◌≡◌, Bool, true, false, arith, inl, inr, ◌==◌, Bool-cases,
}
use auto_pxe.Lease.Ops.{Search, found, exhausted, out_of_fuel, search_pool}

-- What the search has to report about the addresses from `v` to `last`.
abbrev pub Searched : (ℕ → Bool) → ℕ → ℕ → Search → Type 0
Searched taken v last (found w) =
    (v ≤ w) × (w ≤ last) × (taken w ≡ false) × ((x : ℕ) → v ≤ x → x < w → taken x ≡ true)
Searched taken v last exhausted = (x : ℕ) → v ≤ x → x ≤ last → taken x ≡ true
Searched taken v last out_of_fuel = ⊥

module _ (taken : ℕ → Bool) (last : ℕ) (word : last < 2 ^ 32) where
  Searched-step :
      (v : ℕ) (r : Search)
      → taken v ≡ true
      → v < last
      → Searched taken (v + 1) last r
      → Searched taken v last r
  Searched-step v (found w) t lt (a, b, c, d) = (
    omega arith,
    b,
    c,
    λ x h k. elim (Bool-cases (v == x)) [
      | inl e ↦ ground (arith, d x)
      | inr e ↦ d x (ground arith) k
    ],
  )
  Searched-step v exhausted t lt d = λ x h k. elim (Bool-cases (v == x)) [
    | inl e ↦ ground (arith, d x)
    | inr e ↦ d x (ground arith) k
  ]
  Searched-step v out_of_fuel t lt d = d

  -- If the pool ends below 2 ^ 32 and the fuel exceeds the addresses left, the search does not run out of
  -- fuel. It finds the first address from `v` to `last` that is not taken, or all of them are taken.
  pub search_pool-Searched :
      (fuel v : ℕ)
      → v ≤ last
      → last < v + fuel
      → Searched taken v last (search_pool taken last fuel v)
  unfolding search_pool
  search_pool-Searched zero v le enough = absurd (omega arith)
  search_pool-Searched (suc fuel) v le enough = elim (Bool-cases (taken v)) [
    | inr free ↦ rw free (omega arith, le, free, λ x h k. absurd (omega arith))
    | inl t ↦ elim (Bool-cases (v == last)) [
      | inl e ↦ rw (t, e) (λ x h k. ground arith)
      | inr e ↦
          let same : (v + 1) % 2 ^ 32 ≡ v + 1 = ground arith in
          rw (t, e, same)
            (Searched-step v _ t (ground arith)
              (search_pool-Searched fuel (v + 1) (ground arith) (omega arith)))
    ]
  ]
