-- ===== src/Ironic/Deploy/Polling.antt =====
-- The loop over the command's status, internal/ironic/deploy.go: how it ends, and that it does.

use auto_pxe.Prelude.{
  sym, ap, ℕ, ◌≤◌, ◌≡◌, refl, Bool, true, false, ◌||◌, Option, none, some, List, [], ◌∷◌, Text,
  text_eq, text_beq, text_beq_iff, ne_of_text_beq, codes, length, ltb, any, arith, inl, inr, ◌⊎◌,
  Bool-cases, Returns, Returns-map, ◌≢◌, ◌∙◌, ◌<◌, ◌+◌, ◌*◌, zero, suc,
}
use auto_pxe.Node.{Node, failed, force_state}
use auto_pxe.Ironic.Deploy.{
  Poll, Verdict, succeeded, broken, undecided, verdict, poll_round, poll_until_terminal,
}

-- A round after which the loop ends.
abbrev pub is_final : ℕ → Poll → Bool
is_final deadline p = elim (verdict p.status) [ undecided ↦ ltb deadline p.checked | _ ↦ true ]

-- The agent reports success before it reports a failure and before the deadline has been found over.
abbrev pub Succeeds : ℕ → List Poll → Type 0
Succeeds deadline [] = ⊥
Succeeds deadline (p ∷ ps) =
    (p.status ≡ some (codes "SUCCEEDED"))
    ⊎ ((p.status ≢ some (codes "FAILED")) × (p.checked ≤ deadline) × Succeeds deadline ps)

-- The loop has ended: with success and the node as it was, or without it and the node failed.
abbrev pub HasEnded : ℕ → List Poll → Node → Node × Bool → Type 0
HasEnded deadline ps n r =
    (r ≡ (n, true)) × Succeeds deadline ps
    ⊎ (r ≡ (force_state failed n, false)) × (¬ Succeeds deadline ps)

verdict_cases :
    (s : Option Text)
    → (verdict s ≡ succeeded) × (s ≡ some (codes "SUCCEEDED"))
      ⊎ (verdict s ≡ broken) × (s ≡ some (codes "FAILED"))
      ⊎ (verdict s ≡ undecided) × (s ≢ some (codes "SUCCEEDED")) × (s ≢ some (codes "FAILED"))
unfolding verdict
verdict_cases none = inr (inr (refl, (λ e. cc e), λ e. cc e))
verdict_cases (some t) = elim (Bool-cases (text_beq t (codes "SUCCEEDED"))) [
  | inl good ↦ inl (ground arith, ap some ((text_beq_iff _ _).0 good))
  | inr unsure ↦ elim (Bool-cases (text_beq t (codes "FAILED"))) [
    | inl bad ↦ inr (inl (ground arith, ap some ((text_beq_iff _ _).0 bad)))
    | inr other ↦ inr (
        inr (
          ground arith,
          (λ e. ne_of_text_beq t (codes "SUCCEEDED") unsure (some_injective e)),
          λ e. ne_of_text_beq t (codes "FAILED") other (some_injective e),
        ))
  ]
]
  where
    some_injective : {a b : Text} → some a ≡ some b → a ≡ b
    some_injective e = cc e

succeeded_failed : some (codes "SUCCEEDED") ≢ some (codes "FAILED")
succeeded_failed e = ground (arith, e)

pub poll_until_terminal-HasEnded :
    (deadline : ℕ) (ps : List Poll) (n : Node)
    → any (is_final deadline) ps ≡ true
    → Returns (HasEnded deadline ps n) (poll_until_terminal deadline ps n)
unfolding poll_until_terminal poll_round any
poll_until_terminal-HasEnded deadline [] n h = absurd (ground arith)
poll_until_terminal-HasEnded deadline (p ∷ ps) n h = elim (verdict_cases p.status) [
  | inl (v, e) ↦ rw v (inl (refl, inl e))
  | inr (inl (v, e)) ↦ rw v (inr (refl, not_success e))
  | inr (inr (v, unsure, unbroken)) ↦ elim (Bool-cases (ltb deadline p.checked)) [
    | inl late ↦ rw (v, late) (inr (refl, over late unsure))
    | inr early ↦
        rw (v, early)
          (Returns-map _ _ (poll_until_terminal deadline ps n)
            (λ r e. onward early unsure unbroken r e)
            (poll_until_terminal-HasEnded deadline ps n (ground (arith, v, early, h))))
  ]
]
  where
    not_success : p.status ≡ some (codes "FAILED") → ¬ Succeeds deadline (p ∷ ps)
    not_success e (inl s) = succeeded_failed (sym s ∙ e)
    not_success e (inr (x, in_time, rest)) = x e

    over :
        ltb deadline p.checked ≡ true
        → p.status ≢ some (codes "SUCCEEDED")
        → ¬ Succeeds deadline (p ∷ ps)
    over late unsure (inl s) = unsure s
    over late unsure (inr (x, in_time, rest)) = absurd (ground arith)

    onward :
        ltb deadline p.checked ≡ false
        → p.status ≢ some (codes "SUCCEEDED")
        → p.status ≢ some (codes "FAILED")
        → (r : Node × Bool) → HasEnded deadline ps n r
        → HasEnded deadline (p ∷ ps) n r
    onward early unsure unbroken r (inl (same, s)) = inl (same, inr (unbroken, ground arith, s))
    onward early unsure unbroken r (inr (same, s)) =
        inr (same, λ t. elim t [ inl e ↦ unsure e | inr (x, in_time, rest) ↦ s rest ])

-- The ticker of the loop: five seconds.
abbrev pub period : ℕ
period = 5000000000

-- The round with the number `k`, from 0, tests the deadline `k` periods after the start, or later.
abbrev pub IsTicking : ℕ → List Poll → Type 0
IsTicking start [] = Unit
IsTicking start (p ∷ ps) = (start ≤ p.checked) × IsTicking (start + period) ps

pub any-is_final :
    (k start deadline : ℕ) (ps : List Poll)
    → IsTicking start ps
    → k < length ps
    → deadline < start + k * period
    → any (is_final deadline) ps ≡ true
unfolding any
any-is_final k start deadline [] t long h = absurd (omega (arith, long))
any-is_final zero start deadline (p ∷ ps) (at, t) long h = go (verdict p.status)
  where
    go :
        (v : Verdict)
        → (elim v [ undecided ↦ ltb deadline p.checked | _ ↦ true ]) || any (is_final deadline) ps
          ≡ true
    go succeeded = refl
    go broken = refl
    go undecided = ground arith
any-is_final (suc k) start deadline (p ∷ ps) (at, t) long h =
    let rest = any-is_final k (start + period) deadline ps t (omega arith) (omega arith) in
    ground (arith, rest)
