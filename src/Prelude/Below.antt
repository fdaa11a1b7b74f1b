-- ===== src/Prelude/Below.antt =====
-- Checking a finite range by evaluation.
use Prim.Native.Nat.{ℕ, zero, suc, ◌<◌}
use mathlib.Core.Path.{◌≡◌, sym, ◌∙◌, subst}
use mathlib.Core.Logic.{inl, inr}
use mathlib.Core.Bool.{Bool, true, false, true≢false}
use native.Mathlib.Omega.{arith}
use linux_firewire_dkms.Prelude.Tests.{if◌then◌else◌, Bool-cases, if_of_false, if_of_true, ◌==◌}

-- A test of every number below a bound.
abbrev pub all_below : ℕ → (ℕ → Bool) → Bool
all_below zero p = true
all_below (suc n) p = if p n then all_below n p else false

pub all_below-at : (n : ℕ) (p : ℕ → Bool) → all_below n p ≡ true → (i : ℕ) → i < n → p i ≡ true
all_below-at zero p e i h = absurd (omega arith)
all_below-at (suc n) p e i h = elim (Bool-cases (p n)) [
  | inl q ↦ elim (Bool-cases (i == n)) [
    | inl same ↦ subst (λ k. p k ≡ true) (sym (ground arith)) q
    | inr other ↦ all_below-at n p (sym (if_of_true (all_below n p) false q) ∙ e) i (ground arith)
  ]
  | inr q ↦ absurd (true≢false (sym e ∙ if_of_false (all_below n p) false q))
]
