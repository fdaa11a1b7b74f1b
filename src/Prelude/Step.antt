-- ===== src/Prelude/Step.antt =====
-- The native `bit_and`, `bit_or` and `bit_xor` are recursions on binary digits. Their equations for the
-- lowest digit are all that the rest of the development uses of them.
use Prim.Native.Nat.{ℕ, zero, suc, ◌+◌, ◌*◌, ◌/◌, ◌%◌, ◌≤◌, ◌<◌, min, max, bit_and, bit_or, bit_xor}
use Prim.Native.Nat.{digits, bitwise, bit_and-bitwise, bit_or-bitwise, bit_xor-bitwise, differ}
use mathlib.Core.Path.{◌≡◌, refl, ap}
use native.Mathlib.Omega.{arith}

module _ (rest : ℕ → ℕ) (digit : ℕ → ℕ → ℕ) where
  -- Fuel beyond the number itself changes nothing.
  more_fuel : (n a b k : ℕ) → a ≤ n → a ≤ k → digits rest digit n a b ≡ digits rest digit k a b
  more_fuel zero zero b zero _ _ = refl
  more_fuel zero zero b (suc k) _ _ = refl
  more_fuel (suc n) zero b zero _ _ = refl
  more_fuel (suc n) zero b (suc k) _ _ = refl
  more_fuel zero (suc a) b k small _ = absurd (omega arith)
  more_fuel (suc n) (suc a) b zero _ small = absurd (omega arith)
  more_fuel (suc n) (suc a) b (suc k) p q =
      let half : ℕ = suc a / 2 in
      ap (λ t. t * 2 + digit (suc a % 2) (b % 2))
        (more_fuel n half (b / 2) k (omega arith) (omega arith))

  unroll :
      (a b : ℕ)
      → bitwise rest digit (suc a) b
        ≡ bitwise rest digit (suc a / 2) (b / 2) * 2 + digit (suc a % 2) (b % 2)
  unroll a b =
      let half : ℕ = suc a / 2 in
      ap (λ t. t * 2 + digit (suc a % 2) (b % 2))
        (more_fuel a half (b / 2) half (omega arith) (omega arith))

pub bit_and_step : (x y : ℕ) → bit_and x y ≡ bit_and (x / 2) (y / 2) * 2 + min (x % 2) (y % 2)
bit_and_step zero y = simp bit_and-bitwise (omega arith)
bit_and_step (suc x) y = simp bit_and-bitwise (unroll (λ _. 0) min x y)

pub bit_or_step : (x y : ℕ) → bit_or x y ≡ bit_or (x / 2) (y / 2) * 2 + max (x % 2) (y % 2)
bit_or_step zero y = simp bit_or-bitwise (omega arith)
bit_or_step (suc x) y = simp bit_or-bitwise (unroll (λ t. t) max x y)

differ_lem : (a b : ℕ) → a < 2 → b < 2 → differ a b ≡ (a + b) % 2
differ_lem zero zero h h' = refl
differ_lem zero (suc zero) h h' = refl
differ_lem (suc zero) zero h h' = refl
differ_lem (suc zero) (suc zero) h h' = refl
differ_lem zero (suc (suc b)) h h' = absurd (omega arith)
differ_lem (suc zero) (suc (suc b)) h h' = absurd (omega arith)
differ_lem (suc (suc a)) b h h' = absurd (omega arith)

pub bit_xor_step : (x y : ℕ) → bit_xor x y ≡ bit_xor (x / 2) (y / 2) * 2 + (x + y) % 2
bit_xor_step zero y = simp bit_xor-bitwise (omega arith)
bit_xor_step (suc x) y =
    let digit : bit_xor (suc x) y ≡ bit_xor (suc x / 2) (y / 2) * 2 + differ (suc x % 2) (y % 2) =
      simp bit_xor-bitwise (unroll (λ t. t) differ x y) in
    omega (arith, digit, differ_lem (suc x % 2) (y % 2) (omega arith) (omega arith))
