-- ===== src/Prelude/Xor.antt =====
-- `^` with a single bit.
use Prim.Native.Nat.{ℕ, zero, suc, ◌+◌, ◌-◌, ◌/◌, ◌^◌, ◌≤◌, bit_xor}
use mathlib.Core.Path.{◌≡◌, refl}
use native.Mathlib.Nat.{pow-suc}
use native.Mathlib.Omega.{arith}
use linux_firewire_dkms.Prelude.Step.{bit_xor_step}
use linux_firewire_dkms.Prelude.BitTest.{test_bit, test_bit-suc, pow_half}

xor_nothing : (bound a : ℕ) → a ≤ bound → bit_xor a 0 ≡ a
xor_nothing bound zero h = refl
xor_nothing zero (suc a) h = absurd (omega arith)
xor_nothing (suc bound) (suc a) h =
    omega (arith, bit_xor_step (suc a) 0, xor_nothing bound (suc a / 2) (omega arith))

-- A bit that is set is taken off, one that is not is added.
pub bit_xor-set : (i x : ℕ) → test_bit x i ≡ 1 → bit_xor x (2 ^ i) + 2 ^ i ≡ x
bit_xor-set zero x h = omega (arith, bit_xor_step x 1, xor_nothing (x / 2) (x / 2) (omega arith))
bit_xor-set (suc i) x h =
    let half : bit_xor (x / 2) (2 ^ suc i / 2) + 2 ^ i ≡ x / 2 =
      rw (pow_half i) (bit_xor-set i (x / 2) (rw (← test_bit-suc x i) h)) in
    omega (arith, bit_xor_step x (2 ^ suc i), pow-suc 2 i, half)

pub bit_xor-clear : (i x : ℕ) → test_bit x i ≡ 0 → bit_xor x (2 ^ i) ≡ x + 2 ^ i
bit_xor-clear zero x h = omega (arith, bit_xor_step x 1, xor_nothing (x / 2) (x / 2) (omega arith))
bit_xor-clear (suc i) x h =
    let half : bit_xor (x / 2) (2 ^ suc i / 2) ≡ x / 2 + 2 ^ i =
      rw (pow_half i) (bit_xor-clear i (x / 2) (rw (← test_bit-suc x i) h)) in
    omega (arith, bit_xor_step x (2 ^ suc i), pow-suc 2 i, half)

-- What is left has the bit no longer.
pub test_bit-less : (i x : ℕ) → test_bit x i ≡ 1 → test_bit (x - 2 ^ i) i ≡ 0
test_bit-less zero x h = omega arith
test_bit-less (suc i) x h =
    let lower : test_bit (x / 2) i ≡ 1 = rw (← test_bit-suc x i) h in
    let half : (x - 2 ^ suc i) / 2 ≡ x / 2 - 2 ^ i = omega (arith, pow-suc 2 i) in
    rw (test_bit-suc (x - 2 ^ suc i) i, half) (test_bit-less i (x / 2) lower)
