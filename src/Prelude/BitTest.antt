-- ===== src/Prelude/BitTest.antt =====
-- Single bits of a word: what `|`, `&` and `~` do to each.
use Prim.Native.Nat.{ℕ, zero, suc, ◌+◌, ◌-◌, ◌/◌, ◌%◌, ◌^◌, ◌<◌, min, max, bit_and, bit_or}
use mathlib.Core.Path.{◌≡◌, refl, sym, ap, ap₂, ◌∙◌}
use mathlib.Core.Logic.{◌≢◌}
use native.Mathlib.Nat.{pow-suc, div-div-eq-div-mul}
use native.Mathlib.Omega.{arith}
use linux_firewire_dkms.Prelude.Step.{bit_or_step, bit_and_step}

abbrev pub test_bit : ℕ → ℕ → ℕ
test_bit m i = m / 2 ^ i % 2

pub test_bit-suc : (m i : ℕ) → test_bit m (suc i) ≡ test_bit (m / 2) i
test_bit-suc m i =
    rw (div-div-eq-div-mul m 2 (2 ^ i)) (ap (λ t. m / t % 2) (omega (arith, pow-suc 2 i)))

pub test_bit-bit_or : (i a b : ℕ) → test_bit (bit_or a b) i ≡ max (test_bit a i) (test_bit b i)
test_bit-bit_or zero a b = omega (arith, bit_or_step a b)
test_bit-bit_or (suc i) a b =
    let half : bit_or a b / 2 ≡ bit_or (a / 2) (b / 2) = omega (arith, bit_or_step a b) in
    rw (test_bit-suc (bit_or a b) i, test_bit-suc a i, test_bit-suc b i, half)
      (test_bit-bit_or i (a / 2) (b / 2))

pub test_bit-bit_and : (i a b : ℕ) → test_bit (bit_and a b) i ≡ min (test_bit a i) (test_bit b i)
test_bit-bit_and zero a b = omega (arith, bit_and_step a b)
test_bit-bit_and (suc i) a b =
    let half : bit_and a b / 2 ≡ bit_and (a / 2) (b / 2) = omega (arith, bit_and_step a b) in
    rw (test_bit-suc (bit_and a b) i, test_bit-suc a i, test_bit-suc b i, half)
      (test_bit-bit_and i (a / 2) (b / 2))

test_bit-zero : (i : ℕ) → test_bit 0 i ≡ 0
test_bit-zero zero = refl
test_bit-zero (suc i) = rw (test_bit-suc 0 i) (test_bit-zero i)

pub pow_half : (i : ℕ) → 2 ^ suc i / 2 ≡ 2 ^ i
pow_half i = omega (arith, pow-suc 2 i)

pub test_bit-pow_self : (i : ℕ) → test_bit (2 ^ i) i ≡ 1
test_bit-pow_self zero = refl
test_bit-pow_self (suc i) = rw (test_bit-suc (2 ^ suc i) i, pow_half i) (test_bit-pow_self i)

pub test_bit-pow_ne : (i j : ℕ) → i ≢ j → test_bit (2 ^ i) j ≡ 0
test_bit-pow_ne zero zero ne = absurd (ne refl)
test_bit-pow_ne zero (suc j) ne = rw (test_bit-suc 1 j) (test_bit-zero j)
test_bit-pow_ne (suc i) zero ne = omega (arith, pow-suc 2 i)
test_bit-pow_ne (suc i) (suc j) ne =
    rw (test_bit-suc (2 ^ suc i) j, pow_half i) (test_bit-pow_ne i j (λ e. ne (ap suc e)))

pub test_bit-shr : (k m i : ℕ) → test_bit (m / 2 ^ k) i ≡ test_bit m (i + k)
test_bit-shr zero m i = ap₂ test_bit (omega arith) (omega arith)
test_bit-shr (suc k) m i =
    ap (λ t. test_bit t i)
      (ap (λ t. m / t) (omega (arith, pow-suc 2 k)) ∙ sym (div-div-eq-div-mul m 2 (2 ^ k)))
    ∙ test_bit-shr k (m / 2) i
    ∙ sym (test_bit-suc m (i + k))
    ∙ ap (test_bit m) (omega arith)

-- The complement in a word of `w` bits.
pub test_bit-complement :
    (w j m : ℕ) → j < w → m < 2 ^ w → test_bit (2 ^ w - 1 - m) j ≡ 1 - test_bit m j
test_bit-complement zero j m h fits = absurd (omega arith)
test_bit-complement (suc w) zero m h fits = omega (arith, pow-suc 2 w)
test_bit-complement (suc w) (suc j) m h fits =
    let half : (2 ^ suc w - 1 - m) / 2 ≡ 2 ^ w - 1 - m / 2 = omega (arith, pow-suc 2 w) in
    rw (test_bit-suc (2 ^ suc w - 1 - m) j, test_bit-suc m j, half)
      (test_bit-complement w j (m / 2) (omega arith) (omega (arith, pow-suc 2 w)))
