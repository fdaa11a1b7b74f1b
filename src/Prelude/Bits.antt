-- ===== src/Prelude/Bits.antt =====
-- `&` and `|` work digit by digit: below and above any position they work apart.
use Prim.Native.Nat.{ℕ, zero, suc, ◌+◌, ◌-◌, ◌*◌, ◌/◌, ◌%◌, ◌^◌, ◌≤◌, ◌<◌, bit_and, bit_or}
use mathlib.Core.Path.{◌≡◌, refl, ap}
use native.Mathlib.Nat.{pow-suc, one-le-pow, add-zero, mul-one}
use native.Mathlib.Omega.{arith}
use linux_firewire_dkms.Prelude.Step.{bit_or_step, bit_and_step}

and_nothing : (bound a : ℕ) → a ≤ bound → bit_and a 0 ≡ 0
and_nothing bound zero h = refl
and_nothing zero (suc a) h = absurd (omega arith)
and_nothing (suc bound) (suc a) h =
    omega (arith, bit_and_step (suc a) 0, and_nothing bound (suc a / 2) (omega arith))

pub bit_and-zero : (a : ℕ) → bit_and a 0 ≡ 0
bit_and-zero a = and_nothing a a (omega arith)

or_nothing : (bound a : ℕ) → a ≤ bound → bit_or a 0 ≡ a
or_nothing bound zero h = refl
or_nothing zero (suc a) h = absurd (omega arith)
or_nothing (suc bound) (suc a) h =
    omega (arith, bit_or_step (suc a) 0, or_nothing bound (suc a / 2) (omega arith))

pub bit_or-zero : (a : ℕ) → bit_or a 0 ≡ a
bit_or-zero a = or_nothing a a (omega arith)

nothing_or : (bound a : ℕ) → a ≤ bound → bit_or 0 a ≡ a
nothing_or bound zero h = refl
nothing_or zero (suc a) h = absurd (omega arith)
nothing_or (suc bound) (suc a) h =
    omega (arith, bit_or_step 0 (suc a), nothing_or bound (suc a / 2) (omega arith))

pub zero-bit_or : (a : ℕ) → bit_or 0 a ≡ a
zero-bit_or a = nothing_or a a (omega arith)

nothing_and : (bound a : ℕ) → a ≤ bound → bit_and 0 a ≡ 0
nothing_and bound zero h = refl
nothing_and zero (suc a) h = absurd (omega arith)
nothing_and (suc bound) (suc a) h =
    omega (arith, bit_and_step 0 (suc a), nothing_and bound (suc a / 2) (omega arith))

pub zero-bit_and : (a : ℕ) → bit_and 0 a ≡ 0
zero-bit_and a = nothing_and a a (omega arith)

double_pow : (q k : ℕ) → q * 2 ^ suc k ≡ q * 2 ^ k * 2
double_pow q k = omega (arith, ap (λ (t : ℕ). q * t) (pow-suc 2 k))

pub bit_and_split :
    (k a b c d : ℕ)
    → b < 2 ^ k
    → d < 2 ^ k
    → bit_and (a * 2 ^ k + b) (c * 2 ^ k + d) ≡ bit_and a c * 2 ^ k + bit_and b d
bit_and_split zero a zero c zero hb hd = simp (mul-one, add-zero)
bit_and_split zero a b c d hb hd = absurd (omega arith)
bit_and_split (suc k) a b c d hb hd = ground (
  arith,
  bit_and_step (a * 2 ^ suc k + b) (c * 2 ^ suc k + d),
  bit_and_step b d,
  double_pow a k,
  double_pow c k,
  double_pow (bit_and a c) k,
  bit_and_split k a (b / 2) c (d / 2) (omega (arith, pow-suc 2 k)) (omega (arith, pow-suc 2 k)),
)

pub bit_or_split :
    (k a b c d : ℕ)
    → b < 2 ^ k
    → d < 2 ^ k
    → bit_or (a * 2 ^ k + b) (c * 2 ^ k + d) ≡ bit_or a c * 2 ^ k + bit_or b d
bit_or_split zero a zero c zero hb hd = simp (mul-one, add-zero)
bit_or_split zero a b c d hb hd = absurd (omega arith)
bit_or_split (suc k) a b c d hb hd = ground (
  arith,
  bit_or_step (a * 2 ^ suc k + b) (c * 2 ^ suc k + d),
  bit_or_step b d,
  double_pow a k,
  double_pow c k,
  double_pow (bit_or a c) k,
  bit_or_split k a (b / 2) c (d / 2) (omega (arith, pow-suc 2 k)) (omega (arith, pow-suc 2 k)),
)

ones_in : (k r : ℕ) → r < 2 ^ k → bit_and r (2 ^ k - 1) ≡ r
ones_in zero zero h = refl
ones_in zero (suc r) h = absurd (omega arith)
ones_in (suc k) r h = ground (
  arith,
  bit_and_step r (2 ^ suc k - 1),
  pow-suc 2 k,
  one-le-pow k 2,
  ones_in k (r / 2) (omega (arith, pow-suc 2 k)),
)

-- A mask of ones takes the remainder.
pub bit_and_ones : (k a : ℕ) → bit_and a (2 ^ k - 1) ≡ a % 2 ^ k
bit_and_ones k a = ground (
  arith,
  one-le-pow k 2,
  bit_and_split k (a / 2 ^ k) (a % 2 ^ k) 0 (2 ^ k - 1),
  bit_and-zero (a / 2 ^ k),
  ones_in k (a % 2 ^ k),
)
