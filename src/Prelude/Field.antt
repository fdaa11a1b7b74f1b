-- ===== src/Prelude/Field.antt =====
-- Bit fields of a 32-bit word: the C idioms `(w & MASK) >> SHIFT` and
-- `w &= ~MASK; w |= (v << SHIFT) & MASK`, and what they do in arithmetic.
use Prim.Native.Nat.{ℕ, ◌+◌, ◌-◌, ◌*◌, ◌/◌, ◌%◌, ◌^◌, ◌<◌, bit_and, bit_or}
use mathlib.Core.Path.{◌≡◌, ap, ◌∙◌}
use mathlib.Core.Logic.{◌↔◌}
use native.Mathlib.Nat.{one-le-pow, mod-lt, mod-eq_of_lt, mul-div_left}
use native.Mathlib.Omega.{arith}
use linux_firewire_dkms.Prelude.Bits.{
  bit_and-zero, bit_or-zero, zero-bit_or, bit_and_split, bit_or_split, bit_and_ones,
}

abbrev pub u64 : ℕ → ℕ
u64 n = n % 2 ^ 64

abbrev pub u32 : ℕ → ℕ
u32 n = n % 2 ^ 32

abbrev pub not32 : ℕ → ℕ
not32 m = 2 ^ 32 - 1 - m

abbrev pub shl32 : ℕ → ℕ → ℕ
shl32 v s = u32 (v * 2 ^ s)

abbrev pub shr : ℕ → ℕ → ℕ
shr w s = w / 2 ^ s

-- `(w & mask) >> shift`
unfoldable pub field_get : ℕ → ℕ → ℕ → ℕ
field_get mask shift w = shr (bit_and w mask) shift

-- `w &= ~mask; w |= (v << shift) & mask`
unfoldable pub field_set : ℕ → ℕ → ℕ → ℕ → ℕ
field_set mask shift w v = bit_or (bit_and w (not32 mask)) (bit_and (shl32 v shift) mask)

-- The field of `width` bits above the lowest `shift`.
abbrev pub field_mask : ℕ → ℕ → ℕ
field_mask shift width = (2 ^ width - 1) * 2 ^ shift

-- Its complement in a word with `above` bits over the field.
abbrev pub outside_mask : ℕ → ℕ → ℕ → ℕ
outside_mask shift width above = (2 ^ above - 1) * 2 ^ width * 2 ^ shift + (2 ^ shift - 1)

two_pow_pos : (k : ℕ) → 0 < 2 ^ k
two_pow_pos k = omega (arith, one-le-pow k 2)

module _ (s n : ℕ) where
  pub bit_and_field : (w : ℕ) → bit_and w (field_mask s n) ≡ w / 2 ^ s % 2 ^ n * 2 ^ s
  bit_and_field w = ground (
    arith,
    one-le-pow s 2,
    bit_and_split s (w / 2 ^ s) (w % 2 ^ s) (2 ^ n - 1) 0,
    bit_and_ones n (w / 2 ^ s),
    bit_and-zero (w % 2 ^ s),
  )

  pub bit_or_field :
      (hi mid lo : ℕ)
      → mid < 2 ^ n
      → lo < 2 ^ s
      → bit_or (hi * 2 ^ n * 2 ^ s + lo) (mid * 2 ^ s) ≡ (hi * 2 ^ n + mid) * 2 ^ s + lo
  bit_or_field hi mid lo hm hl = ground (
    arith,
    one-le-pow s 2,
    one-le-pow n 2,
    bit_or_split s (hi * 2 ^ n) lo mid 0,
    bit_or_split n hi 0 0 mid,
    bit_or-zero hi,
    zero-bit_or mid,
    bit_or-zero lo,
  )

  pub bit_and_outside :
      (h w : ℕ)
      → w / 2 ^ s / 2 ^ n < 2 ^ h
      → bit_and w (outside_mask s n h) ≡ w / 2 ^ s / 2 ^ n * 2 ^ n * 2 ^ s + w % 2 ^ s
  bit_and_outside h w fits = ground (
    arith,
    one-le-pow s 2,
    one-le-pow n 2,
    bit_and_split s (w / 2 ^ s) (w % 2 ^ s) ((2 ^ h - 1) * 2 ^ n) (2 ^ s - 1),
    bit_and_split n (w / 2 ^ s / 2 ^ n) (w / 2 ^ s % 2 ^ n) (2 ^ h - 1) 0,
    bit_and-zero (w / 2 ^ s % 2 ^ n),
    bit_and_ones h (w / 2 ^ s / 2 ^ n),
    mod-eq_of_lt fits,
    bit_and_ones s (w % 2 ^ s),
    mod-eq_of_lt {n = w % 2 ^ s} {m = 2 ^ s},
  )

  -- The arithmetic of a read, for a mask that is `field_mask s n`.
  pub field_get_lem : (mask w : ℕ) → mask ≡ field_mask s n → field_get mask s w ≡ w / 2 ^ s % 2 ^ n
  unfolding field_get
  field_get_lem mask w e =
      rw (e, bit_and_field w) (mul-div_left (w / 2 ^ s % 2 ^ n) (two_pow_pos s))

  -- The arithmetic of a write: the field becomes `v`, reduced to its width, and the digits above
  -- and below stay.
  pub field_set_lem :
      (h mask w v : ℕ)
      → mask ≡ field_mask s n
      → not32 mask ≡ outside_mask s n h
      → w / 2 ^ s / 2 ^ n < 2 ^ h
      → shl32 v s / 2 ^ s % 2 ^ n ≡ v % 2 ^ n
      → field_set mask s w v ≡ (w / 2 ^ s / 2 ^ n * 2 ^ n + v % 2 ^ n) * 2 ^ s + w % 2 ^ s
  unfolding field_set
  field_set_lem h mask w v e e' fits shifted =
      rw (e', e, bit_and_outside h w fits, bit_and_field (shl32 v s), shifted)
        (bit_or_field (w / 2 ^ s / 2 ^ n) (v % 2 ^ n) (w % 2 ^ s) (mod-lt v (two_pow_pos n))
          (mod-lt w (two_pow_pos s)))

-- `w & (1 << i)`
pub bit_and-pow : (w i : ℕ) → bit_and w (2 ^ i) ≡ w / 2 ^ i % 2 * 2 ^ i
bit_and-pow w i = ap (λ t. bit_and w t) (omega arith) ∙ bit_and_field i 1 w

pub bit_and-pow_eq_zero : (w i : ℕ) → (bit_and w (2 ^ i) ≡ 0) ↔ (w / 2 ^ i % 2 ≡ 0)
bit_and-pow_eq_zero w i =
    (λ h. grind (arith, bit_and-pow w i, two_pow_pos i), λ h. rw (bit_and-pow w i, h) (omega arith))
