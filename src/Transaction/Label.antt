-- ===== src/Transaction/Label.antt =====
-- `allocate_tlabel` takes the first free label, counted round from the current one.
use linux_firewire_dkms.Prelude.{
  ℕ, zero, suc, ◌+◌, ◌-◌, ◌%◌, ◌^◌, ◌<◌, ◌≡◌, ◌⊎◌, refl, arith, Option, none, some, inl, inr,
  Bool-cases, bit_and, bit_or, ◌==◌, ◌!=◌, if◌then◌else◌, bit_and_ones, bit_and-pow, test_bit,
  test_bit-bit_or, test_bit-pow_self, test_bit-bit_and, test_bit-complement, test_bit-pow_ne,
}
use mathlib.Core.Path.{subst}
use native.Mathlib.Nat.{pow-suc, one-le-pow, pow-le-pow_right, mod-eq_of_lt}
use native.Mathlib.Decide.{ℕ_discrete}
use linux_firewire_dkms.Transaction.{Card, bit64, find_tlabel, allocate_tlabel, take_label, not64}

pub pow_lt : (l : ℕ) → l < 64 → 2 ^ l < 2 ^ 64
pow_lt l h = omega (
  arith,
  pow-suc 2 l,
  one-le-pow l 2,
  pow-le-pow_right {n = 2} (omega arith) {i = suc l} {j = 64} h,
)

pub bit64_lem : (l : ℕ) → l < 64 → bit64 l ≡ 2 ^ l
bit64_lem l h = mod-eq_of_lt (pow_lt l h)

next_label : (l : ℕ) → bit_and (l + 1) 0x3f ≡ (l + 1) % 64
next_label l = bit_and_ones 6 (l + 1)

bit_cases : (m l : ℕ) → (test_bit m l ≡ 0) ⊎ (test_bit m l ≡ 1)
bit_cases m l = omega arith

-- The test of the loop reads the bit of the label.
used : (mask l : ℕ) → l < 64 → (bit_and mask (bit64 l) != 0) ≡ (test_bit mask l == 1)
used mask l h = elim (bit_cases mask l) [
  | inl e ↦ rw (bit64_lem l h, bit_and-pow mask l, e) (ground arith)
  | inr e ↦ rw (bit64_lem l h, bit_and-pow mask l, e) (ground (arith, one-le-pow l 2))
]

-- What a search round from `current` must find: the first free label, or none if all are in use.
abbrev pub Search : ℕ → ℕ → Option ℕ → Type 0
Search mask current none = (i : ℕ) → i < 64 → test_bit mask ((current + i) % 64) ≡ 1
Search mask current (some l) =
    (d : ℕ) × (d < 64)
    × (l ≡ (current + d) % 64)
    × (test_bit mask l ≡ 0)
    × ((i : ℕ) → i < d → test_bit mask ((current + i) % 64) ≡ 1)

-- One more label in use behind the `k` that are known to be.
extend :
    (mask current k : ℕ)
    → ((i : ℕ) → i < k → test_bit mask ((current + i) % 64) ≡ 1)
    → test_bit mask ((current + k) % 64) ≡ 1
    → (i : ℕ) → i < suc k
    → test_bit mask ((current + i) % 64) ≡ 1
extend mask current k known more i h = elim (ℕ_discrete i k) [
  | yes e ↦ rw e more
  | no ne ↦ known i (omega arith)
]

find_tlabel-Search :
    (fuel k mask current tlabel : ℕ)
    → k + fuel ≡ 64
    → current < 64
    → tlabel ≡ (current + k) % 64
    → 0 < fuel
    → ((i : ℕ) → i < k → test_bit mask ((current + i) % 64) ≡ 1)
    → Search mask current (find_tlabel fuel mask current tlabel)
unfolding find_tlabel
find_tlabel-Search zero k mask current tlabel e c at pos known = absurd (omega arith)
find_tlabel-Search (suc fuel) k mask current tlabel e c at pos known =
    elim (Bool-cases (test_bit mask tlabel == 1)) [
      | inl taken ↦
          let taken' : test_bit mask ((current + k) % 64) ≡ 1 = ground arith in
          elim (Bool-cases (bit_and (tlabel + 1) 0x3f == current)) [
            | inl round ↦
                let last : suc k ≡ 64 = ground (arith, next_label tlabel) in
                rw (used mask tlabel (omega arith), taken, round)
                  (λ i h. extend mask current k known taken' i (omega arith))
            | inr onward ↦
                rw (used mask tlabel (omega arith), taken, onward)
                  (find_tlabel-Search fuel (suc k) mask current (bit_and (tlabel + 1) 0x3f)
                    (omega arith) c (omega (arith, next_label tlabel))
                    (ground (arith, next_label tlabel)) (extend mask current k known taken'))
          ]
      | inr free ↦
          rw (used mask tlabel (omega arith), free) (k, omega arith, at, ground arith, known)
    ]

-- The bits after a label is marked.
pub marked :
    (mask l m : ℕ)
    → l < 64
    → test_bit (bit_or mask (bit64 l)) m ≡ (if m == l then 1 else test_bit mask m)
marked mask l m h = elim (ℕ_discrete l m) [
  | yes e ↦
      rw (bit64_lem l h, test_bit-bit_or m mask (2 ^ l), ← e, test_bit-pow_self l) (ground arith)
  | no ne ↦
      rw (bit64_lem l h, test_bit-bit_or m mask (2 ^ l), test_bit-pow_ne l m ne) (ground arith)
]

-- What an allocation must do to a card.
abbrev pub Allocated : Card → Option (ℕ × Card) → Type 0
Allocated c none = (l : ℕ) → l < 64 → test_bit c.tlabel_mask l ≡ 1
Allocated c (some (l, c')) =
    (d : ℕ) × (d < 64)
    × (l ≡ (c.current_tlabel + d) % 64)
    × (test_bit c.tlabel_mask l ≡ 0)
    × ((i : ℕ) → i < d → test_bit c.tlabel_mask ((c.current_tlabel + i) % 64) ≡ 1)
    × ((m : ℕ) → test_bit c'.tlabel_mask m ≡ (if m == l then 1 else test_bit c.tlabel_mask m))
    × (c'.current_tlabel ≡ (l + 1) % 64)
    × (c'.list ≡ c.list)

Allocated-Search :
    (c : Card) (r : Option ℕ)
    → c.current_tlabel < 64
    → Search c.tlabel_mask c.current_tlabel r
    → Allocated c (take_label c r)
Allocated-Search c none h s = λ l fits.
    subst (λ t. test_bit c.tlabel_mask t ≡ 1) (omega arith)
      (s ((l + 64 - c.current_tlabel) % 64) (omega arith))
Allocated-Search c (some l) h (d, d_lt, at, free, before) =
    (d, d_lt, at, free, before, λ m. marked c.tlabel_mask l m (omega arith), next_label l, refl)

-- From any card whose current label is below 64, `allocate_tlabel` takes the first label that is
-- free, counted round from the current one, marks its bit and no other, and moves on by one; it
-- fails exactly where all 64 labels are in use.
pub allocate_tlabel-Allocated : (c : Card) → c.current_tlabel < 64 → Allocated c (allocate_tlabel c)
unfolding allocate_tlabel
allocate_tlabel-Allocated c h =
    Allocated-Search c (find_tlabel 64 c.tlabel_mask c.current_tlabel c.current_tlabel) h (
      find_tlabel-Search 64 0 c.tlabel_mask c.current_tlabel c.current_tlabel refl h (omega arith)
        (omega arith) (λ i z. absurd (omega arith)))

-- The bits after a label is given back.
pub cleared :
    (mask l m : ℕ)
    → l < 64
    → m < 64
    → test_bit (bit_and mask (not64 (bit64 l))) m ≡ (if m == l then 0 else test_bit mask m)
cleared mask l m h h' = elim (ℕ_discrete l m) [
  | yes e ↦
      rw
        (
          bit64_lem l h,
          test_bit-bit_and m mask (not64 (2 ^ l)),
          test_bit-complement 64 m (2 ^ l) h' (pow_lt l h),
          ← e,
          test_bit-pow_self l,
        )
        (ground arith)
  | no ne ↦
      rw
        (
          bit64_lem l h,
          test_bit-bit_and m mask (not64 (2 ^ l)),
          test_bit-complement 64 m (2 ^ l) h' (pow_lt l h),
          test_bit-pow_ne l m ne,
        )
        (ground arith)
]
