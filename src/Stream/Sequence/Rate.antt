-- ===== src/Stream/Sequence/Rate.antt =====
-- The number of data blocks that the packets of a stream at a multiple of 44100 Hz carry.
use linux_firewire_dkms.Prelude.{
  ℕ, zero, suc, ◌+◌, ◌-◌, ◌*◌, ◌/◌, ◌%◌, ◌<◌, ◌≡◌, refl, ap, Bool, true, ◌&&◌, ◌==◌, arith,
  all_below, all_below-at,
}
use linux_firewire_dkms.Stream.Sequence.{ideal_data_blocks}

-- The sampling frequency codes of 44100, 88200 and 176400 Hz.
pub data Base44100 : Type 0 where
  sfc_44100 sfc_88200 sfc_176400 : Base44100

abbrev pub code : Base44100 → ℕ
code sfc_44100 = 1
code sfc_88200 = 3
code sfc_176400 = 5

-- The packets in which 441 data blocks go out: 8000 packets a second.
abbrev pub period : Base44100 → ℕ
period sfc_44100 = 80
period sfc_88200 = 40
period sfc_176400 = 20

-- The data blocks of the next packets, from a state on.
abbrev pub total_from : (sfc state : ℕ) → (packets : ℕ) → ℕ
total_from sfc state zero = 0
total_from sfc state (suc n) =
    let (blocks, next) = ideal_data_blocks sfc state in blocks + total_from sfc next n

-- 441 data blocks in a period, rounded up after each packet.
abbrev pub rounded_up : Base44100 → ℕ → ℕ
rounded_up f n = (n * 441 + (period f - 1)) / period f

-- One packet, for each phase.
abbrev Step : Base44100 → ℕ → Type 0
Step f phase =
    ((ideal_data_blocks (code f) phase).0 + rounded_up f phase ≡ rounded_up f (phase + 1))
    × ((ideal_data_blocks (code f) phase).1 ≡ (phase + 1) % period f)

abbrev passes : Base44100 → ℕ → Bool
passes f phase =
    let (blocks, next) = ideal_data_blocks (code f) phase in
    (blocks + rounded_up f phase == rounded_up f (phase + 1)) && (next == (phase + 1) % period f)

all_pass : (f : Base44100) → all_below (period f) (passes f) ≡ true
unfolding ideal_data_blocks
all_pass sfc_44100 = refl
all_pass sfc_88200 = refl
all_pass sfc_176400 = refl

step : (f : Base44100) (phase : ℕ) → phase < period f → Step f phase
step f phase h =
    let e = all_below-at (period f) (passes f) (all_pass f) phase h in (ground arith, ground arith)

split_total :
    (f : Base44100) (phase n : ℕ)
    → phase < period f
    → total_from (code f) phase n + rounded_up f phase ≡ rounded_up f (phase + n)
split_total sfc_44100 phase zero h = omega arith
split_total sfc_88200 phase zero h = omega arith
split_total sfc_176400 phase zero h = omega arith
split_total sfc_44100 phase (suc n) h =
    let (add, on) = step sfc_44100 phase h in
    ground (
      arith,
      split_total sfc_44100 ((phase + 1) % 80) n (omega arith),
      ap (λ k. total_from 1 k n) on,
    )
split_total sfc_88200 phase (suc n) h =
    let (add, on) = step sfc_88200 phase h in
    ground (
      arith,
      split_total sfc_88200 ((phase + 1) % 40) n (omega arith),
      ap (λ k. total_from 3 k n) on,
    )
split_total sfc_176400 phase (suc n) h =
    let (add, on) = step sfc_176400 phase h in
    ground (
      arith,
      split_total sfc_176400 ((phase + 1) % 20) n (omega arith),
      ap (λ k. total_from 5 k n) on,
    )

-- From the first phase on, the packets of a stream at 44100, 88200 or 176400 Hz carry 441 data
-- blocks in 80, 40 or 20 packets, and after every number of packets that share rounded up: the
-- packets with one block more come as early as possible, and no drift is left after any time.
pub ideal_data_blocks-rounded_up :
    (f : Base44100) (packets : ℕ) → total_from (code f) 0 packets ≡ rounded_up f packets
ideal_data_blocks-rounded_up sfc_44100 n = omega (arith, split_total sfc_44100 0 n (omega arith))
ideal_data_blocks-rounded_up sfc_88200 n = omega (arith, split_total sfc_88200 0 n (omega arith))
ideal_data_blocks-rounded_up sfc_176400 n = omega (arith, split_total sfc_176400 0 n (omega arith))
