-- ===== src/Stream/Sequence/Offset.antt =====
-- The presentation times of a stream at a multiple of 44100 Hz.
use linux_firewire_dkms.Prelude.{
  ℕ, zero, suc, ◌+◌, ◌*◌, ◌/◌, ◌%◌, ◌<◌, ◌≡◌, refl, Bool, true, ◌&&◌, ◌==◌, arith, all_below,
  all_below-at,
}
use linux_firewire_dkms.Stream.Sequence.{phase_ticks, next_phase}

-- What is added to the time over the next steps, from a phase on.
abbrev pub ticks_from : (phase steps : ℕ) → ℕ
ticks_from phase zero = 0
ticks_from phase (suc n) = phase_ticks phase + ticks_from (next_phase phase) n

-- The exact difference of two presentation times of 44100 Hz, in ticks modulo a cycle, is
-- 203776 / 147, about 1386.23. The multiples of it, rounded.
abbrev pub rounded : ℕ → ℕ
rounded n = (2 * n * 203776 + 147) / (2 * 147)

-- The steps since the phase 67, at which a stream starts.
abbrev since : ℕ → ℕ
since phase = (phase + 80) % 147

abbrev passes : ℕ → Bool
passes phase =
    (phase_ticks phase + rounded (since phase) == rounded (since phase + 1))
    && (since (next_phase phase) == (since phase + 1) % 147)

all_pass : all_below 147 passes ≡ true
unfolding phase_ticks
all_pass = refl

step :
    (phase : ℕ)
    → phase < 147
    → (phase_ticks phase + rounded (since phase) ≡ rounded (since phase + 1))
      × (since (next_phase phase) ≡ (since phase + 1) % 147)
      × (next_phase phase < 147)
step phase h =
    let e = all_below-at 147 passes all_pass phase h in (ground arith, ground arith, ground arith)

split_ticks :
    (phase n : ℕ)
    → phase < 147
    → ticks_from phase n + rounded (since phase) ≡ rounded (since phase + n)
split_ticks phase zero h = omega arith
split_ticks phase (suc n) h =
    let (add, on, low) = step phase h in
    let rest = split_ticks (next_phase phase) n low in ground arith

-- From the phase at which a stream starts, the ticks that are added to the presentation time
-- over any number of steps are the exact sum rounded to a tick: the error never accumulates.
pub ticks_from-rounded : (steps : ℕ) → ticks_from 67 steps ≡ rounded steps
ticks_from-rounded steps = omega (arith, split_ticks 67 steps (omega arith))
