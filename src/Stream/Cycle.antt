-- ===== src/Stream/Cycle.antt =====
-- Cycle counts of the 1394 OHCI, a three-bit second and a cycle, in sound/firewire/amdtp-stream.c.
use linux_firewire_dkms.Prelude.{
  ℕ, ◌+◌, ◌-◌, ◌*◌, ◌/◌, ◌%◌, ◌^◌, ◌≤◌, ◌<◌, ◌≡◌, ◌↔◌, ◌&&◌, bit_and, ltb, leb, ◌==◌, if◌then◌else◌,
  shr, u32, arith, bit_and_ones,
}

abbrev pub cycle_modulus : ℕ
cycle_modulus = 8 * 8000

unfoldable pub compute_ohci_iso_ctx_cycle_count : ℕ → ℕ
compute_ohci_iso_ctx_cycle_count tstamp =
    bit_and (shr tstamp 13) 0x07 * 8000 + bit_and tstamp 0x1fff

unfoldable pub compute_ohci_cycle_count : ℕ → ℕ
compute_ohci_cycle_count ctx_header_tstamp =
    compute_ohci_iso_ctx_cycle_count (bit_and ctx_header_tstamp 0x0000ffff)

unfoldable pub increment_ohci_cycle_count : (cycle addend : ℕ) → ℕ
increment_ohci_cycle_count cycle addend =
    let sum = u32 (cycle + addend) in if leb cycle_modulus sum then sum - cycle_modulus else sum

unfoldable pub decrement_ohci_cycle_count : (minuend subtrahend : ℕ) → ℕ
decrement_ohci_cycle_count minuend subtrahend =
    let from = if ltb minuend subtrahend then u32 (minuend + cycle_modulus) else minuend in
    u32 (from + 2 ^ 32 - subtrahend)

-- -1, 0 or 1.
pub data Order : Type 0 where
  before same after : Order

unfoldable pub compare_ohci_cycle_count : (lval rval : ℕ) → Order
compare_ohci_cycle_count lval rval =
    if lval == rval
    then same
    else if ltb lval rval && ltb (rval - lval) (cycle_modulus / 2)
    then before
    else after

unfoldable pub compute_ohci_it_cycle : (ctx_header_tstamp queue_size : ℕ) → ℕ
compute_ohci_it_cycle ctx_header_tstamp queue_size =
    increment_ohci_cycle_count (compute_ohci_cycle_count ctx_header_tstamp) queue_size

-- Counting up and down by less than eight seconds undo each other, and stay below eight seconds.
decrement-increment_ohci :
    (cycle addend : ℕ)
    → cycle < cycle_modulus
    → addend < cycle_modulus
    → let later = increment_ohci_cycle_count cycle addend in
      (later ≡ (cycle + addend) % cycle_modulus)
      × (decrement_ohci_cycle_count later addend ≡ cycle)
      × (decrement_ohci_cycle_count later cycle ≡ addend)
unfolding increment_ohci_cycle_count decrement_ohci_cycle_count
decrement-increment_ohci cycle addend h k = (ground arith, ground arith, ground arith)

low_bits : (t : ℕ) → bit_and t 0x0000ffff ≡ t % 2 ^ 16
low_bits t = bit_and_ones 16 t

-- A time stamp whose cycle is one of the 8000 of a second gives the place of that cycle in the
-- eight seconds; counting on by the queue size goes to the cycle that many places on.
compute_ohci_it_cycle_lem :
    (tstamp queue_size second cycle : ℕ)
    → tstamp % 2 ^ 16 ≡ second * 2 ^ 13 + cycle
    → second < 8
    → cycle < 8000
    → queue_size < cycle_modulus
    → compute_ohci_it_cycle tstamp queue_size ≡ (second * 8000 + cycle + queue_size) % cycle_modulus
unfolding compute_ohci_it_cycle compute_ohci_cycle_count compute_ohci_iso_ctx_cycle_count
    increment_ohci_cycle_count
compute_ohci_it_cycle_lem tstamp queue_size second cycle e h k q =
    rw
      (
        low_bits tstamp,
        e,
        bit_and_ones 13 (second * 2 ^ 13 + cycle),
        bit_and_ones 3 ((second * 2 ^ 13 + cycle) / 2 ^ 13),
      )
      (ground arith)

-- Of two counts below eight seconds, the greater is after the lesser; the lesser is before the
-- greater where they are less than four seconds apart, and else it is after it as well.
pub compare_ohci_lem :
    (lval rval : ℕ)
    → lval < rval
    → rval < cycle_modulus
    → (compare_ohci_cycle_count rval lval ≡ after)
      × ((compare_ohci_cycle_count lval rval ≡ before) ↔ (rval - lval < cycle_modulus / 2))
      × ((compare_ohci_cycle_count lval rval ≡ after) ↔ (cycle_modulus / 2 ≤ rval - lval))
unfolding compare_ohci_cycle_count
compare_ohci_lem lval rval h k = (
  ground arith,
  ((λ e. ground arith), λ e. ground arith),
  ((λ e. ground arith), λ e. ground arith),
)
