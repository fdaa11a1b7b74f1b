-- ===== src/Inbound/Timeout.antt =====
-- The split timeout of a card, in drivers/firewire/core-transaction.c.
use linux_firewire_dkms.Prelude.{
  ℕ, ◌+◌, ◌*◌, ◌/◌, ◌%◌, ◌^◌, ◌≤◌, ◌<◌, ◌≡◌, arith, bit_and, bit_or, not32, shl32, shr, u32, min,
  max, bit_and_ones, bit_and_outside, bit_or_field,
}

-- `split_timeout.cycles` for the two registers; the value in jiffies follows from it.
unfoldable pub update_split_timeout : (hi lo : ℕ) → ℕ
update_split_timeout hi lo = min (max (u32 (hi * 8000 + shr lo 19)) 800) (3 * 8000)

unfoldable pub compute_split_timeout_timestamp : (split_timeout_cycles request_timestamp : ℕ) → ℕ
compute_split_timeout_timestamp split_timeout_cycles request_timestamp =
    let cycles = u32 (split_timeout_cycles + bit_and request_timestamp 0x1fff) in
    bit_or (u32 (bit_and request_timestamp (not32 0x1fff) + shl32 (cycles / 8000) 13))
      (cycles % 8000)

timestamp_lem :
    (cycles second cycle : ℕ)
    → cycles ≤ 24000
    → cycle < 8000
    → second < 2 ^ 16
    → compute_split_timeout_timestamp cycles (second * 2 ^ 13 + cycle)
      ≡ (second + (cycles + cycle) / 8000) * 2 ^ 13 + (cycles + cycle) % 8000
unfolding compute_split_timeout_timestamp
timestamp_lem cycles second cycle h k m = ground (
  arith,
  bit_and_ones 13 (second * 2 ^ 13 + cycle),
  bit_and_outside 0 13 19 (second * 2 ^ 13 + cycle) (omega arith),
  bit_or_field 0 13 (second + (cycles + cycle) / 8000) ((cycles + cycle) % 8000) 0 (omega arith)
      (omega arith),
)

-- For any values of the two registers, the time stamp at which a request times out lies the cycles
-- of the split timeout after that of the request, and is again a second and one of its 8000
-- cycles; the split timeout has 800 cycles at least and three seconds at most.
pub compute_split_timeout_timestamp_lem :
    (hi lo second cycle : ℕ)
    → cycle < 8000
    → second < 2 ^ 16
    → let cycles = update_split_timeout hi lo in
      let timestamp = compute_split_timeout_timestamp cycles (second * 2 ^ 13 + cycle) in
      (timestamp / 2 ^ 13 * 8000 + timestamp % 2 ^ 13 ≡ second * 8000 + cycle + cycles)
      × (timestamp % 2 ^ 13 < 8000)
      × (800 ≤ cycles)
      × (cycles ≤ 24000)
unfolding update_split_timeout
compute_split_timeout_timestamp_lem hi lo second cycle h k =
    let e = timestamp_lem (update_split_timeout hi lo) second cycle (omega arith) h k in
    rw e (omega arith, omega arith, omega arith, omega arith)
