-- ===== src/Stream/Sequence.antt =====
-- The sequence of data blocks and of presentation times, in sound/firewire/amdtp-stream.c.
-- `enum cip_sfc` is its number.
pub mod Rate
pub mod Offset
use linux_firewire_dkms.Prelude.{
  ℕ, zero, suc, ◌+◌, ◌-◌, ◌*◌, ◌/◌, ◌%◌, ◌^◌, Bool, true, false, ◌&&◌, ◌||◌, not, List, bit_and,
  bit_xor, ltb, leb, ◌==◌, ◌!=◌, if◌then◌else◌, of_bool, get_or, set, shr, u32,
}

abbrev pub ticks_per_cycle : ℕ
ticks_per_cycle = 3072

abbrev pub syt_no_info : ℕ
syt_no_info = 0xffff

abbrev pub sfc_44100 : ℕ
sfc_44100 = 1

-- `struct seq_desc`
pub record SeqDesc : Type 0 where
  pub syt_offset : ℕ
  pub data_blocks : ℕ

abbrev pub no_desc : SeqDesc
no_desc = record { syt_offset = 0; data_blocks = 0 }

abbrev pub is_base_44100 : ℕ → Bool
is_base_44100 sfc = bit_and sfc 1 != 0

-- The number of phases.
abbrev pub phases : ℕ → ℕ
phases sfc = shr 80 (shr sfc 1)

-- The body of the loop of `pool_ideal_nonblocking_data_blocks`: the data blocks of a packet, and
-- the state after it.
unfoldable pub ideal_data_blocks : ℕ → ℕ → ℕ × ℕ
ideal_data_blocks sfc state =
    if is_base_44100 sfc
    then (
      if sfc == sfc_44100
          then 5 + bit_xor (bit_and state 1) (of_bool (state == 0 || leb 40 state))
          else 11 * shr sfc 1 + of_bool (state == 0),
      if leb (phases sfc) (state + 1) then 0 else state + 1,
    )
    else (state, state)

-- The loop: descriptors from `pos` on, round the ring. The result has the last state.
unfoldable pub pool_ideal_nonblocking_data_blocks :
    (sfc state : ℕ) → List SeqDesc → (size pos count : ℕ) → ℕ × List SeqDesc
pool_ideal_nonblocking_data_blocks sfc state descs size pos zero = (state, descs)
pool_ideal_nonblocking_data_blocks sfc state descs size pos (suc count) =
    let (blocks, next) = ideal_data_blocks sfc state in
    pool_ideal_nonblocking_data_blocks sfc next
      (set descs pos (record (get_or descs pos no_desc) { data_blocks = blocks })) size
      ((pos + 1) % size) count

unfoldable pub pool_blocking_data_blocks :
    (syt_interval : ℕ) → List SeqDesc → (size pos count : ℕ) → List SeqDesc
pool_blocking_data_blocks syt_interval descs size pos zero = descs
pool_blocking_data_blocks syt_interval descs size pos (suc count) =
    let desc = get_or descs pos no_desc in
    let blocks = if desc.syt_offset != syt_no_info then syt_interval else 0 in
    pool_blocking_data_blocks syt_interval (set descs pos (record desc { data_blocks = blocks }))
      size ((pos + 1) % size) count

-- What is added to the time at a phase of the rates based on 44100 Hz.
unfoldable pub phase_ticks : ℕ → ℕ
phase_ticks phase =
    let index = phase % 13 in 1386 + of_bool ((index != 0 && bit_and index 3 == 0) || phase == 146)

abbrev pub next_phase : ℕ → ℕ
next_phase phase = if leb 147 (phase + 1) then 0 else phase + 1

-- `last_syt_offset` and `syt_offset_state` of a receiver.
pub record SytState : Type 0 where
  pub last : ℕ
  pub state : ℕ

abbrev pub visible : ℕ → ℕ
visible syt_offset = if leb ticks_per_cycle syt_offset then syt_no_info else syt_offset

-- The offset, and the state after it.
unfoldable pub calculate_syt_offset : ℕ → SytState → ℕ × SytState
calculate_syt_offset sfc s =
    let next =
      if ltb s.last ticks_per_cycle
      then (if is_base_44100 sfc
          then record { last = s.last + phase_ticks s.state; state = next_phase s.state }
          else record s { last = s.last + s.state })
      else record s { last = s.last - ticks_per_cycle } in
    (visible next.last, next)

unfoldable pub pool_ideal_syt_offsets :
    ℕ → SytState → List SeqDesc → (size pos count : ℕ) → SytState × List SeqDesc
pool_ideal_syt_offsets sfc s descs size pos zero = (s, descs)
pool_ideal_syt_offsets sfc s descs size pos (suc count) =
    let (offset, s') = calculate_syt_offset sfc s in
    pool_ideal_syt_offsets sfc s'
      (set descs pos (record (get_or descs pos no_desc) { syt_offset = offset })) size
      ((pos + 1) % size) count

unfoldable pub compute_syt_offset : (syt cycle transfer_delay : ℕ) → ℕ
compute_syt_offset syt cycle transfer_delay =
    let cycle_lo = bit_and (cycle % 8000) 0x0f in
    let syt_cycle_lo = shr (bit_and syt 0xf000) 12 in
    let ahead =
      (if ltb syt_cycle_lo cycle_lo then syt_cycle_lo + 16 else syt_cycle_lo) - cycle_lo in
    let offset = ahead * ticks_per_cycle + bit_and syt 0x0fff in
    let shifted = if ltb offset transfer_delay then offset + 16 * ticks_per_cycle else offset in
    u32 (shifted + 2 ^ 32 - transfer_delay)

unfoldable pub calculate_cached_cycle_count : (cache_size cache_pos head : ℕ) → ℕ
calculate_cached_cycle_count cache_size cache_pos head =
    u32 ((if ltb cache_pos head then u32 (cache_pos + cache_size) else cache_pos) + 2 ^ 32 - head)
