-- ===== src/Stream/Replay.antt =====
-- The cache of received sequences, the choice between it and the ideal sequence, and the pointers of
-- the PCM buffer, in sound/firewire/amdtp-stream.c.
use linux_firewire_dkms.Prelude.{
  ℕ, zero, suc, ◌+◌, ◌-◌, ◌/◌, ◌%◌, Bool, true, false, not, ◌&&◌, ◌||◌, List, [], ◌∷◌, ltb, leb,
  ◌!=◌, if◌then◌else◌, get_or, set, u32,
}
use linux_firewire_dkms.Stream.Sequence.{
  SeqDesc, no_desc, syt_no_info, compute_syt_offset, calculate_cached_cycle_count, SytState,
  pool_ideal_syt_offsets, pool_blocking_data_blocks, pool_ideal_nonblocking_data_blocks,
}

-- What `cache_seq` reads of a `struct pkt_desc`.
pub record PktDesc : Type 0 where
  pub cycle : ℕ
  pub syt : ℕ
  pub data_blocks : ℕ

-- The descriptors to cache, in their order; the result has the position after them.
unfoldable pub cache_seq :
    (aware_syt : Bool) (transfer_delay cache_size : ℕ)
    → List PktDesc
    → List SeqDesc
    → (cache_pos : ℕ) → ℕ × List SeqDesc
cache_seq aware_syt transfer_delay cache_size [] cache cache_pos = (cache_pos, cache)
cache_seq aware_syt transfer_delay cache_size (src ∷ rest) cache cache_pos =
    let offset =
      if aware_syt && src.syt != syt_no_info
      then compute_syt_offset src.syt src.cycle transfer_delay
      else syt_no_info in
    cache_seq aware_syt transfer_delay cache_size rest
      (set cache cache_pos (record { syt_offset = offset; data_blocks = src.data_blocks }))
      ((cache_pos + 1) % cache_size)

-- The result has the position in the cache after the copies.
unfoldable pub pool_replayed_seq :
    (cache : List SeqDesc) (cache_size cache_pos : ℕ)
    → List SeqDesc
    → (size pos count : ℕ) → ℕ × List SeqDesc
pool_replayed_seq cache cache_size cache_pos descs size pos zero = (cache_pos, descs)
pool_replayed_seq cache cache_size cache_pos descs size pos (suc count) =
    pool_replayed_seq cache cache_size ((cache_pos + 1) % cache_size)
      (set descs pos (get_or cache cache_pos no_desc)) size ((pos + 1) % size) count

-- What a receiver keeps of the ideal sequence.
pub record Ideal : Type 0 where
  pub sfc : ℕ
  pub syt_interval : ℕ
  pub blocking : Bool
  pub syt_state : SytState
  pub data_block_state : ℕ

unfoldable pub pool_ideal_seq_descs :
    Ideal → List SeqDesc → (size pos count : ℕ) → Ideal × List SeqDesc
pool_ideal_seq_descs s descs size pos count =
    let (syt_state, timed) = pool_ideal_syt_offsets s.sfc s.syt_state descs size pos count in
    let (state, filled) =
      pool_ideal_nonblocking_data_blocks s.sfc s.data_block_state timed size pos count in
    if s.blocking
    then (
      record s { syt_state = syt_state },
      pool_blocking_data_blocks s.syt_interval timed size pos count,
    )
    else (record s { syt_state = syt_state; data_block_state = state }, filled)

-- Whether `pool_seq_descs` takes the cached sequence of the stream that is replayed, if there is
-- one.
unfoldable pub is_replayed :
    (enable has_target on_the_fly : Bool) (target_size target_pos cache_pos count : ℕ) → Bool
is_replayed enable has_target on_the_fly target_size target_pos cache_pos count =
    let cached = calculate_cached_cycle_count target_size target_pos cache_pos in
    if not enable || not has_target
    then false
    else if on_the_fly
    then ltb count cached && ltb (target_size / 2) cached
    else true

-- `pcm_buffer_pointer`, `pcm_period_pointer`, and whether a period has elapsed.
unfoldable pub update_pcm_pointers :
    (buffer_size period_size buffer_pointer period_pointer frames : ℕ) → ℕ × ℕ × Bool
update_pcm_pointers buffer_size period_size buffer_pointer period_pointer frames =
    let ptr = u32 (buffer_pointer + frames) in
    let period = u32 (period_pointer + frames) in
    (
      if leb buffer_size ptr then ptr - buffer_size else ptr,
      if leb period_size period then period - period_size else period,
      leb period_size period,
    )
