-- ===== src/Iso/Resources/Laws.antt =====
-- When the resources count as allocated, and how much bandwidth a packet takes.
use linux_firewire_dkms.Prelude.{
  ℕ, zero, suc, ◌+◌, ◌-◌, ◌*◌, ◌/◌, ◌^◌, ◌≤◌, ◌<◌, ◌≡◌, refl, arith, Bool, true, false, if_of_true,
  if_of_false,
}
use linux_firewire_dkms.Iso.Manage.{Errno, Outcome, done, error}
use linux_firewire_dkms.Iso.Resources.{
  Resources, Result, Bus, total, ok, failed, refresh, allocated_or_retry, after_wait, allocate_loop,
  allocate, updated, update, packet_bandwidth,
}

-- Marked as allocated, with the channel that is returned, after a success, and not after anything
-- else.
abbrev pub MarkedIffOk : Result → Resources → Type 0
MarkedIffOk (ok channel) r = (r.allocated ≡ true) × (r.channel ≡ channel)
MarkedIffOk _ r = r.allocated ≡ false

-- Still marked after a success or another bus reset, and not after any other error.
abbrev pub KeptIffCurrent : Resources → Result → Resources → Type 0
KeptIffCurrent old (ok channel) r = (r.allocated ≡ true) × (r.channel ≡ old.channel)
KeptIffCurrent old (failed Errno.eagain) r = (r.allocated ≡ true) × (r.channel ≡ old.channel)
KeptIffCurrent old _ r = r.allocated ≡ false

module _ {S : Type 0} (bus : Bus S) where
  allocated_or_retry-MarkedIffOk :
      (r : Resources) (retry : S → Result × Resources × S) (o : Outcome × ℕ × S)
      → r.allocated ≡ false
      → ((s : S) → MarkedIffOk (retry s).0 (retry s).1)
      → let t = allocated_or_retry bus r retry o in MarkedIffOk t.0 t.1
  unfolding allocated_or_retry
  allocated_or_retry-MarkedIffOk r retry (done channel, b, s) h k = (refl, refl)
  allocated_or_retry-MarkedIffOk r retry (error Errno.eagain, b, s) h k = k s
  allocated_or_retry-MarkedIffOk r retry (error e, b, s) h k = h

  after_wait-MarkedIffOk :
      (r : Resources) (retry : S → Result × Resources × S) (w : Bool × S)
      → r.allocated ≡ false
      → ((s : S) → MarkedIffOk (retry s).0 (retry s).1)
      → let t = after_wait bus r retry w in MarkedIffOk t.0 t.1
  unfolding after_wait
  after_wait-MarkedIffOk r retry (false, s) h k = h
  after_wait-MarkedIffOk r retry (true, s) h k = allocated_or_retry-MarkedIffOk r retry _ h k

  loop-MarkedIffOk :
      (fuel : ℕ) (r : Resources) (s : S)
      → r.allocated ≡ false
      → let t = allocate_loop bus fuel r s in MarkedIffOk t.0 t.1
  unfolding allocate_loop
  loop-MarkedIffOk zero r s h = h
  loop-MarkedIffOk (suc fuel) r s h =
      after_wait-MarkedIffOk (refresh bus r s) (allocate_loop bus fuel (refresh bus r s)) _ h
        (λ s'. loop-MarkedIffOk fuel (refresh bus r s) s' h)

  -- Resources that are not allocated come out of `fw_iso_resources_allocate` as allocated, on the
  -- channel that is returned, exactly where it succeeds, whatever number of bus resets come between.
  pub allocate-MarkedIffOk :
      (fuel : ℕ) (r : Resources) (max_payload_bytes speed : ℕ) (s : S)
      → r.allocated ≡ false
      → let t = allocate bus fuel r max_payload_bytes speed s in MarkedIffOk t.0 t.1
  unfolding allocate
  allocate-MarkedIffOk fuel r n speed s h =
      rw (if_of_false _ _ h)
        (loop-MarkedIffOk fuel (record r { bandwidth = packet_bandwidth n speed }) s h)

  updated-Kept :
      (old r : Resources) (o : Outcome × ℕ × S)
      → r.allocated ≡ true
      → r.channel ≡ old.channel
      → let t = updated bus r o in KeptIffCurrent old t.0 t.1
  unfolding updated
  updated-Kept old r (done c, b, s) h e = (h, e)
  updated-Kept old r (error Errno.eagain, b, s) h e = (h, e)
  updated-Kept old r (error Errno.einval, b, s) h e = refl
  updated-Kept old r (error Errno.ebusy, b, s) h e = refl
  updated-Kept old r (error Errno.eio, b, s) h e = refl

  -- An update keeps the allocation and its channel where it succeeds or meets another bus reset,
  -- and drops it on any other error.
  pub update-KeptIffCurrent :
      (r : Resources) (s : S)
      → r.allocated ≡ true
      → let t = update bus r s in KeptIffCurrent r t.0 t.1
  unfolding update
  update-KeptIffCurrent r s h = rw (if_of_true _ _ h) (
      updated-Kept r (refresh bus r s)
        (bus.manage true (2 ^ r.channel) (total bus (refresh bus r s)) s) h refl)

-- The bandwidth units of a packet, at speeds up to S3200 and with a payload of at most 2 ^ 30 - 16
-- bytes, for which nothing wraps around in 32 bits: 3 header quadlets and the payload in whole
-- quadlets, in bytes at S400, rounded up to a whole unit and by less than one.
pub packet_bandwidth_lem :
    (max_payload_bytes speed : ℕ)
    → max_payload_bytes ≤ 2 ^ 30 - 16
    → speed ≤ 5
    → let bytes = 12 + (max_payload_bytes + 3) / 4 * 4 in
      let units = packet_bandwidth max_payload_bytes speed in
      (bytes * 4 ≤ units * 2 ^ speed) × (units * 2 ^ speed < bytes * 4 + 2 ^ speed)
unfolding packet_bandwidth
packet_bandwidth_lem n zero fits h = ground arith
packet_bandwidth_lem n (suc zero) fits h = ground arith
packet_bandwidth_lem n (suc (suc zero)) fits h = ground arith
packet_bandwidth_lem n (suc (suc (suc zero))) fits h = ground arith
packet_bandwidth_lem n (suc (suc (suc (suc zero)))) fits h = ground arith
packet_bandwidth_lem n (suc (suc (suc (suc (suc zero))))) fits h = ground arith
packet_bandwidth_lem n (suc (suc (suc (suc (suc (suc k)))))) fits h = absurd (omega arith)
