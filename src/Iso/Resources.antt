-- ===== src/Iso/Resources.antt =====
-- sound/firewire/iso-resources.c: a channel and bandwidth held across bus resets.
pub mod Laws
use linux_firewire_dkms.Prelude.{
  ℕ, zero, suc, ◌+◌, ◌-◌, ◌*◌, ◌/◌, ◌^◌, Bool, true, false, ltb, leb, if◌then◌else◌, u32,
}
use linux_firewire_dkms.Iso.Manage.{Errno, Outcome, done, error}

pub record Resources : Type 0 where
  pub channels_mask : ℕ
  pub has_unit : Bool
  pub generation : ℕ
  pub channel : ℕ
  pub bandwidth : ℕ
  pub bandwidth_overhead : ℕ
  pub allocated : Bool

-- `-EBADFD`, `-ERESTARTSYS` or what the bus resources give. `exhausted` stands for the fuel of
-- the loop: in C it goes on as long as a bus reset comes between.
pub data Result : Type 0 where
  ok : (channel : ℕ) → Result
  bad_state interrupted exhausted : Result
  failed : Errno → Result

abbrev pub scode_400 : ℕ
scode_400 = 2

abbrev align_4 : ℕ → ℕ
align_4 x = u32 (x + 3) / 4 * 4

unfoldable pub packet_bandwidth : ℕ → ℕ → ℕ
packet_bandwidth max_payload_bytes speed =
    let bytes = u32 (3 * 4 + align_4 max_payload_bytes) in
    if leb speed scode_400
    then u32 (bytes * 2 ^ (scode_400 - speed))
    else u32 (bytes + 2 ^ (speed - scode_400) - 1) / 2 ^ (speed - scode_400)

unfoldable pub current_bandwidth_overhead : ℕ → ℕ
current_bandwidth_overhead gap_count = if ltb gap_count 63 then gap_count * 97 / 10 + 89 else 512

unfoldable pub init : Resources → Resources
init r = record r { channels_mask = 2 ^ 64 - 1; has_unit = true; allocated = false }

-- What the functions use of the rest of the kernel, over a state `S`: the card's generation and
-- gap count at the time, the wait after a bus reset (false where it was interrupted), and
-- `fw_iso_resource_manage`.
pub record Bus (S : Type 0) : Type 0 where
  pub generation_now : S → ℕ
  pub gap_count_now : S → ℕ
  pub wait_after_reset : S → Bool × S
  pub manage : (allocate : Bool) (channels_mask bandwidth : ℕ) → S → Outcome × ℕ × S

module _ {S : Type 0} (bus : Bus S) where
  -- The locked section that reads the generation and the gap count.
  abbrev pub refresh : Resources → S → Resources
  refresh r s = record r {
    generation = bus.generation_now s;
    bandwidth_overhead = current_bandwidth_overhead (bus.gap_count_now s);
  }

  abbrev pub total : Resources → ℕ
  total r = r.bandwidth + r.bandwidth_overhead

  -- What `fw_iso_resources_allocate` does with the outcome; `retry` is the jump back.
  unfoldable pub allocated_or_retry :
      Resources → (retry : S → Result × Resources × S) → Outcome × ℕ × S → Result × Resources × S
  allocated_or_retry r retry (done channel, _, s) =
      (ok channel, record r { channel = channel; allocated = true }, s)
  allocated_or_retry r retry (error Errno.eagain, _, s) = retry s
  allocated_or_retry r retry (error e, _, s) = (failed e, r, s)

  unfoldable pub after_wait :
      Resources → (retry : S → Result × Resources × S) → Bool × S → Result × Resources × S
  after_wait r retry (false, s) = (interrupted, r, s)
  after_wait r retry (true, s) =
      allocated_or_retry r retry (bus.manage true r.channels_mask (total r) s)

  -- From the label `retry_after_bus_reset`.
  unfoldable pub allocate_loop : ℕ → Resources → S → Result × Resources × S
  allocate_loop zero r s = (exhausted, r, s)
  allocate_loop (suc fuel) r s =
      let r' = refresh r s in after_wait r' (allocate_loop fuel r') (bus.wait_after_reset s)

  unfoldable pub allocate :
      ℕ → Resources → (max_payload_bytes speed : ℕ) → S → Result × Resources × S
  allocate fuel r max_payload_bytes speed s =
      if r.allocated
      then (bad_state, r, s)
      else allocate_loop fuel (record r { bandwidth = packet_bandwidth max_payload_bytes speed }) s

  -- After another bus reset the allocation is kept for the next update, and -EAGAIN is returned.
  unfoldable pub updated : Resources → Outcome × ℕ × S → Result × Resources × S
  updated r (done channel, _, s) = (ok channel, r, s)
  updated r (error Errno.eagain, _, s) = (failed Errno.eagain, r, s)
  updated r (error e, _, s) = (failed e, record r { allocated = false }, s)

  unfoldable pub update : Resources → S → Result × Resources × S
  update r s =
      if r.allocated
      then (let r' = refresh r s in updated r' (bus.manage true (2 ^ r.channel) (total r') s))
      else (ok 0, r, s)

  unfoldable pub free : Resources → S → Resources × S
  free r s =
      if r.has_unit
      then (if r.allocated
          then (record r { allocated = false }, (bus.manage false (2 ^ r.channel) (total r) s).2)
          else (r, s))
      else (r, s)
