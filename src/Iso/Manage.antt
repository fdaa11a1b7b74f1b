-- ===== src/Iso/Manage.antt =====
-- `manage_bandwidth`, `manage_channel`, `deallocate_channel` and `fw_iso_resource_manage`.
-- A register value is kept in CPU order: `cpu_to_be32` commutes with `&`, `^` and `==`.
use linux_firewire_dkms.Prelude.{
  ℕ, zero, suc, ◌+◌, ◌-◌, ◌/◌, ◌^◌, Bool, true, false, ◌&&◌, Option, none, some, bit_and, bit_xor,
  ltb, leb, ◌==◌, ◌!=◌, if◌then◌else◌, u32,
}

pub data Errno : Type 0 where
  einval eagain ebusy eio : Errno

-- An `int` that is a value or a negative error code.
pub data Outcome : Type 0 where
  done : (value : ℕ) → Outcome
  error : Errno → Outcome

-- What `fw_run_transaction` reports of a compare-swap: RCODE_COMPLETE with the old value in
-- `data[0]`, RCODE_GENERATION, or another rcode.
pub data Reply : Type 0 where
  complete : (old : ℕ) → Reply
  generation failed : Reply

abbrev pub bandwidth_available_initial : ℕ
bandwidth_available_initial = 4915

abbrev pub csr_bandwidth_available : ℕ
csr_bandwidth_available = 0xfffff0000000 + 0x220

abbrev pub csr_channels_available_hi : ℕ
csr_channels_available_hi = 0xfffff0000000 + 0x224

abbrev pub csr_channels_available_lo : ℕ
csr_channels_available_lo = 0xfffff0000000 + 0x228

abbrev in_limits : ℕ → Option ℕ
in_limits new = if ltb bandwidth_available_initial new then none else some new

-- `new`, or `none` where it is negative or above the limit. `old` is the bit pattern of an `int`,
-- which is negative from 2 ^ 31 on.
unfoldable pub new_bandwidth : Bool → ℕ → ℕ → Option ℕ
new_bandwidth true bandwidth old =
    if leb (2 ^ 31) old
    then none
    else if ltb old bandwidth
    then none
    else in_limits (old - bandwidth)
new_bandwidth false bandwidth old =
    if leb (2 ^ 31) old
    then if ltb (old + bandwidth) (2 ^ 32) then none else in_limits (old + bandwidth - 2 ^ 32)
    else in_limits (old + bandwidth)

-- What a channel of the mask comes to in one round of the loop.
pub data Round : Type 0 where
  unwanted taken : Round
  finished : Outcome → Round
  lost again : (old : ℕ) → Round

abbrev pub is_error : Outcome → Bool
is_error (done value) = false
is_error (error e) = true

-- What the reply to a compare-swap says of the channel.
unfoldable pub judge : Bool → ℕ → ℕ → ℕ → ℕ → Reply → Round
judge allocate channel bit old new Reply.generation =
    finished (if allocate then error Errno.eagain else done channel)
judge allocate channel bit old new (Reply.complete seen) =
    if seen == old
    then finished (done channel)
    else if bit_and seen bit == bit_and new bit
    then lost seen
    else again seen
judge allocate channel bit old new Reply.failed = again old

abbrev pub add_32 : Outcome → Outcome
add_32 (done c) = done (c + 32)
add_32 (error e) = error e

-- `lock offset old new` is the compare-swap transaction to the resource manager at that offset.
module _ {S : Type 0} (lock : ℕ → ℕ → ℕ → S → Reply × S) where
  -- The loop, with the tries that are left.
  unfoldable pub bandwidth_loop : Bool → ℕ → ℕ → ℕ → S → Outcome × S
  bandwidth_loop allocate bandwidth zero old s = (error Errno.eio, s)
  bandwidth_loop allocate bandwidth (suc tries) old s =
      elim (new_bandwidth allocate bandwidth old) [
        | none ↦ (error Errno.ebusy, s)
        | some new ↦
            let (reply, s') = lock csr_bandwidth_available old new s in
            elim reply [
              | Reply.generation ↦ (if allocate then error Errno.eagain else done bandwidth, s')
              | Reply.complete seen ↦ elim (seen == old) [
                | true ↦ (done bandwidth, s')
                | false ↦ bandwidth_loop allocate bandwidth tries seen s'
              ]
              | Reply.failed ↦ bandwidth_loop allocate bandwidth tries old s'
            ]
      ]

  unfoldable pub manage_bandwidth : Bool → ℕ → S → Outcome × S
  manage_bandwidth allocate bandwidth s =
      bandwidth_loop allocate bandwidth 5 (if allocate then bandwidth_available_initial else 0) s

  unfoldable pub channel_round : Bool → ℕ → ℕ → ℕ → ℕ → S → Round × S
  channel_round allocate mask offset channel old s =
      let all = if allocate then 0xffffffff else 0 in
      let bit = 2 ^ (31 - channel) in
      if bit_and mask (2 ^ channel) == 0
      then (unwanted, s)
      else if bit_and old bit != bit_and all bit
      then (taken, s)
      else (let (reply, s') = lock offset old (bit_xor old bit) s in
          (judge allocate channel bit old (bit_xor old bit) reply, s'))

  -- What the loop does after a round: `next` goes on with the channel behind, `retry` is for a
  -- round that neither swapped nor lost.
  unfoldable pub resume :
      (next : ℕ → Errno → S → Outcome × S) (retry : ℕ → S → Outcome × S) (old : ℕ)
      → Errno
      → Round × S
      → Outcome × S
  resume next retry old ret (unwanted, s) = next old ret s
  resume next retry old ret (taken, s) = next old Errno.ebusy s
  resume next retry old ret (finished o, s) = (o, s)
  resume next retry old ret (lost seen, s) = next seen Errno.ebusy s
  resume next retry old ret (again seen, s) = retry seen s

  -- The loop, with the channels left, the one at hand included, and the retries left. A retry
  -- decrements `channel` before the loop increments it.
  unfoldable pub channel_loop : Bool → ℕ → ℕ → ℕ → ℕ → ℕ → Errno → S → Outcome × S
  channel_loop allocate mask offset zero retry old ret s = (error ret, s)
  channel_loop allocate mask offset (suc left) zero old ret s =
      resume (channel_loop allocate mask offset left zero)
        (λ seen. channel_loop allocate mask offset left zero seen Errno.eio) old ret
        (channel_round allocate mask offset (31 - left) old s)
  channel_loop allocate mask offset (suc left) (suc retry) old ret s =
      resume (channel_loop allocate mask offset left (suc retry))
        (λ seen. channel_loop allocate mask offset (suc left) retry seen Errno.ebusy) old ret
        (channel_round allocate mask offset (31 - left) old s)

  unfoldable pub manage_channel : Bool → ℕ → ℕ → S → Outcome × S
  manage_channel allocate mask offset s =
      channel_loop allocate mask offset 32 5 (if allocate then 0xffffffff else 0) Errno.eio s

  unfoldable pub deallocate_channel : ℕ → S → S
  deallocate_channel channel s =
      let mask = if ltb channel 32 then 2 ^ channel else 2 ^ (channel - 32) in
      let offset =
        if ltb channel 32 then csr_channels_available_hi else csr_channels_available_lo in
      (manage_channel false mask offset s).1

  -- Channels 63 to 32, where the others gave none.
  unfoldable pub high_part : Bool → ℕ → Outcome → S → Outcome × S
  high_part allocate channels_lo c s =
      if channels_lo != 0 && is_error c
      then (let (c', s') = manage_channel allocate channels_lo csr_channels_available_lo s in
          (add_32 c', s'))
      else (c, s)

  unfoldable pub channel_of_mask : Bool → ℕ → S → Outcome × S
  channel_of_mask allocate channels_mask s =
      let hi = u32 channels_mask in
      let (c, s') =
        if hi != 0
        then manage_channel allocate hi csr_channels_available_hi s
        else (error Errno.einval, s) in
      high_part allocate (channels_mask / 2 ^ 32) c s'

  -- The end of `fw_iso_resource_manage`, with the outcome for the bandwidth.
  unfoldable pub settle : Bool → Outcome → ℕ → Outcome × S → Outcome × ℕ × S
  settle allocate c bandwidth (done _, s) = (c, bandwidth, s)
  settle false c bandwidth (error e, s) = (c, 0, s)
  settle true (done channel) bandwidth (error e, s) = (error e, 0, deallocate_channel channel s)
  settle true (error _) bandwidth (error e, s) = (error e, 0, s)

  -- The outcome for the channel, the bandwidth, and the state.
  unfoldable pub resource_manage : Bool → ℕ → ℕ → S → Outcome × ℕ × S
  resource_manage allocate channels_mask bandwidth s =
      let (c, s') = channel_of_mask allocate channels_mask s in
      let wanted = if allocate && channels_mask != 0 && is_error c then 0 else bandwidth in
      if wanted == 0
      then (c, 0, s')
      else settle allocate c wanted (manage_bandwidth allocate wanted s')
