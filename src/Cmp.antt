-- ===== src/Cmp.antt =====
-- sound/firewire/cmp.c, the connections to the plugs of a device, and `snd_fw_transaction` of
-- sound/firewire/lib.c. A register value is kept in CPU order.
pub mod Registers
pub mod Quiet
use linux_firewire_dkms.Prelude.{
  ℕ, zero, suc, ◌+◌, ◌-◌, ◌*◌, ◌^◌, min, Bool, true, false, ◌&&◌, ◌||◌, Option, none, some, bit_and,
  bit_or, ltb, leb, ◌==◌, ◌!=◌, if◌then◌else◌, not32, shl32, shr, field_get,
}
use linux_firewire_dkms.Iso.Resources.{Bus, Resources, Result, init, allocate, update, free}
use linux_firewire_dkms.Iso.Manage

pub data Direction : Type 0 where
  input output : Direction

-- `struct cmp_connection`, less its mutex.
pub record Connection : Type 0 where
  pub speed : ℕ
  pub connected : Bool
  pub resources : Resources
  pub last_pcr_value : ℕ
  pub pcr_index : ℕ
  pub max_speed : ℕ
  pub direction : Direction

-- 0, the errors of this file, or those of the isochronous resources. `exhausted` stands for the
-- fuel of the loops: in C they go on as long as the register changes or a bus reset comes between.
pub data Status : Type 0 where
  success einval ebusy econnrefused eisconn eagain eio exhausted : Status
  resources_error : Result → Status

abbrev pub csr_register_base : ℕ
csr_register_base = 0xfffff0000000

abbrev pub rcode_complete : ℕ
rcode_complete = 0x0

abbrev pub rcode_generation : ℕ
rcode_generation = 0x13

abbrev pub is_permanent_error : ℕ → Bool
is_permanent_error rcode = rcode == 0x6 || rcode == 0x7

abbrev pub scode_400 : ℕ
scode_400 = 2

abbrev pub scode_800 : ℕ
scode_800 = 3

abbrev pub scode_beta : ℕ
scode_beta = 3

unfoldable pub mpr_address : Connection → ℕ
mpr_address c = elim c.direction [
  | input ↦ csr_register_base + 0x980
  | output ↦ csr_register_base + 0x900
]

unfoldable pub pcr_address : Connection → ℕ
pcr_address c = elim c.direction [
  | input ↦ csr_register_base + (0x984 + c.pcr_index * 4)
  | output ↦ csr_register_base + (0x904 + c.pcr_index * 4)
]

-- PCR_BCAST_CONN | PCR_P2P_CONN_MASK
abbrev pub pcr_conn_mask : ℕ
pcr_conn_mask = 0x40000000 + 0x3f000000

abbrev pub ipcr_set_mask : ℕ
ipcr_set_mask = pcr_conn_mask + 0x003f0000

abbrev pub opcr_set_mask : ℕ
opcr_set_mask = pcr_conn_mask + 0x00c00000 + 0x003f0000 + 0x0000c000 + 0x00003c00

unfoldable pub ipcr_set_modify : Connection → ℕ → ℕ
ipcr_set_modify c ipcr =
    bit_or (bit_or (bit_and ipcr (not32 ipcr_set_mask)) (2 ^ 24)) (shl32 c.resources.channel 16)

-- The loop, with the ids left.
unfoldable pub overhead_id_loop : ℕ → ℕ → ℕ
overhead_id_loop zero overhead = 0
overhead_id_loop (suc left) overhead =
    if ltb overhead ((15 - left) * 2 ^ 5) then 15 - left else overhead_id_loop left overhead

unfoldable pub get_overhead_id : Connection → ℕ
get_overhead_id c = overhead_id_loop 15 c.resources.bandwidth_overhead

unfoldable pub opcr_set_modify : Connection → ℕ → ℕ
opcr_set_modify c opcr =
    let spd = if ltb scode_400 c.speed then scode_800 else c.speed in
    let xspd = if ltb scode_400 c.speed then c.speed - scode_800 else 0 in
    bit_or
      (bit_or
        (bit_or (bit_or (bit_or (bit_and opcr (not32 opcr_set_mask)) (2 ^ 24)) (shl32 xspd 22))
          (shl32 c.resources.channel 16))
        (shl32 spd 14))
      (shl32 (get_overhead_id c) 10)

-- `none` is 0.
unfoldable pub pcr_set_check : ℕ → Option Status
pcr_set_check pcr =
    if bit_and pcr pcr_conn_mask != 0
    then some ebusy
    else if bit_and pcr 0x80000000 == 0
    then some econnrefused
    else none

unfoldable pub pcr_break_modify : Connection → ℕ → ℕ
pcr_break_modify c pcr = bit_and pcr (not32 pcr_conn_mask)

-- What these functions use of the unit and its parent device, over a state `S`: its generation and
-- speed, and one attempt of `fw_run_transaction` in a generation: the rcode, and the quadlet that
-- came back.
pub record Device (S : Type 0) : Type 0 where
  pub bus : Bus S
  pub generation : S → ℕ
  pub max_speed : ℕ
  pub read : (generation offset : ℕ) → S → ℕ × ℕ × S
  pub lock : (generation offset old new : ℕ) → S → ℕ × ℕ × S

-- What `snd_fw_transaction` returns: 0 with the quadlet, -EAGAIN or -EIO.
pub data Answer : Type 0 where
  answered : (value : ℕ) → Answer
  reset failed : Answer

module _ {S : Type 0} (device : Device S) where
  -- The loop, with the tries left. `fixed` is the generation of FW_FIXED_GENERATION.
  unfoldable pub transaction_loop :
      (run : ℕ → S → ℕ × ℕ × S) (fixed : Option ℕ) → ℕ → S → Answer × S
  transaction_loop run fixed zero s = (failed, s)
  transaction_loop run fixed (suc left) s =
      let (rcode, value, s') =
        run (elim fixed [ none ↦ device.generation s | some generation ↦ bit_and generation 0xff ])
          s in
      let rest = transaction_loop run fixed left s' in
      if rcode == rcode_complete
      then (answered value, s')
      else if rcode == rcode_generation && elim fixed [ none ↦ false | some _ ↦ true ]
      then (reset, s')
      else if is_permanent_error rcode || left == 0
      then (failed, s')
      else rest

  unfoldable pub snd_fw_transaction : (run : ℕ → S → ℕ × ℕ × S) (fixed : Option ℕ) → S → Answer × S
  snd_fw_transaction run fixed s = transaction_loop run fixed 3 s

  unfoldable pub modify_loop :
      (modify : Connection → ℕ → ℕ) (check : ℕ → Option Status) (succeed_on_bus_reset : Bool)
      → ℕ
      → Connection
      → (old : ℕ) → S
      → Status × Connection × S
  modify_loop modify check succeed zero c old s = (exhausted, c, s)
  modify_loop modify check succeed (suc fuel) c old s =
      let new = modify c old in
      let (answer, s') =
        snd_fw_transaction (λ g. device.lock g (pcr_address c) old new)
          (some c.resources.generation) s in
      elim answer [
        | reset ↦ (if succeed then success else eagain, c, s')
        | failed ↦ (eio, c, s')
        | answered seen ↦ elim (seen == old) [
          | true ↦ (success, record c { last_pcr_value = new }, s')
          | false ↦ elim (check seen) [
            | some e ↦ (e, c, s')
            | none ↦ modify_loop modify check succeed fuel c seen s'
          ]
        ]
      ]

  unfoldable pub pcr_modify :
      (modify : Connection → ℕ → ℕ) (check : ℕ → Option Status) (succeed_on_bus_reset : Bool)
      → ℕ
      → Connection
      → S
      → Status × Connection × S
  pcr_modify modify check succeed fuel c s =
      modify_loop modify check succeed fuel c c.last_pcr_value s

  -- `c` holds what lies in the memory before.
  unfoldable pub connection_init :
      Connection → Direction → (pcr_index : ℕ) → S → Status × Connection × S
  connection_init c direction pcr_index s =
      let d = record c { direction = direction } in
      let (answer, s') = snd_fw_transaction (λ g. device.read g (mpr_address d)) none s in
      elim answer [
        | reset ↦ (eagain, d, s')
        | failed ↦ (eio, d, s')
        | answered mpr ↦
            let code = field_get 0xc0000000 30 mpr in
            if leb (bit_and mpr 0x0000001f) pcr_index then (einval, d, s') else (
              success,
              record d {
                resources = init d.resources;
                connected = false;
                last_pcr_value = 0x80000000;
                pcr_index = pcr_index;
                max_speed = if code == scode_beta then code + field_get 0x00000060 5 mpr else code;
              },
              s',
            )
      ]

  -- The answer is whether the plug is used, where the register could be read.
  unfoldable pub connection_check_used : Connection → S → Status × Option Bool × S
  connection_check_used c s =
      let (answer, s') = snd_fw_transaction (λ g. device.read g (pcr_address c)) none s in
      elim answer [
        | reset ↦ (eagain, none, s')
        | failed ↦ (eio, none, s')
        | answered pcr ↦ (success, some (bit_and pcr pcr_conn_mask != 0), s')
      ]

  abbrev of_result : Result → Status
  of_result (Result.ok channel) = success
  of_result (Result.failed Manage.Errno.eagain) = eagain
  of_result r = resources_error r

  abbrev with_resources : Connection → Result × Resources × S → Status × Connection × S
  with_resources c (r, resources, s) = (of_result r, record c { resources = resources }, s)

  unfoldable pub connection_reserve :
      (fuel : ℕ) → Connection → (max_payload_bytes : ℕ) → S → Status × Connection × S
  connection_reserve fuel c max_payload_bytes s =
      if c.resources.allocated
      then (ebusy, c, s)
      else let speed = min c.max_speed device.max_speed in
        with_resources (record c { speed = speed })
          (allocate device.bus fuel c.resources max_payload_bytes speed s)

  unfoldable pub connection_release : Connection → S → Connection × S
  connection_release c s =
      let (resources, s') = free device.bus c.resources s in
      (record c { resources = resources }, s')

  abbrev pub set_modify : Connection → ℕ → ℕ
  set_modify c pcr = elim c.direction [
    | input ↦ ipcr_set_modify c pcr
    | output ↦ opcr_set_modify c pcr
  ]

  abbrev after_update :
      (retry : Connection → S → Status × Connection × S)
      → Status × Connection × S
      → Status × Connection × S
  after_update retry (success, c, s) = retry c s
  after_update retry (status, c, s) = (status, c, s)

  -- What `cmp_connection_establish` does with the status of `pcr_modify`.
  unfoldable pub established :
      (retry : Connection → S → Status × Connection × S)
      → Status × Connection × S
      → Status × Connection × S
  established retry (success, c, s) = (success, record c { connected = true }, s)
  established retry (eagain, c, s) =
      after_update retry (with_resources c (update device.bus c.resources s))
  established retry (status, c, s) = (status, c, s)

  -- From the label `retry_after_bus_reset`.
  unfoldable pub establish_loop : (resets fuel : ℕ) → Connection → S → Status × Connection × S
  establish_loop zero fuel c s = (exhausted, c, s)
  establish_loop (suc resets) fuel c s =
      established (establish_loop resets fuel) (pcr_modify set_modify pcr_set_check false fuel c s)

  unfoldable pub connection_establish : (resets fuel : ℕ) → Connection → S → Status × Connection × S
  connection_establish resets fuel c s =
      if c.connected then (eisconn, c, s) else establish_loop resets fuel c s

  unfoldable pub connection_break : (fuel : ℕ) → Connection → S → Connection × S
  connection_break fuel c s =
      if c.connected
      then (let (_, c', s') = pcr_modify pcr_break_modify (λ _. none) true fuel c s in
          (record c' { connected = false }, s'))
      else (c, s)
