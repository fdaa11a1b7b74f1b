-- ===== src/Cmp/Registers.antt =====
-- What the plug control register becomes when a connection is made or broken.
use linux_firewire_dkms.Prelude.{
  ℕ, zero, suc, ◌+◌, ◌-◌, ◌*◌, ◌/◌, ◌%◌, ◌^◌, ◌≤◌, ◌<◌, ◌≡◌, none, some, arith, Bool, ◌==◌, ltb,
  if◌then◌else◌, bit_and, bit_or, bit_and_field, bit_or_field, bit_and_outside, bit_and_ones, shl32,
  not32, min, bit_and_split,
}
use linux_firewire_dkms.Cmp.{
  Connection, ipcr_set_modify, opcr_set_modify, ipcr_set_mask, opcr_set_mask, pcr_conn_mask,
  pcr_break_modify, overhead_id_loop, get_overhead_id, pcr_set_check, scode_400, scode_800, ebusy,
  econnrefused, input, output,
}

-- The id is the bandwidth overhead in units of 32, rounded up past the next unit, and 0 from 480 on.
loop_lem :
    (left overhead : ℕ)
    → left ≤ 15
    → (15 - left) * 32 ≤ overhead
    → overhead_id_loop left overhead ≡ (if ltb overhead 480 then overhead / 32 + 1 else 0)
unfolding overhead_id_loop
loop_lem zero overhead h k = ground arith
loop_lem (suc left) overhead h k = ground (arith, loop_lem left overhead)

pub get_overhead_id_lem :
    (c : Connection)
    → get_overhead_id c ≡ (
        if ltb c.resources.bandwidth_overhead 480
        then c.resources.bandwidth_overhead / 32 + 1
        else 0)
unfolding get_overhead_id
get_overhead_id_lem c = loop_lem 15 c.resources.bandwidth_overhead (omega arith) (omega arith)

-- A set connection, in arithmetic: the bits above the fields and between them stay.
abbrev pub ipcr_of : (channel ipcr : ℕ) → ℕ
ipcr_of channel ipcr =
    ipcr / 2 ^ 31 * 2 ^ 31 + 2 ^ 24 + ipcr / 2 ^ 22 % 4 * 2 ^ 22 + channel * 2 ^ 16 + ipcr % 2 ^ 16

abbrev pub opcr_of : (xspd channel spd id opcr : ℕ) → ℕ
opcr_of xspd channel spd id opcr =
    opcr / 2 ^ 31 * 2 ^ 31
    + 2 ^ 24
    + xspd * 2 ^ 22
    + channel * 2 ^ 16
    + spd * 2 ^ 14
    + id * 2 ^ 10
    + opcr % 2 ^ 10

kept_ipcr :
    (w : ℕ)
    → w < 2 ^ 32
    → bit_and w (not32 ipcr_set_mask) ≡ w / 2 ^ 31 * 2 ^ 31 + w / 2 ^ 22 % 4 * 2 ^ 22 + w % 2 ^ 16
kept_ipcr w h = ground (
  arith,
  bit_and_split 24 (w / 2 ^ 24) (w % 2 ^ 24) 0x80 0xc0ffff (omega arith) (omega arith),
  bit_and_field 7 1 (w / 2 ^ 24),
  bit_and_split 16 (w % 2 ^ 24 / 2 ^ 16) (w % 2 ^ 16) 0xc0 0xffff (omega arith) (omega arith),
  bit_and_field 6 2 (w % 2 ^ 24 / 2 ^ 16),
  bit_and_ones 16 (w % 2 ^ 16),
)

pub ipcr_set_modify_lem :
    (c : Connection) (ipcr : ℕ)
    → c.resources.channel < 64
    → ipcr < 2 ^ 32
    → ipcr_set_modify c ipcr ≡ ipcr_of c.resources.channel ipcr
unfolding ipcr_set_modify
ipcr_set_modify_lem c w ch h = ground (
  arith,
  kept_ipcr w h,
  bit_or_field 24 7 (w / 2 ^ 31) 1 (w / 2 ^ 22 % 4 * 2 ^ 22 + w % 2 ^ 16) (omega arith)
      (omega arith),
  bit_or_field 16 6 (w / 2 ^ 31 * 2 ^ 9 + 2 ^ 2 + w / 2 ^ 22 % 4) c.resources.channel (w % 2 ^ 16)
      (omega arith) (omega arith),
)

abbrev pub spd_of : ℕ → ℕ
spd_of speed = min speed 3

abbrev pub xspd_of : ℕ → ℕ
xspd_of speed = speed - 3

word_lem :
    (w xspd channel spd id : ℕ)
    → w < 2 ^ 32
    → xspd < 4
    → channel < 64
    → spd < 4
    → id < 16
    → bit_or
        (bit_or
          (bit_or
            (bit_or (bit_or (bit_and w (not32 opcr_set_mask)) (2 ^ 24)) (shl32 xspd 22))
            (shl32 channel 16))
          (shl32 spd 14))
        (shl32 id 10)
      ≡ opcr_of xspd channel spd id w
word_lem w xspd channel spd id h a b c d = ground (
  arith,
  bit_and_outside 10 21 1 w (omega arith),
  bit_or_field 24 7 (w / 2 ^ 31) 1 (w % 2 ^ 10) (omega arith) (omega arith),
  bit_or_field 22 2 (w / 2 ^ 31 * 2 ^ 7 + 1) xspd (w % 2 ^ 10) (omega arith) (omega arith),
  bit_or_field 16 6 ((w / 2 ^ 31 * 2 ^ 7 + 1) * 4 + xspd) channel (w % 2 ^ 10) (omega arith)
      (omega arith),
  bit_or_field 14 2 (((w / 2 ^ 31 * 2 ^ 7 + 1) * 4 + xspd) * 2 ^ 6 + channel) spd (w % 2 ^ 10)
      (omega arith) (omega arith),
  bit_or_field 10 4 ((((w / 2 ^ 31 * 2 ^ 7 + 1) * 4 + xspd) * 2 ^ 6 + channel) * 4 + spd) id
      (w % 2 ^ 10) (omega arith) (omega arith),
)

spd_lem : (speed : ℕ) → (if ltb scode_400 speed then scode_800 else speed) ≡ spd_of speed
spd_lem speed = ground arith

xspd_lem : (speed : ℕ) → (if ltb scode_400 speed then speed - scode_800 else 0) ≡ xspd_of speed
xspd_lem speed = ground arith

-- Setting an output plug stores one point-to-point connection and no broadcast connection, the
-- channel, the speed and what of it is above S800, and the bandwidth overhead in units of 32 (0
-- from 480 on); every bit outside these fields stays, the one that says "on-line" among them.
pub opcr_set_modify_lem :
    (c : Connection) (opcr : ℕ)
    → c.resources.channel < 64
    → c.speed < 7
    → opcr < 2 ^ 32
    → opcr_set_modify c opcr
      ≡ opcr_of
          (xspd_of c.speed)
          c.resources.channel
          (spd_of c.speed)
          (if ltb c.resources.bandwidth_overhead 480
            then c.resources.bandwidth_overhead / 32 + 1
            else 0)
          opcr
unfolding opcr_set_modify
opcr_set_modify_lem c w ch sp h = rw (get_overhead_id_lem c) (
    rw (spd_lem c.speed, xspd_lem c.speed)
      (word_lem w (xspd_of c.speed) c.resources.channel (spd_of c.speed)
        (if ltb c.resources.bandwidth_overhead 480
          then c.resources.bandwidth_overhead / 32 + 1
          else 0)
        h (omega arith) ch (omega arith) (ground arith)))

-- A broken connection, in arithmetic: the bits of the connection fields go, every other bit stays.
abbrev pub cleared : ℕ → ℕ
cleared pcr = pcr / 2 ^ 31 * 2 ^ 31 + pcr % 2 ^ 24

pub pcr_break_modify_lem :
    (c : Connection) (pcr : ℕ) → pcr < 2 ^ 32 → pcr_break_modify c pcr ≡ cleared pcr
unfolding pcr_break_modify
pcr_break_modify_lem c w h = ground (arith, bit_and_outside 24 7 1 w (omega arith))

conn_lem : (w : ℕ) → bit_and w pcr_conn_mask ≡ w / 2 ^ 24 % 2 ^ 7 * 2 ^ 24
conn_lem w = bit_and_field 24 7 w

online_lem : (w : ℕ) → bit_and w 0x80000000 ≡ w / 2 ^ 31 % 2 * 2 ^ 31
online_lem w = bit_and_field 31 1 w

-- The plug has no connection, and is on-line.
abbrev pub is_free : ℕ → Bool
is_free pcr = pcr / 2 ^ 24 % 2 ^ 7 == 0

abbrev pub is_on_line : ℕ → Bool
is_on_line pcr = pcr / 2 ^ 31 == 1

-- The check of a plug, by its bits.
pub pcr_set_check_lem :
    (pcr : ℕ)
    → pcr < 2 ^ 32
    → pcr_set_check pcr
      ≡ (if is_free pcr then if is_on_line pcr then none else some econnrefused else some ebusy)
unfolding pcr_set_check
pcr_set_check_lem w h = rw (conn_lem w, online_lem w) (ground arith)

-- The register of a plug of either direction with the connection set, in arithmetic.
abbrev pub set_of : Connection → ℕ → ℕ
set_of c pcr = elim c.direction [
  | input ↦ ipcr_of c.resources.channel pcr
  | output ↦
      opcr_of (xspd_of c.speed) c.resources.channel (spd_of c.speed)
        (if ltb c.resources.bandwidth_overhead 480
          then c.resources.bandwidth_overhead / 32 + 1
          else 0)
        pcr
]
