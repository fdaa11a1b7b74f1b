-- ===== src/SelfId.antt =====
-- Sequences of self-ID quadlets: the enumerator and the port status of
-- drivers/firewire/phy-packet-definitions.h.
pub mod Walk
pub mod Ports
use linux_firewire_dkms.Prelude.{
  ℕ, ◌+◌, ◌-◌, ◌*◌, ◌/◌, ◌%◌, ◌^◌, Bool, not, ◌&&◌, ◌||◌, Option, none, some, List, [], ◌∷◌,
  bit_and, bit_or, ltb, leb, ◌!=◌, ◌==◌, if◌then◌else◌, get_or, set, drop, u32, not32, shl32, shr,
}
use linux_firewire_dkms.Packet.Phy.{
  get_self_id_more_packets, get_self_id_extended, get_self_id_extended_sequence,
}

abbrev pub maximum_quadlet_count : ℕ
maximum_quadlet_count = 4

-- `cursor` is NULL, or the quadlets that lie in memory from it on.
pub record Enumerator : Type 0 where
  pub cursor : Option (List ℕ)
  pub quadlet_count : ℕ

-- What a call returns: a sequence of `count` quadlets, and the enumerator after it; -ENODATA;
-- -EPROTO; or a read past the memory that `cursor` points to, undefined in C.
pub data Next : Type 0 where
  found : (count : ℕ) → Enumerator → Next
  no_data protocol_error fault : Next

pub data Scan : Type 0 where
  done : (count : ℕ) → Scan
  broken overrun : Scan

-- The loop, at `quadlet` with `rest` behind it.
unfoldable pub scan : ℕ → ℕ → ℕ → ℕ → List ℕ → Scan
scan limit count sequence quadlet [] =
    if get_self_id_more_packets quadlet
    then if leb limit count || leb maximum_quadlet_count count then broken else overrun
    else done count
scan limit count sequence quadlet (q ∷ rest) =
    if get_self_id_more_packets quadlet
    then if leb limit count || leb maximum_quadlet_count count
      then broken
      else if not (get_self_id_extended q) || sequence != get_self_id_extended_sequence q
      then broken
      else scan limit (count + 1) (sequence + 1) q rest
    else done count

abbrev advance : List ℕ → ℕ → Scan → Next
advance qs n (done count) =
    found count (record { cursor = some (drop count qs); quadlet_count = n - count })
advance qs n broken = protocol_error
advance qs n overrun = fault

abbrev first : List ℕ → ℕ → Next
first [] n = fault
first (q ∷ rest) n = advance (q ∷ rest) n (scan n 1 0 q rest)

abbrev at_cursor : Option (List ℕ) → ℕ → Next
at_cursor none n = no_data
at_cursor (some qs) n = if n == 0 then no_data else first qs n

unfoldable pub enumerator_next : Enumerator → Next
enumerator_next e = at_cursor e.cursor e.quadlet_count

unfoldable pub get_port_capacity : ℕ → ℕ
get_port_capacity quadlet_count = u32 (quadlet_count * 8 + 2 ^ 32 - 5)

-- enum phy_packet_self_id_port_status
abbrev pub status_none : ℕ
status_none = 0

abbrev pub status_nconn : ℕ
status_nconn = 1

abbrev pub status_parent : ℕ
status_parent = 2

abbrev pub status_child : ℕ
status_child = 3

abbrev pub port_quadlet : ℕ → ℕ
port_quadlet port_index = u32 (port_index + 5) / 8

abbrev pub port_shift : ℕ → ℕ
port_shift port_index = 16 - u32 (port_index + 5) % 8 * 2

-- The array holds `quadlet_count` quadlets at least, so that a read is never out of range.
unfoldable pub get_port_status : List ℕ → ℕ → ℕ → ℕ
get_port_status self_id_sequence quadlet_count port_index =
    let index = port_quadlet port_index in
    if ltb index quadlet_count && ltb index maximum_quadlet_count
    then bit_and (shr (get_or self_id_sequence index 0) (port_shift port_index)) 0x3
    else status_none

unfoldable pub set_port_status : List ℕ → ℕ → ℕ → ℕ → List ℕ
set_port_status self_id_sequence quadlet_count port_index status =
    let index = port_quadlet port_index in
    let shift = port_shift port_index in
    let cleared = bit_and (get_or self_id_sequence index 0) (not32 (shl32 0x3 shift)) in
    if ltb index quadlet_count
    then set self_id_sequence index (bit_or cleared (shl32 status shift))
    else self_id_sequence
