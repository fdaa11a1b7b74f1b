-- ===== src/Tests/Packets.antt =====
-- Packet headers at concrete inputs.
use linux_firewire_dkms.Prelude.{◌%◌, ◌^◌, ◌≡◌, refl, arith, ◌/◌}
use linux_firewire_dkms.Packet.Async.{Header, IsHeader}
use linux_firewire_dkms.Packet.Async.Fields.{Field, get-set, set-IsHeader}
use linux_firewire_dkms.Packet.Async.Fields
use linux_firewire_dkms.Packet.Isoc.Fields as IsocFields
use linux_firewire_dkms.Packet.Phy.Fields as PhyFields
use linux_firewire_dkms.Packet.Phy.Sequence.{get-set_sequence_zero}
use linux_firewire_dkms.Packet.Phy.{get_self_id_extended_sequence, set_self_id_extended_sequence}

abbrev full : Header
full = record { q0 = 0xffffffff; q1 = 0xffffffff; q2 = 0xffffffff; q3 = 0xffffffff }

full-IsHeader : IsHeader full
full-IsHeader = record {
  q0_lt = omega arith;
  q1_lt = omega arith;
  q2_lt = omega arith;
  q3_lt = omega arith;
}

get-set_example :
    (Fields.get Field.tlabel (Fields.set Field.tlabel full 0x25) ≡ 0x25)
    × (Fields.get Field.tcode (Fields.set Field.tlabel full 0x25) ≡ Fields.get Field.tcode full)
get-set_example = get-set Field.tlabel Field.tcode full 0x25 (omega arith) refl full-IsHeader

get-set_isoc_example :
    (IsocFields.get IsocFields.Field.channel (IsocFields.set IsocFields.Field.channel 0xffffffff 5)
      ≡ 5)
    × (IsocFields.get IsocFields.Field.tag (IsocFields.set IsocFields.Field.channel 0xffffffff 5)
        ≡ IsocFields.get IsocFields.Field.tag 0xffffffff)
get-set_isoc_example =
    IsocFields.get-set_isoc IsocFields.Field.channel IsocFields.Field.tag 0xffffffff 5 refl
      (omega arith)

get-set_phy_example :
    (PhyFields.get PhyFields.Field.phy_config_gap_count
        (PhyFields.set PhyFields.Field.phy_config_gap_count 0xffffffff 63)
      ≡ 63)
    × (PhyFields.get PhyFields.Field.phy_config_root_id
          (PhyFields.set PhyFields.Field.phy_config_gap_count 0xffffffff 63)
        ≡ PhyFields.get PhyFields.Field.phy_config_root_id 0xffffffff)
get-set_phy_example =
    PhyFields.get-set_phy PhyFields.Field.phy_config_gap_count PhyFields.Field.phy_config_root_id
      0xffffffff 63 refl (omega arith)

get-set_sequence_zero_example :
    let q = set_self_id_extended_sequence 0x80800000 1 in
    (get_self_id_extended_sequence q ≡ 0)
    × (q / 2 ^ 23 ≡ 0x80800000 / 2 ^ 23)
    × (q % 2 ^ 20 ≡ 0x80800000 % 2 ^ 20)
get-set_sequence_zero_example = get-set_sequence_zero 0x80800000 1 (omega arith)
