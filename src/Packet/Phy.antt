-- ===== src/Packet/Phy.antt =====
-- The quadlets of PHY packets: drivers/firewire/phy-packet-definitions.h.
pub mod Laws
pub mod Fields
pub mod Sequence
use linux_firewire_dkms.Prelude.{ℕ, Bool, ◌!=◌, of_bool, field_get, field_set}

unfoldable pub get_packet_identifier : ℕ → ℕ
get_packet_identifier quadlet = field_get 0xc0000000 30 quadlet

unfoldable pub set_packet_identifier : ℕ → ℕ → ℕ
set_packet_identifier quadlet v = field_set 0xc0000000 30 quadlet v

unfoldable pub get_phy_config_root_id : ℕ → ℕ
get_phy_config_root_id quadlet = field_get 0x3f000000 24 quadlet

unfoldable pub set_phy_config_root_id : ℕ → ℕ → ℕ
set_phy_config_root_id quadlet v = field_set 0x3f000000 24 quadlet v

unfoldable pub get_phy_config_force_root_node : ℕ → Bool
get_phy_config_force_root_node quadlet = field_get 0x00800000 23 quadlet != 0

unfoldable pub set_phy_config_force_root_node : ℕ → Bool → ℕ
set_phy_config_force_root_node quadlet b = field_set 0x00800000 23 quadlet (of_bool b)

unfoldable pub get_phy_config_gap_count_optimization : ℕ → Bool
get_phy_config_gap_count_optimization quadlet = field_get 0x00400000 22 quadlet != 0

unfoldable pub set_phy_config_gap_count_optimization : ℕ → Bool → ℕ
set_phy_config_gap_count_optimization quadlet b = field_set 0x00400000 22 quadlet (of_bool b)

unfoldable pub get_phy_config_gap_count : ℕ → ℕ
get_phy_config_gap_count quadlet = field_get 0x003f0000 16 quadlet

unfoldable pub set_phy_config_gap_count : ℕ → ℕ → ℕ
set_phy_config_gap_count quadlet v = field_set 0x003f0000 16 quadlet v

unfoldable pub get_self_id_phy_id : ℕ → ℕ
get_self_id_phy_id quadlet = field_get 0x3f000000 24 quadlet

unfoldable pub set_self_id_phy_id : ℕ → ℕ → ℕ
set_self_id_phy_id quadlet v = field_set 0x3f000000 24 quadlet v

unfoldable pub get_self_id_extended : ℕ → Bool
get_self_id_extended quadlet = field_get 0x00800000 23 quadlet != 0

unfoldable pub set_self_id_extended : ℕ → Bool → ℕ
set_self_id_extended quadlet b = field_set 0x00800000 23 quadlet (of_bool b)

unfoldable pub get_self_id_zero_link_active : ℕ → Bool
get_self_id_zero_link_active quadlet = field_get 0x00400000 22 quadlet != 0

unfoldable pub set_self_id_zero_link_active : ℕ → Bool → ℕ
set_self_id_zero_link_active quadlet b = field_set 0x00400000 22 quadlet (of_bool b)

unfoldable pub get_self_id_zero_gap_count : ℕ → ℕ
get_self_id_zero_gap_count quadlet = field_get 0x003f0000 16 quadlet

unfoldable pub set_self_id_zero_gap_count : ℕ → ℕ → ℕ
set_self_id_zero_gap_count quadlet v = field_set 0x003f0000 16 quadlet v

unfoldable pub get_self_id_zero_scode : ℕ → ℕ
get_self_id_zero_scode quadlet = field_get 0x0000c000 14 quadlet

unfoldable pub set_self_id_zero_scode : ℕ → ℕ → ℕ
set_self_id_zero_scode quadlet v = field_set 0x0000c000 14 quadlet v

unfoldable pub get_self_id_zero_contender : ℕ → Bool
get_self_id_zero_contender quadlet = field_get 0x00000800 11 quadlet != 0

unfoldable pub set_self_id_zero_contender : ℕ → Bool → ℕ
set_self_id_zero_contender quadlet b = field_set 0x00000800 11 quadlet (of_bool b)

unfoldable pub get_self_id_zero_power_class : ℕ → ℕ
get_self_id_zero_power_class quadlet = field_get 0x00000700 8 quadlet

unfoldable pub set_self_id_zero_power_class : ℕ → ℕ → ℕ
set_self_id_zero_power_class quadlet v = field_set 0x00000700 8 quadlet v

unfoldable pub get_self_id_zero_initiated_reset : ℕ → Bool
get_self_id_zero_initiated_reset quadlet = field_get 0x00000002 1 quadlet != 0

unfoldable pub set_self_id_zero_initiated_reset : ℕ → Bool → ℕ
set_self_id_zero_initiated_reset quadlet b = field_set 0x00000002 1 quadlet (of_bool b)

unfoldable pub get_self_id_more_packets : ℕ → Bool
get_self_id_more_packets quadlet = field_get 0x00000001 0 quadlet != 0

unfoldable pub set_self_id_more_packets : ℕ → Bool → ℕ
set_self_id_more_packets quadlet b = field_set 0x00000001 0 quadlet (of_bool b)

unfoldable pub get_self_id_extended_sequence : ℕ → ℕ
get_self_id_extended_sequence quadlet = field_get 0x00700000 20 quadlet

-- The value is shifted by SELF_ID_EXTENDED_SHIFT, 23, and masked by SELF_ID_EXTENDED_SEQUENCE_MASK.
unfoldable pub set_self_id_extended_sequence : ℕ → ℕ → ℕ
set_self_id_extended_sequence quadlet sequence = field_set 0x00700000 23 quadlet sequence
