-- ===== src/Packet/Phy/Laws.antt =====
-- Each getter and setter of the PHY packets as arithmetic.
use linux_firewire_dkms.Prelude.{
  ℕ, ◌+◌, ◌*◌, ◌/◌, ◌%◌, ◌^◌, ◌<◌, ◌≡◌, refl, arith, Bool, of_bool, field_get_lem, field_set_lem,
}
use linux_firewire_dkms.Packet.Phy.{
  get_packet_identifier, set_packet_identifier, get_phy_config_root_id, set_phy_config_root_id,
  get_phy_config_force_root_node, set_phy_config_force_root_node,
  get_phy_config_gap_count_optimization, set_phy_config_gap_count_optimization,
  get_phy_config_gap_count, set_phy_config_gap_count, get_self_id_phy_id, set_self_id_phy_id,
  get_self_id_extended, set_self_id_extended, get_self_id_zero_link_active,
  set_self_id_zero_link_active, get_self_id_zero_gap_count, set_self_id_zero_gap_count,
  get_self_id_zero_scode, set_self_id_zero_scode, get_self_id_zero_contender,
  set_self_id_zero_contender, get_self_id_zero_power_class, set_self_id_zero_power_class,
  get_self_id_zero_initiated_reset, set_self_id_zero_initiated_reset, get_self_id_more_packets,
  set_self_id_more_packets,
}

pub get_packet_identifier_lem : (q : ℕ) → get_packet_identifier q ≡ q / 1073741824 % 4
unfolding get_packet_identifier
get_packet_identifier_lem q = omega (arith, field_get_lem 30 2 0xc0000000 q refl)

pub set_packet_identifier_lem :
    (q : ℕ) (v : ℕ)
    → q < 2 ^ 32
    → set_packet_identifier q v ≡ (q / 1073741824 / 4 * 4 + v % 4) * 1073741824 + q % 1073741824
unfolding set_packet_identifier
set_packet_identifier_lem q v fits =
    field_set_lem 30 2 0 0xc0000000 q v refl refl (omega arith) (omega arith)

pub get_phy_config_root_id_lem : (q : ℕ) → get_phy_config_root_id q ≡ q / 16777216 % 64
unfolding get_phy_config_root_id
get_phy_config_root_id_lem q = omega (arith, field_get_lem 24 6 0x3f000000 q refl)

pub set_phy_config_root_id_lem :
    (q : ℕ) (v : ℕ)
    → q < 2 ^ 32
    → set_phy_config_root_id q v ≡ (q / 16777216 / 64 * 64 + v % 64) * 16777216 + q % 16777216
unfolding set_phy_config_root_id
set_phy_config_root_id_lem q v fits =
    field_set_lem 24 6 2 0x3f000000 q v refl refl (omega arith) (omega arith)

pub get_phy_config_force_root_node_lem :
    (q : ℕ) → of_bool (get_phy_config_force_root_node q) ≡ q / 8388608 % 2
unfolding get_phy_config_force_root_node
get_phy_config_force_root_node_lem q = ground (arith, field_get_lem 23 1 0x00800000 q refl)

pub set_phy_config_force_root_node_lem :
    (q : ℕ) (v : Bool)
    → q < 2 ^ 32
    → set_phy_config_force_root_node q v
      ≡ (q / 8388608 / 2 * 2 + of_bool v % 2) * 8388608 + q % 8388608
unfolding set_phy_config_force_root_node
set_phy_config_force_root_node_lem q v fits =
    field_set_lem 23 1 8 0x00800000 q (of_bool v) refl refl (omega arith) (omega arith)

pub get_phy_config_gap_count_optimization_lem :
    (q : ℕ) → of_bool (get_phy_config_gap_count_optimization q) ≡ q / 4194304 % 2
unfolding get_phy_config_gap_count_optimization
get_phy_config_gap_count_optimization_lem q = ground (arith, field_get_lem 22 1 0x00400000 q refl)

pub set_phy_config_gap_count_optimization_lem :
    (q : ℕ) (v : Bool)
    → q < 2 ^ 32
    → set_phy_config_gap_count_optimization q v
      ≡ (q / 4194304 / 2 * 2 + of_bool v % 2) * 4194304 + q % 4194304
unfolding set_phy_config_gap_count_optimization
set_phy_config_gap_count_optimization_lem q v fits =
    field_set_lem 22 1 9 0x00400000 q (of_bool v) refl refl (omega arith) (omega arith)

pub get_phy_config_gap_count_lem : (q : ℕ) → get_phy_config_gap_count q ≡ q / 65536 % 64
unfolding get_phy_config_gap_count
get_phy_config_gap_count_lem q = omega (arith, field_get_lem 16 6 0x003f0000 q refl)

pub set_phy_config_gap_count_lem :
    (q : ℕ) (v : ℕ)
    → q < 2 ^ 32
    → set_phy_config_gap_count q v ≡ (q / 65536 / 64 * 64 + v % 64) * 65536 + q % 65536
unfolding set_phy_config_gap_count
set_phy_config_gap_count_lem q v fits =
    field_set_lem 16 6 10 0x003f0000 q v refl refl (omega arith) (omega arith)

pub get_self_id_phy_id_lem : (q : ℕ) → get_self_id_phy_id q ≡ q / 16777216 % 64
unfolding get_self_id_phy_id
get_self_id_phy_id_lem q = omega (arith, field_get_lem 24 6 0x3f000000 q refl)

pub set_self_id_phy_id_lem :
    (q : ℕ) (v : ℕ)
    → q < 2 ^ 32
    → set_self_id_phy_id q v ≡ (q / 16777216 / 64 * 64 + v % 64) * 16777216 + q % 16777216
unfolding set_self_id_phy_id
set_self_id_phy_id_lem q v fits =
    field_set_lem 24 6 2 0x3f000000 q v refl refl (omega arith) (omega arith)

pub get_self_id_extended_lem : (q : ℕ) → of_bool (get_self_id_extended q) ≡ q / 8388608 % 2
unfolding get_self_id_extended
get_self_id_extended_lem q = ground (arith, field_get_lem 23 1 0x00800000 q refl)

pub set_self_id_extended_lem :
    (q : ℕ) (v : Bool)
    → q < 2 ^ 32
    → set_self_id_extended q v ≡ (q / 8388608 / 2 * 2 + of_bool v % 2) * 8388608 + q % 8388608
unfolding set_self_id_extended
set_self_id_extended_lem q v fits =
    field_set_lem 23 1 8 0x00800000 q (of_bool v) refl refl (omega arith) (omega arith)

pub get_self_id_zero_link_active_lem :
    (q : ℕ) → of_bool (get_self_id_zero_link_active q) ≡ q / 4194304 % 2
unfolding get_self_id_zero_link_active
get_self_id_zero_link_active_lem q = ground (arith, field_get_lem 22 1 0x00400000 q refl)

pub set_self_id_zero_link_active_lem :
    (q : ℕ) (v : Bool)
    → q < 2 ^ 32
    → set_self_id_zero_link_active q v
      ≡ (q / 4194304 / 2 * 2 + of_bool v % 2) * 4194304 + q % 4194304
unfolding set_self_id_zero_link_active
set_self_id_zero_link_active_lem q v fits =
    field_set_lem 22 1 9 0x00400000 q (of_bool v) refl refl (omega arith) (omega arith)

pub get_self_id_zero_gap_count_lem : (q : ℕ) → get_self_id_zero_gap_count q ≡ q / 65536 % 64
unfolding get_self_id_zero_gap_count
get_self_id_zero_gap_count_lem q = omega (arith, field_get_lem 16 6 0x003f0000 q refl)

pub set_self_id_zero_gap_count_lem :
    (q : ℕ) (v : ℕ)
    → q < 2 ^ 32
    → set_self_id_zero_gap_count q v ≡ (q / 65536 / 64 * 64 + v % 64) * 65536 + q % 65536
unfolding set_self_id_zero_gap_count
set_self_id_zero_gap_count_lem q v fits =
    field_set_lem 16 6 10 0x003f0000 q v refl refl (omega arith) (omega arith)

pub get_self_id_zero_scode_lem : (q : ℕ) → get_self_id_zero_scode q ≡ q / 16384 % 4
unfolding get_self_id_zero_scode
get_self_id_zero_scode_lem q = omega (arith, field_get_lem 14 2 0x0000c000 q refl)

pub set_self_id_zero_scode_lem :
    (q : ℕ) (v : ℕ)
    → q < 2 ^ 32
    → set_self_id_zero_scode q v ≡ (q / 16384 / 4 * 4 + v % 4) * 16384 + q % 16384
unfolding set_self_id_zero_scode
set_self_id_zero_scode_lem q v fits =
    field_set_lem 14 2 16 0x0000c000 q v refl refl (omega arith) (omega arith)

pub get_self_id_zero_contender_lem : (q : ℕ) → of_bool (get_self_id_zero_contender q) ≡ q / 2048 % 2
unfolding get_self_id_zero_contender
get_self_id_zero_contender_lem q = ground (arith, field_get_lem 11 1 0x00000800 q refl)

pub set_self_id_zero_contender_lem :
    (q : ℕ) (v : Bool)
    → q < 2 ^ 32
    → set_self_id_zero_contender q v ≡ (q / 2048 / 2 * 2 + of_bool v % 2) * 2048 + q % 2048
unfolding set_self_id_zero_contender
set_self_id_zero_contender_lem q v fits =
    field_set_lem 11 1 20 0x00000800 q (of_bool v) refl refl (omega arith) (omega arith)

pub get_self_id_zero_power_class_lem : (q : ℕ) → get_self_id_zero_power_class q ≡ q / 256 % 8
unfolding get_self_id_zero_power_class
get_self_id_zero_power_class_lem q = omega (arith, field_get_lem 8 3 0x00000700 q refl)

pub set_self_id_zero_power_class_lem :
    (q : ℕ) (v : ℕ)
    → q < 2 ^ 32
    → set_self_id_zero_power_class q v ≡ (q / 256 / 8 * 8 + v % 8) * 256 + q % 256
unfolding set_self_id_zero_power_class
set_self_id_zero_power_class_lem q v fits =
    field_set_lem 8 3 21 0x00000700 q v refl refl (omega arith) (omega arith)

pub get_self_id_zero_initiated_reset_lem :
    (q : ℕ) → of_bool (get_self_id_zero_initiated_reset q) ≡ q / 2 % 2
unfolding get_self_id_zero_initiated_reset
get_self_id_zero_initiated_reset_lem q = ground (arith, field_get_lem 1 1 0x00000002 q refl)

pub set_self_id_zero_initiated_reset_lem :
    (q : ℕ) (v : Bool)
    → q < 2 ^ 32
    → set_self_id_zero_initiated_reset q v ≡ (q / 2 / 2 * 2 + of_bool v % 2) * 2 + q % 2
unfolding set_self_id_zero_initiated_reset
set_self_id_zero_initiated_reset_lem q v fits =
    field_set_lem 1 1 30 0x00000002 q (of_bool v) refl refl (omega arith) (omega arith)

pub get_self_id_more_packets_lem : (q : ℕ) → of_bool (get_self_id_more_packets q) ≡ q % 2
unfolding get_self_id_more_packets
get_self_id_more_packets_lem q = ground (arith, field_get_lem 0 1 0x00000001 q refl)

pub set_self_id_more_packets_lem :
    (q : ℕ) (v : Bool)
    → q < 2 ^ 32
    → set_self_id_more_packets q v ≡ (q / 1 / 2 * 2 + of_bool v % 2) * 1 + q % 1
unfolding set_self_id_more_packets
set_self_id_more_packets_lem q v fits =
    field_set_lem 0 1 31 0x00000001 q (of_bool v) refl refl (omega arith) (omega arith)
