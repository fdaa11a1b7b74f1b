-- ===== src/Packet/Phy/Fields.antt =====
-- The fields of the PHY packets as data.
use linux_firewire_dkms.Prelude.{
  ℕ, ◌+◌, ◌%◌, ◌^◌, ◌<◌, ◌≡◌, arith, Bool, true, ◌||◌, leb, ◌!=◌, of_bool,
}
use linux_firewire_dkms.Packet.Phy.{
  get_packet_identifier, set_packet_identifier, get_phy_config_root_id, set_phy_config_root_id,
  get_phy_config_force_root_node, set_phy_config_force_root_node,
  get_phy_config_gap_count_optimization, set_phy_config_gap_count_optimization,
  get_phy_config_gap_count, set_phy_config_gap_count, get_self_id_phy_id, set_self_id_phy_id,
  get_self_id_extended, set_self_id_extended, get_self_id_zero_link_active,
  set_self_id_zero_link_active, get_self_id_zero_gap_count, set_self_id_zero_gap_count,
  get_self_id_zero_scode, set_self_id_zero_scode, get_self_id_zero_contender,
  set_self_id_zero_contender, get_self_id_zero_power_class, set_self_id_zero_power_class,
  get_self_id_zero_initiated_reset, set_self_id_zero_initiated_reset, get_self_id_more_packets,
  set_self_id_more_packets,
}
use linux_firewire_dkms.Packet.Phy.Laws.{
  get_packet_identifier_lem, set_packet_identifier_lem, get_phy_config_root_id_lem,
  set_phy_config_root_id_lem, get_phy_config_force_root_node_lem,
  set_phy_config_force_root_node_lem, get_phy_config_gap_count_optimization_lem,
  set_phy_config_gap_count_optimization_lem, get_phy_config_gap_count_lem,
  set_phy_config_gap_count_lem, get_self_id_phy_id_lem, set_self_id_phy_id_lem,
  get_self_id_extended_lem, set_self_id_extended_lem, get_self_id_zero_link_active_lem,
  set_self_id_zero_link_active_lem, get_self_id_zero_gap_count_lem, set_self_id_zero_gap_count_lem,
  get_self_id_zero_scode_lem, set_self_id_zero_scode_lem, get_self_id_zero_contender_lem,
  set_self_id_zero_contender_lem, get_self_id_zero_power_class_lem,
  set_self_id_zero_power_class_lem, get_self_id_zero_initiated_reset_lem,
  set_self_id_zero_initiated_reset_lem, get_self_id_more_packets_lem, set_self_id_more_packets_lem,
}

pub data Field : Type 0 where
  packet_identifier phy_config_root_id phy_config_force_root_node phy_config_gap_count_optimization
        phy_config_gap_count self_id_phy_id self_id_extended self_id_zero_link_active
        self_id_zero_gap_count self_id_zero_scode self_id_zero_contender self_id_zero_power_class
        self_id_zero_initiated_reset self_id_more_packets :
      Field

pub get : Field → ℕ → ℕ
get packet_identifier q = get_packet_identifier q
get phy_config_root_id q = get_phy_config_root_id q
get phy_config_force_root_node q = of_bool (get_phy_config_force_root_node q)
get phy_config_gap_count_optimization q = of_bool (get_phy_config_gap_count_optimization q)
get phy_config_gap_count q = get_phy_config_gap_count q
get self_id_phy_id q = get_self_id_phy_id q
get self_id_extended q = of_bool (get_self_id_extended q)
get self_id_zero_link_active q = of_bool (get_self_id_zero_link_active q)
get self_id_zero_gap_count q = get_self_id_zero_gap_count q
get self_id_zero_scode q = get_self_id_zero_scode q
get self_id_zero_contender q = of_bool (get_self_id_zero_contender q)
get self_id_zero_power_class q = get_self_id_zero_power_class q
get self_id_zero_initiated_reset q = of_bool (get_self_id_zero_initiated_reset q)
get self_id_more_packets q = of_bool (get_self_id_more_packets q)

-- A flag is set to the `bool` that C makes of the value.
pub set : Field → ℕ → ℕ → ℕ
set packet_identifier q v = set_packet_identifier q v
set phy_config_root_id q v = set_phy_config_root_id q v
set phy_config_force_root_node q v = set_phy_config_force_root_node q (v != 0)
set phy_config_gap_count_optimization q v = set_phy_config_gap_count_optimization q (v != 0)
set phy_config_gap_count q v = set_phy_config_gap_count q v
set self_id_phy_id q v = set_self_id_phy_id q v
set self_id_extended q v = set_self_id_extended q (v != 0)
set self_id_zero_link_active q v = set_self_id_zero_link_active q (v != 0)
set self_id_zero_gap_count q v = set_self_id_zero_gap_count q v
set self_id_zero_scode q v = set_self_id_zero_scode q v
set self_id_zero_contender q v = set_self_id_zero_contender q (v != 0)
set self_id_zero_power_class q v = set_self_id_zero_power_class q v
set self_id_zero_initiated_reset q v = set_self_id_zero_initiated_reset q (v != 0)
set self_id_more_packets q v = set_self_id_more_packets q (v != 0)

-- The lowest bit of a field, and its width.
abbrev pub low : Field → ℕ
low packet_identifier = 30
low phy_config_root_id = 24
low phy_config_force_root_node = 23
low phy_config_gap_count_optimization = 22
low phy_config_gap_count = 16
low self_id_phy_id = 24
low self_id_extended = 23
low self_id_zero_link_active = 22
low self_id_zero_gap_count = 16
low self_id_zero_scode = 14
low self_id_zero_contender = 11
low self_id_zero_power_class = 8
low self_id_zero_initiated_reset = 1
low self_id_more_packets = 0

abbrev pub width : Field → ℕ
width packet_identifier = 2
width phy_config_root_id = 6
width phy_config_force_root_node = 1
width phy_config_gap_count_optimization = 1
width phy_config_gap_count = 6
width self_id_phy_id = 6
width self_id_extended = 1
width self_id_zero_link_active = 1
width self_id_zero_gap_count = 6
width self_id_zero_scode = 2
width self_id_zero_contender = 1
width self_id_zero_power_class = 3
width self_id_zero_initiated_reset = 1
width self_id_more_packets = 1

-- What a field keeps of the value that is written.
abbrev pub stored : Field → ℕ → ℕ
stored phy_config_force_root_node v = of_bool (v != 0)
stored phy_config_gap_count_optimization v = of_bool (v != 0)
stored self_id_extended v = of_bool (v != 0)
stored self_id_zero_link_active v = of_bool (v != 0)
stored self_id_zero_contender v = of_bool (v != 0)
stored self_id_zero_initiated_reset v = of_bool (v != 0)
stored self_id_more_packets v = of_bool (v != 0)
stored f v = v % 2 ^ width f

-- Two fields have no bit in common.
abbrev pub apart : Field → Field → Bool
apart f g = leb (low f + width f) (low g) || leb (low g + width g) (low f)

ruleset getters = (
  get_packet_identifier_lem, get_phy_config_root_id_lem, get_phy_config_force_root_node_lem,
  get_phy_config_gap_count_optimization_lem, get_phy_config_gap_count_lem, get_self_id_phy_id_lem,
  get_self_id_extended_lem, get_self_id_zero_link_active_lem, get_self_id_zero_gap_count_lem,
  get_self_id_zero_scode_lem, get_self_id_zero_contender_lem, get_self_id_zero_power_class_lem,
  get_self_id_zero_initiated_reset_lem, get_self_id_more_packets_lem,
)

-- Any value can be written to any field of any word, and what is read back is the value cut to the
-- width of the field, or the truth value for a flag.
get-set_self_phy : (f : Field) (q v : ℕ) → q < 2 ^ 32 → get f (set f q v) ≡ stored f v
unfolding get set
get-set_self_phy packet_identifier q v fits =
    rw (set_packet_identifier_lem q v fits, get_packet_identifier_lem) (omega arith)
get-set_self_phy phy_config_root_id q v fits =
    rw (set_phy_config_root_id_lem q v fits, get_phy_config_root_id_lem) (omega arith)
get-set_self_phy phy_config_force_root_node q v fits =
    rw (set_phy_config_force_root_node_lem q (v != 0) fits, get_phy_config_force_root_node_lem)
      (ground arith)
get-set_self_phy phy_config_gap_count_optimization q v fits =
    rw
      (
        set_phy_config_gap_count_optimization_lem q (v != 0) fits,
        get_phy_config_gap_count_optimization_lem,
      )
      (ground arith)
get-set_self_phy phy_config_gap_count q v fits =
    rw (set_phy_config_gap_count_lem q v fits, get_phy_config_gap_count_lem) (omega arith)
get-set_self_phy self_id_phy_id q v fits =
    rw (set_self_id_phy_id_lem q v fits, get_self_id_phy_id_lem) (omega arith)
get-set_self_phy self_id_extended q v fits =
    rw (set_self_id_extended_lem q (v != 0) fits, get_self_id_extended_lem) (ground arith)
get-set_self_phy self_id_zero_link_active q v fits =
    rw (set_self_id_zero_link_active_lem q (v != 0) fits, get_self_id_zero_link_active_lem)
      (ground arith)
get-set_self_phy self_id_zero_gap_count q v fits =
    rw (set_self_id_zero_gap_count_lem q v fits, get_self_id_zero_gap_count_lem) (omega arith)
get-set_self_phy self_id_zero_scode q v fits =
    rw (set_self_id_zero_scode_lem q v fits, get_self_id_zero_scode_lem) (omega arith)
get-set_self_phy self_id_zero_contender q v fits =
    rw (set_self_id_zero_contender_lem q (v != 0) fits, get_self_id_zero_contender_lem)
      (ground arith)
get-set_self_phy self_id_zero_power_class q v fits =
    rw (set_self_id_zero_power_class_lem q v fits, get_self_id_zero_power_class_lem) (omega arith)
get-set_self_phy self_id_zero_initiated_reset q v fits =
    rw (set_self_id_zero_initiated_reset_lem q (v != 0) fits, get_self_id_zero_initiated_reset_lem)
      (ground arith)
get-set_self_phy self_id_more_packets q v fits =
    rw (set_self_id_more_packets_lem q (v != 0) fits, get_self_id_more_packets_lem) (ground arith)

-- Writing a field changes no field that lies apart from it.
get-set_other_phy :
    (f g : Field) (q v : ℕ) → apart f g ≡ true → q < 2 ^ 32 → get g (set f q v) ≡ get g q
unfolding get set
get-set_other_phy packet_identifier packet_identifier q v o fits = cc
get-set_other_phy packet_identifier g q v o fits =
    rw (set_packet_identifier_lem q v fits) (simp getters (omega arith))
get-set_other_phy phy_config_root_id phy_config_root_id q v o fits = cc
get-set_other_phy phy_config_root_id self_id_phy_id q v o fits = cc
get-set_other_phy phy_config_root_id g q v o fits =
    rw (set_phy_config_root_id_lem q v fits) (simp getters (omega arith))
get-set_other_phy phy_config_force_root_node phy_config_force_root_node q v o fits = cc
get-set_other_phy phy_config_force_root_node self_id_extended q v o fits = cc
get-set_other_phy phy_config_force_root_node g q v o fits =
    rw (set_phy_config_force_root_node_lem q (v != 0) fits) (simp getters (omega arith))
get-set_other_phy phy_config_gap_count_optimization phy_config_gap_count_optimization q v o fits =
    cc
get-set_other_phy phy_config_gap_count_optimization self_id_zero_link_active q v o fits = cc
get-set_other_phy phy_config_gap_count_optimization g q v o fits =
    rw (set_phy_config_gap_count_optimization_lem q (v != 0) fits) (simp getters (omega arith))
get-set_other_phy phy_config_gap_count phy_config_gap_count q v o fits = cc
get-set_other_phy phy_config_gap_count self_id_zero_gap_count q v o fits = cc
get-set_other_phy phy_config_gap_count g q v o fits =
    rw (set_phy_config_gap_count_lem q v fits) (simp getters (omega arith))
get-set_other_phy self_id_phy_id phy_config_root_id q v o fits = cc
get-set_other_phy self_id_phy_id self_id_phy_id q v o fits = cc
get-set_other_phy self_id_phy_id g q v o fits =
    rw (set_self_id_phy_id_lem q v fits) (simp getters (omega arith))
get-set_other_phy self_id_extended phy_config_force_root_node q v o fits = cc
get-set_other_phy self_id_extended self_id_extended q v o fits = cc
get-set_other_phy self_id_extended g q v o fits =
    rw (set_self_id_extended_lem q (v != 0) fits) (simp getters (omega arith))
get-set_other_phy self_id_zero_link_active phy_config_gap_count_optimization q v o fits = cc
get-set_other_phy self_id_zero_link_active self_id_zero_link_active q v o fits = cc
get-set_other_phy self_id_zero_link_active g q v o fits =
    rw (set_self_id_zero_link_active_lem q (v != 0) fits) (simp getters (omega arith))
get-set_other_phy self_id_zero_gap_count phy_config_gap_count q v o fits = cc
get-set_other_phy self_id_zero_gap_count self_id_zero_gap_count q v o fits = cc
get-set_other_phy self_id_zero_gap_count g q v o fits =
    rw (set_self_id_zero_gap_count_lem q v fits) (simp getters (omega arith))
get-set_other_phy self_id_zero_scode self_id_zero_scode q v o fits = cc
get-set_other_phy self_id_zero_scode g q v o fits =
    rw (set_self_id_zero_scode_lem q v fits) (simp getters (omega arith))
get-set_other_phy self_id_zero_contender self_id_zero_contender q v o fits = cc
get-set_other_phy self_id_zero_contender g q v o fits =
    rw (set_self_id_zero_contender_lem q (v != 0) fits) (simp getters (omega arith))
get-set_other_phy self_id_zero_power_class self_id_zero_power_class q v o fits = cc
get-set_other_phy self_id_zero_power_class g q v o fits =
    rw (set_self_id_zero_power_class_lem q v fits) (simp getters (omega arith))
get-set_other_phy self_id_zero_initiated_reset self_id_zero_initiated_reset q v o fits = cc
get-set_other_phy self_id_zero_initiated_reset g q v o fits =
    rw (set_self_id_zero_initiated_reset_lem q (v != 0) fits) (simp getters (omega arith))
get-set_other_phy self_id_more_packets self_id_more_packets q v o fits = cc
get-set_other_phy self_id_more_packets g q v o fits =
    rw (set_self_id_more_packets_lem q (v != 0) fits) (simp getters (omega arith))

-- A setter keeps the quadlet a 32-bit word.
pub set-lt_phy : (f : Field) (q v : ℕ) → q < 2 ^ 32 → set f q v < 2 ^ 32
unfolding set
set-lt_phy packet_identifier q v fits = rw (set_packet_identifier_lem q v fits) (omega arith)
set-lt_phy phy_config_root_id q v fits = rw (set_phy_config_root_id_lem q v fits) (omega arith)
set-lt_phy phy_config_force_root_node q v fits =
    rw (set_phy_config_force_root_node_lem q (v != 0) fits) (omega arith)
set-lt_phy phy_config_gap_count_optimization q v fits =
    rw (set_phy_config_gap_count_optimization_lem q (v != 0) fits) (omega arith)
set-lt_phy phy_config_gap_count q v fits = rw (set_phy_config_gap_count_lem q v fits) (omega arith)
set-lt_phy self_id_phy_id q v fits = rw (set_self_id_phy_id_lem q v fits) (omega arith)
set-lt_phy self_id_extended q v fits = rw (set_self_id_extended_lem q (v != 0) fits) (omega arith)
set-lt_phy self_id_zero_link_active q v fits =
    rw (set_self_id_zero_link_active_lem q (v != 0) fits) (omega arith)
set-lt_phy self_id_zero_gap_count q v fits =
    rw (set_self_id_zero_gap_count_lem q v fits) (omega arith)
set-lt_phy self_id_zero_scode q v fits = rw (set_self_id_zero_scode_lem q v fits) (omega arith)
set-lt_phy self_id_zero_contender q v fits =
    rw (set_self_id_zero_contender_lem q (v != 0) fits) (omega arith)
set-lt_phy self_id_zero_power_class q v fits =
    rw (set_self_id_zero_power_class_lem q v fits) (omega arith)
set-lt_phy self_id_zero_initiated_reset q v fits =
    rw (set_self_id_zero_initiated_reset_lem q (v != 0) fits) (omega arith)
set-lt_phy self_id_more_packets q v fits =
    rw (set_self_id_more_packets_lem q (v != 0) fits) (omega arith)

-- What is written to a field of a 32-bit word is read back, cut to the width of the field or as a
-- truth value, and a field that lies apart from it is read as before.
pub get-set_phy :
    (f g : Field) (q v : ℕ)
    → apart f g ≡ true
    → q < 2 ^ 32
    → (get f (set f q v) ≡ stored f v) × (get g (set f q v) ≡ get g q)
get-set_phy f g q v o fits = (get-set_self_phy f q v fits, get-set_other_phy f g q v o fits)
