-- ===== src/Topology/Build.antt =====
-- `build_tree` of drivers/firewire/core-topology.c. A pointer to a node is the
-- number of the node in the order of creation, and a list `nodes` is the memory behind them.
pub mod Wires
pub mod Ports
pub mod Rounds
pub mod Shape
pub mod Hopcount
pub mod Measured
pub mod Refine
use linux_firewire_dkms.Prelude.{
  ℕ, zero, suc, ◌+◌, ◌-◌, ◌%◌, ◌^◌, Bool, true, false, ◌&&◌, ◌||◌, Option, none, some, List, [],
  ◌∷◌, ◌++◌, map, length, get_elem?, get_or, set, take, drop, replicate, bit_and, bit_or, ltb, ◌==◌,
  ◌!=◌, if◌then◌else◌,
}
use linux_firewire_dkms.Packet.Phy.{
  get_self_id_phy_id, get_self_id_zero_link_active, get_self_id_zero_gap_count,
  get_self_id_zero_scode, get_self_id_zero_contender, get_self_id_zero_initiated_reset,
}
use linux_firewire_dkms.SelfId.{
  Enumerator, enumerator_next, get_port_capacity, get_port_status, status_none, status_nconn,
  status_parent, status_child, Next, found, no_data, protocol_error,
}
use linux_firewire_dkms.Topology.Wiring.{
  u8, Node, node_create, Counts, count_port, count_ports, Wiring, with_port, with_color, fix_up,
  connect_child, connect_port, connect_ports, measure_of, with_hop_count,
}
use linux_firewire_dkms.Topology.Hops.{Measure, update_hop_count}

-- What the function reads of struct fw_card, and whether `kzalloc` succeeds for each node.
pub record Card : Type 0 where
  pub node_id : ℕ
  pub color : ℕ
  pub has_memory : ℕ → Bool

-- The variables of the loop over the self-IDs; the top of the stack comes first. The number of the
-- next node is `length nodes`, which is `phy_id`.
pub record Progress : Type 0 where
  pub nodes : List Node
  pub stack : List ℕ
  pub stack_depth : ℕ
  pub phy_id : ℕ
  pub local_node : Option ℕ
  pub irm_node : Option ℕ
  pub gap_count : ℕ
  pub beta_repeaters_present : Bool

-- Why the function returns NULL.
pub data Reason : Type 0 where
  inconsistent_extended_self_ids phy_id_mismatch topology_stack_underflow out_of_memory
        parent_port_inconsistency :
      Reason

-- One round of the loop; a fault is a use of a pointer that is not one to a node, or a write past
-- a node's ports.
pub data Round : Type 0 where
  next : Progress → Round
  failed : Reason → Round
  fault : Round

abbrev pub scode_beta : ℕ
scode_beta = 3

abbrev pub gap_count_mismatched : ℕ
gap_count_mismatched = 0

abbrev pub reverse_onto {ℓ} : {A : Type ℓ} → List A → List A → List A
reverse_onto [] ys = ys
reverse_onto (x ∷ xs) ys = reverse_onto xs (x ∷ ys)

-- The nodes from `h` on towards the top of the stack.
unfoldable pub children_of {ℓ} : {A : Type ℓ} → ℕ → List A → List A
children_of count stack = reverse_onto (take count stack) []

-- What is left to do with the node once its ports are connected; `sid` is its first quadlet, and
-- `left` the quadlets behind its self-ID.
unfoldable pub finish_node : Card → Progress → ℕ → Counts → ℕ → Wiring → Round
finish_node card p sid counts left w =
    let n = with_hop_count w.nodes w.node in
    if (left == 0 && w.parent_count != 0) || (ltb 0 left && w.parent_count != 1)
    then failed parent_port_inconsistency
    else next (record {
      nodes = w.nodes ++ (n ∷ []);
      stack = length p.nodes ∷ drop counts.child p.stack;
      stack_depth = p.stack_depth + 1 - counts.child;
      phy_id = p.phy_id + 1;
      local_node =
          if p.phy_id == bit_and card.node_id 0x3f then some (length p.nodes) else p.local_node;
      irm_node = if get_self_id_zero_contender sid then some (length p.nodes) else p.irm_node;
      gap_count =
          if get_self_id_zero_gap_count sid != p.gap_count
          then gap_count_mismatched
          else p.gap_count;
      beta_repeaters_present =
          p.beta_repeaters_present
          || (n.phy_speed == scode_beta && ltb 1 (w.parent_count + counts.child));
    })

unfoldable pub wired : Card → Progress → ℕ → Counts → ℕ → Option Wiring → Round
wired card p sid counts left none = fault
wired card p sid counts left (some w) = finish_node card p sid counts left w

-- A self-ID whose quadlets begin with `sid`, and whose ports have the given states.
unfoldable pub add_node : Card → Progress → ℕ → (ℕ → ℕ) → Counts → ℕ → Round
add_node card p sid status counts left =
    if p.phy_id != get_self_id_phy_id sid
    then failed phy_id_mismatch
    else if ltb p.stack_depth counts.child
    then failed topology_stack_underflow
    else if card.has_memory p.phy_id
    then wired card p sid counts left (
        connect_ports card.color (length p.nodes) status 0 counts.total (record {
          nodes = p.nodes;
          node = node_create sid counts.total card.color;
          parent_count = 0;
          children = children_of counts.child p.stack;
        }))
    else failed out_of_memory

-- The fields of the card that are set, and the node that is returned.
pub record Topology : Type 0 where
  pub nodes : List Node
  pub root_node : Option ℕ
  pub irm_node : Option ℕ
  pub gap_count : ℕ
  pub beta_repeaters_present : Bool
  pub local_node : Option ℕ

pub data Built : Type 0 where
  built : Topology → Built
  invalid : Reason → Built
  undefined : Built
  unfinished : Built

-- `node` is NULL until the first round, and then the node at the top of the stack.
abbrev pub last_node : List ℕ → Option ℕ
last_node [] = none
last_node (n ∷ stack) = some n

unfoldable pub finish : Progress → Built
finish p = built (record {
  nodes = p.nodes;
  root_node = last_node p.stack;
  irm_node = p.irm_node;
  gap_count = p.gap_count;
  beta_repeaters_present = p.beta_repeaters_present;
  local_node = p.local_node;
})

abbrev pub at_cursor : Option (List ℕ) → List ℕ
at_cursor none = []
at_cursor (some qs) = qs

unfoldable pub round_at : Card → Progress → List ℕ → ℕ → ℕ → Round
round_at card p qs count left =
    add_node card p (get_or qs 0 0) (get_port_status qs count)
      (count_ports (get_port_status qs count) 0 (get_port_capacity count)) left

-- The loop, with fuel for its rounds.
unfoldable pub build_loop : Card → ℕ → Enumerator → Progress → Built
build_loop card zero e p = if e.quadlet_count == 0 then finish p else unfinished
build_loop card (suc fuel) e p =
    if e.quadlet_count == 0 then finish p else elim (enumerator_next e) [
      | found count e' ↦ elim (round_at card p (at_cursor e.cursor) count e'.quadlet_count) [
        | next p' ↦ build_loop card fuel e' p'
        | failed why ↦ invalid why
        | fault ↦ undefined
      ]
      | no_data ↦ finish p
      | protocol_error ↦ invalid inconsistent_extended_self_ids
      | Next.fault ↦ undefined
    ]

unfoldable pub build_tree : Card → List ℕ → ℕ → Built
build_tree card sid self_id_count =
    build_loop card self_id_count (record { cursor = some sid; quadlet_count = self_id_count })
      (record {
        nodes = [];
        stack = [];
        stack_depth = 0;
        phy_id = 0;
        local_node = none;
        irm_node = none;
        gap_count = get_self_id_zero_gap_count (get_or sid 0 0);
        beta_repeaters_present = false;
      })
