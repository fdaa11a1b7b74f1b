-- ===== src/Topology/Wiring.antt =====
-- `fw_node_create` of drivers/firewire/core-topology.c, and what its `build_tree` does to connect a
-- new node with its children. A pointer to a node is the number of the node in the order of
-- creation, and a list `nodes` is the memory behind them.
use linux_firewire_dkms.Prelude.{
  ℕ, zero, suc, ◌+◌, ◌%◌, ◌^◌, Bool, ◌||◌, Option, none, some, List, [], ◌∷◌, map, length,
  get_elem?, set, replicate, bit_or, ltb, ◌==◌, if◌then◌else◌,
}
use linux_firewire_dkms.Packet.Phy.{
  get_self_id_phy_id, get_self_id_zero_link_active, get_self_id_zero_scode,
  get_self_id_zero_initiated_reset,
}
use linux_firewire_dkms.SelfId.{status_nconn, status_parent, status_child}
use linux_firewire_dkms.Topology.Hops.{Measure, update_hop_count}

abbrev pub u8 : ℕ → ℕ
u8 n = n % 2 ^ 8

-- struct fw_node, but for the list and reference links.
pub record Node : Type 0 where
  pub node_id : ℕ
  pub color : ℕ
  pub port_count : ℕ
  pub link_on : Bool
  pub initiated_reset : Bool
  pub phy_speed : ℕ
  pub ports : List (Option ℕ)
  pub hops : Measure

abbrev local_bus : ℕ
local_bus = 0xffc0

unfoldable pub node_create : ℕ → ℕ → ℕ → Node
node_create sid port_count color = record {
  node_id = bit_or local_bus (get_self_id_phy_id sid);
  color = color;
  port_count = u8 port_count;
  link_on = get_self_id_zero_link_active sid;
  initiated_reset = get_self_id_zero_initiated_reset sid;
  phy_speed = get_self_id_zero_scode sid;
  ports = replicate port_count none;
  hops = record { max_depth = 0; max_hops = 0 };
}

-- child_port_count and total_port_count.
pub record Counts : Type 0 where
  pub child : ℕ
  pub total : ℕ

-- The status of a port as the first loop counts it, and the loop over `left` ports from `port` on.
unfoldable pub count_port : ℕ → Counts → Counts
count_port status c =
    if status == status_child
    then record { child = c.child + 1; total = c.total + 1 }
    else if status == status_parent || status == status_nconn
    then record { child = c.child; total = c.total + 1 }
    else record { child = c.child; total = c.total }

unfoldable pub count_ports : (ℕ → ℕ) → ℕ → ℕ → Counts
count_ports status port zero = record { child = 0; total = 0 }
count_ports status port (suc left) = count_port (status port) (count_ports status (port + 1) left)

-- The second loop: the nodes made before, the new node, parent_count, and the nodes of the stack
-- that `child` has still to pass.
pub record Wiring : Type 0 where
  pub nodes : List Node
  pub node : Node
  pub parent_count : ℕ
  pub children : List ℕ

abbrev pub with_port : Node → ℕ → Option ℕ → ℕ → Node
with_port n port target color = record {
  node_id = n.node_id;
  color = color;
  port_count = n.port_count;
  link_on = n.link_on;
  initiated_reset = n.initiated_reset;
  phy_speed = n.phy_speed;
  ports = set n.ports port target;
  hops = n.hops;
}

abbrev pub with_color : Node → ℕ → Node
with_color n color = record {
  node_id = n.node_id;
  color = color;
  port_count = n.port_count;
  link_on = n.link_on;
  initiated_reset = n.initiated_reset;
  phy_speed = n.phy_speed;
  ports = n.ports;
  hops = n.hops;
}

-- child->ports[child->color] = node; child->color = card->color. None for a write past the ports.
unfoldable pub fix_up : ℕ → ℕ → List Node → ℕ → Option (List Node)
fix_up color me nodes child = elim (get_elem? nodes child) [
  | none ↦ none
  | some c ↦
      if ltb c.color (length c.ports)
      then some (set nodes child (with_port c c.color (some me) color))
      else none
]

-- A port with a child: none where no child is left on the stack, or for a write past the ports.
unfoldable pub connect_child : ℕ → ℕ → ℕ → Wiring → Option Wiring
connect_child color me port w = elim w.children [
  | [] ↦ none
  | child ∷ rest ↦ elim (fix_up color me w.nodes child) [
    | none ↦ none
    | some nodes ↦
        if ltb port (length w.node.ports)
        then some (record {
          nodes = nodes;
          node = with_port w.node port (some child) w.node.color;
          parent_count = w.parent_count;
          children = rest;
        })
        else none
  ]
]

unfoldable pub connect_port : ℕ → ℕ → ℕ → ℕ → Wiring → Option Wiring
connect_port color me status port w =
    if status == status_parent
    then some (record {
      nodes = w.nodes;
      node = with_color w.node (u8 port);
      parent_count = w.parent_count + 1;
      children = w.children;
    })
    else if status == status_child
    then connect_child color me port w
    else some w

unfoldable pub connect_ports : ℕ → ℕ → (ℕ → ℕ) → ℕ → ℕ → Wiring → Option Wiring
connect_ports color me status port zero w = some w
connect_ports color me status port (suc left) w =
    elim (connect_port color me (status port) port w) [
      | none ↦ none
      | some w' ↦ connect_ports color me status (port + 1) left w'
    ]

-- update_hop_count(node)
abbrev pub measure_of : List Node → Option ℕ → Option Measure
measure_of nodes none = none
measure_of nodes (some c) = elim (get_elem? nodes c) [ none ↦ none | some n ↦ some n.hops ]

unfoldable pub with_hop_count : List Node → Node → Node
with_hop_count nodes n = record {
  node_id = n.node_id;
  color = n.color;
  port_count = n.port_count;
  link_on = n.link_on;
  initiated_reset = n.initiated_reset;
  phy_speed = n.phy_speed;
  ports = n.ports;
  hops = update_hop_count (map (measure_of nodes) n.ports);
}
