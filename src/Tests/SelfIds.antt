-- ===== src/Tests/SelfIds.antt =====
-- Self-ID sequences and trees at concrete inputs.
use linux_firewire_dkms.Prelude.{
  ℕ, ◌-◌, ◌<◌, ◌≤◌, ◌≡◌, ◌≢◌, refl, true, false, some, none, List, [], ◌∷◌, ◌++◌, arith, field_get,
  take, drop,
}
use linux_firewire_dkms.Packet.Phy.{
  get_self_id_more_packets, get_self_id_extended, get_self_id_extended_sequence,
}
use linux_firewire_dkms.SelfId.{
  Enumerator, enumerator_next, found, fault, get_port_status, set_port_status,
}
use linux_firewire_dkms.SelfId.Walk.{
  IsSequence, enumerator_next-safe, enumerator_next_sound, enumerator_next_complete,
}
use linux_firewire_dkms.SelfId.Ports.{get-set_port_status}
use linux_firewire_dkms.Topology.Hops.{hop_counts, scan_ports, see}
use linux_firewire_dkms.Topology.Longest.{
  Tree, Ports, measure, exact, exacts, Apart, Below, root, vertical,
}
use linux_firewire_dkms.Topology.Longest.Bound.{Apart-le-max_hops}
use linux_firewire_dkms.Topology.Build.{Card, Topology, Built, built, build_tree}
use linux_firewire_dkms.Topology.Build.Rounds.{IsEnded, build_tree-IsEnded}
use linux_firewire_dkms.Topology.Longest.Stored.{max_hops-Apart, daisy_chain, daisy_chain_lem}

-- A node with two quadlets, and the first quadlet of the next.
abbrev two : List ℕ
two = 0x80458081 ∷ 0x80800000 ∷ []

abbrev next : List ℕ
next = 0x81400000 ∷ []

two-IsSequence : IsSequence two
unfolding get_self_id_more_packets get_self_id_extended get_self_id_extended_sequence field_get
two-IsSequence = ((refl, refl, refl, refl), omega arith)

enumerator_next-safe_example :
    enumerator_next (record { cursor = some (two ++ next); quadlet_count = 3 }) ≢ fault
enumerator_next-safe_example = enumerator_next-safe (two ++ next) 3 (omega arith)

first_call :
    enumerator_next (record { cursor = some (two ++ next); quadlet_count = 3 })
    ≡ found 2 (record { cursor = some next; quadlet_count = 1 })
first_call = enumerator_next_complete two next 3 two-IsSequence (omega arith)

abbrev at_next : Enumerator
at_next = record { cursor = some next; quadlet_count = 1 }

enumerator_next_sound_example :
    IsSequence (take 2 (two ++ next))
    × (0 < 2)
    × (2 ≤ 3)
    × (at_next ≡ record { cursor = some (drop 2 (two ++ next)); quadlet_count = 3 - 2 })
enumerator_next_sound_example = enumerator_next_sound (two ++ next) 3 first_call

enumerator_next_complete_example :
    enumerator_next (record { cursor = some (two ++ next); quadlet_count = 3 })
    ≡ found 2 (record { cursor = some next; quadlet_count = 1 })
enumerator_next_complete_example = enumerator_next_complete two next 3 two-IsSequence (omega arith)

get-set_port_status_example :
    get_port_status (set_port_status two 2 4 3) 2 0 ≡ get_port_status two 2 0
get-set_port_status_example =
    get-set_port_status two 2 4 0 3 (omega arith) (omega arith) (omega arith) (omega arith)
      (omega arith) (omega arith)

-- A root with a leaf on one port and a node with a leaf on another.
abbrev leaf : Tree
leaf = Tree.node (Ports.unconnected Ports.end)

abbrev three_deep : Tree
three_deep = Tree.node (
    Ports.child leaf
      (Ports.unconnected (Ports.child (Tree.node (Ports.child leaf Ports.end)) Ports.end)))

three_deep-short : (k : ℕ) → Apart three_deep k → k < 16
unfolding exact exacts hop_counts scan_ports see
three_deep-short k a =
    let measured : (exact three_deep).max_hops ≡ 3 = refl in omega (arith, Apart-le-max_hops a)

three-Below : Below three_deep 0
three-Below = root

max_hops-Apart_example :
    Apart three_deep (measure three_deep).max_hops × (0 ≤ (measure three_deep).max_hops)
max_hops-Apart_example = max_hops-Apart three_deep 0 three_deep-short (vertical three-Below)

daisy_chain_lem_example : Apart (daisy_chain 16) 16 × ((measure (daisy_chain 16)).max_hops ≡ 0)
daisy_chain_lem_example = daisy_chain_lem 16

-- Two leaves and a root with one of them at each of two ports.
abbrev three_nodes : List ℕ
three_nodes = 0x803f0094 ∷ 0x813f0094 ∷ 0x823f00f4 ∷ []

abbrev card : Card
card = record { node_id = 0xffc2; color = 7; has_memory = λ n. true }

build_tree-IsEnded_example : IsEnded (build_tree card three_nodes 3)
build_tree-IsEnded_example = build_tree-IsEnded card three_nodes 3 (omega arith)

abbrev topology_of : Built → Topology
topology_of (built t) = t
topology_of r = record {
  nodes = [];
  root_node = none;
  irm_node = none;
  gap_count = 0;
  beta_repeaters_present = false;
  local_node = none;
}
