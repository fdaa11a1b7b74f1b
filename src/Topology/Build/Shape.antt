-- ===== src/Topology/Build/Shape.antt =====
-- The tree that a bus's self-IDs describe, and the hop counts that `build_tree` gives its nodes.
use linux_firewire_dkms.Prelude.{
  ℕ, zero, suc, ◌+◌, Option, some, List, [], ◌∷◌, drop, ◌==◌, if◌then◌else◌,
}
use linux_firewire_dkms.SelfId.{
  Enumerator, found, enumerator_next, get_port_status, get_port_capacity, status_child,
}
use linux_firewire_dkms.Topology.Hops.{Measure}
use linux_firewire_dkms.Topology.Longest.{Tree, Ports, node, end, unconnected, child, measure}
use linux_firewire_dkms.Topology.Wiring.{Counts, count_ports}
use linux_firewire_dkms.Topology.Build.{children_of, at_cursor}

-- The ports of a node, of which those with a child take the trees in turn.
unfoldable pub ports_of : (ℕ → ℕ) → ℕ → ℕ → List Tree → Ports
ports_of status port zero ts = end
ports_of status port (suc left) [] = unconnected (ports_of status (port + 1) left [])
ports_of status port (suc left) (t ∷ ts) =
    let with_child = child t (ports_of status (port + 1) left ts) in
    let without = unconnected (ports_of status (port + 1) left (t ∷ ts)) in
    if status port == status_child then with_child else without

-- A node takes as its children the trees that came last, the earliest of them at its first port.
unfoldable pub graft : (ℕ → ℕ) → Counts → List Tree → List Tree
graft status counts ts =
    node (ports_of status 0 counts.total (children_of counts.child ts)) ∷ drop counts.child ts

-- The trees that the self-IDs describe, the last first.
unfoldable pub describe : ℕ → Enumerator → List Tree → List Tree
describe zero e ts = ts
describe (suc fuel) e ts = if e.quadlet_count == 0 then ts else elim (enumerator_next e) [
  | found count e' ↦
      let status = get_port_status (at_cursor e.cursor) count in
      describe fuel e' (graft status (count_ports status 0 (get_port_capacity count)) ts)
  | _ ↦ ts
]

abbrev pub tree_hops : Tree → Option Measure
tree_hops t = some (measure t)
