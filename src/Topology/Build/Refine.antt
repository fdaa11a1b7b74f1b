-- ===== src/Topology/Build/Refine.antt =====
-- `build_tree` against the tree that the self-IDs describe.
use linux_firewire_dkms.Prelude.{Option, none, List, [], ◌∷◌}
use linux_firewire_dkms.Topology.Hops.{Measure}
use linux_firewire_dkms.Topology.Longest.{Tree}
use linux_firewire_dkms.Topology.Wiring.{measure_of}
use linux_firewire_dkms.Topology.Build.{Topology}
use linux_firewire_dkms.Topology.Build.Shape.{tree_hops}
use linux_firewire_dkms.Topology.Build.Measured.{Measured}

-- The hop counts of the root, and of the tree that was described last.
abbrev pub root_hops : Topology → Option Measure
root_hops t = measure_of t.nodes t.root_node

abbrev pub last_hops : List Tree → Option Measure
last_hops [] = none
last_hops (t ∷ ts) = tree_hops t
