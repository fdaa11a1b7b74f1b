-- ===== src/Topology/Hops.antt =====
-- `update_hop_count`. What the function reads of a port is the `max_depth` and `max_hops` of the
-- node behind it, or that there is none.
use linux_firewire_dkms.Prelude.{
  ℕ, ◌+◌, ◌%◌, ◌^◌, max, Option, none, some, List, [], ◌∷◌, ltb, if◌then◌else◌,
}

pub record Measure : Type 0 where
  pub max_depth : ℕ
  pub max_hops : ℕ

-- `depths[0]` and `depths[1]` start at -1: each is kept here one higher than in C.
pub record Best : Type 0 where
  pub max_child_hops : ℕ
  pub first : ℕ
  pub second : ℕ

unfoldable pub see : Best → Measure → Best
see b c =
    let hops = if ltb b.max_child_hops c.max_hops then c.max_hops else b.max_child_hops in
    if ltb b.first (c.max_depth + 1)
    then record { max_child_hops = hops; first = c.max_depth + 1; second = b.first }
    else if ltb b.second (c.max_depth + 1)
    then record { max_child_hops = hops; first = b.first; second = c.max_depth + 1 }
    else record { max_child_hops = hops; first = b.first; second = b.second }

unfoldable pub scan_ports : Best → List (Option Measure) → Best
scan_ports b [] = b
scan_ports b (none ∷ ports) = scan_ports b ports
scan_ports b (some c ∷ ports) = scan_ports (see b c) ports

-- The two results, before they are stored.
unfoldable pub hop_counts : List (Option Measure) → Measure
hop_counts ports =
    let b = scan_ports (record { max_child_hops = 0; first = 0; second = 0 }) ports in
    record { max_depth = b.first; max_hops = max b.max_child_hops (b.first + b.second) }

-- `max_depth` and `max_hops` are fields of four bits.
unfoldable pub update_hop_count : List (Option Measure) → Measure
update_hop_count ports =
    let c = hop_counts ports in
    record { max_depth = c.max_depth % 2 ^ 4; max_hops = c.max_hops % 2 ^ 4 }
