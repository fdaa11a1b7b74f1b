-- ===== src/Topology/Longest/Bound.antt =====
-- No path of a tree is longer than the hops that the measure without a limit has.
use linux_firewire_dkms.Prelude.{ℕ, ◌+◌, ◌≤◌, arith, Option, none, some, List, [], ◌∷◌}
use linux_firewire_dkms.Topology.Hops.{Measure, Best, see, scan_ports, hop_counts}
use linux_firewire_dkms.Topology.Longest.{
  Tree, Ports, node, exact, exacts, Below, BelowPorts, Across, Apart, ApartPorts,
}
use linux_firewire_dkms.Topology.Longest.{root, down, pair, vertical, across, inside}

-- What the loop keeps of where it started.
record Grows (b c : Best) : Type 0 where
  ordered : c.second ≤ c.first
  first_up : b.first ≤ c.first
  sum_up : b.first + b.second ≤ c.first + c.second
  hops_up : b.max_child_hops ≤ c.max_child_hops

see-Grows : (b : Best) (m : Measure) → b.second ≤ b.first → Grows b (see b m)
unfolding see
see-Grows b m h = ground arith

scan-Grows :
    (b : Best) (ps : List (Option Measure)) → b.second ≤ b.first → Grows b (scan_ports b ps)
unfolding scan_ports
scan-Grows b [] h = omega arith
scan-Grows b (none ∷ ps) h = scan-Grows b ps h
scan-Grows b (some m ∷ ps) h =
    let g = see-Grows b m h in let r = scan-Grows (see b m) ps g.ordered in omega arith

see_takes :
    (b : Best) (m : Measure)
    → b.second ≤ b.first
    → let c = see b m in
      (m.max_depth + 1 ≤ c.first)
      × (b.first + m.max_depth + 1 ≤ c.first + c.second)
      × (m.max_hops ≤ c.max_child_hops)
unfolding see
see_takes b m h = ground arith

abbrev pub start : Best
start = record { max_child_hops = 0; first = 0; second = 0 }

mutual
  unfolding exact exacts scan_ports hop_counts

  Below-le : {t : Tree} {n : ℕ} → Below t n → n ≤ (exact t).max_depth
  Below-le root = omega arith
  Below-le (down b) = (BelowPorts-le start (omega arith) b).0

  BelowPorts-le :
      {ps : Ports} {n : ℕ} (b : Best)
      → b.second ≤ b.first
      → BelowPorts ps n
      → let c = scan_ports b (exacts ps) in (n ≤ c.first) × (b.first + n ≤ c.first + c.second)
  BelowPorts-le b o (BelowPorts.skip_empty p) = BelowPorts-le b o p
  BelowPorts-le b o (BelowPorts.skip {t} p) =
      let g = see-Grows b (exact t) o in
      let r = BelowPorts-le (see b (exact t)) g.ordered p in (r.0, omega arith)
  BelowPorts-le b o (BelowPorts.enter {t} {ps} below) =
      let g = see-Grows b (exact t) o in
      let s = scan-Grows (see b (exact t)) (exacts ps) g.ordered in
      (
        omega (arith, see_takes b (exact t) o, Below-le below),
        omega (arith, see_takes b (exact t) o, Below-le below),
      )

pub depth-le-max_hops : (t : Tree) → (exact t).max_depth ≤ (exact t).max_hops
unfolding exact hop_counts
depth-le-max_hops (node ps) = omega arith

Across-le :
    {ps : Ports} {n : ℕ} (b : Best)
    → b.second ≤ b.first
    → Across ps n
    → let c = scan_ports b (exacts ps) in n ≤ c.first + c.second
unfolding exacts scan_ports
Across-le b o (Across.skip_empty p) = Across-le b o p
Across-le b o (Across.skip {t} p) = Across-le (see b (exact t)) (see-Grows b (exact t) o).ordered p
Across-le b o (pair {t} below other e) = omega (
  arith,
  see_takes b (exact t) o,
  Below-le below,
  BelowPorts-le (see b (exact t)) (see-Grows b (exact t) o).ordered other,
)

mutual
  unfolding exact exacts scan_ports hop_counts

  pub Apart-le-max_hops : {t : Tree} {n : ℕ} → Apart t n → n ≤ (exact t).max_hops
  Apart-le-max_hops (vertical {t} b) = omega (arith, Below-le b, depth-le-max_hops t)
  Apart-le-max_hops (across a) = omega (arith, Across-le start (omega arith) a)
  Apart-le-max_hops (inside a) = omega (arith, ApartPorts-le start (omega arith) a)

  ApartPorts-le :
      {ps : Ports} {n : ℕ} (b : Best)
      → b.second ≤ b.first
      → ApartPorts ps n
      → n ≤ (scan_ports b (exacts ps)).max_child_hops
  ApartPorts-le b o (ApartPorts.skip_empty p) = ApartPorts-le b o p
  ApartPorts-le b o (ApartPorts.skip {t} p) =
      ApartPorts-le (see b (exact t)) (see-Grows b (exact t) o).ordered p
  ApartPorts-le b o (ApartPorts.enter {t} {ps} a) =
      let g = see-Grows b (exact t) o in
      let s = scan-Grows (see b (exact t)) (exacts ps) g.ordered in
      omega (arith, see_takes b (exact t) o, Apart-le-max_hops a)
