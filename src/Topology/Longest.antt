-- ===== src/Topology/Longest.antt =====
-- A tree of nodes measured bottom-up, and what a path between two of its nodes is.
pub mod Bound
pub mod Reached
pub mod Stored
use linux_firewire_dkms.Prelude.{ℕ, suc, ◌+◌, ◌≡◌, Option, none, some, List, [], ◌∷◌}
use linux_firewire_dkms.Topology.Hops.{Measure, hop_counts, update_hop_count}

mutual
  pub data Tree : Type 0 where
    node : Ports → Tree

  pub data Ports : Type 0 where
    end : Ports
    unconnected : Ports → Ports
    child : Tree → Ports → Ports

-- The order in which `build_tree` measures: every child before its parent.
unfoldable mutual
  pub measure : Tree → Measure
  measure (node ports) = update_hop_count (measures ports)

  pub measures : Ports → List (Option Measure)
  measures end = []
  measures (unconnected ports) = none ∷ measures ports
  measures (child t ports) = some (measure t) ∷ measures ports

-- The same without the limit of the fields.
unfoldable mutual
  pub exact : Tree → Measure
  exact (node ports) = hop_counts (exacts ports)

  pub exacts : Ports → List (Option Measure)
  exacts end = []
  exacts (unconnected ports) = none ∷ exacts ports
  exacts (child t ports) = some (exact t) ∷ exacts ports

mutual
  -- A node lies `n` hops below the root of the tree.
  pub data Below : Tree → ℕ → Type 0 where
    root : {ps : Ports} → Below (node ps) 0
    down : {ps : Ports} {n : ℕ} → BelowPorts ps n → Below (node ps) n

  -- A node lies `n` hops from the node that has these ports, through one of them.
  pub data BelowPorts : Ports → ℕ → Type 0 where
    skip_empty : {ps : Ports} {n : ℕ} → BelowPorts ps n → BelowPorts (unconnected ps) n
    skip : {t : Tree} {ps : Ports} {n : ℕ} → BelowPorts ps n → BelowPorts (child t ps) n
    enter : {t : Tree} {ps : Ports} {n : ℕ} → Below t n → BelowPorts (child t ps) (suc n)

-- Two nodes behind different ports lie `n` hops apart.
pub data Across : Ports → ℕ → Type 0 where
  skip_empty : {ps : Ports} {n : ℕ} → Across ps n → Across (unconnected ps) n
  skip : {t : Tree} {ps : Ports} {n : ℕ} → Across ps n → Across (child t ps) n
  pair :
      {t : Tree} {ps : Ports} {m n k : ℕ}
      → Below t m
      → BelowPorts ps n
      → k ≡ suc m + n
      → Across (child t ps) k

mutual
  -- Two nodes of the tree lie `n` hops apart: one above the other, behind different ports of the
  -- root, or both behind one of them.
  pub data Apart : Tree → ℕ → Type 0 where
    vertical : {t : Tree} {n : ℕ} → Below t n → Apart t n
    across : {ps : Ports} {n : ℕ} → Across ps n → Apart (node ps) n
    inside : {ps : Ports} {n : ℕ} → ApartPorts ps n → Apart (node ps) n

  pub data ApartPorts : Ports → ℕ → Type 0 where
    skip_empty : {ps : Ports} {n : ℕ} → ApartPorts ps n → ApartPorts (unconnected ps) n
    skip : {t : Tree} {ps : Ports} {n : ℕ} → ApartPorts ps n → ApartPorts (child t ps) n
    enter : {t : Tree} {ps : Ports} {n : ℕ} → Apart t n → ApartPorts (child t ps) n
