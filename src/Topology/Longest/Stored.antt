-- ===== src/Topology/Longest/Stored.antt =====
-- The measure that fits the fields of a node, and the one that does not.
use linux_firewire_dkms.Prelude.{
  ℕ, zero, suc, ◌%◌, ◌^◌, ◌≤◌, ◌<◌, ◌≡◌, refl, sym, ◌∙◌, ap, ap₂, arith, none, some, [], ◌∷◌,
}
use mathlib.Core.Path.{subst}
use linux_firewire_dkms.Topology.Hops.{Measure, hop_counts, update_hop_count, scan_ports, see}
use linux_firewire_dkms.Topology.Longest.{
  Tree, Ports, node, end, unconnected, child, measure, measures, exact, exacts, Apart, ApartPorts,
  Below, BelowPorts, inside, vertical, root, down,
}
use linux_firewire_dkms.Topology.Longest.Bound.{Apart-le-max_hops, depth-le-max_hops}
use linux_firewire_dkms.Topology.Longest.Reached.{max_hops_reached}

abbrev stored : Measure → Measure
stored m = record { max_depth = m.max_depth % 2 ^ 4; max_hops = m.max_hops % 2 ^ 4 }

stored_small : (m : Measure) → m.max_depth ≤ m.max_hops → m.max_hops < 16 → stored m ≡ m
stored_small m deep small = ground arith

mutual
  unfolding measure measures exact exacts update_hop_count

  measure-exact : (t : Tree) → ((n : ℕ) → Apart t n → n < 16) → measure t ≡ exact t
  measure-exact (node ps) short =
      ap (λ ms. stored (hop_counts ms)) (measures-exacts ps (λ n a. short n (inside a)))
      ∙ stored_small (exact (node ps)) (depth-le-max_hops (node ps))
          (short (exact (node ps)).max_hops (max_hops_reached (node ps)))

  measures-exacts : (ps : Ports) → ((n : ℕ) → ApartPorts ps n → n < 16) → measures ps ≡ exacts ps
  measures-exacts end short = refl
  measures-exacts (unconnected ps) short =
      ap (λ ms. none ∷ ms) (measures-exacts ps (λ n a. short n (ApartPorts.skip_empty a)))
  measures-exacts (child t ps) short =
      ap₂ (λ m ms. some m ∷ ms) (measure-exact t (λ n a. short n (ApartPorts.enter a)))
        (measures-exacts ps (λ n a. short n (ApartPorts.skip a)))

-- In a tree of nodes measured bottom-up, of which no two nodes lie 16 hops apart or more: some two
-- nodes lie `max_hops` apart, and no two lie further apart.
pub max_hops-Apart :
    (t : Tree) (n : ℕ)
    → ((k : ℕ) → Apart t k → k < 16)
    → Apart t n
    → Apart t (measure t).max_hops × (n ≤ (measure t).max_hops)
max_hops-Apart t n short a =
    let same = sym (ap (λ m. m.max_hops) (measure-exact t short)) in
    (subst (Apart t) same (max_hops_reached t), omega (arith, Apart-le-max_hops a))

-- A node with `n` more below it, one under the other.
unfoldable pub daisy_chain : ℕ → Tree
daisy_chain zero = node end
daisy_chain (suc n) = node (child (daisy_chain n) end)

one_child :
    (n : ℕ)
    → update_hop_count (some (record { max_depth = n % 16; max_hops = n % 16 }) ∷ [])
      ≡ record { max_depth = suc n % 16; max_hops = suc n % 16 }
unfolding update_hop_count hop_counts scan_ports see
one_child n = ground arith

chain_measure : (n : ℕ) → measure (daisy_chain n) ≡ record { max_depth = n % 16; max_hops = n % 16 }
unfolding daisy_chain measure measures update_hop_count hop_counts scan_ports
chain_measure zero = refl
chain_measure (suc n) = ap (λ m. update_hop_count (some m ∷ [])) (chain_measure n) ∙ one_child n

chain-Below : (n : ℕ) → Below (daisy_chain n) n
unfolding daisy_chain
chain-Below zero = root
chain-Below (suc n) = down (BelowPorts.enter (chain-Below n))

-- The nodes at the ends of a chain of `n` hops lie `n` hops apart, and `max_hops` is the remainder
-- of `n` by 16.
pub daisy_chain_lem :
    (n : ℕ) → Apart (daisy_chain n) n × ((measure (daisy_chain n)).max_hops ≡ n % 16)
daisy_chain_lem n = (vertical (chain-Below n), ap (λ m. m.max_hops) (chain_measure n))
