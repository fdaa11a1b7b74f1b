-- ===== src/Topology/Longest/Reached.antt =====
-- Some path is as long.
use linux_firewire_dkms.Prelude.{ℕ, suc, ◌+◌, max, ◌≡◌, refl, sym, ◌∙◌, ◌⊎◌, inl, inr, arith}
use linux_firewire_dkms.Topology.Hops.{Measure, Best, see, scan_ports, hop_counts}
use linux_firewire_dkms.Topology.Longest.{
  Tree, Ports, node, end, unconnected, child, exact, exacts, Below, BelowPorts, Across, Apart,
  ApartPorts,
}
use linux_firewire_dkms.Topology.Longest.{root, down, pair, vertical, across, inside}
use linux_firewire_dkms.Topology.Longest.Bound.{start}
use mathlib.Core.Path.{subst}

see_first :
    (b : Best) (m : Measure) → ((see b m).first ≡ b.first) ⊎ ((see b m).first ≡ suc m.max_depth)
unfolding see
see_first b m = ground arith

see_hops :
    (b : Best) (m : Measure)
    → ((see b m).max_child_hops ≡ b.max_child_hops) ⊎ ((see b m).max_child_hops ≡ m.max_hops)
unfolding see
see_hops b m = ground arith

see_pair :
    (b : Best) (m : Measure)
    → (((see b m).first ≡ suc m.max_depth) × ((see b m).second ≡ b.first))
      ⊎ (((see b m).first ≡ b.first) × ((see b m).second ≡ suc m.max_depth))
      ⊎ (((see b m).first ≡ b.first) × ((see b m).second ≡ b.second))
unfolding see
see_pair b m = ground arith

mutual
  unfolding exact exacts scan_ports hop_counts

  depth_reached : (t : Tree) → Below t (exact t).max_depth
  depth_reached (node ps) = elim (first_reached ps start) [
    | inl e ↦ subst (Below (node ps)) (sym e) root
    | inr b ↦ down b
  ]

  first_reached :
      (ps : Ports) (b : Best)
      → let c = scan_ports b (exacts ps) in (c.first ≡ b.first) ⊎ BelowPorts ps c.first
  first_reached end b = inl refl
  first_reached (unconnected ps) b = elim (first_reached ps b) [
    | inl e ↦ inl e
    | inr p ↦ inr (BelowPorts.skip_empty p)
  ]
  first_reached (child t ps) b = elim (first_reached ps (see b (exact t))) [
    | inr p ↦ inr (BelowPorts.skip p)
    | inl e ↦ elim (see_first b (exact t)) [
      | inl old ↦ inl (e ∙ old)
      | inr new ↦
          inr (subst (BelowPorts (child t ps)) (sym (e ∙ new)) (BelowPorts.enter (depth_reached t)))
    ]
  ]

-- What the two best depths add up to: the two that the loop began with, one of these and one
-- port, or two ports.
abbrev SumReached : Ports → Best → ℕ → Type 0
SumReached ps b k =
    (k ≡ b.first + b.second) ⊎ ((n : ℕ) × BelowPorts ps n × (k ≡ b.first + n)) ⊎ Across ps k

sum_reached :
    (ps : Ports) (b : Best)
    → let c = scan_ports b (exacts ps) in SumReached ps b (c.first + c.second)
unfolding exacts scan_ports
sum_reached end b = inl refl
sum_reached (unconnected ps) b = elim (sum_reached ps b) [
  | inl e ↦ inl e
  | inr (inl (n, p, e)) ↦ inr (inl (n, BelowPorts.skip_empty p, e))
  | inr (inr a) ↦ inr (inr (Across.skip_empty a))
]
sum_reached (child t ps) b = elim (sum_reached ps (see b (exact t))) [
  | inr (inr a) ↦ inr (inr (Across.skip a))
  | inl e ↦ elim (see_pair b (exact t)) [
    | inl new ↦ inr (inl (suc (exact t).max_depth, BelowPorts.enter (depth_reached t), omega arith))
    | inr (inl new) ↦
        inr (inl (suc (exact t).max_depth, BelowPorts.enter (depth_reached t), omega arith))
    | inr (inr old) ↦ inl (omega arith)
  ]
  | inr (inl (n, p, e)) ↦ elim (see_pair b (exact t)) [
    | inl new ↦ inr (inr (pair (depth_reached t) p (omega arith)))
    | inr (inl new) ↦ inr (inl (n, BelowPorts.skip p, omega arith))
    | inr (inr old) ↦ inr (inl (n, BelowPorts.skip p, omega arith))
  ]
]

max_cases : (a b : ℕ) → (max a b ≡ a) ⊎ (max a b ≡ b)
max_cases a b = omega arith

mutual
  unfolding exact exacts scan_ports hop_counts

  pub max_hops_reached : (t : Tree) → Apart t (exact t).max_hops
  max_hops_reached (node ps) =
      let c = scan_ports start (exacts ps) in
      elim (max_cases c.max_child_hops (c.first + c.second)) [
        | inl e ↦ elim (hops_reached ps start) [
          | inl z ↦ subst (Apart (node ps)) (sym (e ∙ z)) (vertical root)
          | inr a ↦ subst (Apart (node ps)) (sym e) (inside a)
        ]
        | inr e ↦ elim (sum_reached ps start) [
          | inl z ↦ subst (Apart (node ps)) (sym (e ∙ z)) (vertical root)
          | inr (inl (n, p, z)) ↦ subst (Apart (node ps)) (omega arith) (vertical (down p))
          | inr (inr a) ↦ subst (Apart (node ps)) (sym e) (across a)
        ]
      ]

  hops_reached :
      (ps : Ports) (b : Best)
      → let c = scan_ports b (exacts ps) in
        (c.max_child_hops ≡ b.max_child_hops) ⊎ ApartPorts ps c.max_child_hops
  hops_reached end b = inl refl
  hops_reached (unconnected ps) b = elim (hops_reached ps b) [
    | inl e ↦ inl e
    | inr p ↦ inr (ApartPorts.skip_empty p)
  ]
  hops_reached (child t ps) b = elim (hops_reached ps (see b (exact t))) [
    | inr p ↦ inr (ApartPorts.skip p)
    | inl e ↦ elim (see_hops b (exact t)) [
      | inl old ↦ inl (e ∙ old)
      | inr new ↦
          inr (
            subst (ApartPorts (child t ps)) (sym (e ∙ new)) (ApartPorts.enter (max_hops_reached t)))
    ]
  ]
