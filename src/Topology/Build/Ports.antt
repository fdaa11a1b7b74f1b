-- ===== src/Topology/Build/Ports.antt =====
-- The loop that connects a node's ports never runs out of children.
use linux_firewire_dkms.Prelude.{
  ℕ, zero, suc, ◌+◌, ◌≤◌, ◌<◌, ◌≡◌, ◌⊎◌, refl, ◌∙◌, ap, arith, true, Option, some, List, [], ◌∷◌,
  ◌++◌, length, set, ltb, ◌==◌, inl, inr, Bool-cases, length-set,
}
use mathlib.Core.Path.{subst}
use linux_firewire_dkms.SelfId.{status_child, status_parent}
use linux_firewire_dkms.Topology.Wiring.{
  Node, Counts, count_port, count_ports, Wiring, connect_child, connect_port, connect_ports,
  with_port, with_color, u8,
}
use linux_firewire_dkms.Topology.Build.Wires.{Pending, fix_up-Pending}

-- The nodes of the stack that are not yet connected are pending, and a port that was found to lead
-- to the parent is one of the node's.
unfoldable pub IsWiring : Wiring → List ℕ → Type 0
IsWiring w below =
    Pending w.nodes (w.children ++ below)
    × ((w.parent_count ≡ 0) ⊎ (w.node.color < length w.node.ports))

-- What a round of the loop leaves: `m` nodes and a node of `ports` ports, and room for `k` children.
abbrev pub Connected : Option Wiring → List ℕ → ℕ → ℕ → ℕ → Type 0
Connected r below m ports k =
    (w : Wiring) × (r ≡ some w)
    × IsWiring w below
    × (length w.nodes ≡ m)
    × (length w.node.ports ≡ ports)
    × (k ≤ length w.children)

ParentOk-set :
    (parents : ℕ) (n : Node) (port : ℕ) (target : Option ℕ)
    → (parents ≡ 0) ⊎ (n.color < length n.ports)
    → (parents ≡ 0) ⊎ (n.color < length (set n.ports port target))
ParentOk-set parents n port target (inl z) = inl z
ParentOk-set parents n port target (inr h) = inr (omega (arith, length-set n.ports port target))

connect_child-Connected :
    (color me port k : ℕ) (w : Wiring) (below : List ℕ)
    → IsWiring w below
    → port < length w.node.ports
    → suc k ≤ length w.children
    → Connected (connect_child color me port w) below (length w.nodes) (length w.node.ports) k
unfolding connect_child IsWiring Pending
connect_child-Connected color me port k w below h inside room = go w.children refl
  where
    go :
        (cs : List ℕ)
        → w.children ≡ cs
        → Connected (connect_child color me port w) below (length w.nodes) (length w.node.ports) k
    go [] e = absurd (omega (arith, ap length e))
    go (c ∷ cs) e =
        let (nodes, done, pending, same) =
          fix_up-Pending color me w.nodes c (cs ++ below)
            (subst (λ t. Pending w.nodes (t ++ below)) e h.0) in
        let w' : Wiring = record {
          nodes = nodes;
          node = with_port w.node port (some c) w.node.color;
          parent_count = w.parent_count;
          children = cs;
        } in
        let len = length-set w.node.ports port (some c) in
        let ours : ltb port (length w.node.ports) ≡ true = ground arith in
        (
          w',
          rw (connect_child, e, done, ours) refl,
          (pending, ParentOk-set w.parent_count w.node port (some c) h.1),
          same,
          len,
          omega (arith, ap length e),
        )

count_port-child : (status : ℕ) (c : Counts) → c.child ≤ (count_port status c).child
unfolding count_port
count_port-child status c = ground arith

count_child :
    (status : ℕ) (c : Counts)
    → status == status_child ≡ true
    → (count_port status c).child ≡ suc c.child
unfolding count_port
count_child status c e = ground arith

count_parent :
    (status : ℕ) (c : Counts)
    → status == status_parent ≡ true
    → (count_port status c).child ≡ c.child
unfolding count_port
count_parent status c e = ground arith

connect_port-Connected :
    (color me status port : ℕ) (w : Wiring) (below : List ℕ) (c : Counts)
    → IsWiring w below
    → port < length w.node.ports
    → (count_port status c).child ≤ length w.children
    → Connected
        (connect_port color me status port w)
        below
        (length w.nodes)
        (length w.node.ports)
        c.child
unfolding connect_port IsWiring
connect_port-Connected color me status port w below c h inside room =
    elim (Bool-cases (status == status_parent)) [
      | inl parent ↦ (
        record {
          nodes = w.nodes;
          node = with_color w.node (u8 port);
          parent_count = w.parent_count + 1;
          children = w.children;
        },
        rw (connect_port, parent) refl,
        (h.0, inr (omega arith)),
        refl,
        refl,
        omega (arith, count_port-child status c),
      )
      | inr other ↦ elim (Bool-cases (status == status_child)) [
        | inl child ↦
            rw (connect_port, other, child)
              (connect_child-Connected color me port c.child w below h inside
                (omega (arith, count_child status c child)))
        | inr none_of_these ↦ (
          w,
          rw (connect_port, other, none_of_these) refl,
          h,
          refl,
          refl,
          omega (arith, count_port-child status c),
        )
      ]
    ]

-- The loop over the ports.
pub connect_ports-Connected :
    (color me : ℕ) (status : ℕ → ℕ) (port left : ℕ) (w : Wiring) (below : List ℕ)
    → IsWiring w below
    → port + left ≤ length w.node.ports
    → (count_ports status port left).child ≤ length w.children
    → Connected
        (connect_ports color me status port left w)
        below
        (length w.nodes)
        (length w.node.ports)
        0
unfolding connect_ports count_ports
connect_ports-Connected color me status port zero w below h fits room =
    (w, refl, h, refl, refl, omega arith)
connect_ports-Connected color me status port (suc left) w below h fits room =
    let (w', e, h', nodes, ports, room') =
      connect_port-Connected color me (status port) port w below
        (count_ports status (port + 1) left) h (omega arith) room in
    let (w'', e', h'', nodes', ports', room'') =
      connect_ports-Connected color me status (port + 1) left w' below h' (omega arith) room' in
    (w'', rw (connect_ports, e) e', h'', nodes' ∙ nodes, ports' ∙ ports, room'')

-- The first loop counts no fewer ports of children than the second one meets.
pub count_ports_mono :
    (status : ℕ → ℕ) (port m n : ℕ)
    → m ≤ n
    → (count_ports status port m).child ≤ (count_ports status port n).child
unfolding count_ports count_port
count_ports_mono status port zero n h = omega arith
count_ports_mono status port (suc m) zero h = absurd (omega arith)
count_ports_mono status port (suc m) (suc n) h =
    ground (arith, count_ports_mono status (port + 1) m n (omega arith))

pub total-le : (status : ℕ → ℕ) (port n : ℕ) → (count_ports status port n).total ≤ n
unfolding count_ports count_port
total-le status port zero = omega arith
total-le status port (suc n) = ground (arith, total-le status (port + 1) n)
