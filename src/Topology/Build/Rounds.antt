-- ===== src/Topology/Build/Rounds.antt =====
-- `build_tree` ends, and uses no pointer that is not sound.
use linux_firewire_dkms.Prelude.{
  ℕ, zero, suc, ◌-◌, ◌≤◌, ◌<◌, ◌≡◌, ◌⊎◌, refl, sym, ap, arith, true, false, ◌&&◌, ◌||◌, none, some,
  List, [], ◌∷◌, ◌++◌, length, get_elem?, get_or, drop, ltb, ◌==◌, ◌!=◌, inl, inr, Bool-cases,
  length-drop, length-replicate,
}
use mathlib.Core.Path.{subst}
use linux_firewire_dkms.Packet.Phy.{get_self_id_phy_id, get_self_id_zero_gap_count}
use linux_firewire_dkms.SelfId.{
  Enumerator, Next, found, no_data, protocol_error, enumerator_next, get_port_status,
  get_port_capacity,
}
use linux_firewire_dkms.SelfId.Walk.{enumerator_next-safe, enumerator_next_sound}
use linux_firewire_dkms.Topology.Wiring.{
  Node, Counts, count_ports, Wiring, with_hop_count, node_create,
}
use linux_firewire_dkms.Topology.Build.{
  Card, children_of, Progress, Round, Reason, next, failed, fault, finish_node, wired, add_node,
  round_at, build_loop, build_tree, Built, undefined, unfinished, built, invalid, finish,
}
use linux_firewire_dkms.Topology.Build.Wires.{Pending, Absent, children-Pending, length-children}
use linux_firewire_dkms.Topology.Build.Ports.{
  IsWiring, connect_ports-Connected, count_ports_mono, total-le,
}

get_elem-bound :
    (nodes : List Node) (i : ℕ) {n : Node} → get_elem? nodes i ≡ some n → i < length nodes
get_elem-bound [] i e = absurd (ground arith)
get_elem-bound (x ∷ xs) zero e = omega arith
get_elem-bound (x ∷ xs) (suc i) {n} e = omega (arith, get_elem-bound xs i {n = n} e)

get-append :
    (nodes ms : List Node) (i : ℕ) {n : Node}
    → get_elem? nodes i ≡ some n
    → get_elem? (nodes ++ ms) i ≡ some n
get-append [] ms i e = absurd (ground arith)
get-append (x ∷ xs) ms zero e = e
get-append (x ∷ xs) ms (suc i) {n} e = get-append xs ms i {n = n} e

pub get_last :
    (nodes : List Node) (n : Node) → get_elem? (nodes ++ (n ∷ [])) (length nodes) ≡ some n
get_last [] n = refl
get_last (x ∷ xs) n = get_last xs n

Pending-append : (nodes ms : List Node) (js : List ℕ) → Pending nodes js → Pending (nodes ++ ms) js
unfolding Pending
Pending-append nodes ms [] h = tt
Pending-append nodes ms (j ∷ js) h =
    ((h.0.0, get-append nodes ms j {n = h.0.0} h.0.1, h.0.2), h.1, Pending-append nodes ms js h.2)

Pending-fresh :
    (nodes : List Node) (m : ℕ) (js : List ℕ) → length nodes ≤ m → Pending nodes js → Absent m js
unfolding Pending Absent
Pending-fresh nodes m [] few h = tt
Pending-fresh nodes m (j ∷ js) few h = (
  (λ e. omega (arith, get_elem-bound nodes j {n = h.0.0} h.0.1)),
  Pending-fresh nodes m js few h.2,
)

Pending-behind : (nodes : List Node) (ks js : List ℕ) → Pending nodes (ks ++ js) → Pending nodes js
unfolding Pending
Pending-behind nodes [] js h = h
Pending-behind nodes (k ∷ ks) js h = Pending-behind nodes ks js h.2

-- Before a round, with `left` quadlets to come: the depth is that of the stack, and the nodes on it
-- wait for a parent, unless the last node has been added.
unfoldable pub IsProgress : ℕ → Progress → Type 0
IsProgress left p = (p.stack_depth ≡ length p.stack) × ((left ≡ 0) ⊎ Pending p.nodes p.stack)

unfoldable pub IsRound : ℕ → Round → Type 0
IsRound left (next p) = IsProgress left p
IsRound left (failed why) = Unit
IsRound left fault = ⊥

finish_node-IsRound :
    (card : Card) (p : Progress) (sid : ℕ) (counts : Counts) (left : ℕ) (w : Wiring)
    → p.stack_depth ≡ length p.stack
    → counts.child ≤ length p.stack
    → IsWiring w (drop counts.child p.stack)
    → length w.nodes ≡ length p.nodes
    → IsRound left (finish_node card p sid counts left w)
unfolding finish_node IsRound IsProgress IsWiring Pending with_hop_count
finish_node-IsRound card p sid counts left w depth enough h same =
    let rest = drop counts.child p.stack in
    let n = with_hop_count w.nodes w.node in
    let pending : Pending w.nodes rest = Pending-behind w.nodes w.children rest h.0 in
    let len = length-drop counts.child p.stack in
    let bad = (left == 0 && w.parent_count != 0) || (ltb 0 left && w.parent_count != 1) in
    elim (Bool-cases bad) [
      | inl e ↦ rw (finish_node, e) tt
      | inr e ↦
          rw (finish_node, e)
            (
              omega arith,
              elim (Bool-cases (left == 0)) [
                | inl last ↦ inl (ground arith)
                | inr more ↦ inr (
                  (
                    n,
                    subst (λ k. get_elem? (w.nodes ++ (n ∷ [])) k ≡ some n) same
                        (get_last w.nodes n),
                    elim h.1 [ inl z ↦ absurd (ground arith) | inr inside ↦ inside ],
                  ),
                  Pending-fresh w.nodes (length p.nodes) rest (omega arith) pending,
                  Pending-append w.nodes (n ∷ []) rest pending,
                )
              ],
            )
    ]

pub ports-node_create : (sid total color : ℕ) → length (node_create sid total color).ports ≡ total
unfolding node_create
ports-node_create sid total color = length-replicate total none

abbrev pub first_wiring : Card → Progress → ℕ → Counts → Wiring
first_wiring card p sid counts = record {
  nodes = p.nodes;
  node = node_create sid counts.total card.color;
  parent_count = 0;
  children = children_of counts.child p.stack;
}

pub first_wiring-IsWiring :
    (card : Card) (p : Progress) (sid : ℕ) (counts : Counts)
    → Pending p.nodes p.stack
    → IsWiring (first_wiring card p sid counts) (drop counts.child p.stack)
unfolding IsWiring
first_wiring-IsWiring card p sid counts h =
    (children-Pending p.nodes counts.child p.stack h, inl refl)

pub add_node-IsRound :
    (card : Card) (p : Progress) (sid : ℕ) (status : ℕ → ℕ) (capacity left : ℕ)
    → p.stack_depth ≡ length p.stack
    → Pending p.nodes p.stack
    → IsRound left (add_node card p sid status (count_ports status 0 capacity) left)
unfolding add_node IsRound wired
add_node-IsRound card p sid status capacity left depth h =
    let counts = count_ports status 0 capacity in
    let w = first_wiring card p sid counts in
    let ports = ports-node_create sid counts.total card.color in
    elim (Bool-cases (p.phy_id != get_self_id_phy_id sid)) [
      | inl mismatch ↦ rw (add_node, mismatch) tt
      | inr same_id ↦ elim (Bool-cases (ltb p.stack_depth counts.child)) [
        | inl underflow ↦ rw (add_node, same_id, underflow) tt
        | inr enough ↦ elim (Bool-cases (card.has_memory p.phy_id)) [
          | inr out ↦ rw (add_node, same_id, enough, out) tt
          | inl room ↦
              let fits : counts.child ≤ length p.stack = ground arith in
              let kids = length-children counts.child p.stack fits in
              let (w', done, ok, same, _, _) =
                connect_ports-Connected card.color (length p.nodes) status 0 counts.total w
                  (drop counts.child p.stack) (first_wiring-IsWiring card p sid counts h)
                  (omega (arith, ports))
                  (omega (
                    arith,
                    kids,
                    count_ports_mono status 0 counts.total capacity (total-le status 0 capacity),
                  )) in
              rw (add_node, same_id, enough, room, done)
                (finish_node-IsRound card p sid counts left w' depth fits ok same)
        ]
      ]
    ]

-- Neither out of fuel, nor at a pointer that is not sound.
unfoldable pub IsEnded : Built → Type 0
IsEnded (built t) = Unit
IsEnded (invalid why) = Unit
IsEnded undefined = ⊥
IsEnded unfinished = ⊥

finish-IsEnded : (p : Progress) → IsEnded (finish p)
unfolding finish IsEnded
finish-IsEnded p = tt

pub Next-cases :
    (r : Next)
    → ((count : ℕ) × (e : Enumerator) × (r ≡ found count e))
      ⊎ (r ≡ no_data)
      ⊎ (r ≡ protocol_error)
      ⊎ (r ≡ Next.fault)
Next-cases (found count e) = inl (count, e, refl)
Next-cases no_data = inr (inl refl)
Next-cases protocol_error = inr (inr (inl refl))
Next-cases Next.fault = inr (inr (inr refl))

pub Round-cases :
    (r : Round)
    → ((p : Progress) × (r ≡ next p)) ⊎ ((why : Reason) × (r ≡ failed why)) ⊎ (r ≡ fault)
Round-cases (next p) = inl (p, refl)
Round-cases (failed why) = inr (inl (why, refl))
Round-cases fault = inr (inr refl)

build_loop-IsEnded :
    (card : Card) (fuel : ℕ) (qs : List ℕ) (n : ℕ) (p : Progress)
    → n ≤ length qs
    → n ≤ fuel
    → IsProgress n p
    → IsEnded (build_loop card fuel (record { cursor = some qs; quadlet_count = n }) p)
unfolding build_loop IsEnded IsProgress IsRound round_at
build_loop-IsEnded card zero qs n p memory enough h =
    let done : n == 0 ≡ true = ground arith in rw (build_loop, done) (finish-IsEnded p)
build_loop-IsEnded card (suc fuel) qs n p memory enough h = elim (Bool-cases (n == 0)) [
  | inl done ↦ rw (build_loop, done) (finish-IsEnded p)
  | inr more ↦
      elim (Next-cases (enumerator_next (record { cursor = some qs; quadlet_count = n }))) [
        | inl (count, e, is) ↦
            let (_, pos, le, e_is) = enumerator_next_sound qs n {count = count} {e = e} is in
            let left = ap (λ t. t.quadlet_count) e_is in
            let waiting : Pending p.nodes p.stack = elim h.1 [
              | inl none_left ↦ absurd (ground arith)
              | inr pending ↦ pending
            ] in
            let ok : IsRound e.quadlet_count (round_at card p qs count e.quadlet_count) =
              add_node-IsRound card p (get_or qs 0 0) (get_port_status qs count)
                (get_port_capacity count) e.quadlet_count h.0 waiting in
            elim (Round-cases (round_at card p qs count e.quadlet_count)) [
              | inl (p', r) ↦
                  rw (build_loop, more, is, r)
                    (subst (λ t. IsEnded (build_loop card fuel t p')) (sym e_is)
                      (build_loop-IsEnded card fuel (drop count qs) (n - count) p'
                        (omega (arith, length-drop count qs)) (omega arith)
                        (subst (λ t. IsProgress t p') left (subst (IsRound e.quadlet_count) r ok))))
              | inr (inl (why, r)) ↦ rw (build_loop, more, is, r) tt
              | inr (inr r) ↦ absurd (subst (IsRound e.quadlet_count) r ok)
            ]
        | inr (inl is) ↦ rw (build_loop, more, is) (finish-IsEnded p)
        | inr (inr (inl is)) ↦ rw (build_loop, more, is) tt
        | inr (inr (inr is)) ↦ absurd (enumerator_next-safe qs n memory is)
      ]
]

-- With as many rounds as there are quadlets, in memory, the function ends: it returns a tree, or
-- NULL for a reason. It uses no pointer that is not one to a node of the stack, and writes to no
-- port that a node has not.
pub build_tree-IsEnded :
    (card : Card) (sid : List ℕ) (self_id_count : ℕ)
    → self_id_count ≤ length sid
    → IsEnded (build_tree card sid self_id_count)
unfolding build_tree IsProgress Pending
build_tree-IsEnded card sid self_id_count memory =
    build_loop-IsEnded card self_id_count sid self_id_count
      (record {
        nodes = [];
        stack = [];
        stack_depth = 0;
        phy_id = 0;
        local_node = none;
        irm_node = none;
        gap_count = get_self_id_zero_gap_count (get_or sid 0 0);
        beta_repeaters_present = false;
      })
      memory (omega arith) (refl, inr tt)
