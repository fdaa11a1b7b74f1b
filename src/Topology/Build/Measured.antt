-- ===== src/Topology/Build/Measured.antt =====
-- A round of `build_tree` keeps the hop counts of the nodes on the stack those of the trees that the
-- self-IDs describe.
use linux_firewire_dkms.Prelude.{
  ℕ, zero, suc, ◌+◌, ◌-◌, ◌≤◌, ◌≡◌, refl, sym, ◌∙◌, ap, ap₂, arith, ◌&&◌, ◌||◌, Option, none, some,
  List, [], ◌∷◌, ◌++◌, length, map, take, drop, replicate, ltb, ◌==◌, ◌!=◌, if◌then◌else◌, inl, inr,
  Bool-cases, bit_and,
}
use mathlib.Core.Path.{subst}
use linux_firewire_dkms.Packet.Phy.{
  get_self_id_phy_id, get_self_id_zero_gap_count, get_self_id_zero_contender,
}
use linux_firewire_dkms.Topology.Hops.{Measure, update_hop_count}
use linux_firewire_dkms.Topology.Longest.{Tree, node, measure, measures}
use linux_firewire_dkms.Topology.Wiring.{
  Node, Counts, count_ports, Wiring, with_hop_count, node_create, measure_of,
}
use linux_firewire_dkms.Topology.Build.{
  Card, children_of, reverse_onto, Progress, Round, Reason, next, failed, finish_node, wired,
  add_node, gap_count_mismatched, scode_beta, parent_port_inconsistency, phy_id_mismatch,
  topology_stack_underflow, out_of_memory,
}
use linux_firewire_dkms.Topology.Build.Wires.{Pending, length-children}
use linux_firewire_dkms.Topology.Build.Ports.{connect_ports-Connected, count_ports_mono, total-le}
use linux_firewire_dkms.Topology.Build.Rounds.{
  get_last, first_wiring, first_wiring-IsWiring, ports-node_create,
}
use linux_firewire_dkms.Topology.Build.Shape.{ports_of, graft, tree_hops}
use linux_firewire_dkms.Topology.Build.Hopcount.{connect_ports-measures}

module _ {A B : Type 0} (f : A → B) where
  map-take : (k : ℕ) (xs : List A) → map f (take k xs) ≡ take k (map f xs)
  map-take zero xs = refl
  map-take (suc k) [] = refl
  map-take (suc k) (x ∷ xs) = ap (λ t. f x ∷ t) (map-take k xs)

  map-drop : (k : ℕ) (xs : List A) → map f (drop k xs) ≡ drop k (map f xs)
  map-drop zero xs = refl
  map-drop (suc k) [] = refl
  map-drop (suc k) (x ∷ xs) = map-drop k xs

  map-reverse_onto :
      (xs ys : List A) → map f (reverse_onto xs ys) ≡ reverse_onto (map f xs) (map f ys)
  map-reverse_onto [] ys = refl
  map-reverse_onto (x ∷ xs) ys = map-reverse_onto xs (x ∷ ys)

  map-children_of : (k : ℕ) (xs : List A) → map f (children_of k xs) ≡ children_of k (map f xs)
  unfolding children_of
  map-children_of k xs =
      map-reverse_onto (take k xs) [] ∙ ap (λ t. reverse_onto t []) (map-take k xs)

  map-replicate : (n : ℕ) (a : A) → map f (replicate n a) ≡ replicate n (f a)
  map-replicate zero a = refl
  map-replicate (suc n) a = ap (λ t. f a ∷ t) (map-replicate n a)

-- The nodes on the stack have the hop counts of the trees.
abbrev pub Measured : List Node → List ℕ → List Tree → Type 0
Measured nodes stack ts = map (λ i. measure_of nodes (some i)) stack ≡ map tree_hops ts

measure_of-append :
    (nodes ms : List Node) (i : ℕ) {m : Measure}
    → measure_of nodes (some i) ≡ some m
    → measure_of (nodes ++ ms) (some i) ≡ some m
measure_of-append [] ms i e = absurd (ground arith)
measure_of-append (n ∷ ns) ms zero e = e
measure_of-append (n ∷ ns) ms (suc i) {m} e = measure_of-append ns ms i {m = m} e

Measured-append :
    (nodes ms : List Node) (stack : List ℕ) (ts : List Tree)
    → Measured nodes stack ts
    → Measured (nodes ++ ms) stack ts
Measured-append nodes ms [] [] h = refl
Measured-append nodes ms [] (t ∷ ts) h = absurd (ground arith)
Measured-append nodes ms (i ∷ is) [] h = absurd (ground arith)
Measured-append nodes ms (i ∷ is) (t ∷ ts) h =
    let first : measure_of nodes (some i) ≡ tree_hops t = ground arith in
    ap₂ (λ x xs. x ∷ xs) (measure_of-append nodes ms i {m = measure t} first)
      (Measured-append nodes ms is ts (ground arith))

Measured-same :
    (nodes nodes' : List Node) (stack : List ℕ) (ts : List Tree)
    → ((x : Option ℕ) → measure_of nodes' x ≡ measure_of nodes x)
    → Measured nodes stack ts
    → Measured nodes' stack ts
Measured-same nodes nodes' stack ts same h = ap (λ f. map f stack) (λ k i. same (some i) k) ∙ h

Measured-drop :
    (nodes : List Node) (k : ℕ) (stack : List ℕ) (ts : List Tree)
    → Measured nodes stack ts
    → Measured nodes (drop k stack) (drop k ts)
Measured-drop nodes k stack ts h =
    map-drop (λ i. measure_of nodes (some i)) k stack
    ∙ ap (drop k) h
    ∙ sym (map-drop tree_hops k ts)

Measured-children :
    (nodes : List Node) (k : ℕ) (stack : List ℕ) (ts : List Tree)
    → Measured nodes stack ts
    → Measured nodes (children_of k stack) (children_of k ts)
Measured-children nodes k stack ts h =
    map-children_of (λ i. measure_of nodes (some i)) k stack
    ∙ ap (children_of k) h
    ∙ sym (map-children_of tree_hops k ts)

next_inj : {r : Round} {p q : Progress} → r ≡ next p → r ≡ next q → p ≡ q
next_inj {p} {q} h h' = ground arith

failed_next : {r : Round} {q : Progress} (why : Reason) → r ≡ failed why → r ≡ next q → ⊥
failed_next why h h' = ground arith

finish_node-Measured :
    (card : Card) (p : Progress) (sid : ℕ) (status : ℕ → ℕ) (counts : Counts) (left : ℕ)
    (w : Wiring) (ts : List Tree) {p' : Progress}
    → finish_node card p sid counts left w ≡ next p'
    → length w.nodes ≡ length p.nodes
    → ((x : Option ℕ) → measure_of w.nodes x ≡ measure_of p.nodes x)
    → map (measure_of p.nodes) w.node.ports
      ≡ measures (ports_of status 0 counts.total (children_of counts.child ts))
    → Measured p.nodes p.stack ts
    → Measured p'.nodes p'.stack (graft status counts ts)
unfolding finish_node graft measure with_hop_count
finish_node-Measured card p sid status counts left w ts {p'} e len same ports h =
    let n = with_hop_count w.nodes w.node in
    let rest = drop counts.child p.stack in
    let kids = children_of counts.child ts in
    let bad = (left == 0 && w.parent_count != 0) || (ltb 0 left && w.parent_count != 1) in
    elim (Bool-cases bad) [
      | inl refused ↦
          absurd (failed_next parent_port_inconsistency (rw (finish_node, refused) refl) e)
      | inr fine ↦
          let here : finish_node card p sid counts left w
              ≡ next (record {
                nodes = w.nodes ++ (n ∷ []);
                stack = length p.nodes ∷ rest;
                stack_depth = p.stack_depth + 1 - counts.child;
                phy_id = p.phy_id + 1;
                local_node =
                    if p.phy_id == bit_and card.node_id 0x3f
                    then some (length p.nodes)
                    else p.local_node;
                irm_node =
                    if get_self_id_zero_contender sid then some (length p.nodes) else p.irm_node;
                gap_count =
                    if get_self_id_zero_gap_count sid != p.gap_count
                    then gap_count_mismatched
                    else p.gap_count;
                beta_repeaters_present =
                    p.beta_repeaters_present
                    || (n.phy_speed == scode_beta && ltb 1 (w.parent_count + counts.child));
              }) =
            rw (finish_node, fine) refl in
          let made = next_inj here e in
          let top : measure_of (w.nodes ++ (n ∷ [])) (some (length p.nodes)) ≡ some n.hops =
            ap (measure_of (w.nodes ++ (n ∷ []))) (ap some (sym len))
            ∙ ap (λ o. elim o as (λ _. Option Measure) [ none ↦ none | some k ↦ some k.hops ])
                (get_last w.nodes n) in
          let hops : n.hops ≡ measure (node (ports_of status 0 counts.total kids)) =
            ap update_hop_count (ap (λ f. map f w.node.ports) (λ k x. same x k) ∙ ports) in
          let below : Measured (w.nodes ++ (n ∷ [])) rest (drop counts.child ts) =
            Measured-append w.nodes (n ∷ []) rest (drop counts.child ts) (
              Measured-same p.nodes w.nodes rest (drop counts.child ts) same
                (Measured-drop p.nodes counts.child p.stack ts h)) in
          subst (λ t. Measured t.nodes t.stack (graft status counts ts)) made
            (ap₂ (λ x xs. x ∷ xs) (top ∙ ap some hops) below)
    ]

pub add_node-Measured :
    (card : Card) (p : Progress) (sid : ℕ) (status : ℕ → ℕ) (capacity left : ℕ) (ts : List Tree)
    {p' : Progress}
    → add_node card p sid status (count_ports status 0 capacity) left ≡ next p'
    → p.stack_depth ≡ length p.stack
    → Pending p.nodes p.stack
    → Measured p.nodes p.stack ts
    → Measured p'.nodes p'.stack (graft status (count_ports status 0 capacity) ts)
unfolding add_node wired node_create
add_node-Measured card p sid status capacity left ts {p'} e depth pending h =
    let counts = count_ports status 0 capacity in
    let w = first_wiring card p sid counts in
    elim (Bool-cases (p.phy_id != get_self_id_phy_id sid)) [
      | inl bad ↦ absurd (failed_next phy_id_mismatch (rw (add_node, bad) refl) e)
      | inr a ↦ elim (Bool-cases (ltb p.stack_depth counts.child)) [
        | inl bad ↦ absurd (failed_next topology_stack_underflow (rw (add_node, a, bad) refl) e)
        | inr b ↦ elim (Bool-cases (card.has_memory p.phy_id)) [
          | inr bad ↦ absurd (failed_next out_of_memory (rw (add_node, a, b, bad) refl) e)
          | inl c ↦
              let fits : counts.child ≤ length p.stack = ground arith in
              let (w', done, ok, same, _, _) =
                connect_ports-Connected card.color (length p.nodes) status 0 counts.total w
                  (drop counts.child p.stack) (first_wiring-IsWiring card p sid counts pending)
                  (omega (arith, ports-node_create sid counts.total card.color))
                  (omega (
                    arith,
                    length-children counts.child p.stack fits,
                    count_ports_mono status 0 counts.total capacity (total-le status 0 capacity),
                  )) in
              let here : add_node card p sid status counts left
                  ≡ finish_node card p sid counts left w' =
                rw (add_node, a, b, c, done) refl in
              let (ports, kept) =
                connect_ports-measures card.color (length p.nodes) status 0 counts.total w {w' = w'}
                  (children_of counts.child ts) (measure_of p.nodes) [] done (λ x. refl)
                  (Measured-children p.nodes counts.child p.stack ts h)
                  (map-replicate (measure_of p.nodes) counts.total none) refl refl in
              finish_node-Measured card p sid status counts left w' ts {p' = p'} (sym here ∙ e) same
                kept ports h
        ]
      ]
    ]
