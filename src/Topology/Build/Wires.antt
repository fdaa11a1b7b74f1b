-- ===== src/Topology/Build/Wires.antt =====
-- The pointers of `build_tree`: each use of one is sound.
use linux_firewire_dkms.Prelude.{
  ℕ, zero, suc, ◌+◌, ◌≤◌, ◌<◌, ◌≡◌, ◌≢◌, refl, sym, ◌∙◌, ap, arith, true, some, List, [], ◌∷◌, ◌++◌,
  length, get_elem?, set, take, drop, ltb, length-set, take-append-drop,
}
use mathlib.Core.Path.{subst}
use linux_firewire_dkms.Topology.Wiring.{Node, fix_up, with_port}
use linux_firewire_dkms.Topology.Build.{reverse_onto, children_of}

-- The node behind a pointer has a port for its parent, which is yet to be connected.
abbrev pub HasParentPort : List Node → ℕ → Type 0
HasParentPort nodes i = (n : Node) × (get_elem? nodes i ≡ some n) × (n.color < length n.ports)

unfoldable pub Absent : ℕ → List ℕ → Type 0
Absent i [] = Unit
Absent i (j ∷ js) = (i ≢ j) × Absent i js

-- Distinct pointers to such nodes.
unfoldable pub Pending : List Node → List ℕ → Type 0
Pending nodes [] = Unit
Pending nodes (i ∷ is) = HasParentPort nodes i × Absent i is × Pending nodes is

Absent-middle : (x i : ℕ) (ks bs : List ℕ) → Absent x (ks ++ bs) → x ≢ i → Absent x (ks ++ (i ∷ bs))
unfolding Absent
Absent-middle x i [] bs h ne = (ne, h)
Absent-middle x i (a ∷ ks) bs h ne = (h.0, Absent-middle x i ks bs h.1 ne)

Pending-middle :
    (nodes : List Node) (i : ℕ) (ks bs : List ℕ)
    → HasParentPort nodes i
    → Absent i (ks ++ bs)
    → Pending nodes (ks ++ bs)
    → Pending nodes (ks ++ (i ∷ bs))
unfolding Pending Absent
Pending-middle nodes i [] bs p a h = (p, a, h)
Pending-middle nodes i (x ∷ ks) bs p a h =
    (h.0, Absent-middle x i ks bs h.1 (λ e. a.0 (sym e)), Pending-middle nodes i ks bs p a.1 h.2)

Pending-reverse :
    (nodes : List Node) (xs ys zs : List ℕ)
    → Pending nodes (xs ++ (ys ++ zs))
    → Pending nodes (reverse_onto xs ys ++ zs)
unfolding Pending
Pending-reverse nodes [] ys zs h = h
Pending-reverse nodes (x ∷ xs) ys zs h =
    Pending-reverse nodes xs (x ∷ ys) zs (Pending-middle nodes x xs (ys ++ zs) h.0 h.1 h.2)

-- The children, from the lowest to the top, and the stack below them.
pub children-Pending :
    (nodes : List Node) (k : ℕ) (stack : List ℕ)
    → Pending nodes stack
    → Pending nodes (children_of k stack ++ drop k stack)
unfolding children_of
children-Pending nodes k stack h =
    Pending-reverse nodes (take k stack) [] (drop k stack)
      (subst (Pending nodes) (sym (take-append-drop k stack)) h)

length-reverse_onto : (xs ys : List ℕ) → length (reverse_onto xs ys) ≡ length xs + length ys
length-reverse_onto [] ys = omega arith
length-reverse_onto (x ∷ xs) ys = length-reverse_onto xs (x ∷ ys) ∙ omega arith

length-take_le : (n : ℕ) (xs : List ℕ) → n ≤ length xs → length (take n xs) ≡ n
length-take_le zero xs h = refl
length-take_le (suc n) [] h = absurd (omega arith)
length-take_le (suc n) (x ∷ xs) h = ap suc (length-take_le n xs (omega arith))

pub length-children : (k : ℕ) (stack : List ℕ) → k ≤ length stack → length (children_of k stack) ≡ k
unfolding children_of
length-children k stack h =
    length-reverse_onto (take k stack) [] ∙ omega (arith, length-take_le k stack h)

get-set_ne :
    (nodes : List Node) (i j : ℕ) (n : Node)
    → i ≢ j
    → get_elem? (set nodes i n) j ≡ get_elem? nodes j
get-set_ne [] i j n ne = refl
get-set_ne (x ∷ xs) zero zero n ne = absurd (ne refl)
get-set_ne (x ∷ xs) zero (suc j) n ne = refl
get-set_ne (x ∷ xs) (suc i) zero n ne = refl
get-set_ne (x ∷ xs) (suc i) (suc j) n ne = get-set_ne xs i j n (λ e. ne (ap suc e))

Pending-set :
    (nodes : List Node) (i : ℕ) (n : Node) (js : List ℕ)
    → Absent i js
    → Pending nodes js
    → Pending (set nodes i n) js
unfolding Pending Absent
Pending-set nodes i n [] a h = tt
Pending-set nodes i n (j ∷ js) a h =
    ((h.0.0, get-set_ne nodes i j n a.0 ∙ h.0.1, h.0.2), h.1, Pending-set nodes i n js a.1 h.2)

-- The first of the pending nodes can be connected, and the rest stay pending.
pub fix_up-Pending :
    (color me : ℕ) (nodes : List Node) (i : ℕ) (is : List ℕ)
    → Pending nodes (i ∷ is)
    → (nodes' : List Node) × (fix_up color me nodes i ≡ some nodes')
      × Pending nodes' is
      × (length nodes' ≡ length nodes)
unfolding Pending fix_up
fix_up-Pending color me nodes i is h =
    let (c, e, inside) = h.0 in
    let fits : ltb c.color (length c.ports) ≡ true = ground arith in
    (
      set nodes i (with_port c c.color (some me) color),
      rw (fix_up, e, fits) refl,
      Pending-set nodes i (with_port c c.color (some me) color) is h.1 h.2,
      length-set nodes i (with_port c c.color (some me) color),
    )
