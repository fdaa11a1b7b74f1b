-- ===== src/Topology/Build/Hopcount.antt =====
-- The hop counts that `build_tree` gives the nodes are those of the trees.
use linux_firewire_dkms.Prelude.{
  ℕ, zero, suc, ◌+◌, ◌≡◌, ◌⊎◌, refl, sym, ◌∙◌, ap, ap₂, arith, true, false, Option, none, some,
  List, [], ◌∷◌, ◌++◌, length, map, get_elem?, set, replicate, ltb, ◌==◌, inl, inr, Bool-cases,
  Option-cases, length-append, if_of_true, if_of_false,
}
use mathlib.Core.Path.{subst}
use mathlib.Core.Option.{some-injective}
use linux_firewire_dkms.SelfId.{status_child, status_parent}
use linux_firewire_dkms.Topology.Hops.{Measure}
use linux_firewire_dkms.Topology.Longest.{Tree, unconnected, child, measures}
use linux_firewire_dkms.Topology.Wiring.{
  Node, Wiring, fix_up, connect_child, connect_port, connect_ports, measure_of, with_port,
  with_color, u8,
}
use linux_firewire_dkms.Topology.Build.Shape.{ports_of, tree_hops}

set-append :
    {A : Type 0} (xs ys : List A) (x v : A) → set (xs ++ (x ∷ ys)) (length xs) v ≡ xs ++ (v ∷ ys)
set-append [] ys x v = refl
set-append (a ∷ xs) ys x v = ap (λ t. a ∷ t) (set-append xs ys x v)

append-cons : {A : Type 0} (xs ys : List A) (x : A) → (xs ++ (x ∷ [])) ++ ys ≡ xs ++ (x ∷ ys)
append-cons [] ys x = refl
append-cons (a ∷ xs) ys x = ap (λ t. a ∷ t) (append-cons xs ys x)

map-set :
    {A B : Type 0} (f : A → B) (xs : List A) (i : ℕ) (v : A)
    → map f (set xs i v) ≡ set (map f xs) i (f v)
map-set f [] i v = refl
map-set f (x ∷ xs) zero v = refl
map-set f (x ∷ xs) (suc i) v = ap (λ t. f x ∷ t) (map-set f xs i v)

-- Connecting a child changes no hop count.
measure_of-set :
    (nodes : List Node) (i : ℕ) {c : Node} (port : ℕ) (target : Option ℕ) (color : ℕ) (x : Option ℕ)
    → get_elem? nodes i ≡ some c
    → measure_of (set nodes i (with_port c port target color)) x ≡ measure_of nodes x
measure_of-set nodes i port target color none e = refl
measure_of-set [] i port target color (some j) e = refl
measure_of-set (n ∷ ns) zero {c} port target color (some zero) e =
    let same : n ≡ c = ground arith in ap (λ k. some k.hops) (sym same)
measure_of-set (n ∷ ns) zero port target color (some (suc j)) e = refl
measure_of-set (n ∷ ns) (suc i) port target color (some zero) e = refl
measure_of-set (n ∷ ns) (suc i) {c} port target color (some (suc j)) e =
    measure_of-set ns i {c = c} port target color (some j) e

fix_up-measure_of :
    (color me : ℕ) (nodes : List Node) (i : ℕ) {nodes' : List Node} (x : Option ℕ)
    → fix_up color me nodes i ≡ some nodes'
    → measure_of nodes' x ≡ measure_of nodes x
unfolding fix_up
fix_up-measure_of color me nodes i {nodes'} x e = elim (Option-cases (get_elem? nodes i)) [
  | inl gone ↦ absurd (ground arith)
  | inr (c, at) ↦ elim (Bool-cases (ltb c.color (length c.ports))) [
    | inl fits ↦
        let made : set nodes i (with_port c c.color (some me) color) ≡ nodes' = ground arith in
        subst (λ t. measure_of t x ≡ measure_of nodes x) made
          (measure_of-set nodes i {c = c} c.color (some me) color x at)
    | inr over ↦ absurd (ground arith)
  ]
]

pub some_inj : {A : Type 0} {a b : A} {o : Option A} → o ≡ some a → o ≡ some b → a ≡ b
some_inj {a} {b} h h' = some-injective a b (sym h ∙ h')

pub none-some : {A : Type 0} {a : A} {o : Option A} → o ≡ none → o ≡ some a → ⊥
none-some h h' = ground arith

abbrev Stepped : ℕ → ℕ → Wiring → Wiring → Type 0
Stepped status port w w' =
    ((status == status_child ≡ true)
      × ((c : ℕ) × (rest : List ℕ) × (w.children ≡ c ∷ rest)
          × (w'.children ≡ rest)
          × (w'.node.ports ≡ set w.node.ports port (some c))))
    ⊎ ((status == status_child ≡ false)
        × (w'.children ≡ w.children)
        × (w'.node.ports ≡ w.node.ports))

List-cases : {A : Type 0} (xs : List A) → (xs ≡ []) ⊎ ((a : A) × (rest : List A) × (xs ≡ a ∷ rest))
List-cases [] = inl refl
List-cases (x ∷ xs) = inr (x, xs, refl)

connect_child_step :
    (color me port : ℕ) (w : Wiring) {w' : Wiring}
    → connect_child color me port w ≡ some w'
    → ((c : ℕ) × (rest : List ℕ) × (w.children ≡ c ∷ rest)
        × (w'.children ≡ rest)
        × (w'.node.ports ≡ set w.node.ports port (some c)))
      × ((x : Option ℕ) → measure_of w'.nodes x ≡ measure_of w.nodes x)
unfolding connect_child
connect_child_step color me port w {w'} e = elim (List-cases w.children) [
  | inl empty ↦ absurd (none-some (rw (connect_child, empty) refl) e)
  | inr (c, rest, cs) ↦ elim (Option-cases (fix_up color me w.nodes c)) [
    | inl over ↦ absurd (none-some (rw (connect_child, cs, over) refl) e)
    | inr (nodes, fixed) ↦
        let v : Wiring = record {
          nodes = nodes;
          node = with_port w.node port (some c) w.node.color;
          parent_count = w.parent_count;
          children = rest;
        } in
        elim (Bool-cases (ltb port (length w.node.ports))) [
          | inr past ↦ absurd (none-some (rw (connect_child, cs, fixed, past) refl) e)
          | inl inside ↦
              let here : connect_child color me port w ≡ some v =
                rw (connect_child, cs, fixed, inside) refl in
              let made : v ≡ w' = some_inj here e in
              (
                (c, rest, cs, sym (ap (λ t. t.children) made), sym (ap (λ t. t.node.ports) made)),
                λ x.
                    ap (λ t. measure_of t.nodes x) (sym made)
                    ∙ fix_up-measure_of color me w.nodes c {nodes' = nodes} x fixed,
              )
        ]
  ]
]

through_child :
    (color me status port : ℕ) (w : Wiring) {w' : Wiring}
    → status == status_parent ≡ false
    → status == status_child ≡ true
    → connect_port color me status port w ≡ some w'
    → connect_child color me port w ≡ some w'
unfolding connect_port
through_child color me status port w other is_child e = ground arith

connect_port_step :
    (color me status port : ℕ) (w : Wiring) {w' : Wiring}
    → connect_port color me status port w ≡ some w'
    → Stepped status port w w' × ((x : Option ℕ) → measure_of w'.nodes x ≡ measure_of w.nodes x)
unfolding connect_port
connect_port_step color me status port w {w'} e = elim (Bool-cases (status == status_child)) [
  | inl is_child ↦
      let other : status == status_parent ≡ false = ground arith in
      let step =
        connect_child_step color me port w {w' = w'}
          (through_child color me status port w other is_child e) in
      (inl (is_child, step.0), step.1)
  | inr not_child ↦ elim (Bool-cases (status == status_parent)) [
    | inl parent ↦
        let v : Wiring = record {
          nodes = w.nodes;
          node = with_color w.node (u8 port);
          parent_count = w.parent_count + 1;
          children = w.children;
        } in
        let here : connect_port color me status port w ≡ some v = rw (connect_port, parent) refl in
        let made : v ≡ w' = some_inj here e in
        (
          inr (not_child, sym (ap (λ t. t.children) made), sym (ap (λ t. t.node.ports) made)),
          λ x. ap (λ t. measure_of t.nodes x) (sym made),
        )
    | inr other ↦
        let here : connect_port color me status port w ≡ some w =
          rw (connect_port, other, not_child) refl in
        let made : w ≡ w' = some_inj here e in
        (
          inr (not_child, sym (ap (λ t. t.children) made), sym (ap (λ t. t.node.ports) made)),
          λ x. ap (λ t. measure_of t.nodes x) (sym made),
        )
  ]
]

measures_skip :
    (status : ℕ → ℕ) (port left : ℕ) (kids : List Tree)
    → status port == status_child ≡ false
    → none ∷ measures (ports_of status (port + 1) left kids)
      ≡ measures (ports_of status port (suc left) kids)
unfolding ports_of measures
measures_skip status port left [] e = refl
measures_skip status port left (t ∷ ts) e = sym (
    ap measures (
      if_of_false (child t (ports_of status (port + 1) left ts))
        (unconnected (ports_of status (port + 1) left (t ∷ ts))) e))

measures_take :
    (status : ℕ → ℕ) (port left : ℕ) (t : Tree) (kids : List Tree)
    → status port == status_child ≡ true
    → tree_hops t ∷ measures (ports_of status (port + 1) left kids)
      ≡ measures (ports_of status port (suc left) (t ∷ kids))
unfolding ports_of measures
measures_take status port left t kids e = sym (
    ap measures (
      if_of_true (child t (ports_of status (port + 1) left kids))
        (unconnected (ports_of status (port + 1) left (t ∷ kids))) e))

-- A child that is left has a tree that is left.
kid_of_child :
    (f : ℕ → Option Measure) (c : ℕ) (below : List ℕ) (kids : List Tree)
    → map f (c ∷ below) ≡ map tree_hops kids
    → (t : Tree) × (ts : List Tree) × (kids ≡ t ∷ ts)
      × (f c ≡ tree_hops t)
      × (map f below ≡ map tree_hops ts)
kid_of_child f c below [] e = absurd (ground arith)
kid_of_child f c below (t ∷ ts) e = (t, ts, refl, ground arith, ground arith)

-- The hop counts of what the new node's ports lead to, after the ports from `port` on.
pub connect_ports-measures :
    (color me : ℕ) (status : ℕ → ℕ) (port left : ℕ) (w : Wiring) {w' : Wiring} (kids : List Tree)
    (h : Option ℕ → Option Measure) (seen : List (Option Measure))
    → connect_ports color me status port left w ≡ some w'
    → ((x : Option ℕ) → measure_of w.nodes x ≡ h x)
    → map (λ c. h (some c)) w.children ≡ map tree_hops kids
    → map h w.node.ports ≡ seen ++ replicate left none
    → length seen ≡ port
    → h none ≡ none
    → (map h w'.node.ports ≡ seen ++ measures (ports_of status port left kids))
      × ((x : Option ℕ) → measure_of w'.nodes x ≡ h x)
unfolding connect_ports ports_of measures
connect_ports-measures color me status port zero w {w'} kids h seen e same cs ps len hn =
    let made : w ≡ w' = some_inj refl e in
    (
      sym (ap (λ t. map h t.node.ports) made) ∙ ps,
      λ x. ap (λ t. measure_of t.nodes x) (sym made) ∙ same x,
    )
connect_ports-measures color me status port (suc left) w {w'} kids h seen e same cs ps len hn =
    elim (Option-cases (connect_port color me (status port) port w)) [
      | inl gone ↦ absurd (none-some (rw (connect_ports, gone) refl) e)
      | inr (v, here) ↦
          let rest : connect_ports color me status (port + 1) left v ≡ some w' =
            sym (rw (connect_ports, here) refl) ∙ e in
          let (step, kept) = connect_port_step color me (status port) port w {w' = v} here in
          elim step [
            | inl (is_child, (c, below, had, has, ports)) ↦
                let (t, ts, kids_are, hop, others) =
                  kid_of_child (λ k. h (some k)) c below kids
                    (ap (map (λ k. h (some k))) (sym had) ∙ cs) in
                let next_seen : List (Option Measure) = seen ++ (tree_hops t ∷ []) in
                let ports' : map h v.node.ports ≡ next_seen ++ replicate left none =
                  ap (map h) ports
                  ∙ map-set h w.node.ports port (some c)
                  ∙ ap₂ (λ l k. set l k (h (some c))) ps (sym len)
                  ∙ set-append seen (replicate left none) none (h (some c))
                  ∙ ap (λ k. seen ++ (k ∷ replicate left none)) hop
                  ∙ sym (append-cons seen (replicate left none) (tree_hops t)) in
                let (r, r') =
                  connect_ports-measures color me status (port + 1) left v {w' = w'} ts h next_seen
                    rest (λ x. kept x ∙ same x) (ap (map (λ k. h (some k))) has ∙ others) ports'
                    (length-append seen (tree_hops t ∷ []) ∙ omega arith) hn in
                (
                  r
                      ∙ append-cons seen (measures (ports_of status (port + 1) left ts))
                          (tree_hops t)
                      ∙ ap (λ m. seen ++ m) (measures_take status port left t ts is_child)
                      ∙ ap (λ k. seen ++ measures (ports_of status port (suc left) k))
                          (sym kids_are),
                  r',
                )
            | inr (not_child, has, ports) ↦
                let next_seen : List (Option Measure) = seen ++ (none ∷ []) in
                let (r, r') =
                  connect_ports-measures color me status (port + 1) left v {w' = w'} kids h
                    next_seen rest (λ x. kept x ∙ same x) (ap (map (λ c. h (some c))) has ∙ cs)
                    (ap (map h) ports ∙ ps ∙ sym (append-cons seen (replicate left none) none))
                    (length-append seen (none ∷ []) ∙ omega arith) hn in
                (
                  r
                      ∙ append-cons seen (measures (ports_of status (port + 1) left kids)) none
                      ∙ ap (λ t. seen ++ t) (measures_skip status port left kids not_child),
                  r',
                )
          ]
    ]
