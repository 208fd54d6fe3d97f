-- ===== src/Plan/Assemble/Distinctness.antt =====
-- No two nodes of testrange/nodes.py, `assemble_graph`, have the same name, if no two pools, switches or
-- machines have.
use test_range.Prelude.{
  String, ◌≡◌, ap, sym, subst, ◌⊎◌, inl, inr, false, List, [], ◌∷◌, ◌++◌, map, arith, contains, In,
  In-cons_cases, In-cons_self, In-In_cons, contains-append, Distinct, Distinct-append, Bool-cases,
  join_cancel,
}
use test_range.Networks.Switch.{Switch, needs_sidecar}
use test_range.Plan.Handles.{pool_node, network_node, sidecar_node, vm_node}
use test_range.Plan.Assemble.Names.{
  initial, switch_names, absent, Distinct-map, initial-map, initial-network, initial-sidecar,
  initial-pool, initial-vm,
}

abbrev pub labels : List Switch → List String
labels ss = map (λ s. s.name) ss

network_node_cancel : (a b : String) → network_node a ≡ network_node b → a ≡ b
unfolding network_node
network_node_cancel a b h = join_cancel "network:" a b h

sidecar_node_cancel : (a b : String) → sidecar_node a ≡ sidecar_node b → a ≡ b
unfolding sidecar_node
sidecar_node_cancel a b h = join_cancel "sidecar:" a b h

pub network-ne-sidecar : (a b : String) → network_node a ≡ sidecar_node b → ⊥
network-ne-sidecar a b h = omega (arith, ap initial h, initial-network a, initial-sidecar b)

-- What a name among the switches' nodes can be.
abbrev IsFrom : String → List Switch → Type 0
IsFrom x ss =
    ((n : String) × (network_node n ≡ x) × In n (labels ss))
    ⊎ ((n : String) × (sidecar_node n ≡ x) × In n (labels ss))

IsFrom-cons : (x : String) (s : Switch) (ss : List Switch) → IsFrom x ss → IsFrom x (s ∷ ss)
IsFrom-cons x s ss (inl (n, e, m)) = inl (n, e, In-In_cons n s.name (labels ss) m)
IsFrom-cons x s ss (inr (n, e, m)) = inr (n, e, In-In_cons n s.name (labels ss) m)

switch_names-IsFrom : (x : String) (ss : List Switch) → In x (switch_names ss) → IsFrom x ss
unfolding switch_names contains
switch_names-IsFrom x [] h = cc
switch_names-IsFrom x (s ∷ ss) h = elim (Bool-cases (needs_sidecar s)) [
  | inl with_sidecar ↦
      let m = rw with_sidecar at h in
      elim (In-cons_cases x (network_node s.name) (sidecar_node s.name ∷ switch_names ss) m) [
        | inl here ↦ inl (s.name, here, In-cons_self s.name (labels ss))
        | inr later ↦ elim (In-cons_cases x (sidecar_node s.name) (switch_names ss) later) [
          | inl here ↦ inr (s.name, here, In-cons_self s.name (labels ss))
          | inr rest ↦ IsFrom-cons x s ss (switch_names-IsFrom x ss rest)
        ]
      ]
  | inr bare ↦
      let m = rw bare at h in
      elim (In-cons_cases x (network_node s.name) (switch_names ss) m) [
        | inl here ↦ inl (s.name, here, In-cons_self s.name (labels ss))
        | inr rest ↦ IsFrom-cons x s ss (switch_names-IsFrom x ss rest)
      ]
]

network-In :
    (n : String) (ss : List Switch) → In (network_node n) (switch_names ss) → In n (labels ss)
network-In n ss h = elim (switch_names-IsFrom (network_node n) ss h) [
  | inl (m, e, known) ↦ subst (λ z. In z (labels ss)) (network_node_cancel m n e) known
  | inr (m, e, known) ↦ absurd (network-ne-sidecar n m (sym e))
]

sidecar-In :
    (n : String) (ss : List Switch) → In (sidecar_node n) (switch_names ss) → In n (labels ss)
sidecar-In n ss h = elim (switch_names-IsFrom (sidecar_node n) ss h) [
  | inl (m, e, known) ↦ absurd (network-ne-sidecar m n e)
  | inr (m, e, known) ↦ subst (λ z. In z (labels ss)) (sidecar_node_cancel m n e) known
]

Distinct-switch_names : (ss : List Switch) → Distinct (labels ss) → Distinct (switch_names ss)
unfolding switch_names
Distinct-switch_names [] d = tt
Distinct-switch_names (s ∷ ss) d =
    let no_network : contains (network_node s.name) (switch_names ss) ≡ false =
      absent (network_node s.name) (switch_names ss) (λ m. cc (network-In s.name ss m, d.0)) in
    let no_sidecar : contains (sidecar_node s.name) (switch_names ss) ≡ false =
      absent (sidecar_node s.name) (switch_names ss) (λ m. cc (sidecar-In s.name ss m, d.0)) in
    elim (Bool-cases (needs_sidecar s)) [
      | inr bare ↦ rw bare (no_network, Distinct-switch_names ss d.1)
      | inl with_sidecar ↦ rw with_sidecar (
        absent (network_node s.name) (sidecar_node s.name ∷ switch_names ss) (λ m.
            elim (In-cons_cases (network_node s.name) (sidecar_node s.name) (switch_names ss) m) [
              | inl e ↦ network-ne-sidecar s.name s.name (sym e)
              | inr later ↦ cc (later, no_network)
            ]),
        (no_sidecar, Distinct-switch_names ss d.1),
      )
    ]

-- The names of all nodes, of the given pools, switches and machines.
unfoldable pub all_names : List String → List Switch → List String → List String
all_names ps ss vs = map pool_node ps ++ (switch_names ss ++ map vm_node vs)

initial-switch_names :
    (x : String) (ss : List Switch)
    → In x (switch_names ss)
    → (initial x ≡ b'n') ⊎ (initial x ≡ b's')
initial-switch_names x ss h = elim (switch_names-IsFrom x ss h) [
  | inl (n, e, m) ↦ inl (subst (λ z. initial z ≡ b'n') e (initial-network n))
  | inr (n, e, m) ↦ inr (subst (λ z. initial z ≡ b's') e (initial-sidecar n))
]

initial-pools : (x : String) (ps : List String) → In x (map pool_node ps) → initial x ≡ b'p'
unfolding pool_node
initial-pools x ps h = initial-map b'p' "pool:" x ps initial-pool h

initial-vms : (x : String) (vs : List String) → In x (map vm_node vs) → initial x ≡ b'v'
unfolding vm_node
initial-vms x vs h = initial-map b'v' "vm:" x vs initial-vm h

-- A name among all of them starts with one of the four letters.
pub all_names_cases :
    (x : String) (ps : List String) (ss : List Switch) (vs : List String)
    → In x (all_names ps ss vs)
    → In x (map pool_node ps) ⊎ (In x (switch_names ss) ⊎ In x (map vm_node vs))
unfolding all_names
all_names_cases x ps ss vs h = ground (
  arith,
  contains-append x (map pool_node ps) (switch_names ss ++ map vm_node vs),
  contains-append x (switch_names ss) (map vm_node vs),
)

Distinct-pools : (ps : List String) → Distinct ps → Distinct (map pool_node ps)
unfolding pool_node
Distinct-pools ps d = Distinct-map "pool:" ps d

Distinct-vms : (vs : List String) → Distinct vs → Distinct (map vm_node vs)
unfolding vm_node
Distinct-vms vs d = Distinct-map "vm:" vs d

pub Distinct-all_names :
    (ps : List String) (ss : List Switch) (vs : List String)
    → Distinct ps
    → Distinct (labels ss)
    → Distinct vs
    → Distinct (all_names ps ss vs)
unfolding all_names contains
Distinct-all_names ps ss vs dp ds dv =
    Distinct-append (map pool_node ps) (switch_names ss ++ map vm_node vs) (Distinct-pools ps dp)
      (Distinct-append (switch_names ss) (map vm_node vs) (Distinct-switch_names ss ds)
        (Distinct-vms vs dv)
        (λ x m.
          absent x (map vm_node vs)
            (λ k. ground (arith, initial-switch_names x ss m, initial-vms x vs k))))
      (λ x m. absent x (switch_names ss ++ map vm_node vs) (λ k.
        elim (all_names_cases x [] ss vs k) [
          | inl none_here ↦ cc
          | inr (inl s) ↦ ground (arith, initial-pools x ps m, initial-switch_names x ss s)
          | inr (inr v) ↦ ground (arith, initial-pools x ps m, initial-vms x vs v)
        ]))

pub initial-all_names :
    (x : String) (ps : List String) (ss : List Switch) (vs : List String)
    → In x (all_names ps ss vs)
    → (initial x ≡ b'p') ⊎ ((initial x ≡ b'n') ⊎ ((initial x ≡ b's') ⊎ (initial x ≡ b'v')))
initial-all_names x ps ss vs h = elim (all_names_cases x ps ss vs h) [
  | inl p ↦ inl (initial-pools x ps p)
  | inr (inl s) ↦ ground (arith, initial-switch_names x ss s)
  | inr (inr v) ↦ inr (inr (inr (initial-vms x vs v)))
]
