-- ===== src/Plan/Assemble/Names.antt =====
-- The names of the nodes of testrange/nodes.py, `assemble_graph`: a prefix for the kind, then the name.
use Prim.Native.String.{String, [], ◌∷◌}
use Prim.Native.Char.{code}
use test_range.Prelude.{
  ℕ, ◌+◌, ◌<◌, ◌≡◌, refl, ap, subst, inl, inr, false, eqb, List, map, arith, eq_iff, ◌==◌, contains,
  In, In-cons_cases, In-cons_self, In-In_cons, Distinct, Bool-cases, if◌then◌else◌, join,
  join_cancel,
}
use test_range.Networks.Switch.{Switch, needs_sidecar}
use test_range.Plan.Handles.{pool_node, network_node, sidecar_node, vm_node}

-- The first character, which tells the kinds of nodes apart; 0 for the empty text.
unfoldable pub initial : String → ℕ
initial [] = 0
initial (c ∷ s) = code c

-- Pools first, then networks, sidecars and machines, these by an order of their own.
unfoldable pub rank : (String → ℕ) → String → ℕ
unfolding initial
rank order x =
    if eqb (initial x) b'p'
    then 0
    else if eqb (initial x) b'n'
    then 1
    else if eqb (initial x) b's'
    then 2
    else 3 + order x

pub nonempty_initial : (x : String) → 0 < initial x → (x == "") ≡ false
unfolding initial
nonempty_initial x h = elim (Bool-cases (x == "")) [
  | inl empty ↦ absurd (omega (arith, ap initial ((eq_iff x "").0 empty)))
  | inr named ↦ named
]

pub In-map : (p n : String) (ns : List String) → In n ns → In (join p n) (map (join p) ns)
unfolding contains
In-map p n List.[] h = cc
In-map p n (List.◌∷◌ m ns) h = elim (In-cons_cases n m ns h) [
  | inl here ↦
      subst (λ z. In (join p z) (map (join p) (List.◌∷◌ m ns))) here
        (In-cons_self (join p m) (map (join p) ns))
  | inr later ↦ In-In_cons (join p n) (join p m) (map (join p) ns) (In-map p n ns later)
]

pub In-of_map : (p n : String) (ns : List String) → In (join p n) (map (join p) ns) → In n ns
unfolding contains
In-of_map p n List.[] h = cc
In-of_map p n (List.◌∷◌ m ns) h = elim (In-cons_cases (join p n) (join p m) (map (join p) ns) h) [
  | inl here ↦ subst (λ z. In z (List.◌∷◌ m ns)) (join_cancel p m n here) (In-cons_self m ns)
  | inr later ↦ In-In_cons n m ns (In-of_map p n ns later)
]

-- What stands in a list of prefixed names has the prefix's first character.
pub initial-map :
    (k : ℕ) (p x : String) (ns : List String)
    → ((n : String) → initial (join p n) ≡ k)
    → In x (map (join p) ns)
    → initial x ≡ k
unfolding contains
initial-map k p x List.[] same h = cc
initial-map k p x (List.◌∷◌ m ns) same h = elim (In-cons_cases x (join p m) (map (join p) ns) h) [
  | inl here ↦ subst (λ z. initial z ≡ k) here (same m)
  | inr later ↦ initial-map k p x ns same later
]

pub absent : (x : String) (xs : List String) → (In x xs → ⊥) → contains x xs ≡ false
absent x xs h = elim (Bool-cases (contains x xs)) [
  | inl present ↦ absurd (h present)
  | inr gone ↦ gone
]

pub Distinct-map : (p : String) (ns : List String) → Distinct ns → Distinct (map (join p) ns)
Distinct-map p List.[] d = tt
Distinct-map p (List.◌∷◌ n ns) d =
    (absent (join p n) (map (join p) ns) (λ m. cc (In-of_map p n ns m, d.0)), Distinct-map p ns d.1)

-- The names of the nodes of the switches, in the order of `assemble_graph`.
unfoldable pub switch_names : List Switch → List String
switch_names List.[] = List.[]
switch_names (List.◌∷◌ s ss) =
    List.◌∷◌ (network_node s.name) (
      if needs_sidecar s then List.◌∷◌ (sidecar_node s.name) (switch_names ss) else switch_names ss)

pub initial-network : (n : String) → initial (network_node n) ≡ b'n'
unfolding network_node join initial
initial-network n = refl

pub initial-sidecar : (n : String) → initial (sidecar_node n) ≡ b's'
unfolding sidecar_node join initial
initial-sidecar n = refl

pub initial-pool : (n : String) → initial (pool_node n) ≡ b'p'
unfolding pool_node join initial
initial-pool n = refl

pub initial-vm : (n : String) → initial (vm_node n) ≡ b'v'
unfolding vm_node join initial
initial-vm n = refl
