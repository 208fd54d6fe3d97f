-- ===== src/Plan/Assemble/Known.antt =====
-- testrange/nodes.py, `assemble_graph`, on a container whose references are all to what it registered.
use test_range.Prelude.{
  ℕ, ◌<◌, ◌≤◌, String, ◌≡◌, refl, ap, sym, subst, ◌∙◌, ◌⊎◌, inl, inr, false, Option, none, some,
  List, [], ◌∷◌, ◌++◌, map, arith, eq_iff, eq_refl, ◌==◌, contains, In, In-cons_cases, In-cons_self,
  In-In_cons, contains-append, Bool-cases, All, All-append, ok, Dict, get, put, get-put,
}
use test_range.Networks.Switch.{Switch, needs_sidecar}
use test_range.Networks.Machine.{VmSpec, NetworkIface, os_pools, data_drives, nics}
use test_range.Plan.Handles.{pool_node, network_node, sidecar_node, vm_node}
use test_range.Plan.Hypervisor.{StoragePool}
use test_range.Plan.Assemble.{sidecar_of, nic_needs, first_os, by_network_node}
use test_range.Plan.Assemble.Names.{
  rank, nonempty_initial, switch_names, initial-network, initial-sidecar, initial-pool, initial-vm,
  In-map,
}
use test_range.Plan.Assemble.Distinctness.{all_names, labels}
use test_range.Plan.Assemble.Edges.{
  IsDown, DownPairs, from_one, first_one, sidecar_pairs, vm_needs, vm_pairs, required_pair,
}

module _ (o : String → ℕ) where
  rank-pool : (n : String) → rank o (pool_node n) ≡ 0
  unfolding rank
  rank-pool n = rw (initial-pool n) refl

  rank-network : (n : String) → rank o (network_node n) ≡ 1
  unfolding rank
  rank-network n = rw (initial-network n) refl

  rank-sidecar : (n : String) → rank o (sidecar_node n) ≡ 2
  unfolding rank
  rank-sidecar n = rw (initial-sidecar n) refl

  rank-vm : (n : String) → 3 ≤ rank o (vm_node n)
  unfolding rank
  rank-vm n = rw (initial-vm n) (omega arith)

named-pool : (n : String) → (pool_node n == "") ≡ false
named-pool n = nonempty_initial (pool_node n) (omega (arith, initial-pool n))

named-network : (n : String) → (network_node n == "") ≡ false
named-network n = nonempty_initial (network_node n) (omega (arith, initial-network n))

named-sidecar : (n : String) → (sidecar_node n == "") ≡ false
named-sidecar n = nonempty_initial (sidecar_node n) (omega (arith, initial-sidecar n))

named-vm : (n : String) → (vm_node n == "") ≡ false
named-vm n = nonempty_initial (vm_node n) (omega (arith, initial-vm n))

In-front : (x : String) (xs ys : List String) → In x xs → In x (xs ++ ys)
In-front x xs ys h = ground (arith, contains-append x xs ys)

In-back : (x : String) (xs ys : List String) → In x ys → In x (xs ++ ys)
In-back x xs ys h = ground (arith, contains-append x xs ys)

network-known :
    (n : String) (ss : List Switch) → In n (labels ss) → In (network_node n) (switch_names ss)
unfolding switch_names contains
network-known n [] h = cc
network-known n (s ∷ ss) h = elim (In-cons_cases n s.name (labels ss) h) [
  | inl here ↦ ground (
    arith,
    eq_refl (network_node s.name),
    ap network_node here,
    eq_iff (network_node s.name) (network_node n),
  )
  | inr later ↦ ground (arith, network-known n ss later)
]

-- The machine's disks are in registered pools, and its NICs name registered switches.
pub record IsPlaceable (ps : List String) (ss : List Switch) (v : VmSpec) : Type 0 where
  pub os_pool : String
  pub has_os : first_os (os_pools v.devices) ≡ ok os_pool
  pub os_known : In os_pool ps
  pub data_known : All (λ p. In p ps) (data_drives v.devices)
  pub nics_known : All (λ (n : NetworkIface). In n.network.switch (labels ss)) (nics v.devices)

module _ (ps : List String) (ss : List Switch) (vs : List String) (o : String → ℕ) where
  abbrev names : List String
  names = all_names ps ss vs

  pool_In : (p : String) → In p ps → In (pool_node p) names
  unfolding all_names pool_node
  pool_In p h =
      In-front (pool_node p) (map pool_node ps) (switch_names ss ++ map vm_node vs)
        (In-map "pool:" p ps h)

  switch_In : (x : String) → In x (switch_names ss) → In x names
  unfolding all_names
  switch_In x h =
      In-back x (map pool_node ps) (switch_names ss ++ map vm_node vs)
        (In-front x (switch_names ss) (map vm_node vs) h)

  vm_In : (v : String) → In v vs → In (vm_node v) names
  unfolding all_names vm_node
  vm_In v h =
      In-back (vm_node v) (map pool_node ps) (switch_names ss ++ map vm_node vs)
        (In-back (vm_node v) (switch_names ss) (map vm_node vs) (In-map "vm:" v vs h))

  -- A sidecar's node is in the graph if its switch has one.
  abbrev HasNode : Switch → Type 0
  HasNode s = (needs_sidecar s ≡ false) ⊎ In (sidecar_node s.name) names

  All-HasNode :
      (ts : List Switch)
      → ((x : String) → In x (switch_names ts) → In x names)
      → All (λ s. HasNode s × In (network_node s.name) names) ts
  unfolding switch_names contains
  All-HasNode [] h = tt
  All-HasNode (t ∷ ts) h = elim (Bool-cases (needs_sidecar t)) [
    | inr bare ↦ (
      (
        inl bare,
        h (network_node t.name) (rw bare (In-cons_self (network_node t.name) (switch_names ts))),
      ),
      All-HasNode ts
          (λ x m. h x (rw bare (In-In_cons x (network_node t.name) (switch_names ts) m))),
    )
    | inl with_sidecar ↦ (
      (
        inr (
            h (sidecar_node t.name) (
              rw with_sidecar (
                In-In_cons (sidecar_node t.name) (network_node t.name)
                  (sidecar_node t.name ∷ switch_names ts)
                  (In-cons_self (sidecar_node t.name) (switch_names ts))))),
        h (network_node t.name) (
            rw with_sidecar
              (In-cons_self (network_node t.name) (sidecar_node t.name ∷ switch_names ts))),
      ),
      All-HasNode ts (λ x m. h x (
          rw with_sidecar (
            In-In_cons x (network_node t.name) (sidecar_node t.name ∷ switch_names ts)
              (In-In_cons x (sidecar_node t.name) (switch_names ts) m)))),
    )
  ]

  -- Every switch that the assembly looks up by its network node.
  abbrev Lookup : Dict Switch → Type 0
  Lookup d = (k : String) (s : Switch) → get d k ≡ some s → HasNode s

  Lookup-put :
      (d : Dict Switch) (k : String) (t : Switch) → Lookup d → HasNode t → Lookup (put d k t)
  Lookup-put d k t known has j s e = elim (Bool-cases (k == j)) [
    | inl same ↦
        let found : some t ≡ some s = sym (get-put d k j t ∙ rw same refl) ∙ e in
        let here : t ≡ s = cc in subst HasNode here has
    | inr other ↦ known j s (sym (get-put d k j t ∙ rw other refl) ∙ e)
  ]

  Lookup-by_network_node :
      (ts : List Switch) (d : Dict Switch)
      → All (λ s. HasNode s × In (network_node s.name) names) ts
      → Lookup d
      → Lookup (by_network_node ts d)
  unfolding by_network_node
  Lookup-by_network_node [] d all known = known
  Lookup-by_network_node (t ∷ ts) d all known =
      Lookup-by_network_node ts (put d (network_node t.name) t) all.1
        (Lookup-put d (network_node t.name) t known all.0.0)

  lookup : Lookup (by_network_node ss [])
  unfolding get
  lookup = Lookup-by_network_node ss [] (All-HasNode ss switch_In) (λ k s e. cc)

  -- An edge from a sidecar, and from a machine.
  sidecar-IsDown :
      (s b : String)
      → In (sidecar_node s) names
      → In b names
      → (b == "") ≡ false
      → rank o b < 2
      → IsDown names (rank o) (sidecar_node s) b
  sidecar-IsDown s b from to named low = record {
    from_named = named-sidecar s;
    to_named = named;
    from_known = from;
    to_known = to;
    lower = omega (arith, rank-sidecar o s);
  }

  vm-IsDown :
      (v b : String)
      → In v vs
      → In b names
      → (b == "") ≡ false
      → rank o b < 3
      → IsDown names (rank o) (vm_node v) b
  vm-IsDown v b from to named low = record {
    from_named = named-vm v;
    to_named = named;
    from_known = vm_In v from;
    to_known = to;
    lower = omega (arith, rank-vm o v);
  }

  sidecar_pairs-Down :
      (first : Option StoragePool) (ts : List Switch)
      → ((p : StoragePool) → first ≡ some p → In p.name ps)
      → All (λ s. HasNode s × In (network_node s.name) names) ts
      → DownPairs names (rank o) (sidecar_pairs first ts)
  unfolding sidecar_pairs from_one
  sidecar_pairs-Down none ts home all = tt
  sidecar_pairs-Down (some p) [] home all = tt
  sidecar_pairs-Down (some p) (t ∷ ts) home ((has, known), all) =
      elim (Bool-cases (needs_sidecar t)) [
        | inr bare ↦ rw bare (sidecar_pairs-Down (some p) ts home all)
        | inl with_sidecar ↦ elim has [
          | inl bare ↦ cc
          | inr node ↦ rw with_sidecar (
            sidecar-IsDown t.name (network_node t.name) node known (named-network t.name)
                (omega (arith, rank-network o t.name)),
            (
              sidecar-IsDown t.name (pool_node p.name) node (pool_In p.name (home p refl))
                  (named-pool p.name) (omega (arith, rank-pool o p.name)),
              sidecar_pairs-Down (some p) ts home all,
            ),
          )
        ]
      ]

  pools_down :
      (v : String) (qs : List String)
      → In v vs
      → All (λ q. In q ps) qs
      → DownPairs names (rank o) (from_one (vm_node v) (map pool_node qs))
  unfolding from_one
  pools_down v [] from all = tt
  pools_down v (q ∷ qs) from all = (
    vm-IsDown v (pool_node q) from (pool_In q all.0) (named-pool q) (omega (arith, rank-pool o q)),
    pools_down v qs from all.1,
  )

  from_one-append :
      (v : String) (xs ys : List String)
      → DownPairs names (rank o) (from_one v xs)
      → DownPairs names (rank o) (from_one v ys)
      → DownPairs names (rank o) (from_one v (xs ++ ys))
  unfolding from_one
  from_one-append v [] ys dx dy = dy
  from_one-append v (x ∷ xs) ys dx dy = (dx.0, from_one-append v xs ys dx.1 dy)

  sidecar_of-Down :
      (v : String) (found : Option Switch)
      → In v vs
      → ((s : Switch) → found ≡ some s → HasNode s)
      → DownPairs names (rank o) (from_one (vm_node v) (sidecar_of found))
  unfolding sidecar_of from_one
  sidecar_of-Down v none from known = tt
  sidecar_of-Down v (some s) from known = elim (Bool-cases (needs_sidecar s)) [
    | inr bare ↦ rw bare tt
    | inl with_sidecar ↦ elim (known s refl) [
      | inl bare ↦ cc
      | inr node ↦ rw with_sidecar (
        vm-IsDown v (sidecar_node s.name) from node (named-sidecar s.name)
            (omega (arith, rank-sidecar o s.name)),
        tt,
      )
    ]
  ]

  nics_down :
      (v : String) (ns : List NetworkIface)
      → In v vs
      → All (λ (n : NetworkIface). In n.network.switch (labels ss)) ns
      → DownPairs names (rank o) (from_one (vm_node v) (nic_needs (by_network_node ss []) ns))
  unfolding nic_needs from_one
  nics_down v [] from all = tt
  nics_down v (n ∷ ns) from all =
      let k : String = network_node n.network.switch in
      (
        vm-IsDown v k from (switch_In k (network-known n.network.switch ss all.0))
            (named-network n.network.switch) (omega (arith, rank-network o n.network.switch)),
        from_one-append (vm_node v) (sidecar_of (get (by_network_node ss []) k))
            (nic_needs (by_network_node ss []) ns)
            (sidecar_of-Down v (get (by_network_node ss []) k) from (lookup k))
            (nics_down v ns from all.1),
      )

  first_one-All :
      (qs : List String) (p : String)
      → first_os qs ≡ ok p
      → In p ps
      → All (λ q. In q ps) (first_one qs)
  unfolding first_os first_one
  first_one-All [] p e h = tt
  first_one-All (q ∷ qs) p e h = let same : p ≡ q = cc in (subst (λ z. In z ps) same h, tt)

  pub vm_pairs-Down :
      (us : List VmSpec)
      → All (λ u. In u.name vs × IsPlaceable ps ss u) us
      → DownPairs names (rank o) (vm_pairs (by_network_node ss []) us)
  unfolding vm_pairs vm_needs
  vm_pairs-Down [] all = tt
  vm_pairs-Down (u ∷ us) ((from, place), all) =
      let d = by_network_node ss [] in
      All-append (λ (p : String × String). IsDown names (rank o) p.0 p.1)
        (from_one (vm_node u.name) (vm_needs d u)) (vm_pairs d us)
        (from_one-append (vm_node u.name) (map pool_node (first_one (os_pools u.devices)))
          (map pool_node (data_drives u.devices) ++ nic_needs d (nics u.devices))
          (pools_down u.name (first_one (os_pools u.devices)) from
            (first_one-All (os_pools u.devices) place.os_pool place.has_os place.os_known))
          (from_one-append (vm_node u.name) (map pool_node (data_drives u.devices))
            (nic_needs d (nics u.devices))
            (pools_down u.name (data_drives u.devices) from place.data_known)
            (nics_down u.name (nics u.devices) from place.nics_known)))
        (vm_pairs-Down us all)

  pub required_pair-Down :
      (first : Option StoragePool) (us : List VmSpec) (explicit : List (String × String))
      → ((p : StoragePool) → first ≡ some p → In p.name ps)
      → All (λ u. In u.name vs × IsPlaceable ps ss u) us
      → DownPairs names (rank o) explicit
      → DownPairs names (rank o) (required_pair first ss us explicit)
  unfolding required_pair
  required_pair-Down first us explicit home all down =
      let d = by_network_node ss [] in
      All-append (λ (p : String × String). IsDown names (rank o) p.0 p.1) (sidecar_pairs first ss)
        (vm_pairs d us ++ explicit) (sidecar_pairs-Down first ss home (All-HasNode ss switch_In))
        (All-append (λ (p : String × String). IsDown names (rank o) p.0 p.1) (vm_pairs d us)
          explicit (vm_pairs-Down us all) down)
