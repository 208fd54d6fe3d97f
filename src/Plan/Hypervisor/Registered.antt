-- ===== src/Plan/Hypervisor/Registered.antt =====
-- The invariant of the container of testrange/hypervisor.py: what its dictionaries hold.
use test_range.Prelude.{
  String, ◌≡◌, refl, ap, sym, subst, ◌∙◌, inl, inr, false, Option, some, List, [], ◌∷◌, ◌++◌, map,
  arith, eq_iff, ◌==◌, contains, In, Distinct, Distinct-snoc, Bool-cases, Result, ok, err, ◌>>=◌,
  ◌>>◌, raise_if, >>-eq-ok, >>=-eq-ok, raise_if-eq-ok, ok-injective, Dict, get, put, keys, values,
  get-put, contains-keys-put,
}
use test_range.Errors.{Error, value_error}
use test_range.Networks.Switch.{Switch}
use test_range.Networks.Machine.{NetworkHandle}
use test_range.Plan.Handles.{Handle, pool, switch, vm, node_name, make_handle}
use test_range.Plan.Hypervisor.{
  Hypervisor, StoragePool, VmRecipe, new_hypervisor, require_mutable, registered, add_pool,
  add_switch, add_vm, check_networks, store_networks, add_explicit_edge, needs, need_one, and_then,
  freeze,
}

-- Every value is under its own name, and no name occurs twice.
pub record IsKeyed {V : Type 0} (label : V → String) (d : Dict V) : Type 0 where
  pub named : map label (values d) ≡ keys d
  pub distinct : Distinct (keys d)

module _ {V : Type 0} where
  keys-put_new :
      (d : Dict V) (k : String) (v : V)
      → contains k (keys d) ≡ false
      → keys (put d k v) ≡ keys d ++ k ∷ []
  unfolding keys put contains
  keys-put_new [] k v h = refl
  keys-put_new ((j, w) ∷ d) k v h = ground (arith, keys-put_new d k v)

  values-put_new :
      (d : Dict V) (k : String) (v : V)
      → contains k (keys d) ≡ false
      → values (put d k v) ≡ values d ++ v ∷ []
  unfolding values keys put contains
  values-put_new [] k v h = refl
  values-put_new ((j, w) ∷ d) k v h = ground (arith, values-put_new d k v)

map-snoc :
    {A : Type 0} (f : A → String) (xs : List A) (x : A)
    → map f (xs ++ x ∷ []) ≡ map f xs ++ f x ∷ []
map-snoc f [] x = refl
map-snoc f (y ∷ xs) x = ap (λ l. f y ∷ l) (map-snoc f xs x)

IsKeyed-put :
    {V : Type 0} (label : V → String) (d : Dict V) (v : V)
    → IsKeyed label d
    → contains (label v) (keys d) ≡ false
    → IsKeyed label (put d (label v) v)
IsKeyed-put label d v w new = record {
  named =
      ap (map label) (values-put_new d (label v) v new)
      ∙ map-snoc label (values d) v
      ∙ ap (λ l. l ++ label v ∷ []) w.named
      ∙ sym (keys-put_new d (label v) v new);
  distinct = rw (keys-put_new d (label v) v new) (Distinct-snoc (label v) (keys d) w.distinct new);
}

-- A network's handle carries its own name and a registered switch.
abbrev pub Resolves : Dict Switch → Dict NetworkHandle → Type 0
Resolves switches networks =
    (n : String) (handle : NetworkHandle)
    → get networks n ≡ some handle
    → (handle.name ≡ n) × In handle.switch (keys switches)

Resolves-put :
    (switches : Dict Switch) (networks : Dict NetworkHandle) (n owner : String)
    → In owner (keys switches)
    → Resolves switches networks
    → Resolves switches (put networks n (record { name = n; switch = owner }))
Resolves-put switches networks n owner known all m handle e = elim (Bool-cases (n == m)) [
  | inl same ↦
      let stored : NetworkHandle = record { name = n; switch = owner } in
      let found : some stored ≡ some handle =
        sym (get-put networks n m stored ∙ rw same refl) ∙ e in
      let here : stored ≡ handle = cc in
      subst (λ z. (z.name ≡ m) × In z.switch (keys switches)) here ((eq_iff n m).0 same, known)
  | inr other ↦
      all m handle
        (sym (get-put networks n m (record { name = n; switch = owner }) ∙ rw other refl) ∙ e)
]

Resolves-store_networks :
    (switches : Dict Switch) (owner : String) (ns : List String) (networks : Dict NetworkHandle)
    → In owner (keys switches)
    → Resolves switches networks
    → Resolves switches (store_networks owner ns networks)
unfolding store_networks
Resolves-store_networks switches owner [] networks known all = all
Resolves-store_networks switches owner (n ∷ ns) networks known all =
    Resolves-store_networks switches owner ns (put networks n (record { name = n; switch = owner }))
      known (Resolves-put switches networks n owner known all)

module _ {P : Type 0} where
  pub record IsRegistered (h : Hypervisor P) : Type 0 where
    pub pools : IsKeyed (λ (p : StoragePool). p.name) h.pools
    pub switches : IsKeyed (λ (s : Switch). s.name) h.switches
    pub vms : IsKeyed (λ (r : VmRecipe P). r.spec.name) h.vms
    pub networks : Resolves h.switches h.networks

  registered-keeps :
      {A : Type 0} (h : Hypervisor P) (r : Result Error (A × Hypervisor P))
      → IsRegistered h
      → ((a : A) (h' : Hypervisor P) → r ≡ ok (a, h') → IsRegistered h')
      → IsRegistered (registered h r).1
  unfolding registered
  registered-keeps h (ok (a, h')) w next = next a h' refl
  registered-keeps h (err e) w next = w

  add_pool-IsRegistered :
      (p : StoragePool) (h : Hypervisor P) → IsRegistered h → IsRegistered (add_pool p h).1
  unfolding add_pool
  add_pool-IsRegistered p h w = registered-keeps h _ w (λ a h' run.
      let e : Error = record { class = value_error; about = p.name ∷ [] } in
      let (guards, rest) =
        >>-eq-ok (require_mutable h >> raise_if (contains p.name (keys h.pools)) e)
          (make_handle pool p.name >>= λ b. ok (b, record h { pools = put h.pools p.name p }))
          run in
      let (_, new) =
        >>-eq-ok (require_mutable h) (raise_if (contains p.name (keys h.pools)) e) guards in
      let (b, _, made) =
        >>=-eq-ok (make_handle pool p.name) (λ b. ok (b, record h { pools = put h.pools p.name p }))
          rest in
      subst IsRegistered (ap (λ z. z.1) (ok-injective made)) (record {
        pools =
            IsKeyed-put (λ q. q.name) h.pools p w.pools
              (raise_if-eq-ok (contains p.name (keys h.pools)) e new);
        switches = w.switches;
        vms = w.vms;
        networks = w.networks;
      }))

  add_vm-IsRegistered :
      (r : VmRecipe P) (h : Hypervisor P) → IsRegistered h → IsRegistered (add_vm r h).1
  unfolding add_vm
  add_vm-IsRegistered r h w = registered-keeps h _ w (λ a h' run.
      let name : String = r.spec.name in
      let e : Error = record { class = value_error; about = name ∷ [] } in
      let (guards, rest) =
        >>-eq-ok (require_mutable h >> raise_if (contains name (keys h.vms)) e)
          (make_handle vm name >>= λ b. ok (b, record h { vms = put h.vms name r })) run in
      let (_, new) =
        >>-eq-ok (require_mutable h) (raise_if (contains name (keys h.vms)) e) guards in
      let (b, _, made) =
        >>=-eq-ok (make_handle vm name) (λ b. ok (b, record h { vms = put h.vms name r })) rest in
      subst IsRegistered (ap (λ z. z.1) (ok-injective made)) (record {
        pools = w.pools;
        switches = w.switches;
        vms =
            IsKeyed-put (λ q. q.spec.name) h.vms r w.vms
              (raise_if-eq-ok (contains name (keys h.vms)) e new);
        networks = w.networks;
      }))

  add_switch-IsRegistered :
      (s : Switch) (h : Hypervisor P) → IsRegistered h → IsRegistered (add_switch s h).1
  unfolding add_switch
  add_switch-IsRegistered s h w = registered-keeps h _ w (λ a h' run.
      let e : Error = record { class = value_error; about = s.name ∷ [] } in
      let after : Hypervisor P = record h {
        switches = put h.switches s.name s;
        networks = store_networks s.name s.networks h.networks;
      } in
      let (guards, rest) =
        >>-eq-ok
          (require_mutable h
            >> raise_if (contains s.name (keys h.switches)) e
            >> check_networks h.networks s.networks)
          (make_handle switch s.name >>= λ b. ok (b, after)) run in
      let (front, _) =
        >>-eq-ok (require_mutable h >> raise_if (contains s.name (keys h.switches)) e)
          (check_networks h.networks s.networks) guards in
      let (_, new) =
        >>-eq-ok (require_mutable h) (raise_if (contains s.name (keys h.switches)) e) front in
      let (b, _, made) = >>=-eq-ok (make_handle switch s.name) (λ b. ok (b, after)) rest in
      let fresh = raise_if-eq-ok (contains s.name (keys h.switches)) e new in
      let more : (m : String) → In m (keys h.switches) → In m (keys (put h.switches s.name s)) =
        λ m k. contains-keys-put h.switches s.name m s ∙ ground arith in
      subst IsRegistered (ap (λ z. z.1) (ok-injective made)) (record {
        pools = w.pools;
        switches = IsKeyed-put (λ q. q.name) h.switches s w.switches fresh;
        vms = w.vms;
        networks =
            Resolves-store_networks (put h.switches s.name s) s.name s.networks h.networks
              (contains-keys-put h.switches s.name s.name s ∙ ground (arith, eq_iff s.name s.name))
              (λ n handle found.
                ((w.networks n handle found).0, more handle.switch (w.networks n handle found).1));
      }))

  add_explicit_edge-IsRegistered :
      (a b : String) (h : Hypervisor P) → IsRegistered h → IsRegistered (add_explicit_edge a b h).1
  unfolding add_explicit_edge
  add_explicit_edge-IsRegistered a b h w = registered-keeps h _ w (λ u h' run.
      let after : Hypervisor P = record h { explicit_edges = h.explicit_edges ++ (a, b) ∷ [] } in
      let (_, made) = >>-eq-ok (require_mutable h) (ok (tt, after)) run in
      subst IsRegistered (ap (λ z. z.1) (ok-injective made))
        (record { pools = w.pools; switches = w.switches; vms = w.vms; networks = w.networks }))

  need_one-IsRegistered :
      (name : String) (other : Handle) (h : Hypervisor P)
      → IsRegistered h
      → IsRegistered (need_one name other h).1
  unfolding need_one
  need_one-IsRegistered name other h w =
      elim (Bool-cases (node_name other == node_name (vm name))) [
        | inl itself ↦ rw itself w
        | inr fine ↦
            rw fine (add_explicit_edge-IsRegistered (node_name (vm name)) (node_name other) h w)
      ]

  and_then-IsRegistered :
      (q : Result Error Unit × Hypervisor P)
      (next : Hypervisor P → Result Error Unit × Hypervisor P)
      → IsRegistered q.1
      → ((h : Hypervisor P) → IsRegistered h → IsRegistered (next h).1)
      → IsRegistered (and_then q next).1
  unfolding and_then
  and_then-IsRegistered (ok _, h) next w keep = keep h w
  and_then-IsRegistered (err e, h) next w keep = w

  needs-IsRegistered :
      (name : String) (others : List Handle) (h : Hypervisor P)
      → IsRegistered h
      → IsRegistered (needs name others h).1
  unfolding needs
  needs-IsRegistered name [] h w = w
  needs-IsRegistered name (other ∷ others) h w =
      and_then-IsRegistered (need_one name other h) (λ h'. needs name others h')
        (need_one-IsRegistered name other h w) (λ h' w'. needs-IsRegistered name others h' w')

  -- The containers that a plan's module can come by: an empty one, and what the methods leave, whether
  -- they return or raise.
  pub data Declared : Hypervisor P → Type 0 where
    empty : (build_switch : Option Switch) → Declared (new_hypervisor build_switch)
    with_pool : (p : StoragePool) (h : Hypervisor P) → Declared h → Declared (add_pool p h).1
    with_switch : (s : Switch) (h : Hypervisor P) → Declared h → Declared (add_switch s h).1
    with_vm : (r : VmRecipe P) (h : Hypervisor P) → Declared h → Declared (add_vm r h).1
    with_needs :
        (name : String) (others : List Handle) (h : Hypervisor P)
        → Declared h
        → Declared (needs name others h).1
    frozen : (h : Hypervisor P) → Declared h → Declared (freeze h)

  pub Declared-IsRegistered : (h : Hypervisor P) → Declared h → IsRegistered h
  unfolding new_hypervisor freeze get keys values
  Declared-IsRegistered h (empty build_switch) = record {
    pools = record { named = refl; distinct = tt };
    switches = record { named = refl; distinct = tt };
    vms = record { named = refl; distinct = tt };
    networks = λ n handle e. cc;
  }
  Declared-IsRegistered h (with_pool p h' d) =
      add_pool-IsRegistered p h' (Declared-IsRegistered h' d)
  Declared-IsRegistered h (with_switch s h' d) =
      add_switch-IsRegistered s h' (Declared-IsRegistered h' d)
  Declared-IsRegistered h (with_vm r h' d) = add_vm-IsRegistered r h' (Declared-IsRegistered h' d)
  Declared-IsRegistered h (with_needs name others h' d) =
      needs-IsRegistered name others h' (Declared-IsRegistered h' d)
  Declared-IsRegistered h (frozen h' d) =
      let w = Declared-IsRegistered h' d in
      record { pools = w.pools; switches = w.switches; vms = w.vms; networks = w.networks }
