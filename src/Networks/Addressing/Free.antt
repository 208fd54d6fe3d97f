-- ===== src/Networks/Addressing/Free.antt =====
-- testrange/networks/validate.py, `validate_addressing`: static addresses and the slots of a switch.
use test_range.Prelude.{
  ℕ, suc, ◌<◌, ◌≡◌, refl, String, false, ◌&&◌, eqb, Option, none, some, List, [], ◌∷◌, ◌++◌, ok,
  Dict, get, All, arith,
}
use test_range.Networks.Switch.{
  Switch, broadcast_address, in_network, sidecar_ip, mgmt_ip, needs_sidecar, serves_dhcp,
}
use test_range.Networks.Machine.{Address, static, lease, unconfigured, NetworkIface, VmSpec, nics}
use test_range.Networks.Addressing.{
  Origin, Trouble, Problem, Scan, add_problem, static_trouble, in_pool, note_seen, place, find_seen,
  seen_on, check_address, check_on, check_nics, check_vms, report, switch_for, validate_addressing,
}

-- The address is a host's of the subnet, and it is not the sidecar's, the management adapter's or
-- one of the lease pool, where the switch has these.
pub IsFree : Switch → ℕ → Type 0
IsFree s a =
    (s.network.network_address < a)
    × (a < broadcast_address s.network)
    × ((needs_sidecar s && eqb a (sidecar_ip s)) ≡ false)
    × ((s.mgmt && eqb a (mgmt_ip s)) ≡ false)
    × ((serves_dhcp s && in_pool s a) ≡ false)

static_trouble-IsFree : (s : Switch) (a : ℕ) → static_trouble s a ≡ none → IsFree s a
unfolding static_trouble in_network IsFree
static_trouble-IsFree s a h = (ground arith, ground arith, ground arith, ground arith, ground arith)

pub IsFreeAddress : Switch → Address → Type 0
IsFreeAddress s (static a) = IsFree s a.host
IsFreeAddress s lease = Unit
IsFreeAddress s unconfigured = Unit

-- A NIC of the plan names a declared network, and a static address is free on its switch.
pub IsPlaced : Dict Switch → NetworkIface → Type 0
IsPlaced d n = (s : Switch) × (get d n.network.name ≡ some s) × IsFreeAddress s n.addr

pub snoc-not_nil : {A : Type 0} (xs : List A) (x : A) → xs ++ x ∷ [] ≡ [] → ⊥
snoc-not_nil [] x h = cc
snoc-not_nil (y ∷ xs) x h = cc

note_seen-quiet :
    (s : Switch) (a : ℕ) (o : Origin) (prior : Option Origin) (c : Scan)
    → (note_seen s a o prior c).problems ≡ []
    → c.problems ≡ []
unfolding note_seen add_problem
note_seen-quiet s a o none c h = h
note_seen-quiet s a o (some p) c h = absurd (snoc-not_nil c.problems _ h)

place-quiet :
    (s : Switch) (a : ℕ) (o : Origin) (t : Option Trouble) (c : Scan)
    → (place s a o t c).problems ≡ []
    → (t ≡ none) × (c.problems ≡ [])
unfolding place add_problem
place-quiet s a o none c h =
    (refl, note_seen-quiet s a o (find_seen (seen_on c.seen_per_switch s.name) a) c h)
place-quiet s a o (some t) c h = absurd (snoc-not_nil c.problems _ h)

check_address-quiet :
    (s : Switch) (o : Origin) (a : Address) (c : Scan)
    → (check_address s o a c).problems ≡ []
    → IsFreeAddress s a × (c.problems ≡ [])
unfolding check_address IsFreeAddress
check_address-quiet s o (static a) c h =
    let q : (static_trouble s a.host ≡ none) × (c.problems ≡ []) =
      place-quiet s a.host o (static_trouble s a.host) c h in
    (static_trouble-IsFree s a.host q.0, q.1)
check_address-quiet s o lease c h = (tt, h)
check_address-quiet s o unconfigured c h = (tt, h)

check_on-quiet :
    (found : Option Switch) (o : Origin) (a : Address) (c : Scan)
    → (check_on found o a c).problems ≡ []
    → ((s : Switch) × (found ≡ some s) × IsFreeAddress s a) × (c.problems ≡ [])
unfolding check_on add_problem
check_on-quiet none o a c h = absurd (snoc-not_nil c.problems _ h)
check_on-quiet (some s) o a c h =
    let q : IsFreeAddress s a × (c.problems ≡ []) = check_address-quiet s o a c h in
    ((s, refl, q.0), q.1)

module _ (d : Dict Switch) where
  pub check_nics-quiet :
      (vm : String) (i : ℕ) (ns : List NetworkIface) (c : Scan)
      → (check_nics d vm i ns c).problems ≡ []
      → All (IsPlaced d) ns × (c.problems ≡ [])
  unfolding check_nics IsPlaced
  check_nics-quiet vm i [] c h = (tt, h)
  check_nics-quiet vm i (n ∷ ns) c h =
      let o : Origin = record { vm = vm; index = i; network = n.network.name } in
      let later : All (IsPlaced d) ns
          × ((check_on (get d n.network.name) o n.addr c).problems ≡ []) =
        check_nics-quiet vm (suc i) ns (check_on (get d n.network.name) o n.addr c) h in
      let here : IsPlaced d n × (c.problems ≡ []) =
        check_on-quiet (get d n.network.name) o n.addr c later.1 in
      ((here.0, later.0), here.1)

  pub check_vms-quiet :
      (vs : List VmSpec) (c : Scan)
      → (check_vms d vs c).problems ≡ []
      → All (λ v. All (IsPlaced d) (nics v.devices)) vs × (c.problems ≡ [])
  unfolding check_vms
  check_vms-quiet [] c h = (tt, h)
  check_vms-quiet (v ∷ vs) c h =
      let after : Scan = check_nics d v.name 0 (nics v.devices) c in
      let later : All (λ u. All (IsPlaced d) (nics u.devices)) vs × (after.problems ≡ []) =
        check_vms-quiet vs after h in
      let here : All (IsPlaced d) (nics v.devices) × (c.problems ≡ []) =
        check_nics-quiet v.name 0 (nics v.devices) c later.1 in
      ((here.0, later.0), here.1)

pub report-quiet : (problems : List Problem) → report problems ≡ ok tt → problems ≡ []
unfolding report
report-quiet [] h = refl
report-quiet (p ∷ ps) h = cc

-- If `validate_addressing` accepts the machines of a plan, every NIC of every machine names a
-- network that a switch declares, and a static address lies strictly between the subnet's network
-- and broadcast addresses, off the sidecar's and the management adapter's slots and outside the
-- lease pool where the switch has these.
pub validate_addressing-IsPlaced :
    (switches : List Switch) (vms : List VmSpec)
    → validate_addressing switches vms ≡ ok tt
    → All (λ v. All (IsPlaced (switch_for switches [])) (nics v.devices)) vms
unfolding validate_addressing
validate_addressing-IsPlaced switches vms h =
    let d : Dict Switch = switch_for switches [] in
    let start : Scan = record { seen_per_switch = []; problems = [] } in
    (check_vms-quiet d vms start (report-quiet (check_vms d vms start).problems h)).0
