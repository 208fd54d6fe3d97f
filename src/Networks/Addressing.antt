-- ===== src/Networks/Addressing.antt =====
-- testrange/networks/validate.py, `validate_addressing`: every static address of a plan against
-- its switch. The text of an address is its number, so the parse that cannot fail is left out.
pub mod Free
pub mod Wire
use test_range.Prelude.{
  ℕ, ◌+◌, suc, String, Bool, true, false, ◌&&◌, ◌||◌, Option, none, some, List, [], ◌∷◌, ◌++◌, map,
  leb, eqb, Result, ok, raise_if, is_nil, not, Dict, get, put, contains, keys, if◌then◌else◌,
}
use test_range.Errors.{Error, value_error}
use test_range.Networks.Switch.{
  StaticAddr, Switch, Ipv4Network, in_network, broadcast_address, sidecar_ip, mgmt_ip,
  needs_sidecar, serves_dhcp, dhcp_range_lo, dhcp_range_hi,
}
use test_range.Networks.Machine.{Address, static, lease, unconfigured, NetworkIface, VmSpec, nics}

-- Which NIC: `VM <vm> NIC <index> (<network>)`.
pub record Origin : Type 0 where
  pub vm : String
  pub index : ℕ
  pub network : String

pub data Trouble : Type 0 where
  unknown_network not_in_subnet is_network_address is_broadcast_address : Trouble
  collides_with_sidecar collides_with_mgmt in_dhcp_pool : Trouble
  duplicate : Origin → Trouble

pub record Problem : Type 0 where
  pub origin : Origin
  pub trouble : Trouble

-- if net.name in switch_for: continue
unfoldable pub add_network : Switch → Dict Switch → String → Dict Switch
add_network s d n = if contains n (keys d) then d else put d n s

unfoldable pub add_networks : Switch → List String → Dict Switch → Dict Switch
add_networks s [] d = d
add_networks s (n ∷ ns) d = add_networks s ns (add_network s d n)

unfoldable pub switch_for : List Switch → Dict Switch → Dict Switch
switch_for [] d = d
switch_for (s ∷ ss) d = switch_for ss (add_networks s s.networks d)

-- lo <= addr <= hi
unfoldable pub in_pool : Switch → ℕ → Bool
in_pool s a =
    leb (s.network.network_address + dhcp_range_lo) a
    && leb a (s.network.network_address + dhcp_range_hi)

-- The tests of one static address against its switch, in their order.
unfoldable pub static_trouble : Switch → ℕ → Option Trouble
unfolding in_pool
static_trouble s a =
    if not (in_network a s.network)
    then some not_in_subnet
    else if eqb a s.network.network_address
    then some is_network_address
    else if eqb a (broadcast_address s.network)
    then some is_broadcast_address
    else if needs_sidecar s && eqb a (sidecar_ip s)
    then some collides_with_sidecar
    else if s.mgmt && eqb a (mgmt_ip s)
    then some collides_with_mgmt
    else if serves_dhcp s && in_pool s a
    then some in_dhcp_pool
    else none

-- seen.get(static_ip)
unfoldable pub find_seen : List (ℕ × Origin) → ℕ → Option Origin
find_seen [] a = none
find_seen ((b, o) ∷ seen) a = if eqb b a then some o else find_seen seen a

pub record Scan : Type 0 where
  pub seen_per_switch : Dict (List (ℕ × Origin))
  pub problems : List Problem

unfoldable pub add_problem : Origin → Trouble → Scan → Scan
add_problem o t c = record {
  seen_per_switch = c.seen_per_switch;
  problems = c.problems ++ record { origin = o; trouble = t } ∷ [];
}

unfoldable pub or_nil : Option (List (ℕ × Origin)) → List (ℕ × Origin)
or_nil none = []
or_nil (some seen) = seen

-- seen_per_switch.get(name, {})
unfoldable pub seen_on : Dict (List (ℕ × Origin)) → String → List (ℕ × Origin)
unfolding or_nil
seen_on d s = or_nil (get d s)

unfoldable pub note_seen : Switch → ℕ → Origin → Option Origin → Scan → Scan
unfolding seen_on add_problem
note_seen s a o (some prior) c = add_problem o (duplicate prior) c
note_seen s a o none c = record {
  seen_per_switch = put c.seen_per_switch s.name ((a, o) ∷ seen_on c.seen_per_switch s.name);
  problems = c.problems;
}

-- The first trouble of an address, or else the test for a duplicate on the wire.
unfoldable pub place : Switch → ℕ → Origin → Option Trouble → Scan → Scan
unfolding note_seen find_seen
place s a o (some t) c = add_problem o t c
place s a o none c = note_seen s a o (find_seen (seen_on c.seen_per_switch s.name) a) c

unfoldable pub check_address : Switch → Origin → Address → Scan → Scan
check_address s o (static a) c = place s a.host o (static_trouble s a.host) c
check_address s o lease c = c
check_address s o unconfigured c = c

unfoldable pub check_on : Option Switch → Origin → Address → Scan → Scan
check_on none o a c = add_problem o unknown_network c
check_on (some s) o a c = check_address s o a c

unfoldable pub check_nics : Dict Switch → String → ℕ → List NetworkIface → Scan → Scan
check_nics d vm i [] c = c
check_nics d vm i (n ∷ ns) c = check_nics d vm (suc i) ns (
    check_on (get d n.network.name) (record { vm = vm; index = i; network = n.network.name }) n.addr
      c)

unfoldable pub check_vms : Dict Switch → List VmSpec → Scan → Scan
check_vms d [] c = c
check_vms d (v ∷ vs) c = check_vms d vs (check_nics d v.name 0 (nics v.devices) c)

unfoldable pub report : List Problem → Result Error Unit
report problems =
    raise_if (not (is_nil problems))
      (record { class = value_error; about = map (λ p. p.origin.vm) problems })

unfoldable pub validate_addressing : List Switch → List VmSpec → Result Error Unit
unfolding report
validate_addressing switches vms =
    report
      (check_vms (switch_for switches []) vms
        (record { seen_per_switch = []; problems = [] })).problems
