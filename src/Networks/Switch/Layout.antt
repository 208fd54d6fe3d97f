-- ===== src/Networks/Switch/Layout.antt =====
-- The reserved layout of testrange/networks/_addressing_consts.py inside the subnets that
-- testrange/networks/base.py accepts.
use Prim.Native.Nat.pow
use test_range.Prelude.{
  ℕ, zero, suc, ◌+◌, ◌-◌, ◌^◌, ◌≤◌, ◌<◌, ◌≡◌, ap, subst, String, Bool, false, Option, List, Result,
  ok, arith, >>-eq-ok, >>=-eq-ok, raise_if-eq-ok, ok-injective, ltb, none, some, ◌⊎◌, inl, inr,
  refl, ◌==◌, raise_if, ◌>>◌, ◌>>=◌, [], ◌∷◌,
}
use test_range.Errors.{Error, value_error}
use test_range.Networks.Switch.{
  is_empty, is_empty_uplink, Ipv4Network, IpNetwork, Switch, Sidecar, make_switch,
  nat_without_uplink, broadcast_address, user_static_hi, parsed_ipv4,
}

pow_room : (k : ℕ) → 256 ≤ 2 ^ (k + 8)
pow_room zero = omega arith
pow_room (suc k) =
    let shift : suc k + 8 ≡ suc (k + 8) = omega arith in
    omega (arith, pow_room k, ap (λ n. 2 ^ n) shift, pow.suc 2 (k + 8))

room : (p : ℕ) → p ≤ 24 → 256 ≤ 2 ^ (32 - p)
room p h =
    let shift : (24 - p) + 8 ≡ 32 - p = omega arith in
    subst (λ n. 256 ≤ 2 ^ n) shift (pow_room (24 - p))

ltb-le : (p : ℕ) → ltb 24 p ≡ false → p ≤ 24
ltb-le p h = ground arith

-- A switch has no sidecar, or one that does not masquerade.
abbrev pub IsQuiet : Option Sidecar → Type 0
IsQuiet none = Unit
IsQuiet (some c) = c.nat ≡ false

-- The uplink of a switch, by a name that is not empty.
abbrev pub HasUplink : Option String → Type 0
HasUplink uplink = (u : String) × (uplink ≡ some u) × ((u == "") ≡ false)

nat_without_uplink-IsQuiet :
    (sidecar : Option Sidecar) (uplink : Option String)
    → is_empty_uplink uplink ≡ false
    → nat_without_uplink sidecar uplink ≡ false
    → IsQuiet sidecar ⊎ HasUplink uplink
unfolding nat_without_uplink is_empty_uplink is_empty
nat_without_uplink-IsQuiet none uplink named wired = inl tt
nat_without_uplink-IsQuiet (some c) none named wired = inl wired
nat_without_uplink-IsQuiet (some c) (some u) named wired = inr (u, refl, named)

-- Whatever a switch is declared with, if `Switch.__init__` accepts it then the last of the addresses that
-- the layout hands out lies below the subnet's broadcast address, and it has no sidecar that masquerades or
-- an uplink with a name that is not empty.
pub make_switch-user_static_hi :
    (name : String) (networks : List String) (parsed : Option IpNetwork) (uplink : Option String)
    (mgmt : Bool) (sidecar : Option Sidecar) (s : Switch)
    → make_switch name networks parsed uplink mgmt sidecar ≡ ok s
    → (s.network.network_address + user_static_hi < broadcast_address s.network)
      × (IsQuiet s.sidecar ⊎ HasUplink s.uplink)
unfolding make_switch broadcast_address
make_switch-user_static_hi name networks parsed uplink mgmt sidecar s h =
    let made_of : Ipv4Network → Switch = λ n. record {
      name = name;
      networks = networks;
      network = n;
      uplink = uplink;
      mgmt = mgmt;
      sidecar = sidecar;
    } in
    let e : Error = record { class = value_error; about = [] } in
    let e' : Error = record { class = value_error; about = name ∷ [] } in
    let switch_behind : Ipv4Network → Result Error Switch = λ n.
      raise_if (ltb 24 n.prefixlen) e'
      >> raise_if (nat_without_uplink sidecar uplink) e'
      >> ok (made_of n) in
    let (checks, a) =
      >>-eq-ok (raise_if (is_empty name) e >> raise_if (is_empty_uplink uplink) e)
        (parsed_ipv4 name parsed >>= λ n. switch_behind n) h in
    let (_, uplinked) =
      >>-eq-ok (raise_if (is_empty name) e) (raise_if (is_empty_uplink uplink) e) checks in
    let (n, _, c) = >>=-eq-ok (parsed_ipv4 name parsed) (λ n. switch_behind n) a in
    let (guards, f) =
      >>-eq-ok (raise_if (ltb 24 n.prefixlen) e' >> raise_if (nat_without_uplink sidecar uplink) e')
        (ok (made_of n)) c in
    let (fits, wired) =
      >>-eq-ok (raise_if (ltb 24 n.prefixlen) e') (raise_if (nat_without_uplink sidecar uplink) e')
        guards in
    let big = room n.prefixlen (ltb-le n.prefixlen (raise_if-eq-ok (ltb 24 n.prefixlen) e' fits)) in
    let same : made_of n ≡ s = ok-injective f in
    (
      subst (λ z. z.network.network_address + user_static_hi < broadcast_address z.network) same
          (omega (arith, big)),
      subst (λ z. IsQuiet z.sidecar ⊎ HasUplink z.uplink) same
          (nat_without_uplink-IsQuiet sidecar uplink
            (raise_if-eq-ok (is_empty_uplink uplink) e uplinked)
            (raise_if-eq-ok (nat_without_uplink sidecar uplink) e' wired)),
    )
