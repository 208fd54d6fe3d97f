-- ===== src/Networks/Switch.antt =====
-- testrange/networks/base.py and testrange/networks/_addressing_consts.py: networks, sidecars and
-- switches. An address is its number; a network is what `ipaddress.ip_network` makes of the text,
-- and an interface what `ipaddress.IPv4Interface` makes of it.
pub mod Layout
use test_range.Prelude.{
  ℕ, ◌+◌, ◌-◌, ◌^◌, String, Bool, true, false, not, ◌&&◌, ◌||◌, Option, none, some, List, [], ◌∷◌,
  ltb, leb, Result, ok, ◌>>=◌, ◌>>◌, raise_if, ◌==◌, if◌then◌else◌,
}
use test_range.Errors.{Error, raise, value_error}

abbrev pub sidecar_offset : ℕ
sidecar_offset = 1

abbrev pub mgmt_offset : ℕ
mgmt_offset = 2

abbrev pub build_nic_offset : ℕ
build_nic_offset = 3

abbrev pub dhcp_range_lo : ℕ
dhcp_range_lo = 10

abbrev pub dhcp_range_hi : ℕ
dhcp_range_hi = 99

abbrev pub user_static_lo : ℕ
user_static_lo = 100

abbrev pub user_static_hi : ℕ
user_static_hi = 254

-- ipaddress.IPv4Network
pub record Ipv4Network : Type 0 where
  pub network_address : ℕ
  pub prefixlen : ℕ

pub data IpNetwork : Type 0 where
  ipv4 : Ipv4Network → IpNetwork
  ipv6 : IpNetwork

unfoldable pub broadcast_address : Ipv4Network → ℕ
broadcast_address n = n.network_address + (2 ^ (32 - n.prefixlen) - 1)

-- addr in subnet
unfoldable pub in_network : ℕ → Ipv4Network → Bool
unfolding broadcast_address
in_network a n = leb n.network_address a && leb a (broadcast_address n)

-- `prefix` is present if the text has a slash.
pub record StaticAddr : Type 0 where
  pub host : ℕ
  pub prefix : Option ℕ

-- not name
unfoldable pub is_empty : String → Bool
is_empty name = name == ""

unfoldable pub make_network : String → Result Error String
unfolding is_empty
make_network name = raise_if (is_empty name) (record { class = value_error; about = [] }) >> ok name

pub record Sidecar : Type 0 where
  pub dhcp : Bool
  pub dns : Bool
  pub nat : Bool
  pub addr : Option StaticAddr

unfoldable pub lacks_prefix : StaticAddr → Bool
lacks_prefix a = elim a.prefix [ none ↦ true | some p ↦ false ]

unfoldable pub check_uplink_addr : Bool → Option StaticAddr → Result Error Unit
unfolding lacks_prefix
check_uplink_addr nat none = ok tt
check_uplink_addr nat (some a) =
    raise_if (not nat) (record { class = value_error; about = [] })
    >> raise_if (lacks_prefix a) (record { class = value_error; about = [] })

-- Sidecar.__post_init__
unfoldable pub make_sidecar : Bool → Bool → Bool → Option StaticAddr → Result Error Sidecar
unfolding check_uplink_addr
make_sidecar dhcp dns nat addr =
    raise_if (not (dhcp || dns || nat)) (record { class = value_error; about = [] })
    >> check_uplink_addr nat addr
    >> ok (record { dhcp = dhcp; dns = dns; nat = nat; addr = addr })

pub record Switch : Type 0 where
  pub name : String
  pub networks : List String
  pub network : Ipv4Network
  pub uplink : Option String
  pub mgmt : Bool
  pub sidecar : Option Sidecar

unfoldable pub is_empty_uplink : Option String → Bool
unfolding is_empty
is_empty_uplink none = false
is_empty_uplink (some u) = is_empty u

-- The strict parse of the text and the check of its family.
unfoldable pub parsed_ipv4 : String → Option IpNetwork → Result Error Ipv4Network
parsed_ipv4 name none = raise value_error (name ∷ [])
parsed_ipv4 name (some ipv6) = raise value_error (name ∷ [])
parsed_ipv4 name (some (ipv4 n)) = ok n

-- sidecar is not None and sidecar.nat and uplink is None
unfoldable pub nat_without_uplink : Option Sidecar → Option String → Bool
nat_without_uplink none uplink = false
nat_without_uplink (some s) (some u) = false
nat_without_uplink (some s) none = s.nat

-- Switch.__init__; `parsed` is `ipaddress.ip_network(cidr, strict=True)`, `none` where it raises.
unfoldable pub make_switch :
    String
    → List String
    → Option IpNetwork
    → Option String
    → Bool
    → Option Sidecar
    → Result Error Switch
unfolding is_empty is_empty_uplink parsed_ipv4 nat_without_uplink
make_switch name networks parsed uplink mgmt sidecar =
    raise_if (is_empty name) (record { class = value_error; about = [] })
    >> raise_if (is_empty_uplink uplink) (record { class = value_error; about = [] })
    >> (parsed_ipv4 name parsed >>= λ n.
        raise_if (ltb 24 n.prefixlen) (record { class = value_error; about = name ∷ [] })
        >> raise_if (nat_without_uplink sidecar uplink)
            (record { class = value_error; about = name ∷ [] })
        >> ok (record {
          name = name;
          networks = networks;
          network = n;
          uplink = uplink;
          mgmt = mgmt;
          sidecar = sidecar;
        }))

unfoldable pub sidecar_ip : Switch → ℕ
sidecar_ip s = s.network.network_address + sidecar_offset

unfoldable pub mgmt_ip : Switch → ℕ
mgmt_ip s = s.network.network_address + mgmt_offset

unfoldable pub needs_sidecar : Switch → Bool
needs_sidecar s = elim s.sidecar [ none ↦ false | some c ↦ true ]

-- switch.sidecar is not None and switch.sidecar.dhcp
unfoldable pub serves_dhcp : Switch → Bool
serves_dhcp s = elim s.sidecar [ none ↦ false | some c ↦ c.dhcp ]

pub record NetworkAddressing : Type 0 where
  pub network : Ipv4Network
  pub prefix_len : ℕ
  pub dhcp : Bool
  pub gateway : Option ℕ
  pub dns_server : Option ℕ

-- The sidecar's address if the service is on.
unfoldable pub address_if : (Sidecar → Bool) → Switch → Option ℕ
unfolding sidecar_ip
address_if service s = elim s.sidecar [
  | none ↦ none
  | some c ↦ (if service c then some (sidecar_ip s) else none)
]

unfoldable pub from_switch : Switch → NetworkAddressing
unfolding serves_dhcp address_if
from_switch s = record {
  network = s.network;
  prefix_len = s.network.prefixlen;
  dhcp = serves_dhcp s;
  gateway = address_if (λ c. c.nat) s;
  dns_server = address_if (λ c. c.dns) s;
}
