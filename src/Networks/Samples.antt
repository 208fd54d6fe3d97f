-- ===== src/Networks/Samples.antt =====
-- Tests of testrange/networks on a switch with a sidecar and two machines.
use test_range.Prelude.{
  ◌⊎◌, true, false, [], ◌∷◌, ◌≡◌, refl, none, some, All, ok, get, contains, keys, put,
}
use test_range.Networks.Switch.{
  Switch, in_network, needs_sidecar, sidecar_ip, mgmt_ip, serves_dhcp, broadcast_address,
}
use test_range.Networks.Switch.{
  IpNetwork, make_switch, is_empty, is_empty_uplink, parsed_ipv4, nat_without_uplink,
  user_static_hi,
}
use test_range.Networks.Switch.Layout.{IsQuiet, HasUplink, make_switch-user_static_hi}
use test_range.Prelude.{◌+◌, ◌<◌, Option}
use test_range.Networks.Machine.{Address, Device, VmSpec, nics}
use test_range.Networks.Addressing.{
  switch_for, validate_addressing, report, check_vms, check_nics, check_on, add_networks,
  add_network, check_address, place, static_trouble, in_pool, note_seen, find_seen, seen_on,
  add_problem,
}
use test_range.Networks.Addressing.Wire.{IsSeparate, all_uses, validate_addressing-IsSeparate}
use test_range.Networks.Addressing.Free.{IsPlaced, validate_addressing-IsPlaced}

-- 192.168.10.0/24
abbrev pub lan : Switch
lan = record {
  name = "sw";
  networks = "lan" ∷ [];
  network = record { network_address = 3232238080; prefixlen = 24 };
  uplink = none;
  mgmt = true;
  sidecar = some (record { dhcp = true; dns = true; nat = false; addr = none });
}

abbrev pub web : VmSpec
web = record {
  name = "web";
  devices =
      Device.cpu 2
      ∷ Device.memory 2048
      ∷ Device.os_drive "pool"
      ∷ Device.nic (record {
        network = record { name = "lan"; switch = "sw" };
        addr = Address.static (record { host = 3232238180; prefix = none });
      })
      ∷ [];
  firmware = "bios";
}

abbrev pub db : VmSpec
db = record web {
  name = "db";
  devices =
      Device.cpu 2
      ∷ Device.memory 2048
      ∷ Device.os_drive "pool"
      ∷ Device.nic (record {
        network = record { name = "lan"; switch = "sw" };
        addr = Address.static (record { host = 3232238181; prefix = none });
      })
      ∷ [];
}

pub web_accepted : validate_addressing (lan ∷ []) (web ∷ db ∷ []) ≡ ok tt
unfolding validate_addressing report check_vms check_nics nics check_on get switch_for add_networks
    add_network contains keys put check_address place static_trouble in_network needs_sidecar
    sidecar_ip mgmt_ip serves_dhcp in_pool broadcast_address note_seen find_seen seen_on add_problem
web_accepted = refl

validate_addressing-IsPlaced_example :
    All (λ v. All (IsPlaced (switch_for (lan ∷ []) [])) (nics v.devices)) (web ∷ db ∷ [])
validate_addressing-IsPlaced_example =
    validate_addressing-IsPlaced (lan ∷ []) (web ∷ db ∷ []) web_accepted

validate_addressing-IsSeparate_example :
    IsSeparate (all_uses (switch_for (lan ∷ []) []) (web ∷ db ∷ []))
validate_addressing-IsSeparate_example =
    validate_addressing-IsSeparate (lan ∷ []) (web ∷ db ∷ []) web_accepted

abbrev lan_network : Option IpNetwork
lan_network = some (IpNetwork.ipv4 (record { network_address = 3232238080; prefixlen = 24 }))

make_switch-user_static_hi_example :
    (lan.network.network_address + user_static_hi < broadcast_address lan.network)
    × (IsQuiet lan.sidecar ⊎ HasUplink lan.uplink)
make_switch-user_static_hi_example =
    make_switch-user_static_hi "sw" ("lan" ∷ []) lan_network none true lan.sidecar lan
      (unfold make_switch is_empty is_empty_uplink parsed_ipv4 nat_without_uplink in refl)
