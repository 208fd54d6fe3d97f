-- ===== src/Preflight/Samples.antt =====
-- Tests of the check on the resources of a host, with two machines and a pool.
use test_range.Prelude.{ℕ, ◌≡◌, ◌↔◌, refl, String, none, some, [], ◌∷◌, false, ok, values}
use test_range.Networks.Machine.{VmSpec, Device}
use test_range.Plan.Hypervisor.{Hypervisor, declared_vms}
use test_range.Preflight.{
  PreflightCheck, passed, HostCapacity, memory_size, cpu_count, requests, vm_specs, resource_check,
}
use test_range.Preflight.Capacity.{HasRoom, resource_check-HasRoom}

abbrev machine : String → ℕ → VmSpec
machine name size = record {
  name = name;
  devices = Device.cpu 2 ∷ Device.memory size ∷ Device.os_drive "disk" ∷ [];
  firmware = "bios";
}

abbrev two_machines : Hypervisor Unit
two_machines = record {
  build_switch = none;
  pools = ("disk", record { name = "disk"; size_gb = 20 }) ∷ [];
  switches = [];
  networks = [];
  vms =
      ("web", record { spec = machine "web" 2048; parts = tt })
      ∷ ("db", record { spec = machine "db" 4096; parts = tt })
      ∷ [];
  explicit_edges = [];
  frozen = false;
}

-- Each machine fits, and the two together do not.
abbrev host : HostCapacity
host = record { memory_mb = some 4096; logical_cpus = some 8; storage_free_gb = none }

resource_check-HasRoom_example :
    (check : PreflightCheck) × (resource_check two_machines (some host) ≡ ok check)
    × ((check.status ≡ passed)
        ↔ HasRoom two_machines host
            (("web", 2048) ∷ ("db", 4096) ∷ [])
            (("web", 2) ∷ ("db", 2) ∷ []))
unfolding requests memory_size cpu_count vm_specs declared_vms values
resource_check-HasRoom_example =
    resource_check-HasRoom two_machines host (("web", 2048) ∷ ("db", 4096) ∷ [])
      (("web", 2) ∷ ("db", 2) ∷ []) refl refl
