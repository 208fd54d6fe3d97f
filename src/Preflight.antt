-- ===== src/Preflight.antt =====
-- testrange/preflight.py: what is found wrong with a plan before it runs. A finding is its code and the names
-- it quotes; the messages, the hints and the rendering are left out.
pub mod Capacity
mod Samples
use test_range.Prelude.{
  ℕ, ◌+◌, String, Bool, true, false, not, Option, none, some, List, [], ◌∷◌, ◌++◌, map, concat,
  is_nil, ltb, contains, Dict, keys, Result, ok, err, ◌>>=◌, if◌then◌else◌,
}
use test_range.Errors.{Error, raise, exception}
use test_range.Networks.Switch.{Switch}
use test_range.Networks.Machine.{Device, cpu, memory, os_drive, hard_drive, nic, VmSpec}
use test_range.Plan.Hypervisor.{
  StoragePool, VmRecipe, Hypervisor, declared_pools, declared_switches, declared_vms,
}

pub record PreflightFinding : Type 0 where
  pub code : String
  pub about : List String

pub data CheckStatus : Type 0 where
  passed blocked skipped : CheckStatus

pub record PreflightCheck : Type 0 where
  pub name : String
  pub status : CheckStatus
  pub findings : List PreflightFinding

pub record PreflightReport : Type 0 where
  pub findings : List PreflightFinding
  pub checks : List PreflightCheck

unfoldable pub evaluate : String → List PreflightFinding → PreflightCheck
evaluate name [] = record { name = name; status = passed; findings = [] }
evaluate name (f ∷ fs) = record { name = name; status = blocked; findings = f ∷ fs }

-- PreflightCheck.skipped
unfoldable pub skip : String → PreflightCheck
skip name = record { name = name; status = skipped; findings = [] }

unfoldable pub all_findings : List PreflightCheck → List PreflightFinding
all_findings [] = []
all_findings (c ∷ cs) = c.findings ++ all_findings cs

unfoldable pub from_checks : List PreflightCheck → PreflightReport
from_checks checks = record { findings = all_findings checks; checks = checks }

-- PreflightReport.__bool__
unfoldable pub is_clean : PreflightReport → Bool
is_clean r = is_nil r.findings

unfoldable pub merged : PreflightReport → PreflightReport → PreflightReport
merged r other = record {
  findings = r.findings ++ other.findings;
  checks = r.checks ++ other.checks;
}

pub record HostCapacity : Type 0 where
  pub memory_mb : Option ℕ
  pub logical_cpus : Option ℕ
  pub storage_free_gb : Option ℕ

-- next(d for d in self.devices if isinstance(d, Memory)), which raises if there is none
unfoldable pub memory_size : List Device → Result Error ℕ
memory_size [] = raise exception []
memory_size (memory size_mb ∷ ds) = ok size_mb
memory_size (d ∷ ds) = memory_size ds

unfoldable pub cpu_count : List Device → Result Error ℕ
cpu_count [] = raise exception []
cpu_count (cpu count ∷ ds) = ok count
cpu_count (d ∷ ds) = cpu_count ds

unfoldable pub requests :
    (List Device → Result Error ℕ) → List VmSpec → Result Error (List (String × ℕ))
requests size [] = ok []
requests size (v ∷ vs) =
    size v.devices >>= λ n. requests size vs >>= λ rest. ok ((v.name, n) ∷ rest)

-- one finding for each name that asks for more than there is
unfoldable pub too_large : String → ℕ → List (String × ℕ) → List PreflightFinding
too_large code limit [] = []
too_large code limit ((name, n) ∷ rs) =
    let rest = too_large code limit rs in
    if ltb limit n then record { code = code; about = name ∷ [] } ∷ rest else rest

unfoldable pub total : List (String × ℕ) → ℕ
total [] = 0
total ((name, n) ∷ rs) = n + total rs

unfoldable pub aggregate : ℕ → List (String × ℕ) → List PreflightFinding
aggregate limit [] = []
aggregate limit (r ∷ rs) =
    if ltb limit (total (r ∷ rs))
    then record { code = "insufficient-memory-aggregate"; about = [] } ∷ []
    else []

unfoldable pub memory_findings : Option ℕ → List VmSpec → Result Error (List PreflightFinding)
memory_findings none vms = ok []
memory_findings (some limit) vms = requests memory_size vms >>= λ rs.
    ok (too_large "insufficient-memory" limit rs ++ aggregate limit rs)

unfoldable pub cpu_findings : Option ℕ → List VmSpec → Result Error (List PreflightFinding)
cpu_findings none vms = ok []
cpu_findings (some limit) vms =
    requests cpu_count vms >>= λ rs. ok (too_large "insufficient-vcpus" limit rs)

unfoldable pub pool_size : StoragePool → String × ℕ
pool_size p = (p.name, p.size_gb)

unfoldable pub storage_findings : Option ℕ → List StoragePool → List PreflightFinding
storage_findings none pools = []
storage_findings (some limit) pools = too_large "insufficient-storage" limit (map pool_size pools)

unfoldable pub is_unknown : Option String → List String → Bool
is_unknown none uplinks = false
is_unknown (some u) uplinks = not (contains u uplinks)

-- `uplinks` are the keys of the mapping.
unfoldable pub unknown_uplink_findings : List Switch → List String → List PreflightFinding
unknown_uplink_findings [] uplinks = []
unknown_uplink_findings (s ∷ ss) uplinks =
    let rest = unknown_uplink_findings ss uplinks in
    if is_unknown s.uplink uplinks
    then record { code = "unknown-uplink"; about = s.name ∷ [] } ∷ rest
    else rest

unfoldable pub firmware_findings : List String → List VmSpec → List PreflightFinding
firmware_findings supported [] = []
firmware_findings supported (v ∷ vs) =
    let rest = firmware_findings supported vs in
    if contains v.firmware supported
    then rest
    else record { code = "unsupported-firmware"; about = v.name ∷ v.firmware ∷ [] } ∷ rest

unfoldable pub mgmt_findings : List Switch → List PreflightFinding
mgmt_findings [] = []
mgmt_findings (s ∷ ss) =
    let rest = mgmt_findings ss in
    if s.mgmt then record { code = "mgmt-unsupported"; about = s.name ∷ [] } ∷ rest else rest

module _ {P : Type 0} where
  unfoldable pub vm_specs : Hypervisor P → List VmSpec
  vm_specs h = map (λ r. r.spec) (declared_vms h)

  unfoldable pub resource_findings :
      Hypervisor P → HostCapacity → Result Error (List PreflightFinding)
  resource_findings h capacity = memory_findings capacity.memory_mb (vm_specs h) >>= λ m.
      cpu_findings capacity.logical_cpus (vm_specs h) >>= λ c.
      ok (m ++ c ++ storage_findings capacity.storage_free_gb (declared_pools h))

  unfoldable pub resource_check : Hypervisor P → Option HostCapacity → Result Error PreflightCheck
  resource_check h none = ok (skip "host-resources")
  resource_check h (some capacity) =
      resource_findings h capacity >>= λ fs. ok (evaluate "host-resources" fs)

  -- The switches of the plan, and the build switch of a run that builds.
  unfoldable pub preflight_switches : Hypervisor P → Option Switch → List Switch
  preflight_switches h none = declared_switches h
  preflight_switches h (some build_switch) = declared_switches h ++ build_switch ∷ []

  unfoldable pub unsupported_firmware_findings : Hypervisor P → List String → List PreflightFinding
  unsupported_firmware_findings h supported = firmware_findings supported (vm_specs h)

  unfoldable pub mgmt_unsupported_findings : Hypervisor P → List PreflightFinding
  mgmt_unsupported_findings h = mgmt_findings (declared_switches h)
