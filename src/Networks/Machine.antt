-- ===== src/Networks/Machine.antt =====
-- testrange/vms/spec.py: the hardware declaration of a machine; with the interfaces and pools of
-- testrange/devices that a plan's validation reads. A processor is its count and a memory its size; the
-- other fields of devices are left out.
use test_range.Prelude.{
  ℕ, suc, String, Bool, true, false, not, List, [], ◌∷◌, eqb, Result, ok, ◌>>◌, raise_if, contains,
  if◌then◌else◌,
}
use test_range.Errors.{Error, value_error}
use test_range.Networks.Switch.{StaticAddr, is_empty}

pub data Address : Type 0 where
  static : StaticAddr → Address
  lease unconfigured : Address

-- testrange/handles.py, `NetworkHandle`: the network's name, and the switch that declares it.
pub record NetworkHandle : Type 0 where
  pub name : String
  pub switch : String

pub record NetworkIface : Type 0 where
  pub network : NetworkHandle
  pub addr : Address

pub data Device : Type 0 where
  cpu memory : ℕ → Device
  os_drive hard_drive : String → Device
  nic : NetworkIface → Device

pub record VmSpec : Type 0 where
  pub name : String
  pub devices : List Device
  pub firmware : String

-- sum(1 for d in devs if isinstance(d, ...))
unfoldable pub count_devices : (Device → Bool) → List Device → ℕ
count_devices p [] = 0
count_devices p (d ∷ ds) = let rest = count_devices p ds in if p d then suc rest else rest

unfoldable pub is_cpu : Device → Bool
is_cpu (cpu count) = true
is_cpu d = false

unfoldable pub is_memory : Device → Bool
is_memory (memory size_mb) = true
is_memory d = false

unfoldable pub is_os_drive : Device → Bool
is_os_drive (os_drive p) = true
is_os_drive d = false

-- exactly one
unfoldable pub check_single : String → (Device → Bool) → List Device → Result Error Unit
unfolding count_devices
check_single name p ds =
    raise_if (not (eqb (count_devices p ds) 1)) (record { class = value_error; about = name ∷ [] })

unfoldable pub make_vm_spec : String → List Device → String → Result Error VmSpec
unfolding is_empty check_single
make_vm_spec name devices firmware =
    raise_if (is_empty name) (record { class = value_error; about = [] })
    >> raise_if (not (contains firmware ("bios" ∷ "uefi" ∷ [])))
        (record { class = value_error; about = name ∷ firmware ∷ [] })
    >> check_single name is_cpu devices
    >> check_single name is_memory devices
    >> check_single name is_os_drive devices
    >> ok (record { name = name; devices = devices; firmware = firmware })

-- The pools of the OS drives, the first one first.
unfoldable pub os_pools : List Device → List String
os_pools [] = []
os_pools (os_drive p ∷ ds) = p ∷ os_pools ds
os_pools (d ∷ ds) = os_pools ds

unfoldable pub data_drives : List Device → List String
data_drives [] = []
data_drives (hard_drive p ∷ ds) = p ∷ data_drives ds
data_drives (d ∷ ds) = data_drives ds

unfoldable pub nics : List Device → List NetworkIface
nics [] = []
nics (nic n ∷ ds) = n ∷ nics ds
nics (d ∷ ds) = nics ds
