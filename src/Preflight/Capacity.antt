-- ===== src/Preflight/Capacity.antt =====
-- The `host-resources` check passes exactly if the host has room.
use test_range.Prelude.{
  ℕ, ◌+◌, ◌≤◌, ◌≡◌, ◌↔◌, refl, String, true, Option, none, some, List, [], ◌∷◌, ◌++◌, map, is_nil,
  ltb, All, ok, arith, Bool-cases, inl, inr,
}
use test_range.Networks.Machine.{VmSpec}
use test_range.Plan.Hypervisor.{StoragePool, Hypervisor, declared_pools}
use test_range.Preflight.{
  PreflightFinding, PreflightCheck, passed, evaluate, HostCapacity, memory_size, cpu_count,
  requests, too_large, total, aggregate, memory_findings, cpu_findings, pool_size, storage_findings,
  vm_specs, resource_findings, resource_check,
}

abbrev Within : ℕ → List (String × ℕ) → Type 0
Within limit rs = All (λ (r : String × ℕ). r.1 ≤ limit) rs

too_large-nil :
    (code : String) (limit : ℕ) (rs : List (String × ℕ))
    → is_nil (too_large code limit rs) ≡ true ↔ Within limit rs
unfolding too_large
too_large-nil code limit [] = (λ h. tt, λ h. refl)
too_large-nil code limit ((n, k) ∷ rs) = elim (Bool-cases (ltb limit k)) [
  | inl over ↦
      rw over ((λ h. cc), (λ (h : (k ≤ limit) × Within limit rs). absurd (ground (arith, h.0))))
  | inr fits ↦ rw fits (
    (λ h. (ground arith, (too_large-nil code limit rs).0 h)),
    (λ (h : (k ≤ limit) × Within limit rs). (too_large-nil code limit rs).1 h.1),
  )
]

Within-total : (limit : ℕ) (rs : List (String × ℕ)) → total rs ≤ limit → Within limit rs
unfolding total
Within-total limit [] h = tt
Within-total limit ((n, k) ∷ rs) h = (omega arith, Within-total limit rs (omega arith))

aggregate-nil :
    (limit : ℕ) (rs : List (String × ℕ)) → is_nil (aggregate limit rs) ≡ true ↔ (total rs ≤ limit)
unfolding aggregate total
aggregate-nil limit [] = (λ h. omega arith, λ h. refl)
aggregate-nil limit ((n, k) ∷ rs) = elim (Bool-cases (ltb limit (k + total rs))) [
  | inl over ↦ rw over ((λ h. cc), (λ h. absurd (ground arith)))
  | inr fits ↦ rw fits ((λ h. ground arith), (λ h. refl))
]

is_nil-append :
    {A : Type 0} (xs ys : List A)
    → is_nil (xs ++ ys) ≡ true ↔ ((is_nil xs ≡ true) × (is_nil ys ≡ true))
is_nil-append [] ys = ((λ h. (refl, h)), (λ h. h.1))
is_nil-append (x ∷ xs) ys = ((λ h. cc), (λ h. cc))

-- What is asked in one dimension is within the limit, if there is one.
abbrev pub Fits : Option ℕ → (ℕ → Type 0) → Type 0
Fits none P = Unit
Fits (some limit) P = P limit

memory_findings-exact :
    (limit : Option ℕ) (vms : List VmSpec) (rs : List (String × ℕ))
    → requests memory_size vms ≡ ok rs
    → (fs : List PreflightFinding) × (memory_findings limit vms ≡ ok fs)
      × (is_nil fs ≡ true ↔ Fits limit (λ m. total rs ≤ m))
unfolding memory_findings
memory_findings-exact none vms rs asked = ([], refl, ((λ h. tt), (λ h. refl)))
memory_findings-exact (some m) vms rs asked =
    let large = too_large "insufficient-memory" m rs in
    (
      large ++ aggregate m rs,
      rw asked refl,
      (
        (λ h. (aggregate-nil m rs).0 ((is_nil-append large (aggregate m rs)).0 h).1),
        (λ h. (is_nil-append large (aggregate m rs)).1 (
          (too_large-nil "insufficient-memory" m rs).1 (Within-total m rs h),
          (aggregate-nil m rs).1 h,
        )),
      ),
    )

cpu_findings-exact :
    (limit : Option ℕ) (vms : List VmSpec) (rs : List (String × ℕ))
    → requests cpu_count vms ≡ ok rs
    → (fs : List PreflightFinding) × (cpu_findings limit vms ≡ ok fs)
      × (is_nil fs ≡ true ↔ Fits limit (λ n. Within n rs))
unfolding cpu_findings
cpu_findings-exact none vms rs asked = ([], refl, ((λ h. tt), (λ h. refl)))
cpu_findings-exact (some n) vms rs asked =
    (too_large "insufficient-vcpus" n rs, rw asked refl, too_large-nil "insufficient-vcpus" n rs)

storage_findings-exact :
    (limit : Option ℕ) (pools : List StoragePool)
    → is_nil (storage_findings limit pools) ≡ true
      ↔ Fits limit (λ g. Within g (map pool_size pools))
unfolding storage_findings
storage_findings-exact none pools = ((λ h. tt), (λ h. refl))
storage_findings-exact (some g) pools = too_large-nil "insufficient-storage" g (map pool_size pools)

evaluate-passed :
    (name : String) (fs : List PreflightFinding)
    → ((evaluate name fs).status ≡ passed) ↔ (is_nil fs ≡ true)
unfolding evaluate
evaluate-passed name [] = ((λ h. refl), (λ h. refl))
evaluate-passed name (f ∷ fs) = ((λ h. cc), (λ h. cc))

module _ {P : Type 0} (h : Hypervisor P) (capacity : HostCapacity) where
  -- Memory for all machines at once, processors for each, and storage for each pool, where they are known.
  abbrev pub HasRoom : List (String × ℕ) → List (String × ℕ) → Type 0
  HasRoom memories cpus =
      Fits capacity.memory_mb (λ m. total memories ≤ m)
      × (Fits capacity.logical_cpus (λ n. Within n cpus)
          × Fits capacity.storage_free_gb (λ g. Within g (map pool_size (declared_pools h))))

  -- If every machine declares its memory and its processors, the check on the resources of a host runs, and
  -- it passes exactly if the host has room: the memory of all machines together, the processors of each and
  -- the storage of each pool are within what the host reports, where it reports it.
  pub resource_check-HasRoom :
      (memories cpus : List (String × ℕ))
      → requests memory_size (vm_specs h) ≡ ok memories
      → requests cpu_count (vm_specs h) ≡ ok cpus
      → (check : PreflightCheck) × (resource_check h (some capacity) ≡ ok check)
        × ((check.status ≡ passed) ↔ HasRoom memories cpus)
  unfolding resource_check resource_findings
  resource_check-HasRoom memories cpus asked_m asked_c =
      let (ms, found_m, exact_m) =
        memory_findings-exact capacity.memory_mb (vm_specs h) memories asked_m in
      let (cs, found_c, exact_c) =
        cpu_findings-exact capacity.logical_cpus (vm_specs h) cpus asked_c in
      let ss = storage_findings capacity.storage_free_gb (declared_pools h) in
      let exact_s = storage_findings-exact capacity.storage_free_gb (declared_pools h) in
      let all = ms ++ cs ++ ss in
      (
        evaluate "host-resources" all,
        rw (found_m, found_c) refl,
        (
          (λ p.
              let (front, s) =
                (is_nil-append (ms ++ cs) ss).0 ((evaluate-passed "host-resources" all).0 p) in
              let (m, c) = (is_nil-append ms cs).0 front in
              (exact_m.0 m, (exact_c.0 c, exact_s.0 s))),
          (λ room. (evaluate-passed "host-resources" all).1 (
              (is_nil-append (ms ++ cs) ss).1 (
                (is_nil-append ms cs).1 (exact_m.1 room.0, exact_c.1 room.1.0),
                exact_s.1 room.1.1,
              ))),
        ),
      )
