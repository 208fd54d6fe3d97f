-- ===== src/Orchestrator/Backend.antt =====
-- The hypervisor behind a driver, which the orchestrator only calls, beside the run directory that
-- the ledger is kept in.
use test_range.Prelude.{String, Result, ok, err}
use test_range.Errors.{Error}
use test_range.State.Json.{Fields}
use test_range.State.Schema.{Resource}
use test_range.State.Store.Effects.{Disk, Op}

-- `driver.destroy(kind, backend_name, **metadata)`, for a backend whose state is a `B`.
abbrev pub Destroy : Type 0 → Type 0
Destroy B = String → String → Fields → B → Result Error Unit × B

pub record World (B : Type 0) : Type 0 where
  pub disk : Disk
  pub backend : B

-- What runs on the world and may raise.
abbrev pub Run : Type 0 → Type 0 → Type 0
Run B A = World B → Result Error A × World B

abbrev pub on_disk : {B A : Type 0} → Op A → Run B A
on_disk op w = let (r, d) = op w.disk in (r, record w { disk = d })

abbrev pub on_backend : {B : Type 0} → Destroy B → Resource → Run B Unit
on_backend destroy r w =
    let (result, b) = destroy r.kind r.backend_name r.metadata w.backend in
    (result, record w { backend = b })

abbrev pub and_then : {B A C : Type 0} → Result Error A → (A → Run B C) → Run B C
and_then (ok a) f w = f a w
and_then (err e) f w = (err e, w)

infixl 5 ◌>>=◌ ◌>>◌
abbrev pub ◌>>=◌ : {B A C : Type 0} → Run B A → (A → Run B C) → Run B C
◌>>=◌ m f w = let (r, w') = m w in and_then r f w'

abbrev pub ◌>>◌ : {B C : Type 0} → Run B Unit → Run B C → Run B C
m >> k = m >>= λ _. k
