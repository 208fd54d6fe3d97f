-- ===== src/Orchestrator/Parallel.antt =====
-- testrange/orchestrator/_parallel.py: how many workers a phase gets. The thread pool itself is not
-- modelled.
use test_range.Prelude.{ℕ, ◌≤◌, Option, none, some, min, max, leb, arith, if◌then◌else◌}

abbrev pub default_max_workers : ℕ
default_max_workers = 8

-- A negative number of jobs, which the source raises to 1, is not written here.
abbrev pub worker_cap : Option ℕ → ℕ
worker_cap none = default_max_workers
worker_cap (some jobs) = jobs

unfoldable pub resolve_workers : ℕ → Option ℕ → ℕ
resolve_workers n_items jobs = if leb n_items 1 then 1 else min (max (worker_cap jobs) 1) n_items

-- There is always a worker, never more workers than items unless there is no item, and never more
-- than the cap, which is `default_max_workers` if the caller gives none, unless the cap is 0.
pub resolve_workers-bounds :
    (n_items : ℕ) (jobs : Option ℕ)
    → (1 ≤ resolve_workers n_items jobs)
      × (resolve_workers n_items jobs ≤ max n_items 1)
      × (resolve_workers n_items jobs ≤ max (worker_cap jobs) 1)
unfolding resolve_workers
resolve_workers-bounds n_items jobs = (ground arith, ground arith, ground arith)
