-- ===== src/Lib.antt =====
-- TestRange: the build graph, the state ledger, teardown, recovery, and plan validation.
--
-- TestRange (testrange/) brings up a declared plan of machines and networks on a hypervisor and
-- reclaims it afterwards. A plan becomes a build graph, whose waves the executor walks. Before each
-- backend resource is created it is recorded in `state.json`, the ledger of the run; teardown and the
-- cleanup of crashed runs replay that ledger backwards through the driver.
--
-- The parts and their files:
--   Prelude     tests, lists, sets of names, dictionaries in insertion order, and `Result` for
--               exceptions; no code of the repository.
--   Errors      testrange/exceptions.py. An exception is its class and the names it quotes.
--   Graph       testrange/graph. `Graph/Build` is build_graph.py (`build_graph` is
--               `BuildGraph.__init__`), `Graph/Waves` the loop of `_compute_waves`, `Graph/Cycle`
--               `_find_cycle`, `Graph/Edge`, `Graph/Node` and `Graph/Keys` the files of those names.
--   State       testrange/state. `State/Schema` and `State/Codec` are schema.py; `State/Store` is
--               store.py, with the run directory as the record `Disk` of `State/Store/Effects`, on
--               which every operation of `StateStore` is a function that also returns an error. Writing
--               `state.json` is a list of file steps, ending with `durable_replace` of
--               testrange/utils/fsutil.py, between which the process may die (`State/Store/Crash`) or
--               the power fail (`State/Store/PowerLoss`).
--   Orchestrator  `Teardown` is testrange/orchestrator/teardown.py, `Cleanup` is
--               testrange/state/cleanup.py, `Executor` testrange/orchestrator/executor.py with one
--               worker, and `Dashboard` testrange/orchestrator/dashboard_state.py. `Parallel` and
--               `Pool` are testrange/orchestrator/_parallel.py: the number of workers, and a call of
--               `parallel_map` as steps of its threads in any order. Teardown and cleanup run on a
--               `World`: a run directory beside the state of a backend.
--   Networks    testrange/networks/base.py, testrange/networks/validate.py, testrange/vms/spec.py and
--               testrange/vms/validate.py.
--   Plan        `Plan/Handles` is testrange/handles.py, `Plan/Hypervisor` testrange/hypervisor.py with
--               testrange/devices/pool/base.py and testrange/vms/recipe.py, `Plan/Assemble` the function
--               `assemble_graph` of testrange/nodes.py, which makes the graph of `Graph/Build` out of a
--               hypervisor, and `Plan/Declare` testrange/plan.py, which validates it first.
--   Cache       testrange/cache. `Cache/Spelling` is _names.py and entry.py, `Cache/Storage` and
--               `Cache/Local` the class `LocalCache` of local.py, and `Cache/Remote` the reads of http.py
--               with `resolve` and `pull` of manager.py. A call gives its result and the writes it makes
--               under `isos/`, in their order. `Cache/Calls` puts the calls into one type.
--   Preflight   testrange/preflight.py: the findings on a plan, as codes and names.
--
-- Parameters: the hypervisor is any type with the driver's `connect`, `destroy` and `disconnect`, a
-- node's hooks are fields of the node, `assemble_graph` takes the hooks of each kind of node, and the executor takes the teardown of the
-- build infrastructure and the text of an exception as arguments. The digest and the size of a content are
-- functions, and the HTTP server is its answers. No law is asked of any of them. Clocks and times are
-- arguments too.
--
-- Fuel: `levels` gets a round for each node, and every round settles a node. `walk` gets a step for each
-- pair of names, and some; every frame either descends to a name off the path or is dropped for good.
-- The result for too little fuel is an error, and the entries below on construction rule it out.
--
-- Python sets that are only tested, measured or sorted are lists of distinct names; where the source
-- iterates over a set (`dependents[finished]`) the wave is sorted right after. An IPv4 address is a
-- number and a network what `ipaddress.ip_network` returns; parsing is not modelled. The lock of a run
-- is two flags, of this store and of another live process, as `flock` keeps them.
--
-- Narrower than the source: `parallel_map` cancels what is pending in submission order, where the source
-- iterates over a set; and the codec refuses a `schema_version` that is a text of digits, and metadata
-- that is a list of pairs, which no writer of the ledger produces.
--
-- Not modelled: the drivers, communicators and builders, which call other systems; the mirroring of
-- cache writes to the HTTP tier, sidecars that do not parse, and calls of the cache other than `add`
-- that overlap; the terminal and the command line; messages and log lines; the preflight check on
-- builders.
pub mod Prelude
pub mod Errors
pub mod Graph
pub mod State
pub mod Orchestrator
pub mod Networks
pub mod Plan
pub mod Cache
pub mod Preflight
