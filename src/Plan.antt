-- ===== src/Plan.antt =====
-- testrange/hypervisor.py, testrange/handles.py, testrange/nodes.py and testrange/plan.py: how a
-- declared topology becomes a build graph.
pub mod Handles
pub mod Hypervisor
pub mod Assemble
pub mod Declare
mod Samples
