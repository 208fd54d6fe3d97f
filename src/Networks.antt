-- ===== src/Networks.antt =====
-- testrange/networks and testrange/vms: the declarations of a plan and their validation.
pub mod Spelling
pub mod Switch
pub mod Machine
pub mod Addressing
pub mod Plan
pub mod Samples
