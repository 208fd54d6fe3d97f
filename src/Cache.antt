-- ===== src/Cache.antt =====
-- testrange/cache: the content-addressed store of disks and images, with its names.
pub mod Spelling
pub mod Storage
pub mod Local
pub mod Remote
pub mod Crash
pub mod Entries
pub mod Calls
pub mod Intact
pub mod Aliases
pub mod Naming
pub mod Fetched
pub mod Overlap
mod Samples
