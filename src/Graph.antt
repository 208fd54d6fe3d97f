-- ===== src/Graph.antt =====
-- testrange/graph: the build graph. The definitions stand in `Edge`, `Node`, `Waves`, `Cycle`,
-- `Build` and `Keys`, and what is proved of them in the modules below those.
pub mod Edge
pub mod Node
pub mod Waves
pub mod Cycle
pub mod Build
pub mod Keys
mod Samples
