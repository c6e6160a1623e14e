-- ===== src/Ssa.antt =====
-- cli/src/io/ssa: applying a tree of manifests to a cluster, wave by wave, and pruning what it stopped
-- naming. This file passes on the types and the commands; the children have the parts of the run.
mod Defs
pub mod Owned
pub mod Workloads
pub mod Probe
pub mod Bundle
pub mod Projections
pub mod Waves
mod Only
mod Commands
mod Harmless
pub mod Pruned
pub mod DryRun
mod Returns
pub mod Up
mod Awaited
mod BundleUp
pub mod Order
pub mod Attempts
mod Ends
mod Injected
mod InjectedEnds
mod Established
mod Concluded
pub mod Deployed
mod Tests
unfoldable pub use Defs.*
