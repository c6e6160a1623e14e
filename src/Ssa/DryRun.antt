-- ===== src/Ssa/DryRun.antt =====
-- A dry run of `apply_manifest_root` (cli/src/io/ssa/mod.rs) only reads.
use catallaxy.Ssa.Only.{Only}
