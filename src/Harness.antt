-- ===== src/Harness.antt =====
-- src/core/harness.c, part by part.
pub mod Instance
pub mod CpuSpec
pub mod NumaBind
pub mod Parallel
pub mod Run
pub mod Topology
pub mod Children
pub mod Setup
pub mod Whole
pub mod Cores
pub mod Policy
