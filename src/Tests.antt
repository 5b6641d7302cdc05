-- ===== src/Tests.antt =====
-- Runs of the definitions on small inputs, and theorems at inputs that meet their hypotheses.
mod Samples
mod Registry
mod Stats
mod Scoring
mod Reference
mod Instance
mod Cpus
mod Run
mod Main
mod Outliers
mod Cores
mod Startup
mod Governor
mod Probe
mod Reports
mod Whole
mod Mpmc
