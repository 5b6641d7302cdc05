-- ===== src/Config.antt =====
-- `run_mode_t` and `run_config_t` of inc/harness.h. A null string is `none`; the list of benchmark
-- names holds its count.
use serv_mark.Base.{ℕ, Bool, Option, List, ℤ, Text}

pub data RunMode : Type 0 where
  validate peak sustained : RunMode

pub record RunConfig (D : Type 0) : Type 0 where
  pub mode : RunMode
  pub mitigations_off : Bool
  pub tier_mask : ℕ
  pub output_dir : Text
  pub reference_file : Option Text
  pub category_filter : Option Text
  pub dry_run : Bool
  pub num_instances : ℤ
  pub bench_filter : List Text
  pub min_iterations : ℤ
  pub max_iterations : ℤ
  pub convergence_target : D
  pub min_runtime_sec : ℤ
  pub max_runtime_sec : ℤ
  pub cooldown_sec : ℤ
  pub reportable : Bool
  pub require_validate : Bool
  pub cpu_pin_spec : Option Text
  pub numa_topo_spec : Option Text
  pub membind_spec : Option Text
  pub generate_reference : Bool
