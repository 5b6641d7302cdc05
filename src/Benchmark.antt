-- ===== src/Benchmark.antt =====
-- inc/benchmark.h: a benchmark, its measurement and its statistics, over a type of doubles. The
-- function pointers of a benchmark act on the machine's state, which is any type `W`; a pointer to
-- the benchmark's own state is a part of `W`.
use serv_mark.Base.{ℕ, Bool, Option, List, ℤ, Text}

-- `measurement_t`
pub record Measurement (D : Type 0) : Type 0 where
  pub primary_metric : D
  pub wall_seconds : D
  pub cpu_seconds : D
  pub instructions : ℕ
  pub cycles : ℕ
  pub cache_misses : ℕ

-- `benchmark_stats_t`; A null `reliability` is
-- `none`, and `raw_values` holds what was copied into the array.
pub record Stats (D : Type 0) : Type 0 where
  pub mean : D
  pub stddev : D
  pub sem : D
  pub cv : D
  pub ci_lower : D
  pub ci_upper : D
  pub iterations : ℕ
  pub converged : Bool
  pub reliability : Option Text
  pub raw_values : List D

-- `struct benchmark_s`; `warmup` may be a null pointer.
pub record Benchmark (D W : Type 0) : Type 0 where
  pub name : Text
  pub category : Text
  pub description : Text
  pub tier : ℕ
  pub primary_metric_name : Text
  pub higher_is_better : Bool
  pub min_iterations : ℤ
  pub max_iterations : ℤ
  pub convergence_target : D
  pub min_runtime_sec : ℤ
  pub max_runtime_sec : ℤ
  pub cooldown_required : Bool
  pub init : W → ℤ × W
  pub warmup : Option (W → ℤ × W)
  pub measure : W → (ℤ × Measurement D) × W
  pub cleanup : W → W
  pub num_threads : ℤ
