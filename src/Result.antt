-- ===== src/Result.antt =====
-- inc/harness.h: what a run yields for each benchmark.
use serv_mark.Base.{Text}
use serv_mark.Benchmark.{Benchmark, Stats}

-- `subtest_result_t`
pub record Subtest (D W : Type 0) : Type 0 where
  pub bench : Benchmark D W
  pub stats : Stats D
  pub normalized_score : D
  pub status : Text
