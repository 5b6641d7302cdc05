-- ===== src/Main/Ending.antt =====
-- The end of `main` in src/main.c, once the configuration stands: validation only, the listing, or the
-- run with its scores. The printing is left out; the files are those of Program.
use serv_mark.Base.{Bool, Option, none, some, List, if◌then◌else◌}
use serv_mark.Benchmark.{Benchmark}
use serv_mark.Double.{Double}
use serv_mark.Harness.Run.{Machine, harness_run}
use serv_mark.Main.Listing.{dry_run_listing}
use serv_mark.Main.Options.{Settings}
use serv_mark.Result.{Subtest}
use serv_mark.Scoring.{Pillars, scoring_compute_pillars, scoring_overall_score}

-- What `main` did: its code is 1 for `run_failed`, and otherwise 0.
pub data Ending (D W : Type 0) : Type 0 where
  validated : Ending D W
  listed : List (Benchmark D W) → Ending D W
  run_failed : Ending D W
  reported : List (Subtest D W) → Pillars D → D → W → Ending D W
  undefined_run : Ending D W

module _ {D W : Type 0} ⦃d : Double D⦄ where
  abbrev pub with_scores : List (Subtest D W) → W → Option (Pillars D) → Ending D W
  with_scores subtests w none = undefined_run
  with_scores subtests w (some pillars) =
      reported subtests pillars
        (scoring_overall_score pillars.throughput pillars.latency pillars.efficiency) w

  abbrev pub report : Option (List (Subtest D W) × W) → Ending D W
  report none = undefined_run
  report (some (subtests, w)) = with_scores subtests w (scoring_compute_pillars subtests)

  -- `allocated` says that `harness_run` gets its memory.
  unfoldable pub main_ending :
      Bool → Machine D W → Settings D → List (Benchmark D W) → W → Ending D W
  main_ending allocated machine s benchmarks w =
      if s.validate_only
      then validated
      else if s.pending.config.dry_run
      then listed (dry_run_listing s.pending.names benchmarks)
      else if allocated
      then report (harness_run machine s.pending.config benchmarks w)
      else run_failed
