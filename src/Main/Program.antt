-- ===== src/Main/Program.antt =====
-- `main` of src/main.c from a run on: the run, its scores, and the files. The run's memory is given.
pub mod Delivered
pub mod Undefined
use serv_mark.Base.{
  Bool, true, false, ◌&&◌, ◌||◌, if◌then◌else◌, Option, none, some, List, [], ◌∷◌, Text,
}
use serv_mark.Benchmark.{Benchmark}
use serv_mark.Config.{RunConfig}
use serv_mark.Double.{Double}
use serv_mark.Harness.Run.{Machine}
use serv_mark.Harness.Whole.{Host, whole_run}
use serv_mark.Main.Reports.{Store, provenance, jsonl, html, path_of, write_reports}
use serv_mark.Output.{Printf, RunResult}
use serv_mark.Result.{Subtest}
use serv_mark.Scoring.{Pillars, scoring_compute_pillars, scoring_overall_score}

abbrev pub is_null : Option Text → Bool
is_null none = true
is_null (some s) = false

module _ {D W : Type 0} ⦃d : Double D⦄ where
  -- The result with its pillars and its overall score.
  abbrev pub pillared : RunResult D W → Pillars D → RunResult D W
  pillared r pillars = record r {
    pillar_throughput = pillars.throughput;
    pillar_latency = pillars.latency;
    pillar_efficiency = pillars.efficiency;
    overall_score = scoring_overall_score pillars.throughput pillars.latency pillars.efficiency;
  }

  abbrev pub with_pillars : RunResult D W → Option (Pillars D) → Option (RunResult D W)
  with_pillars r none = none
  with_pillars r (some pillars) = some (pillared r pillars)

  abbrev pub scored : RunResult D W → Option (RunResult D W)
  scored r = with_pillars r (scoring_compute_pillars r.subtests)

  -- A subtest whose reliability is a null pointer.
  abbrev pub some_null : List (Subtest D W) → Bool
  some_null [] = false
  some_null (sr ∷ rest) = is_null sr.stats.reliability || some_null rest

  -- One of the three reports that print the reliability with %s can be opened.
  abbrev pub opens_report : (Text → Bool) → RunConfig D → RunResult D W → Bool
  opens_report opens config r =
      opens (path_of config r provenance)
      || opens (path_of config r jsonl)
      || opens (path_of config r html)

  -- The writing of the files, which is undefined if a null pointer is printed with %s.
  abbrev pub reported :
      Printf D
      → Text
      → (Text → Bool)
      → RunConfig D
      → Store
      → Option (RunResult D W)
      → Option (Store × RunResult D W)
  reported printf ctime opens config store none = none
  reported printf ctime opens config store (some r) =
      if opens_report opens config r && some_null r.subtests
      then none
      else some (write_reports printf ctime opens config r store, r)

  abbrev pub delivered :
      Printf D
      → Text
      → (Text → Bool)
      → RunConfig D
      → Store
      → Option (RunResult D W × W)
      → Option (Store × RunResult D W)
  delivered printf ctime opens config store none = none
  delivered printf ctime opens config store (some (r, w)) =
      reported printf ctime opens config store (scored r)

  -- The files and the result; `none` is undefined behaviour on the way.
  unfoldable pub main_run :
      Machine D W
      → Host
      → Printf D
      → Text
      → (Text → Bool)
      → RunConfig D
      → List (Benchmark D W)
      → W
      → Store
      → Option (Store × RunResult D W)
  main_run machine host printf ctime opens config benchmarks w store =
      delivered printf ctime opens config store (whole_run machine host config benchmarks w)
