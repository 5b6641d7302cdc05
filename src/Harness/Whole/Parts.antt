-- ===== src/Harness/Whole/Parts.antt =====
-- What the result of a whole run is made of.
use mathlib.Core.Path.{subst}
use serv_mark.Base.{◌≡◌, Option, none, some, List, refl}
use serv_mark.Benchmark.{Benchmark}
use serv_mark.Config.{RunConfig}
use serv_mark.Double.{Double}
use serv_mark.Harness.Run.{Machine, harness_run}
use serv_mark.Harness.Whole.{Host, overridden, result_of, after_probe, whole_run}
use serv_mark.Output.{RunResult, output_generate_uuid}
use serv_mark.Result.{Subtest}
use serv_mark.System.Probe.{SystemInfo, system_probe}

module _ {D W : Type 0} ⦃d : Double D⦄ (machine : Machine D W) (host : Host) (config : RunConfig D)
    (benchmarks : List (Benchmark D W)) (w : W) where
  -- The identifier is the generated one, and the subtests are those of the loops.
  abbrev IsMadeOf : Option (RunResult D W × W) → Type 0
  IsMadeOf none = Unit
  IsMadeOf (some (r, w')) =
      (r.run_id ≡ output_generate_uuid host.random host.rand)
      × (harness_run machine config benchmarks w ≡ some (r.subtests, w'))

  result_of-IsMadeOf :
      (info : SystemInfo D) (o : Option (List (Subtest D W) × W))
      → harness_run machine config benchmarks w ≡ o
      → IsMadeOf (result_of host config info o)
  result_of-IsMadeOf info none e = tt
  result_of-IsMadeOf info (some (subtests, w')) e = (refl, e)

  after_probe-IsMadeOf :
      (o : Option (SystemInfo D)) → IsMadeOf (after_probe machine host config benchmarks w o)
  after_probe-IsMadeOf none = tt
  after_probe-IsMadeOf (some info) =
      result_of-IsMadeOf info (harness_run machine config benchmarks w) refl

  pub whole_run-parts :
      (w' : W) (r : RunResult D W)
      → whole_run machine host config benchmarks w ≡ some (r, w')
      → (r.run_id ≡ output_generate_uuid host.random host.rand)
        × (harness_run machine config benchmarks w ≡ some (r.subtests, w'))
  unfolding whole_run
  whole_run-parts w' r done =
      subst IsMadeOf done
        (after_probe-IsMadeOf (overridden host config (system_probe host.conf host.files)))
