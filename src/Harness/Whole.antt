-- ===== src/Harness/Whole.antt =====
-- The whole of `harness_run` in src/core/harness.c: the identifier, the probe of the system, the
-- override of its topology, and the loops of Run. The scores are zeros until `main`
-- computes them, and those of the categories stay so.
pub mod Parts
use serv_mark.Base.{ℤ, replicate, pos_part, ℕ, Option, none, some, List, [], ◌∷◌, Text}
use serv_mark.Benchmark.{Benchmark}
use serv_mark.Config.{RunConfig}
use serv_mark.Double.{Double, nought}
use serv_mark.Harness.Run.{Machine, harness_run}
use serv_mark.Harness.Topology.{override_topology}
use serv_mark.Output.{RunResult, output_generate_uuid}
use serv_mark.Result.{Subtest}
use serv_mark.System.Probe.{Sysconf, SystemInfo, system_probe}
use serv_mark.System.{Files}

-- What the run takes from the system: the answers of `sysconf`, the files of the kernel, the files
-- that a specification may name, the random numbers, and the times.
pub record Host : Type 0 where
  pub conf : Sysconf
  pub files : Files
  pub read_file : Text → Option Text
  pub random : Option (List ℕ)
  pub rand : List ℕ
  pub start_time : ℤ
  pub end_time : ℤ

module _ {D : Type 0} where
  abbrev pub overridden : Host → RunConfig D → Option (SystemInfo D) → Option (SystemInfo D)
  overridden host config none = none
  overridden host config (some info) =
      override_topology (pos_part host.conf.nprocessors_onln) host.read_file config.numa_topo_spec
        info

module _ {D W : Type 0} ⦃d : Double D⦄ where
  abbrev pub result_of :
      Host
      → RunConfig D
      → SystemInfo D
      → Option (List (Subtest D W) × W)
      → Option (RunResult D W × W)
  result_of host config info none = none
  result_of host config info (some (subtests, w)) = some (
    record {
      run_id = output_generate_uuid host.random host.rand;
      mode = config.mode;
      sysinfo = some info;
      subtests = subtests;
      category_scores = replicate 16 nought;
      overall_score = nought;
      pillar_throughput = nought;
      pillar_latency = nought;
      pillar_efficiency = nought;
      mitigation_tax_pct = nought;
      thermal_derating_factor = nought;
      start_time = host.start_time;
      end_time = host.end_time;
    },
    w,
  )

  abbrev pub after_probe :
      Machine D W
      → Host
      → RunConfig D
      → List (Benchmark D W)
      → W
      → Option (SystemInfo D)
      → Option (RunResult D W × W)
  after_probe machine host config benchmarks w none = none
  after_probe machine host config benchmarks w (some info) =
      result_of host config info (harness_run machine config benchmarks w)

  -- `none` is undefined behaviour on the way.
  unfoldable pub whole_run :
      Machine D W → Host → RunConfig D → List (Benchmark D W) → W → Option (RunResult D W × W)
  whole_run machine host config benchmarks w =
      after_probe machine host config benchmarks w
        (overridden host config (system_probe host.conf host.files))
