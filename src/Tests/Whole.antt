-- ===== src/Tests/Whole.antt =====
use serv_mark.Base.Member.{Member}
use serv_mark.Base.Scan.{scan_int, scan_range, tokens}
use serv_mark.Base.{
  Text, Bool, not, text_eq, ℕ, ◌≡◌, List, ◌⊎◌, ◌↔◌, ◌∙◌, ap, ltb, true, false, some, none, [], ◌∷◌,
  refl, pos, negsuc, codes, arith, replicate,
}
use serv_mark.Config.{RunConfig}
use serv_mark.Double.{Milli, milli_double}
use serv_mark.Harness.Children.Reaped.{AllMade, parent_calls-reaps}
use serv_mark.Harness.Children.{fork, waitpid, parent_calls}
use serv_mark.Harness.Cores.{visit, visit_from, harness_get_physical_cores}
use serv_mark.Harness.CpuSpec.Sound.{Named, Below}
use serv_mark.Harness.CpuSpec.{is_comma, missing, harness_parse_cpu_spec}
use serv_mark.Harness.Parallel.{pin_cpu}
use serv_mark.Harness.Policy.{membind_of}
use serv_mark.Harness.Setup.Pins.{set_up-pins}
use serv_mark.Harness.Setup.{Statics, Surroundings, set_up}
use serv_mark.Harness.Topology.{override_topology}
use serv_mark.Harness.Whole.{Host, after_probe, overridden, result_of, whole_run}
use serv_mark.Main.Program.Delivered.{HoldsReports, main_run-reports}
use serv_mark.Main.Program.Undefined.{main_run-failed}
use serv_mark.Main.Program.{pillared, opens_report, delivered, main_run}
use serv_mark.Main.Reports.{Store, write_reports}
use serv_mark.Output.{RunResult, hex_digits, uuid_of_rand, output_generate_uuid}
use serv_mark.Result.{Subtest}
use serv_mark.Scoring.{collect, collect_one, nothing_collected, pillars_of, scoring_compute_pillars}
use serv_mark.System.Nodes.{single_node, count_nodes, probe_nodes}
use serv_mark.System.Probe.{SystemInfo, system_probe, info_of}
use serv_mark.System.{system_read_proc_str}
use serv_mark.Harness.Instance.{
  elapsed, limits_of, has_converged, check_time, after_measure, round, after_round, measure_loop,
  timed_loop, discard_loop, warm_up, run_benchmark_instance, harness_run_single,
}
use serv_mark.Harness.Run.{
  has_tier, is_named, in_filter, is_selected, cool_down, measure_one, after_measured, run_all,
  normalized_of, score_all, harness_run,
}
use serv_mark.Stats.{fill_stats, stats_mean_stddev, stats_compute}
use serv_mark.Tests.Reports.{conf, printf}
use serv_mark.Tests.Run.{
  machine, registered, outcome, subtests_of, end_of, returned, healthy, healthy_outcome,
  healthy_returned, failure, is_there,
}
use serv_mark.Tests.Samples.{config, milli}

-- The third pipe fails: the first child was forked, and is not waited for.
parent_calls-reaps_example :
    (Member (fork 0) (parent_calls (λ i. ltb i 2) true 3) ↔ AllMade (λ i. ltb i 2) 0 1)
    × (Member (waitpid 0) (parent_calls (λ i. ltb i 2) true 3) ↔ AllMade (λ i. ltb i 2) 0 3)
parent_calls-reaps_example = parent_calls-reaps (λ i. ltb i 2) true 3 0 (omega arith)

abbrev env : Surroundings
env = record {
  ncpu = 4;
  siblings = λ cpu. none;
  nodes = λ node. missing;
  read_file = λ path. none;
  allocated = true;
}

abbrev pinned_config : RunConfig Milli
pinned_config = record config { cpu_pin_spec = some (codes "1,3") }

abbrev fresh : Statics
fresh = record {
  placement = record { manual_pins = none; phys_map = none; num_phys = 0 };
  cpu_to_numa = [];
  numa_topo_set = false;
  membind = membind_of none;
}

abbrev ready : Statics
ready = record {
  placement = record {
    manual_pins = some (pos 1 ∷ pos 3 ∷ []);
    phys_map = some (0 ∷ 1 ∷ 2 ∷ 3 ∷ []);
    num_phys = 4;
  };
  cpu_to_numa = replicate 4 (negsuc 0);
  numa_topo_set = false;
  membind = membind_of none;
}

is_ready : set_up env pinned_config fresh ≡ some ready
unfolding set_up harness_get_physical_cores harness_parse_cpu_spec scan_int scan_range tokens
    visit_from visit
is_ready = refl

set_up-pins_example :
    (ready.placement.manual_pins ≡ some [])
    ⊎ ((i : ℕ)
        → Named (tokens is_comma (codes "1,3")) (pin_cpu ready.placement i)
          × Below (pos 4) (pin_cpu ready.placement i))
set_up-pins_example =
    set_up-pins env pinned_config fresh ready (codes "1,3") refl refl refl refl
      (record { some_text = λ e. cc; not_auto = refl; not_all = refl; not_numa = refl }) is_ready

-- No file of the kernel can be read.
abbrev bare : Host
bare = record {
  conf = conf;
  files = λ file. none;
  read_file = λ path. none;
  random = none;
  rand = [];
  start_time = pos 1000;
  end_time = pos 1085;
}

abbrev info : SystemInfo Milli
info = info_of conf (λ file. none) (single_node (pos 4) 4000 ∷ [])

probed : system_probe {D = Milli} conf (λ file. none) ≡ some info
unfolding system_probe probe_nodes count_nodes system_read_proc_str
probed = refl

-- The result with these subtests.
abbrev result_with : List (Subtest Milli ℕ) → RunResult Milli ℕ
result_with subtests = record {
  run_id = output_generate_uuid none [];
  mode = config.mode;
  sysinfo = some info;
  subtests = subtests;
  category_scores = replicate 16 (milli 0);
  overall_score = milli 0;
  pillar_throughput = milli 0;
  pillar_latency = milli 0;
  pillar_efficiency = milli 0;
  mitigation_tax_pct = milli 0;
  thermal_derating_factor = milli 0;
  start_time = pos 1000;
  end_time = pos 1085;
}

abbrev result : RunResult Milli ℕ
result = result_with (subtests_of healthy_outcome)

abbrev failed_result : RunResult Milli ℕ
failed_result = result_with (subtests_of outcome)

whole : whole_run machine bare config healthy 0 ≡ some (result, end_of healthy_outcome)
unfolding whole_run override_topology
whole =
    ap (λ o. after_probe machine bare config healthy 0 (overridden bare config o)) probed
    ∙ ap (result_of bare config info) healthy_returned

failed_whole : whole_run machine bare config registered 0 ≡ some (failed_result, end_of outcome)
unfolding whole_run override_topology
failed_whole =
    ap (λ o. after_probe machine bare config registered 0 (overridden bare config o)) probed
    ∙ ap (result_of bare config info) returned

-- The table of HTML cannot be opened.
abbrev opens : Text → Bool
opens path = not (text_eq path (codes "./00000000-0000-4000-8000-000000000000.report.html"))

abbrev no_files : Store
no_files path = none

abbrev scored_result : RunResult Milli ℕ
scored_result = pillared result (pillars_of (collect result.subtests nothing_collected))

abbrev files_after : Store
files_after = write_reports printf (codes "now") opens config scored_result no_files

ran :
    main_run machine bare printf (codes "now") opens config healthy 0 no_files
    ≡ some (files_after, scored_result)
unfolding main_run scoring_compute_pillars collect collect_one output_generate_uuid uuid_of_rand
    hex_digits harness_run run_all has_tier is_named in_filter is_selected cool_down measure_one
    after_measured normalized_of score_all run_benchmark_instance warm_up discard_loop timed_loop
    measure_loop after_round round after_measure check_time has_converged limits_of elapsed
    harness_run_single stats_mean_stddev stats_compute fill_stats
ran = ap (delivered printf (codes "now") opens config no_files) whole

main_run-reports_example :
    HoldsReports printf (codes "now") opens config scored_result no_files files_after
main_run-reports_example =
    main_run-reports printf (codes "now") opens machine bare config healthy 0 no_files files_after
      scored_result (omega arith) ran

opened : opens_report opens config failed_result ≡ true
unfolding output_generate_uuid uuid_of_rand hex_digits
opened = refl

main_run-failed_example :
    main_run machine bare printf (codes "now") opens config registered 0 no_files ≡ none
main_run-failed_example =
    main_run-failed printf (codes "now") opens config no_files machine bare registered 0
      (end_of outcome) failed_result failure failed_whole opened is_there refl
