-- ===== src/Lib.antt =====
-- A model of the core of ServMark, a benchmarking framework for servers in C, with the theorems that
-- hold of it.
--
-- The program registers benchmarks at start (src/core/benchmark.c), reads a configuration file and
-- options (src/main.c), runs the chosen benchmarks one after the other, each in the program itself or in
-- several child processes at once (src/core/harness.c), condenses the values into statistics (src/core/stats.c) and
-- scores (src/core/scoring.c), and writes reports. The parts and their files:
--
--   Base        lists, signed integers, texts and the scanning functions of the C library, over the
--               native numbers; a text is a list of character codes without NUL
--   Double      the interface for double: constants, arithmetic, comparisons and functions, and qsort
--               on an array of them. No law of IEEE arithmetic is built in; a theorem that needs the
--               order away from NaN, or that qsort sorts by a consistent comparator (Base.Sorting),
--               takes IsOrdered; the tests use thousandths and an insertion sort, which meet it
--   Benchmark   measurement_t, benchmark_stats_t and struct benchmark_s of inc/benchmark.h. The
--               functions of a benchmark act on the machine's state, which is any type
--   Registry    the table of benchmark.c and its queries; Refinement for the list that it stands for
--   Stats       stats.c: mean and deviation, geometric mean, label, sort, bootstrap and stats_compute;
--               Discovery for stats_benjamini_hochberg, Outliers for stats_detect_outliers, Compare for
--               stats_welch_ttest, stats_mann_whitney (Exchange for its sort) and stats_anderson_darling,
--               Quantile for the t distribution
--   Result      subtest_result_t; Config: run_mode_t and run_config_t of inc/harness.h
--   Scoring     scoring.c: categories, pillars and scores
--   Reference   the reference file: scoring_load_reference, and the writer at the end of main
--   Harness     harness.c, by its functions: Instance for run_benchmark_instance and
--               harness_run_single, CpuSpec for harness_parse_cpu_spec, NumaBind for
--               harness_parse_numa_bind, Parallel for harness_run_parallel from the results of the
--               children on and the pinning, Run for the loops of harness_run, Cores for
--               harness_get_physical_cores, Policy for the memory policy of a child,
--               Topology for the override of the probed nodes in harness_run, Setup for
--               the static variables of harness_run_parallel, Children for the calls that its parent
--               makes, Whole for harness_run with the probe and the identifier, Parts for what its result
--               is made of
--   System      system.c: the kernel files as a function from their names; Governor for
--               system_lock_frequency and system_restore_frequency, Noise for system_noise_snapshot
--               and system_noise_delta, Virtualization for system_detect_virtualization, Sensors for
--               the frequencies and temperatures, and for system_probe: Identity for the processor and
--               the distribution, Nodes for the NUMA nodes, Caches, and Probe for the whole
--   Output      output.c: Uuid for the form of output_generate_uuid, Array for the subtests of
--               output_provenance, Summary for output_terminal_summary; Validate: validate_system of validate.c
--   Mpmc        the queue of src/benchmarks/sync/sync_mpmc.c
--   Main        main.c: trim and parse_config; Options for the options of the command line and the
--               configuration that results; Listing for --dry-run; Search for the choice of the
--               file; Ending for what follows the configuration, Reports for the files that are
--               written, Program for the run with its scores and files, Undefined for its null pointers
--   Tests       runs of the definitions on small inputs, and theorems at inputs
--
-- Loops are structural recursion: on lists, or on the number of rounds that are left, which is the
-- bound in the loop's condition, so no fuel is needed. An array of C is a list of what is written in
-- it; where the code can leave its array, the definition has an outcome that says so (Computed.overrun,
-- Single.unwritten, or none in NumaBind, scoring_compute_pillars, harness_run and main_run, the last also
-- where a null pointer is printed with %s). Failed allocations are Boolean arguments
-- where the code looks at them. rand and the clocks, the functions atof, ctime, erf, lgamma and qsort, the printing of
-- numbers, what a shift by an undefined count yields, and what children send are arguments.
--
-- Integers are unbounded where the code has int: their values are small counts, numbers of
-- processors, and what atoi yields of digits that fit; strtoul and the sizes have 64 bits. Not
-- modelled: the printing of warnings, the hardware counters, getopt_long in main.c, and the benchmarks
-- themselves (src/benchmarks), but for that queue. The files of the kernel and what sysconf, getrlimit
-- and /dev/urandom answer are arguments, and allocations of the probe succeed.
pub mod Base
pub mod Double
pub mod Benchmark
pub mod Registry
pub mod Stats
pub mod Config
pub mod Result
pub mod Scoring
pub mod Reference
pub mod Harness
pub mod Main
pub mod System
pub mod Output
pub mod Validate
pub mod Mpmc
mod Tests
