-- ===== src/Tests/Main.antt =====
use serv_mark.Base.{ℕ, false, ◌≡◌, some, List, [], ◌∷◌, refl, arith, ℤ, pos, Text, codes, take}
use serv_mark.Base.Scan.{atoi, fgets_lines}
use serv_mark.Double.{Milli, milli_double}
use serv_mark.Main.Filter.{names_on, parse_config-names}
use serv_mark.Main.Keys.{last_value, read_or, parse_config_last}
use serv_mark.Main.Options.Instances.{threads_in, threads_after, configure-threads}
use serv_mark.Main.Options.{
  Opt, Settings, Progress, returns, goes_on, opt_threads, opt_dry_run, instances_or, initial,
  configure, option_step, run_options,
}
use serv_mark.Main.{
  Pending, config_line_size, max_bench_filter, parse_config, parse_lines, parse_line, setting_of,
  key_of, set_config, set_names, push_benchmark, bench_name, push_name,
}

abbrev file : Text
file =
    codes
      "# a comment\n threads = 4\nmax_iterations=9\nthreads=6\nbenchmark = C1 : int-hash : hashing\nno setting\n"

abbrev read_number : Text → Milli
read_number s = some (atoi s)

abbrev no_shift : ℤ → ℕ
no_shift n = 0

abbrev parsed : Pending Milli
parsed = (parse_config read_number no_shift (some file) initial).1

threads_of_file : parsed.config.num_instances ≡ pos 6
unfolding parse_config parse_lines parse_line setting_of key_of set_config atoi fgets_lines
threads_of_file = refl

names_of_file : parsed.names ≡ codes "int-hash" ∷ []
unfolding parse_config parse_lines parse_line setting_of key_of set_names push_benchmark bench_name
    push_name fgets_lines
names_of_file = refl

parse_config_last_example :
    (parsed.config.min_iterations
      ≡ read_or atoi
          (last_value (codes "min_iterations") (fgets_lines config_line_size file))
          (pos 0))
    × (parsed.config.max_iterations
        ≡ read_or atoi
            (last_value (codes "max_iterations") (fgets_lines config_line_size file))
            (pos 0))
    × (parsed.config.num_instances
        ≡ read_or atoi (last_value (codes "threads") (fgets_lines config_line_size file)) (pos 0))
    × (parsed.config.convergence_target
        ≡ read_or read_number
            (last_value (codes "convergence") (fgets_lines config_line_size file))
            (some (pos 0)))
parse_config_last_example = parse_config_last read_number no_shift file initial

parse_config-names_example :
    parsed.names ≡ take max_bench_filter (names_on (fgets_lines config_line_size file))
parse_config-names_example = parse_config-names read_number no_shift file initial (omega arith)

abbrev options : List Opt
options = opt_threads (codes "3") ∷ opt_dry_run ∷ opt_threads (codes "0") ∷ []

abbrev progress : Progress Milli
progress = configure read_number no_shift (pos 8) (codes "servmark.cfg") (some file) options

abbrev settings_of : Progress Milli → Settings Milli
settings_of (returns code) = record { pending = initial; validate_only = false; config_path = [] }
settings_of (goes_on s) = s

proceeds : progress ≡ goes_on (settings_of progress)
unfolding configure run_options option_step
proceeds = refl

configure-threads_example :
    (settings_of progress).pending.config.num_instances
    ≡ instances_or (pos 8) (threads_after options (threads_in (some file)))
configure-threads_example =
    configure-threads read_number no_shift (pos 8) (codes "servmark.cfg") (some file) options
      (settings_of progress) proceeds
