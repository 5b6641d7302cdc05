-- ===== src/Main/Options.antt =====
-- The options of the command line in `main` of src/main.c, from what `getopt_long` yields on, and the
-- whole configuration: its initial values, the configuration file, the options and the default number
-- of instances. `getopt_long` and the search for the file are not part of it.
pub mod Instances
use serv_mark.Base.{
  ℕ, Bool, true, false, ltb, Option, none, some, List, [], ◌∷◌, if◌then◌else◌, ℤ, pos, negsuc,
  positive, Text, codes, length,
}
use serv_mark.Base.Scan.{atoi}
use serv_mark.Config.{RunMode, peak, sustained, RunConfig}
use serv_mark.Double.{Double, nought}
use serv_mark.Main.{Pending, mode_of, shift_one, push_name, parse_config}

-- An option with its argument; any other is '?'.
pub data Opt : Type 0 where
  opt_config opt_mode opt_tier opt_category opt_benchmark opt_threads : Text → Opt
  opt_output_dir opt_reference opt_min_iterations opt_max_iterations : Text → Opt
  opt_convergence opt_max_runtime opt_cpu_pin opt_numa_topo opt_membind : Text → Opt
  opt_cooldown : Text → Opt
  opt_validate opt_mitigations_off opt_dry_run opt_list_categories : Opt
  opt_list_topology opt_generate_reference opt_version opt_help opt_other : Opt

-- What `main` holds while it reads the options.
pub record Settings (D : Type 0) : Type 0 where
  pub pending : Pending D
  pub validate_only : Bool
  pub config_path : Text

-- `main` returns a code, or it goes on.
pub data Progress (D : Type 0) : Type 0 where
  returns : ℕ → Progress D
  goes_on : Settings D → Progress D

abbrev pub instances_or : ℤ → ℤ → ℤ
instances_or ncpus n = if positive n then n else ncpus

module _ {D : Type 0} where
  abbrev pub with_config : (RunConfig D → RunConfig D) → Settings D → Progress D
  with_config f s =
      goes_on (record s { pending = record s.pending { config = f s.pending.config } })

  unfoldable pub option_step : (Text → D) → (ℤ → ℕ) → Opt → Settings D → Progress D
  option_step atof shift_other (opt_config arg) s = goes_on (record s { config_path = arg })
  option_step atof shift_other (opt_mode arg) s =
      with_config (λ c. record c { mode = mode_of arg }) s
  option_step atof shift_other opt_validate s = goes_on (record s { validate_only = true })
  option_step atof shift_other (opt_tier arg) s =
      with_config (λ c. record c { tier_mask = shift_one shift_other (atoi arg) }) s
  option_step atof shift_other (opt_category arg) s =
      with_config (λ c. record c { category_filter = some arg }) s
  option_step atof shift_other (opt_benchmark arg) s =
      goes_on (record s { pending = record s.pending { names = push_name s.pending.names arg } })
  option_step atof shift_other (opt_threads arg) s =
      with_config (λ c. record c { num_instances = atoi arg }) s
  option_step atof shift_other opt_mitigations_off s =
      with_config (λ c. record c { mitigations_off = true }) s
  option_step atof shift_other (opt_output_dir arg) s =
      with_config (λ c. record c { output_dir = arg }) s
  option_step atof shift_other (opt_reference arg) s =
      with_config (λ c. record c { reference_file = some arg }) s
  option_step atof shift_other opt_dry_run s = with_config (λ c. record c { dry_run = true }) s
  option_step atof shift_other opt_list_categories s = returns 0
  option_step atof shift_other opt_list_topology s = returns 0
  option_step atof shift_other (opt_min_iterations arg) s =
      with_config (λ c. record c { min_iterations = atoi arg }) s
  option_step atof shift_other (opt_max_iterations arg) s =
      with_config (λ c. record c { max_iterations = atoi arg }) s
  option_step atof shift_other (opt_convergence arg) s =
      with_config (λ c. record c { convergence_target = atof arg }) s
  option_step atof shift_other (opt_max_runtime arg) s =
      with_config (λ c. record c { max_runtime_sec = atoi arg }) s
  option_step atof shift_other (opt_cpu_pin arg) s =
      with_config (λ c. record c { cpu_pin_spec = some arg }) s
  option_step atof shift_other (opt_numa_topo arg) s =
      with_config (λ c. record c { numa_topo_spec = some arg }) s
  option_step atof shift_other (opt_membind arg) s =
      with_config (λ c. record c { membind_spec = some arg }) s
  option_step atof shift_other opt_generate_reference s =
      with_config (λ c. record c { generate_reference = true }) s
  option_step atof shift_other (opt_cooldown arg) s =
      with_config (λ c. record c { cooldown_sec = atoi arg }) s
  option_step atof shift_other opt_version s = returns 0
  option_step atof shift_other opt_help s = returns 0
  option_step atof shift_other opt_other s = returns 1

  abbrev pub and_then : Progress D → (Settings D → Progress D) → Progress D
  and_then (returns code) f = returns code
  and_then (goes_on s) f = f s

  -- The loop over the options.
  unfoldable pub run_options : (Text → D) → (ℤ → ℕ) → List Opt → Settings D → Progress D
  run_options atof shift_other [] s = goes_on s
  run_options atof shift_other (o ∷ os) s =
      and_then (option_step atof shift_other o s) (run_options atof shift_other os)

  -- `if (config.num_instances <= 0)`, and the names become part of the configuration.
  unfoldable pub complete : ℤ → Pending D → Pending D
  complete ncpus p = record p {
    config = record p.config {
      num_instances = instances_or ncpus p.config.num_instances;
      bench_filter = p.names;
    };
  }

  abbrev pub completed : ℤ → Progress D → Progress D
  completed ncpus (returns code) = returns code
  completed ncpus (goes_on s) = goes_on (record s { pending = complete ncpus s.pending })

module _ {D : Type 0} ⦃d : Double D⦄ where
  -- The initial configuration.
  abbrev pub initial : Pending D
  initial = record {
    config = record {
      mode = peak;
      mitigations_off = false;
      tier_mask = 2;
      output_dir = codes ".";
      reference_file = none;
      category_filter = none;
      dry_run = false;
      num_instances = pos 0;
      bench_filter = [];
      min_iterations = pos 0;
      max_iterations = pos 0;
      convergence_target = nought;
      min_runtime_sec = pos 0;
      max_runtime_sec = pos 0;
      cooldown_sec = pos 0;
      reportable = false;
      require_validate = false;
      cpu_pin_spec = none;
      numa_topo_spec = none;
      membind_spec = none;
      generate_reference = false;
    };
    names = [];
  }

  -- `main` up to the point where the configuration stands, with `ncpus` processors, for the file that
  -- it opens and the options that `getopt_long` finds.
  unfoldable pub configure : (Text → D) → (ℤ → ℕ) → ℤ → Text → Option Text → List Opt → Progress D
  configure atof shift_other ncpus config_path file opts =
      let pending = (parse_config atof shift_other file initial).1 in
      completed ncpus (
        run_options atof shift_other opts
          (record { pending = pending; validate_only = false; config_path = config_path }))
