-- ===== src/Main/Options/Instances.antt =====
-- How many instances a run has: the say of the options, the configuration file and the machine.
use mathlib.Core.Path.{subst}
use serv_mark.Base.{ℕ, ◌≡◌, false, Option, none, some, List, [], ◌∷◌, refl, ap, ℤ, pos, Text, codes}
use serv_mark.Base.Scan.{atoi, fgets_lines}
use serv_mark.Double.{Double}
use serv_mark.Main.{config_line_size, parse_config}
use serv_mark.Main.Keys.{last_value, read_or, parse_config_last}
use serv_mark.Main.Options.{
  Opt, Settings, Progress, returns, goes_on, option_step, run_options, and_then, instances_or,
  complete, completed, configure, initial, opt_threads, opt_list_categories, opt_list_topology,
  opt_version, opt_help, opt_other,
}

-- The last `--threads` has the say, or what was there before.
abbrev pub threads_step : Opt → ℤ → ℤ
threads_step (opt_threads arg) n = atoi arg
threads_step _ n = n

abbrev pub threads_after : List Opt → ℤ → ℤ
threads_after [] n = n
threads_after (o ∷ os) n = threads_after os (threads_step o n)

-- What the file sets, or 0.
abbrev pub threads_in : Option Text → ℤ
threads_in none = pos 0
threads_in (some file) =
    read_or atoi (last_value (codes "threads") (fgets_lines config_line_size file)) (pos 0)

module _ {D : Type 0} where
  abbrev pub Instances : ℤ → Progress D → Type 0
  Instances n (returns code) = Unit
  Instances n (goes_on s) = s.pending.config.num_instances ≡ n

  module _ (atof : Text → D) (shift_other : ℤ → ℕ) where
    option_step-Instances :
        (o : Opt) (n : ℤ) (s : Settings D)
        → s.pending.config.num_instances ≡ n
        → Instances (threads_step o n) (option_step atof shift_other o s)
    unfolding option_step
    option_step-Instances (opt_threads arg) n s h = refl
    option_step-Instances opt_list_categories n s h = tt
    option_step-Instances opt_list_topology n s h = tt
    option_step-Instances opt_version n s h = tt
    option_step-Instances opt_help n s h = tt
    option_step-Instances opt_other n s h = tt
    option_step-Instances _ n s h = h

    and_then-Instances :
        (n m : ℤ) (r : Progress D) (f : Settings D → Progress D)
        → Instances n r
        → ((s : Settings D) → s.pending.config.num_instances ≡ n → Instances m (f s))
        → Instances m (and_then r f)
    and_then-Instances n m (returns code) f h rest = tt
    and_then-Instances n m (goes_on s) f h rest = rest s h

    run_options-Instances :
        (opts : List Opt) (n : ℤ) (s : Settings D)
        → s.pending.config.num_instances ≡ n
        → Instances (threads_after opts n) (run_options atof shift_other opts s)
    unfolding run_options
    run_options-Instances [] n s h = h
    run_options-Instances (o ∷ os) n s h =
        and_then-Instances (threads_step o n) (threads_after os (threads_step o n))
          (option_step atof shift_other o s) (run_options atof shift_other os)
          (option_step-Instances o n s h) (run_options-Instances os (threads_step o n))

  completed-Instances :
      (ncpus n : ℤ) (r : Progress D)
      → Instances n r
      → Instances (instances_or ncpus n) (completed ncpus r)
  unfolding complete
  completed-Instances ncpus n (returns code) h = tt
  completed-Instances ncpus n (goes_on s) h = ap (instances_or ncpus) h

module _ {D : Type 0} ⦃d : Double D⦄ (atof : Text → D) (shift_other : ℤ → ℕ) where
  parse_config-threads :
      (file : Option Text)
      → (parse_config atof shift_other file initial).1.config.num_instances ≡ threads_in file
  unfolding parse_config
  parse_config-threads none = refl
  parse_config-threads (some file) = (parse_config_last atof shift_other file initial).2

  -- If `main` goes on after the options, it runs as many instances as the last --threads says, without
  -- one as many as the last line of the configuration file that sets threads, and as many as there are
  -- processors if that is no positive number or nothing says it.
  pub configure-threads :
      (ncpus : ℤ) (path : Text) (file : Option Text) (opts : List Opt) (s : Settings D)
      → configure atof shift_other ncpus path file opts ≡ goes_on s
      → s.pending.config.num_instances ≡ instances_or ncpus (threads_after opts (threads_in file))
  unfolding configure
  configure-threads ncpus path file opts s proceeds =
      let pending = (parse_config atof shift_other file initial).1 in
      let start : Settings D = record {
        pending = pending;
        validate_only = false;
        config_path = path;
      } in
      let wanted = threads_after opts (threads_in file) in
      subst (Instances (instances_or ncpus wanted)) proceeds (
        completed-Instances ncpus wanted (run_options atof shift_other opts start) (
          run_options-Instances atof shift_other opts (threads_in file) start
            (parse_config-threads file)))
