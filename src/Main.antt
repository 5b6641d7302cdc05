-- ===== src/Main.antt =====
-- The configuration file, read by `trim` and `parse_config` of src/main.c. A missing file is `none`.
-- Warnings are left out, and `strdup` does not fail.
pub mod Keys
pub mod Filter
pub mod Options
pub mod Listing
pub mod Search
pub mod Ending
pub mod Reports
pub mod Program
use serv_mark.Base.{
  ℕ, ◌^◌, ◌+◌, Bool, true, false, not, ◌||◌, ltb, ◌==◌, Option, none, some, List, [], ◌∷◌, ◌++◌,
  if◌then◌else◌, ℤ, pos, negsuc, nonzero, Text, codes, text_eq, is_space, drop_while,
  drop_while_end, split_at, length,
}
use serv_mark.Base.Scan.{atoi, fgets_lines}
use serv_mark.Config.{RunMode, peak, sustained, RunConfig}

abbrev pub max_bench_filter : ℕ
max_bench_filter = 64

abbrev pub config_line_size : ℕ
config_line_size = 512

unfoldable pub trim : Text → Text
trim s = drop_while_end is_space (drop_while is_space s)

-- A configuration under construction: `*cfg`, and the names in `*bench_filter`, as many as
-- `*bf_count`.
pub record Pending (D : Type 0) : Type 0 where
  pub config : RunConfig D
  pub names : List Text

-- The keys that the ladder of comparisons knows.
pub data Key : Type 0 where
  runmode threads output_dir tier category mitigations_off min_iterations : Key
  max_iterations convergence max_runtime cooldown_sec reportable : Key
  require_validate cpu_pin numa_topo membind build_time benchmark unknown : Key

unfoldable pub key_of : Text → Key
key_of key =
    if text_eq key (codes "runmode")
    then runmode
    else if text_eq key (codes "threads")
    then threads
    else if text_eq key (codes "output_dir")
    then output_dir
    else if text_eq key (codes "tier")
    then tier
    else if text_eq key (codes "category")
    then category
    else if text_eq key (codes "mitigations_off")
    then mitigations_off
    else if text_eq key (codes "min_iterations")
    then min_iterations
    else if text_eq key (codes "max_iterations")
    then max_iterations
    else if text_eq key (codes "convergence")
    then convergence
    else if text_eq key (codes "max_runtime")
    then max_runtime
    else if text_eq key (codes "cooldown_sec")
    then cooldown_sec
    else if text_eq key (codes "reportable")
    then reportable
    else if text_eq key (codes "require_validate")
    then require_validate
    else if text_eq key (codes "cpu_pin")
    then cpu_pin
    else if text_eq key (codes "numa_bind") || text_eq key (codes "numa_topo")
    then numa_topo
    else if text_eq key (codes "membind")
    then membind
    else if text_eq key (codes "march_native") || text_eq key (codes "isa_baseline")
    then build_time
    else if text_eq key (codes "benchmark")
    then benchmark
    else unknown

-- The bench filter takes a name while there is room.
unfoldable pub push_name : List Text → Text → List Text
push_name names name = if ltb (length names) max_bench_filter then names ++ name ∷ [] else names

abbrev pub until_colon : Text → Text
until_colon name = elim (split_at b':' name) [ none ↦ name | some (before, after) ↦ before ]

-- A category, a name and a description with colons between them: the second field.
unfoldable pub bench_name : Text → Option Text
unfolding trim
bench_name value = elim (split_at b':' value) [
  | none ↦ none
  | some (before, after) ↦ some (trim (until_colon (trim after)))
]

unfoldable pub push_benchmark : List Text → Text → List Text
unfolding push_name
push_benchmark names value = elim (bench_name value) [
  | none ↦ names
  | some name ↦ push_name names name
]

abbrev pub mode_of : Text → RunMode
mode_of value = if text_eq value (codes "sustained") then sustained else peak

-- What a line means: no '=' or a comment is `none`, else the key and the value.
unfoldable pub setting_of : Text → Option (Text × Text)
unfolding trim
setting_of line = elim (trim line) [
  | [] ↦ none
  | c ∷ cs ↦ if c == b'#' then none else elim (split_at b'=' (c ∷ cs)) [
    | none ↦ none
    | some (key, value) ↦ some (trim key, trim value)
  ]
]

abbrev pub category_of : Text → Option Text → Option Text
category_of [] old = old
category_of (c ∷ cs) old = some (c ∷ cs)

-- `1 << n`. The C standard gives counts below 0 or above 30 no meaning: what the compiled code makes
-- of them is `other`.
abbrev pub shift_one : (ℤ → ℕ) → ℤ → ℕ
shift_one other (pos n) = if ltb n 31 then 2 ^ n else other (pos n)
shift_one other (negsuc n) = other (negsuc n)

unfoldable pub set_names : Key → Text → List Text → List Text
set_names benchmark value names = push_benchmark names value
set_names _ value names = names

module _ {D : Type 0} (atof : Text → D) (shift_other : ℤ → ℕ) where
  -- What a key sets in `*cfg`.
  unfoldable pub set_config : Key → Text → RunConfig D → RunConfig D
  set_config runmode value c = record c { mode = mode_of value }
  set_config threads value c = record c { num_instances = atoi value }
  set_config output_dir value c = record c { output_dir = value }
  set_config tier value c = record c { tier_mask = shift_one shift_other (atoi value) }
  set_config category value c = record c { category_filter = category_of value c.category_filter }
  set_config mitigations_off value c = record c { mitigations_off = nonzero (atoi value) }
  set_config min_iterations value c = record c { min_iterations = atoi value }
  set_config max_iterations value c = record c { max_iterations = atoi value }
  set_config convergence value c = record c { convergence_target = atof value }
  set_config max_runtime value c = record c { max_runtime_sec = atoi value }
  set_config cooldown_sec value c = record c { cooldown_sec = atoi value }
  set_config reportable value c = record c { reportable = nonzero (atoi value) }
  set_config require_validate value c = record c { require_validate = nonzero (atoi value) }
  set_config cpu_pin value c = record c { cpu_pin_spec = some value }
  set_config numa_topo value c = record c { numa_topo_spec = some value }
  set_config membind value c = record c { membind_spec = some value }
  set_config build_time value c = c
  set_config benchmark value c = c
  set_config unknown value c = c

  -- One round of the loop.
  unfoldable pub parse_line : Text → Pending D → Pending D
  parse_line line p = elim (setting_of line) [
    | none ↦ p
    | some (key, value) ↦ record {
      config = set_config (key_of key) value p.config;
      names = set_names (key_of key) value p.names;
    }
  ]

  unfoldable pub parse_lines : List Text → Pending D → Pending D
  parse_lines [] p = p
  parse_lines (line ∷ rest) p = parse_lines rest (parse_line line p)

  -- The result code and what the pointers lead to afterwards.
  unfoldable pub parse_config : Option Text → Pending D → ℤ × Pending D
  parse_config none p = (negsuc 0, p)
  parse_config (some file) p = (pos 0, parse_lines (fgets_lines config_line_size file) p)
