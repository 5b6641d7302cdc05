-- ===== src/System/Identity.antt =====
-- What `system_probe` reads of the processor and of the distribution: the model, the features, the
-- frequencies, the threads of a core, and the name in os-release.
pub mod Distro
use serv_mark.Base.{
  ℕ, zero, suc, ◌+◌, ◌-◌, ◌||◌, Bool, true, false, Option, none, some, List, [], ◌∷◌, ◌++◌, ◌==◌,
  if◌then◌else◌, ltb_ℤ, positive, ℤ, pos, ◌-ℤ◌, ◌+ℤ◌, Text, codes, starts_with, drop_while,
  is_blank, split_at, length, take, drop,
}
use serv_mark.Base.Scan.{scan_range, Scanned, range, single, nothing, fgets_lines}
use serv_mark.Double.{Double, nought}
use serv_mark.System.{
  Files, proc_cpuinfo, os_release, thread_siblings_list, base_frequency, cpuinfo_max_freq,
  scaling_cur_freq, chomp, system_read_proc_int, system_read_proc_str,
}
use serv_mark.System.Sensors.{thousandth}

abbrev pub lines_of : ℕ → Option Text → List Text
lines_of size none = []
lines_of size (some content) = fgets_lines size content

abbrev pub behind : Option (Text × Text) → Option Text
behind none = none
behind (some (before, c)) = some (chomp (drop_while is_blank c))

-- The value of a line `name : value`, if there is a colon.
unfoldable pub value_of : Text → Option Text
unfolding chomp
value_of cline = behind (split_at b':' cline)

-- `strncat(dest, src, sizeof(dest) - strlen(dest) - 1)`
abbrev pub append_in : ℕ → Text → Text → Text
append_in size dest src = dest ++ take (size - length dest - 1) src

abbrev pub spaced : Text → Text
spaced [] = []
spaced (c ∷ cs) = append_in 256 (c ∷ cs) (codes " ")

abbrev pub model_name : Text → Option Text → Text
model_name model none = model
model_name model (some c) = take 255 c

abbrev pub model_part : Text → Option Text → Text
model_part model none = model
model_part model (some c) = append_in 256 (spaced model) c

-- The first loop over the lines of cpuinfo, from what `info->cpu_model` holds.
unfoldable pub cpu_model_from : Text → List Text → Text
unfolding value_of
cpu_model_from model [] = model
cpu_model_from model (cline ∷ lines) =
    if starts_with cline (codes "model name")
    then model_name model (value_of cline)
    else cpu_model_from
        (if starts_with cline (codes "CPU implementer") || starts_with cline (codes "CPU part")
          then model_part model (value_of cline)
          else model)
        lines

abbrev pub isa_of : Option Text → Text
isa_of none = []
isa_of (some c) = take 63 c

-- The second loop.
unfoldable pub cpu_isa_from : List Text → Text
unfolding value_of
cpu_isa_from [] = []
cpu_isa_from (cline ∷ lines) =
    let rest = cpu_isa_from lines in
    if starts_with cline (codes "flags")
      || starts_with cline (codes "Features")
      || starts_with cline (codes "isa")
    then isa_of (value_of cline)
    else rest

-- `count` of the commas, and one more.
abbrev pub commas : Text → ℕ
commas [] = 1
commas (c ∷ cs) = if c == b',' then suc (commas cs) else commas cs

abbrev pub listed : Text → Scanned → ℤ
listed siblings (range a b) = b -ℤ a +ℤ pos 1
listed siblings (single a) = pos (commas siblings)
listed siblings nothing = pos (commas siblings)

-- `count` for the text of thread_siblings_list.
unfoldable pub sibling_count : Text → ℤ
unfolding scan_range
sibling_count siblings = listed siblings (scan_range siblings)

module _ {D : Type 0} ⦃d : Double D⦄ where
  abbrev pub megahertz : Option ℤ → D
  megahertz none = nought
  megahertz (some khz) = thousandth khz

  abbrev pub first_megahertz : Option ℤ → Option ℤ → D
  first_megahertz none b = megahertz b
  first_megahertz (some khz) b = thousandth khz

  unfoldable pub freq_base : Files → D
  freq_base files =
      first_megahertz (system_read_proc_int files base_frequency)
        (system_read_proc_int files cpuinfo_max_freq)

-- `v` without the quotes around it.
abbrev pub unquote_left : Text → Text
unquote_left [] = []
unquote_left (c ∷ cs) = if c == b'"' then cs else c ∷ cs

unfoldable pub unquote_right : Text → Text
unquote_right [] = []
unquote_right (c ∷ []) = if c == b'"' then [] else c ∷ []
unquote_right (c ∷ x ∷ xs) = c ∷ unquote_right (x ∷ xs)

-- The loop over os-release; the value is cut to the buffer of 128.
unfoldable pub distro_in : List Text → Text
unfolding chomp unquote_right
distro_in [] = []
distro_in (oline ∷ lines) =
    let rest = distro_in lines in
    if starts_with oline (codes "PRETTY_NAME=")
    then take 127 (unquote_right (unquote_left (chomp (drop 12 oline))))
    else rest

unfoldable pub os_distro : Files → Text
unfolding distro_in
os_distro files = distro_in (lines_of 256 (files os_release))
