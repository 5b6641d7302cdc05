-- ===== src/System.antt =====
-- src/core/system.c: what the program reads of the kernel. A file stands here under a constructor in
-- place of its path, whose pattern the constructor names; the files that can be opened are a function
-- to their contents.
pub mod Lines
pub mod Governor
pub mod Noise
pub mod Virtualization
pub mod Sensors
pub mod Identity
pub mod Nodes
pub mod Caches
pub mod Probe
use serv_mark.Base.{
  ℕ, Bool, true, false, Option, none, some, List, [], ◌∷◌, ◌==◌, if◌then◌else◌, ℤ, Text,
}
use serv_mark.Base.Scan.{scan_int, fgets_lines}

-- The numbers are those of a CPU (below /sys/devices/system/cpu), a node (below
-- /sys/devices/system/node), an index of cpu0's caches, or a thermal zone.
pub data SysFile : Type 0 where
  proc_version proc_cpuinfo proc_stat os_release thread_siblings_list : SysFile
  base_frequency cpuinfo_max_freq hugepages_2048 hugepages_1048576 : SysFile
  sys_vendor product_name : SysFile
  scaling_governor scaling_cur_freq node_dir node_cpumap node_meminfo node_distance : ℕ → SysFile
  cache_type cache_level cache_size cache_line_size cache_ways thermal_zone : ℕ → SysFile

abbrev pub Files : Type 0
Files = SysFile → Option Text

-- `fgets` once, on a file that was just opened: `none` at its end.
unfoldable pub first_line : ℕ → Text → Option Text
first_line size content = elim (fgets_lines size content) [ [] ↦ none | line ∷ lines ↦ some line ]

-- `if (l > 0 && buf[l-1] == '\n') buf[l-1] = '\0';`
unfoldable pub chomp : Text → Text
chomp [] = []
chomp (c ∷ []) = if c == 10 then [] else c ∷ []
chomp (c ∷ x ∷ xs) = c ∷ chomp (x ∷ xs)

abbrev pub scanned : Option (ℤ × Text) → Option ℤ
scanned none = none
scanned (some (v, rest)) = some v

-- `*value`, or -1 and no value.
unfoldable pub system_read_proc_int : Files → SysFile → Option ℤ
system_read_proc_int files file = elim (files file) [
  | none ↦ none
  | some content ↦ scanned (scan_int content)
]

abbrev pub chomped : Option Text → Option Text
chomped none = none
chomped (some line) = some (chomp line)

-- `buf` of `len` characters, or -1; then `buf` is as it was.
unfoldable pub system_read_proc_str : Files → SysFile → ℕ → Option Text
unfolding first_line
system_read_proc_str files file len = elim (files file) [
  | none ↦ none
  | some content ↦ chomped (first_line len content)
]
