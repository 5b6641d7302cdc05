-- ===== src/System/Governor.antt =====
-- `system_lock_frequency`, `system_lock_frequency_peak` and `system_restore_frequency`: the state that
-- they keep between calls, and the cpufreq files of the CPUs. A file that is written holds what was
-- written to it.
pub mod Locked
pub mod Restore
pub mod Floor
use serv_mark.Base.{
  ℕ, zero, suc, ◌+◌, Bool, true, false, Option, none, some, List, [], ◌∷◌, ◌++◌, ◌==◌,
  if◌then◌else◌, ℤ, pos, negsuc, ltb, ◌&&◌, Text, codes, set, get_or, take,
}
use serv_mark.System.{first_line, chomp}

-- The files of each CPU: what can be read, and whether it can be opened for writing.
pub record Cpufreq : Type 0 where
  pub governor : ℕ → Option Text
  pub governor_opens : ℕ → Bool
  pub max_freq : ℕ → Option Text
  pub min_freq : ℕ → Option Text
  pub min_opens : ℕ → Bool

-- With `_saved_governors`, an empty text for an empty entry, and `_saved_governor_count`.
pub record Frequency : Type 0 where
  pub cpus : Cpufreq
  pub saved : List Text
  pub saved_count : ℕ

abbrev pub max_governors : ℕ
max_governors = 4096

abbrev pub update : (ℕ → Option Text) → ℕ → Text → ℕ → Option Text
update files cpu text j = if cpu == j then some text else files j

abbrev pub write_governor : ℕ → Text → Frequency → Frequency
write_governor cpu text s = record s {
  cpus = record s.cpus { governor = update s.cpus.governor cpu text };
}

-- `if (ncpu <= 0 || ncpu > 4096) ncpu = 256;`
abbrev pub cpu_limit : ℤ → ℕ
cpu_limit (pos n) = if ltb 0 n && ltb n (max_governors + 1) then n else 256
cpu_limit (negsuc n) = 256

abbrev pub line_or_empty : Option Text → Text
line_or_empty none = []
line_or_empty (some line) = chomp line

-- `orig`
unfoldable pub read_governor : Option Text → Text
unfolding first_line
read_governor none = []
read_governor (some content) = line_or_empty (first_line 32 content)

abbrev pub save_governor : Text → ℕ → List Text → List Text
save_governor [] cpu saved = saved
save_governor (c ∷ cs) cpu saved = set saved cpu (take 31 (c ∷ cs))

abbrev pub performance : Text
performance = codes "performance\n"

abbrev pub save_at : ℕ → Frequency → Frequency
save_at cpu s = record s { saved = save_governor (read_governor (s.cpus.governor cpu)) cpu s.saved }

abbrev pub lock_at : ℕ → Frequency → Frequency
lock_at cpu s = record (write_governor cpu performance (save_at cpu s)) {
  saved_count = s.saved_count + 1;
}

-- The first loop, `n` CPUs left from `cpu` on; it breaks off at a CPU whose file cannot be written.
unfoldable pub lock_governors : ℕ → ℕ → Frequency → Frequency
lock_governors zero cpu s = s
lock_governors (suc n) cpu s =
    let rest = lock_governors n (cpu + 1) (lock_at cpu s) in
    if s.cpus.governor_opens cpu then rest else save_at cpu s

abbrev pub max_line : Option Text → Option Text
max_line none = none
max_line (some content) = first_line 32 content

abbrev pub raise_floor : ℕ → Option Text → Cpufreq → Cpufreq
raise_floor cpu none c = c
raise_floor cpu (some line) c =
    if c.min_opens cpu then record c { min_freq = update c.min_freq cpu line } else c

-- The second loop.
unfoldable pub pin_minimum : ℕ → ℕ → Cpufreq → Cpufreq
pin_minimum zero cpu c = c
pin_minimum (suc n) cpu c = pin_minimum n (cpu + 1) (raise_floor cpu (max_line (c.max_freq cpu)) c)

unfoldable pub system_lock_frequency : ℤ → Frequency → Frequency
system_lock_frequency nconf s =
    let locked = lock_governors (cpu_limit nconf) 0 (record s { saved_count = 0 }) in
    record locked { cpus = pin_minimum (cpu_limit nconf) 0 locked.cpus }

unfoldable pub system_lock_frequency_peak : ℤ → Frequency → Frequency
unfolding system_lock_frequency
system_lock_frequency_peak nconf s = system_lock_frequency nconf s

abbrev pub restore_one : ℕ → Text → Frequency → Frequency
restore_one cpu [] s = s
restore_one cpu (c ∷ cs) s =
    if s.cpus.governor_opens cpu then write_governor cpu ((c ∷ cs) ++ 10 ∷ []) s else s

unfoldable pub restore_governors : ℕ → ℕ → Frequency → Frequency
restore_governors zero cpu s = s
restore_governors (suc n) cpu s =
    restore_governors n (cpu + 1) (restore_one cpu (get_or s.saved cpu []) s)

unfoldable pub system_restore_frequency : Frequency → Frequency
system_restore_frequency s = record (restore_governors s.saved_count 0 s) { saved_count = 0 }
