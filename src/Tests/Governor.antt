-- ===== src/Tests/Governor.antt =====
use serv_mark.Base.Fgets.{with_newline}
use serv_mark.Base.{
  ◌≡◌, ltb, ◌==◌, some, none, [], refl, pos, Text, codes, replicate, length-replicate, arith,
  if◌then◌else◌,
}
use serv_mark.Base.Scan.{fgets_lines}
use serv_mark.Double.{milli_double}
use serv_mark.System.Governor.Floor.{system_restore_frequency-min_freq}
use serv_mark.System.Governor.Restore.{system_restore_frequency-lock}
use serv_mark.System.Governor.{
  Cpufreq, Frequency, system_lock_frequency, system_restore_frequency, max_governors,
}
use serv_mark.System.Virtualization.{system_detect_virtualization, vendor_hypervisor}
use serv_mark.System.{
  Files, proc_stat, sys_vendor, product_name, system_read_proc_str, first_line, chomp,
}

-- Two processors, the second without a governor that can be written.
abbrev cpus : Cpufreq
cpus = record {
  governor = λ j. if ltb j 2 then some (with_newline (codes "schedutil")) else none;
  governor_opens = λ j. j == 0;
  max_freq = λ j. if ltb j 2 then some (with_newline (codes "3600000")) else none;
  min_freq = λ j. if ltb j 2 then some (with_newline (codes "800000")) else none;
  min_opens = λ j. ltb j 2;
}

abbrev fresh : Frequency
fresh = record { cpus = cpus; saved = replicate max_governors []; saved_count = 0 }

system_restore_frequency-lock_example :
    (system_restore_frequency (system_lock_frequency (pos 2) fresh)).cpus.governor 0
    ≡ some (with_newline (codes "schedutil"))
system_restore_frequency-lock_example =
    system_restore_frequency-lock (pos 2) fresh (λ j. codes "schedutil")
      (length-replicate {A = Text} max_governors []) (λ j below opens. ground arith) 0 (omega arith)

system_restore_frequency-min_freq_example :
    (system_restore_frequency (system_lock_frequency (pos 2) fresh)).cpus.min_freq 1
    ≡ some (with_newline (codes "3600000"))
unfolding first_line fgets_lines
system_restore_frequency-min_freq_example =
    system_restore_frequency-min_freq (pos 2) fresh 1 (with_newline (codes "3600000")) (omega arith)
      refl refl

-- A machine in a cloud.
abbrev cloud : Files
cloud proc_stat = some (codes "cpu  10 20 30 40 50 60 70 80 90 100\n")
cloud sys_vendor = some (codes "Amazon EC2\n")
cloud product_name = some (codes "m5.large\n")
cloud _ = none

in_cloud : system_detect_virtualization cloud 64 ≡ (codes "aws-nitro", 2)
unfolding system_detect_virtualization system_read_proc_str fgets_lines vendor_hypervisor chomp
in_cloud = refl
