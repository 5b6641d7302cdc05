-- ===== src/System/Noise/Snapshot.antt =====
-- What the snapshot finds on Linux.
use serv_mark.Base.{◌≡◌, ◌++◌, some, none, Text, codes, refl}
use serv_mark.Base.Scan.{scan_int}
use serv_mark.Double.{Double}
use serv_mark.System.Noise.{no_noise, system_noise_snapshot}
use serv_mark.System.{Files, proc_stat, system_read_proc_int}

-- No text that begins with "cpu" is read as a number.
cpu_is_no_number :
    (files : Files) (rest : Text)
    → files proc_stat ≡ some (codes "cpu" ++ rest)
    → system_read_proc_int files proc_stat ≡ none
unfolding system_read_proc_int scan_int
cpu_is_no_number files rest held = rw (system_read_proc_int, held) refl

-- If /proc/stat begins with "cpu", as it does on Linux, every snapshot is all zeros: the switches of
-- context are never read.
pub system_noise_snapshot-cpu :
    {D : Type 0} ⦃d : Double D⦄ (files : Files) (rest : Text)
    → files proc_stat ≡ some (codes "cpu" ++ rest)
    → system_noise_snapshot {D = D} files ≡ no_noise
unfolding system_noise_snapshot
system_noise_snapshot-cpu files rest held =
    rw (system_noise_snapshot, cpu_is_no_number files rest held) refl
