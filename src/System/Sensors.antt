-- ===== src/System/Sensors.antt =====
-- `system_get_frequencies`, `system_get_temperatures` and `system_isolate_cpus`. `max` is what is
-- left of the loop, and `i` the number that it has reached.
use serv_mark.Base.{ℕ, zero, suc, Option, none, some, List, [], ◌∷◌, ℤ, pos}
use serv_mark.Double.{Double, ◌⊘◌, nought}
use serv_mark.System.{Files, scaling_cur_freq, thermal_zone, system_read_proc_int}

module _ {D : Type 0} ⦃d : Double D⦄ where
  -- `v / 1000.0`
  abbrev pub thousandth : ℤ → D
  thousandth v = d.of_int v ⊘ d.lit 1000 1

  abbrev pub frequency : Option ℤ → D
  frequency none = nought
  frequency (some khz) = thousandth khz

  -- `freqs[i]` and the entries behind it.
  abbrev pub frequencies_from : Files → ℕ → ℕ → List D
  frequencies_from files i zero = []
  frequencies_from files i (suc max) =
      frequency (system_read_proc_int files (scaling_cur_freq i))
      ∷ frequencies_from files (suc i) max

  unfoldable pub system_get_frequencies : Files → ℕ → List D
  system_get_frequencies files max_cpus = frequencies_from files 0 max_cpus

  abbrev pub onto : Option ℤ → List D → List D
  onto none temps = temps
  onto (some millic) temps = thousandth millic ∷ temps

  abbrev pub temperatures_from : Files → ℕ → ℕ → List D
  temperatures_from files i zero = []
  temperatures_from files i (suc max) =
      onto (system_read_proc_int files (thermal_zone i)) (temperatures_from files (suc i) max)

  -- What is written of `temps`; its length is `count`.
  unfoldable pub system_get_temperatures : Files → ℕ → List D
  system_get_temperatures files max_zones = temperatures_from files 0 max_zones

abbrev pub system_isolate_cpus : ℤ → ℤ
system_isolate_cpus housekeeping_cpu = pos 0
