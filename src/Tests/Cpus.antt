-- ===== src/Tests/Cpus.antt =====
use serv_mark.Base.Member.{Member}
use serv_mark.Base.Scan.{scan_range, scan_int, tokens, atoi}
use serv_mark.Base.{
  ℕ, zero, suc, ◌%◌, ◌≡◌, ◌≤◌, ◌<◌, ◌↔◌, true, none, some, Option, List, [], ◌∷◌, refl, ℤ, pos,
  negsuc, codes, Text, length, All, get_elem?,
}
use serv_mark.Harness.CpuSpec.Sound.{Named, Below, harness_parse_cpu_spec_explicit}
use serv_mark.Harness.CpuSpec.{NodeFile, missing, line, max_pins, is_comma, harness_parse_cpu_spec}
use serv_mark.Harness.NumaBind.Bounds.{AnyFaulty, harness_parse_numa_bind-none}
use serv_mark.Harness.NumaBind.Split.{harness_parse_numa_bind-interleaved}
use serv_mark.Harness.NumaBind.{Binding, harness_parse_numa_bind}

abbrev two_nodes : ℕ → NodeFile
two_nodes zero = line (codes "0-3\n")
two_nodes (suc zero) = line (codes "4\n")
two_nodes (suc (suc n)) = missing

-- One CPU of each node.
first_cpus :
    harness_parse_cpu_spec 8 two_nodes true (some (codes "auto-numa"))
    ≡ (some (pos 0 ∷ pos 4 ∷ []), pos 2)
unfolding harness_parse_cpu_spec scan_range tokens
first_cpus = refl

abbrev spec : Text
spec = codes "0-3, 6,9"

pins :
    (harness_parse_cpu_spec 8 two_nodes true (some spec)
      ≡ (some (pos 0 ∷ pos 1 ∷ pos 2 ∷ pos 3 ∷ pos 6 ∷ []), pos 5))
    × (harness_parse_cpu_spec 8 two_nodes true (some (codes "auto")) ≡ (none, pos 0))
    × (harness_parse_cpu_spec 2 two_nodes true (some (codes "auto-all"))
        ≡ (some (pos 0 ∷ pos 1 ∷ []), pos 2))
unfolding harness_parse_cpu_spec scan_range tokens
pins = (refl, refl, refl)

-- A range may begin below zero: the first CPU of the list is then no CPU.
below_zero :
    harness_parse_cpu_spec 8 two_nodes true (some (codes "-2-0"))
    ≡ (some (negsuc 1 ∷ negsuc 0 ∷ pos 0 ∷ []), pos 3)
unfolding harness_parse_cpu_spec scan_range tokens
below_zero = refl

harness_parse_cpu_spec_explicit_example :
    (list : List ℤ) × (harness_parse_cpu_spec 8 two_nodes true (some spec)
      ≡ (some list, pos (length list)))
    × All (λ c. Named (tokens is_comma spec) c × Below (pos 8) c) list
    × (length list ≤ max_pins)
    × (length list < max_pins
        → (c : ℤ) → Named (tokens is_comma spec) c
        → Below (pos 8) c
        → Member c list)
harness_parse_cpu_spec_explicit_example =
    harness_parse_cpu_spec_explicit 8 two_nodes spec
      (record { some_text = λ e. cc; not_auto = refl; not_all = refl; not_numa = refl })

abbrev no_file : Text → Option Text
no_file path = none

harness_parse_numa_bind-none_example :
    (harness_parse_numa_bind 8 8 no_file (codes "-2-0:1") ≡ none)
    ↔ AnyFaulty (tokens is_comma (codes "-2-0:1"))
unfolding scan_int
harness_parse_numa_bind-none_example =
    harness_parse_numa_bind-none 8 8 no_file (codes "-2-0:1")
      (record { no_count = refl; no_file = refl; some_text = λ e. cc })

binds :
    harness_parse_numa_bind 4 4 no_file (codes "0-1:0,3:1")
    ≡ some (record { cpu_to_numa = pos 0 ∷ pos 0 ∷ negsuc 0 ∷ pos 1 ∷ []; bound = 3 })
unfolding harness_parse_numa_bind scan_int scan_range tokens atoi
binds = refl

harness_parse_numa_bind-interleaved_example :
    (b : Binding) × (harness_parse_numa_bind 6 4 no_file (codes "3") ≡ some b)
    × (b.bound ≡ 4)
    × (length b.cpu_to_numa ≡ 4)
    × ((cpu : ℕ)
        → cpu < 6
        → cpu < 4
        → (get_elem? b.cpu_to_numa cpu ≡ some (pos (cpu % 3))) × (cpu % 3 < 3) × (3 ≤ 16))
unfolding scan_int
harness_parse_numa_bind-interleaved_example =
    harness_parse_numa_bind-interleaved 6 4 no_file (codes "3") 3 refl
