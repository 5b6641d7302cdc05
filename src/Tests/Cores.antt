-- ===== src/Tests/Cores.antt =====
use serv_mark.Base.{
  ℕ, ◌≡◌, ◌%◌, true, Option, some, [], ◌∷◌, refl, Text, codes, if◌then◌else◌, ◌==◌,
}
use serv_mark.Base.Scan.{fgets_lines, scan_range, tokens}
use serv_mark.Harness.Cores.Bounds.{IsSound, harness_get_physical_cores-IsSound}
use serv_mark.Harness.Cores.{
  cores, share, share_rounds, share_token, share_tokens, visit, visit_from,
  harness_get_physical_cores,
}

-- CPUs 0 and 2 share a core, and so do 1 and 3.
abbrev siblings : ℕ → Option Text
siblings cpu = some (if cpu % 2 == 0 then codes "0,2\n" else codes "1,3\n")

two_cores : harness_get_physical_cores true siblings 4 ≡ cores (0 ∷ 1 ∷ 0 ∷ 1 ∷ []) 2
unfolding harness_get_physical_cores visit_from visit share_tokens share_token share_rounds share
    fgets_lines scan_range tokens
two_cores = refl

harness_get_physical_cores-IsSound_example : IsSound 4 (harness_get_physical_cores true siblings 4)
harness_get_physical_cores-IsSound_example = harness_get_physical_cores-IsSound true siblings 4
