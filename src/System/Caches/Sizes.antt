-- ===== src/System/Caches/Sizes.antt =====
-- What is known of the caches whatever the kernel files hold.
use serv_mark.Base.{
  ◌⊎◌, inl, inr, ℕ, zero, suc, ◌≡◌, ◌≤◌, ◌<◌, some, List, [], ◌∷◌, arith, refl, ap, Option-cases,
  All, pos, length, Text,
}
use serv_mark.Base.Scan.{scan_int}
use serv_mark.System.{Files, cache_size, cache_type, system_read_proc_int}
use serv_mark.System.Caches.{
  CacheInfo, read_cache, caches_from, or_default, probe_caches, default_caches,
}

-- Every size file holds a number below 1024, with anything behind it: "32K" is one.
abbrev pub HasSmallSizes : Files → Type 0
HasSmallSizes files =
    (i : ℕ) (content : Text)
    → files (cache_size i) ≡ some content
    → (n : ℕ) × (rest : Text) × (scan_int content ≡ some (pos n, rest)) × (n < 1024)

read_cache-size :
    (files : Files) (i : ℕ) → HasSmallSizes files → (read_cache files i).size_kb ≡ pos 0
unfolding read_cache system_read_proc_int
read_cache-size files i h = elim (Option-cases (files (cache_size i))) [
  | inl e ↦ rw (system_read_proc_int, e) refl
  | inr (content, held) ↦
      let (n, rest, scans, small) = h i content held in
      rw (system_read_proc_int, held, scans) (ap pos (omega arith))
]

caches_from-size :
    (files : Files) (idx fuel : ℕ)
    → HasSmallSizes files
    → All (λ c. c.size_kb ≡ pos 0) (caches_from files idx fuel)
unfolding caches_from
caches_from-size files idx zero h = tt
caches_from-size files idx (suc fuel) h = elim (Option-cases (files (cache_type idx))) [
  | inl e ↦ rw (caches_from, e) tt
  | inr (content, e) ↦
      rw (caches_from, e) ((read_cache-size files idx h, caches_from-size files (suc idx) fuel h))
]

length-caches_from : (files : Files) (idx fuel : ℕ) → length (caches_from files idx fuel) ≤ fuel
unfolding caches_from
length-caches_from files idx zero = omega arith
length-caches_from files idx (suc fuel) = elim (Option-cases (files (cache_type idx))) [
  | inl e ↦ rw (caches_from, e) (omega arith)
  | inr (content, e) ↦ rw (caches_from, e) (omega (arith, length-caches_from files (suc idx) fuel))
]

length-or_default :
    (cs : List CacheInfo)
    → length cs ≤ 8
    → (1 ≤ length (or_default cs)) × (length (or_default cs) ≤ 8)
length-or_default [] h = ground arith
length-or_default (c ∷ cs) h = (omega arith, h)

-- From one to eight caches are reported.
pub length-probe_caches :
    (files : Files) → (1 ≤ length (probe_caches files)) × (length (probe_caches files) ≤ 8)
unfolding probe_caches
length-probe_caches files = length-or_default (caches_from files 0 8) (length-caches_from files 0 8)

-- When the size files hold numbers below 1024, with a unit or anything else behind them, every cache
-- that is reported has size 0, unless the reported caches are the three defaults.
pub probe_caches-size :
    (files : Files)
    → HasSmallSizes files
    → (probe_caches files ≡ default_caches) ⊎ All (λ c. c.size_kb ≡ pos 0) (probe_caches files)
unfolding probe_caches
probe_caches-size files h = known (caches_from files 0 8) (caches_from-size files 0 8 h)
  where
    known :
        (cs : List CacheInfo)
        → All (λ c. c.size_kb ≡ pos 0) cs
        → (or_default cs ≡ default_caches) ⊎ All (λ c. c.size_kb ≡ pos 0) (or_default cs)
    known [] hs = inl refl
    known (c ∷ cs) hs = inr hs
