-- ===== src/System/Caches.antt =====
-- The cache topology that `system_probe` finds. Memory is always given, and `(int)` loses nothing.
pub mod Sizes
use serv_mark.Base.{
  ℕ, zero, suc, ◌+◌, ◌/◌, Bool, Option, none, some, List, [], ◌∷◌, if◌then◌else◌, ℤ, pos, negsuc,
  sub_ℕ, Text, codes, contains,
}
use serv_mark.System.{
  Files, SysFile, cache_type, cache_level, cache_size, cache_line_size, cache_ways,
  system_read_proc_int, system_read_proc_str,
}

-- `cache_info_t`; `none` is a null pointer.
pub record CacheInfo : Type 0 where
  pub level : ℤ
  pub kind : Option Text
  pub size_kb : ℤ
  pub line_size : ℤ
  pub associativity : ℤ

-- Division of integers by a positive number rounds towards zero.
abbrev pub quot_ℤ : ℤ → ℕ → ℤ
quot_ℤ (pos n) d = pos (n / d)
quot_ℤ (negsuc n) d = sub_ℕ 0 (suc n / d)

-- A field that is not read keeps the zero of `calloc`.
abbrev pub or_zero : Option ℤ → ℤ
or_zero none = pos 0
or_zero (some num) = num

abbrev pub kilobytes : Option ℤ → ℤ
kilobytes none = pos 0
kilobytes (some num) = quot_ℤ num 1024

abbrev pub kind_of : Option Text → Option Text
kind_of none = none
kind_of (some val) = some (
    if contains val (codes "Data")
    then codes "data"
    else if contains val (codes "Instruction")
    then codes "instruction"
    else codes "unified")

unfoldable pub read_cache : Files → ℕ → CacheInfo
read_cache files i = record {
  level = or_zero (system_read_proc_int files (cache_level i));
  kind = kind_of (system_read_proc_str files (cache_type i) 64);
  size_kb = kilobytes (system_read_proc_int files (cache_size i));
  line_size = or_zero (system_read_proc_int files (cache_line_size i));
  associativity = or_zero (system_read_proc_int files (cache_ways i));
}

-- The caches from index `idx` on whose type can be read, up to `fuel` of them.
unfoldable pub caches_from : Files → ℕ → ℕ → List CacheInfo
unfolding read_cache
caches_from files idx zero = []
caches_from files idx (suc fuel) = elim (files (cache_type idx)) [
  | none ↦ []
  | some content ↦ read_cache files idx ∷ caches_from files (suc idx) fuel
]

abbrev pub cache : ℕ → Text → ℕ → ℕ → ℕ → CacheInfo
cache lvl kind size line ways = record {
  level = pos lvl;
  kind = some kind;
  size_kb = pos size;
  line_size = pos line;
  associativity = pos ways;
}

abbrev pub default_caches : List CacheInfo
default_caches =
    cache 1 (codes "data") 32 64 8
    ∷ cache 2 (codes "unified") 1024 64 16
    ∷ cache 3 (codes "unified") 32768 64 16
    ∷ []

abbrev pub or_default : List CacheInfo → List CacheInfo
or_default [] = default_caches
or_default (c ∷ cs) = c ∷ cs

-- `info->caches`; its length is `info->cache_level_count`.
unfoldable pub probe_caches : Files → List CacheInfo
unfolding caches_from
probe_caches files = or_default (caches_from files 0 8)
