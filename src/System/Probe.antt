-- ===== src/System/Probe.antt =====
-- `system_probe`: the record that the run and its reports read. Memory is always given.
use serv_mark.Base.{
  ℕ, ◌+◌, ◌-◌, ◌*◌, ◌/◌, ◌%◌, ◌^◌, Bool, true, false, ◌&&◌, Option, none, some, List, [], ◌∷◌,
  ltb_ℤ, if◌then◌else◌, positive, ℤ, pos, negsuc, sub_ℕ, pos_part, neg_part, Text, codes, replicate,
  length,
}
use serv_mark.Double.{Double, nought}
use serv_mark.System.{
  Files, proc_version, proc_cpuinfo, thread_siblings_list, cpuinfo_max_freq, scaling_cur_freq,
  scaling_governor, hugepages_2048, hugepages_1048576, system_read_proc_int, system_read_proc_str,
}
use serv_mark.System.Identity.{
  lines_of, cpu_model_from, cpu_isa_from, sibling_count, megahertz, freq_base, os_distro,
}
use serv_mark.System.Nodes.{NumaNode, count_nodes, probe_nodes}
use serv_mark.System.Caches.{CacheInfo, probe_caches}

-- What `sysconf` answers; it is not part of the repository.
pub record Sysconf : Type 0 where
  pub pagesize : ℤ
  pub nprocessors_onln : ℤ
  pub nprocessors_conf : ℤ
  pub phys_pages : ℤ

-- `struct system_info_s`, less the parts that nothing ever fills: the command line of the kernel,
-- the C library, the mitigations, the storage devices and the network interfaces.
pub record SystemInfo (D : Type 0) : Type 0 where
  pub cpu_model : Text
  pub cpu_isa : Text
  pub cpu_cores_physical : ℤ
  pub cpu_threads_logical : ℤ
  pub smt_enabled : Bool
  pub smt_siblings_per_core : ℤ
  pub freq_base_mhz : D
  pub freq_max_mhz : D
  pub freq_current_mhz : List D
  pub governor : Text
  pub total_ram_kb : ℕ
  pub page_size : ℕ
  pub hugepages_2m_available : Bool
  pub hugepages_1g_available : Bool
  pub numa_node_count : ℤ
  pub numa_nodes : List NumaNode
  pub cache_level_count : ℤ
  pub caches : List CacheInfo
  pub kernel_version : Text
  pub distro : Text
  pub compiler_name : Text
  pub compiler_version : Text
  pub compiler_flags : Text

-- `(size_t)`, of 64 bits.
abbrev pub size_t : ℤ → ℕ
size_t (pos n) = n % 2 ^ 64
size_t (negsuc n) = 2 ^ 64 - 1 - n % 2 ^ 64

abbrev pub exists : Option Text → Bool
exists none = false
exists (some content) = true

abbrev pub or_empty : Option Text → Text
or_empty none = []
or_empty (some s) = s

-- The siblings of a core when there is more than one, else `none`.
abbrev pub more_than_one : ℤ → Option ℤ
more_than_one count = if ltb_ℤ (pos 1) count then some count else none

abbrev pub smt_count : Option Text → Option ℤ
smt_count none = none
smt_count (some siblings) = more_than_one (sibling_count siblings)

abbrev pub is_some : Option ℤ → Bool
is_some none = false
is_some (some count) = true

abbrev pub or_one : Option ℤ → ℤ
or_one none = pos 1
or_one (some count) = count

abbrev pub product : ℤ → ℤ → ℤ
product a b =
    sub_ℕ (pos_part a * pos_part b + neg_part a * neg_part b)
      (pos_part a * neg_part b + neg_part a * pos_part b)

-- `cpu_threads_logical`
unfoldable pub logical_threads : Sysconf → Option ℤ → ℤ
logical_threads conf none = conf.nprocessors_onln
logical_threads conf (some count) =
    if positive conf.nprocessors_conf
    then conf.nprocessors_conf
    else product conf.nprocessors_onln count

-- `total_ram_kb`, in 64 bits.
unfoldable pub ram_kb : Sysconf → ℕ
ram_kb conf =
    if positive conf.phys_pages && positive conf.pagesize
    then pos_part conf.phys_pages * pos_part conf.pagesize % 2 ^ 64 / 1024
    else 0

abbrev pub siblings_of : Files → Option ℤ
siblings_of files = smt_count (system_read_proc_str files thread_siblings_list 64)

module _ {D : Type 0} ⦃d : Double D⦄ where
  abbrev pub info_of : Sysconf → Files → List NumaNode → SystemInfo D
  info_of conf files nodes = record {
    cpu_model = cpu_model_from [] (lines_of 512 (files proc_cpuinfo));
    cpu_isa = cpu_isa_from (lines_of 512 (files proc_cpuinfo));
    cpu_cores_physical = conf.nprocessors_onln;
    cpu_threads_logical = logical_threads conf (siblings_of files);
    smt_enabled = is_some (siblings_of files);
    smt_siblings_per_core = or_one (siblings_of files);
    freq_base_mhz = freq_base files;
    freq_max_mhz = megahertz (system_read_proc_int files cpuinfo_max_freq);
    freq_current_mhz =
        megahertz (system_read_proc_int files (scaling_cur_freq 0)) ∷ replicate 255 nought;
    governor = or_empty (system_read_proc_str files (scaling_governor 0) 32);
    total_ram_kb = ram_kb conf;
    page_size = size_t conf.pagesize;
    hugepages_2m_available = exists (files hugepages_2048);
    hugepages_1g_available = exists (files hugepages_1048576);
    numa_node_count = pos (count_nodes files);
    numa_nodes = nodes;
    cache_level_count = pos (length (probe_caches files));
    caches = probe_caches files;
    kernel_version = or_empty (system_read_proc_str files proc_version 128);
    distro = os_distro files;
    compiler_name = codes "clang-18";
    compiler_version = codes "18.1.8";
    compiler_flags = codes "-O2 -g -fno-omit-frame-pointer -fno-lto";
  }

  abbrev pub with_nodes : Sysconf → Files → Option (List NumaNode) → Option (SystemInfo D)
  with_nodes conf files none = none
  with_nodes conf files (some nodes) = some (info_of conf files nodes)

  -- `none` where a write out of bounds makes the rest undefined.
  unfoldable pub system_probe : Sysconf → Files → Option (SystemInfo D)
  unfolding logical_threads ram_kb
  system_probe conf files =
      with_nodes conf files
        (probe_nodes files (logical_threads conf (siblings_of files)) (ram_kb conf))
