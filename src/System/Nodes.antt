-- ===== src/System/Nodes.antt =====
-- The NUMA nodes that `system_probe` finds. Memory is always given.
pub mod Count
pub mod Memory
pub mod Distances
pub mod Bits
pub mod Mask
use serv_mark.Base.{
  ℕ, zero, suc, ◌+◌, ◌-◌, ◌/◌, ◌%◌, ◌^◌, Bool, true, false, ◌||◌, Option, none, some, List, [], ◌∷◌,
  map, ◌++◌, ◌==◌, leb, if◌then◌else◌, ℤ, pos, Text, codes, starts_with, drop_while, drop_while_end,
  is_blank, length, take, drop, replicate,
}
use serv_mark.Base.Scan.{atoi, tokens, fgets_lines}
use serv_mark.Base.Strtoul.{strtoul}
use serv_mark.System.{
  Files, SysFile, node_dir, node_cpumap, node_meminfo, node_distance, first_line,
}

-- `numa_node_t`; the list `distance` is the array of 16, and `cpu_list` a pointer that may be null.
pub record NumaNode : Type 0 where
  pub id : ℕ
  pub cpu_count : ℤ
  pub cpu_list : Option (List ℕ)
  pub memory_kb : ℕ
  pub distance : List ℤ

-- `max_nodes`, with `fuel` nodes left to look for and all before `ni` found.
unfoldable pub nodes_from : Files → ℕ → ℕ → ℕ
nodes_from files ni zero = ni
nodes_from files ni (suc fuel) = elim (files (node_dir ni)) [
  | none ↦ ni
  | some dir ↦ nodes_from files (suc ni) fuel
]

unfoldable pub max_nodes : Files → ℕ
unfolding nodes_from
max_nodes files = nodes_from files 0 64

-- The bits of `val` from `b` on, `n` of them, that are set.
unfoldable pub set_bits : ℕ → ℕ → ℕ → ℕ
set_bits val b zero = 0
set_bits val b (suc n) = val / 2 ^ b % 2 + set_bits val (suc b) n

abbrev pub group_bits : List Text → ℕ
group_bits [] = 0
group_bits (tok ∷ toks) = set_bits (strtoul 16 tok) 0 32 + group_bits toks

abbrev pub is_line_end : ℕ → Bool
is_line_end c = (c == 10) || (c == 13)

abbrev pub mask_bits : Option Text → ℕ
mask_bits none = 0
mask_bits (some cmap) = group_bits (tokens (λ c. c == b',') (drop_while_end is_line_end cmap))

-- The CPUs of a node, in the text of its cpumap.
unfoldable pub cpu_count_in : Text → ℕ
unfolding set_bits first_line
cpu_count_in content = mask_bits (first_line 1024 content)

-- The loop over the lines of meminfo; 0 is what `calloc` left.
unfoldable pub memory_in : List Text → ℕ
memory_in [] = 0
memory_in (mline ∷ lines) =
    let rest = memory_in lines in
    if starts_with mline (codes "MemTotal:")
    then strtoul 10 (drop_while is_blank (drop 9 mline))
    else rest

abbrev pub is_separator : ℕ → Bool
is_separator c = is_blank c || (c == 10)

-- Sixteen entries: these, and zeros behind them.
abbrev pub padded : List ℤ → List ℤ
padded ds = ds ++ replicate (16 - length ds) (pos 0)

abbrev pub distances_on : Option Text → List ℤ
distances_on none = []
distances_on (some dline) = take 16 (map atoi (tokens is_separator dline))

-- `(dj == ni) ? 10 : 20`, for `n` entries from `dj` on.
abbrev pub default_distances : ℕ → ℕ → ℕ → List ℤ
default_distances ni dj zero = []
default_distances ni dj (suc n) =
    (if dj == ni then pos 10 else pos 20) ∷ default_distances ni (suc dj) n

-- `none` when an entry behind the array is written: that is undefined.
unfoldable pub distances_of : Files → ℕ → ℕ → Option (List ℤ)
unfolding first_line
distances_of files nodes ni = elim (files (node_distance ni)) [
  | none ↦ if leb nodes 16 then some (padded (default_distances ni 0 nodes)) else none
  | some content ↦ some (padded (distances_on (first_line 256 content)))
]

abbrev pub counted : Option Text → ℕ
counted none = 0
counted (some content) = cpu_count_in content

abbrev pub memory_of : Option Text → ℕ
memory_of none = 0
memory_of (some content) = memory_in (fgets_lines 128 content)

abbrev pub with_distance : Files → ℕ → Option (List ℤ) → Option NumaNode
with_distance files ni none = none
with_distance files ni (some ds) = some (record {
  id = ni;
  cpu_count = pos (counted (files (node_cpumap ni)));
  cpu_list = none;
  memory_kb = memory_of (files (node_meminfo ni));
  distance = ds;
})

unfoldable pub probe_node : Files → ℕ → ℕ → Option NumaNode
unfolding distances_of
probe_node files nodes ni = with_distance files ni (distances_of files nodes ni)

abbrev pub onto_nodes : Option NumaNode → Option (List NumaNode) → Option (List NumaNode)
onto_nodes none rest = none
onto_nodes (some node) none = none
onto_nodes (some node) (some rest) = some (node ∷ rest)

-- The nodes from `ni` on, `n` of them.
unfoldable pub read_nodes : Files → ℕ → ℕ → ℕ → Option (List NumaNode)
unfolding probe_node
read_nodes files nodes ni zero = some []
read_nodes files nodes ni (suc n) =
    onto_nodes (probe_node files nodes ni) (read_nodes files nodes (suc ni) n)

-- The fallback.
abbrev pub single_node : ℤ → ℕ → NumaNode
single_node cpu_threads_logical total_ram_kb = record {
  id = 0;
  cpu_count = cpu_threads_logical;
  cpu_list = none;
  memory_kb = total_ram_kb;
  distance = padded (pos 10 ∷ []);
}

abbrev pub nodes_or_single : Files → ℤ → ℕ → ℕ → Option (List NumaNode)
nodes_or_single files cpu_threads_logical total_ram_kb zero =
    some (single_node cpu_threads_logical total_ram_kb ∷ [])
nodes_or_single files cpu_threads_logical total_ram_kb (suc n) = read_nodes files (suc n) 0 (suc n)

-- `info->numa_nodes`.
unfoldable pub probe_nodes : Files → ℤ → ℕ → Option (List NumaNode)
unfolding max_nodes read_nodes
probe_nodes files cpu_threads_logical total_ram_kb =
    nodes_or_single files cpu_threads_logical total_ram_kb (max_nodes files)

-- `info->numa_node_count`
unfoldable pub count_nodes : Files → ℕ
unfolding max_nodes
count_nodes files = let found = max_nodes files in if found == 0 then 1 else found
