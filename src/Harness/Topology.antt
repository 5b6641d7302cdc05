-- ===== src/Harness/Topology.antt =====
-- The part of `harness_run` that replaces the probed NUMA nodes by those of `--numa-topo`. Memory is
-- always given.
pub mod Partition
pub mod Distance
use serv_mark.Base.{
  ℕ, zero, suc, ◌+◌, ◌-◌, Bool, true, false, ◌&&◌, ◌==◌, leb, ltb, Option, none, some, List, [],
  ◌∷◌, if◌then◌else◌, ℤ, pos, negsuc, ltb_ℤ, suc_ℤ, pos_part, nonzero, Text, length, replicate,
  get_or,
}
use serv_mark.Harness.NumaBind.{Binding, harness_parse_numa_bind}
use serv_mark.System.Nodes.{NumaNode, default_distances}
use serv_mark.System.Probe.{SystemInfo}

-- `max_nid`, from what it is before the loop.
unfoldable pub max_from : ℤ → List ℤ → ℤ
max_from max_nid [] = max_nid
max_from max_nid (node ∷ c2n) = max_from (if ltb_ℤ max_nid node then node else max_nid) c2n

abbrev pub is_node : ℕ → ℤ → Bool
is_node n (pos m) = m == n
is_node n (negsuc m) = false

-- The CPUs of node `n`, where the list is `c2n` from entry `i` on.
unfoldable pub cpus_on : ℕ → ℕ → List ℤ → List ℕ
cpus_on n i [] = []
cpus_on n i (node ∷ c2n) =
    let rest = cpus_on n (suc i) c2n in if is_node n node then i ∷ rest else rest

-- The first detected node whose number is `n`.
unfoldable pub old_node : ℕ → List NumaNode → Option NumaNode
old_node n [] = none
old_node n (node ∷ nodes) = let rest = old_node n nodes in if node.id == n then some node else rest

abbrev pub old_memory : Option NumaNode → ℕ
old_memory none = 0
old_memory (some node) = node.memory_kb

abbrev pub old_distance : Option NumaNode → List ℤ
old_distance none = replicate 16 (pos 0)
old_distance (some node) = node.distance

-- A row that says nothing of the node itself is replaced.
unfoldable pub repaired : ℕ → List ℤ → List ℤ
repaired n ds = if nonzero (get_or ds n (pos 0)) then ds else default_distances n 0 16

unfoldable pub topology_node : List ℤ → List NumaNode → ℕ → NumaNode
unfolding cpus_on old_node repaired
topology_node c2n old n = record {
  id = n;
  cpu_count = pos (length (cpus_on n 0 c2n));
  cpu_list = some (cpus_on n 0 c2n);
  memory_kb = old_memory (old_node n old);
  distance = repaired n (old_distance (old_node n old));
}

-- Nodes from `n` on, `count` of them.
unfoldable pub topology_from : List ℤ → List NumaNode → ℕ → ℕ → List NumaNode
unfolding topology_node
topology_from c2n old n zero = []
topology_from c2n old n (suc count) = topology_node c2n old n ∷ topology_from c2n old (suc n) count

-- `n_nodes`
abbrev pub node_total : List ℤ → ℕ
node_total c2n = pos_part (suc_ℤ (max_from (negsuc 0) c2n))

module _ {D : Type 0} where
  abbrev pub with_topology : SystemInfo D → List ℤ → SystemInfo D
  with_topology info c2n = record info {
    numa_nodes = topology_from c2n info.numa_nodes 0 (node_total c2n);
    numa_node_count = pos (node_total c2n);
  }

  -- `none` when `distance[n]` of a node `n` is behind the array of 16, or the specification makes
  -- the parser leave its own array.
  unfoldable pub bound_topology : SystemInfo D → Option Binding → Option (SystemInfo D)
  unfolding max_from topology_from
  bound_topology info none = none
  bound_topology info (some binding) =
      if ltb 0 binding.bound
      then (if leb (node_total binding.cpu_to_numa) 16
          then some (with_topology info binding.cpu_to_numa)
          else none)
      else some info

  -- For a specification that is given and is not empty, the nodes are replaced.
  unfoldable pub override_topology :
      ℕ → (Text → Option Text) → Option Text → SystemInfo D → Option (SystemInfo D)
  unfolding bound_topology
  override_topology ncpu read_file none info = some info
  override_topology ncpu read_file (some []) info = some info
  override_topology ncpu read_file (some (c ∷ cs)) info =
      bound_topology info (harness_parse_numa_bind ncpu ncpu read_file (c ∷ cs))
