-- ===== src/Harness/Topology/Distance.antt =====
-- The distances of the nodes that the override makes.
use mathlib.Core.Path.{subst}
use serv_mark.Base.{
  ℕ, zero, suc, ◌+◌, ◌≡◌, ◌≤◌, ◌<◌, inl, inr, true, Bool-cases, leb, leb→le, Option, none, some,
  List, arith, refl, ℤ, pos, nonzero, get_or, get_elem?, All, lt→ltb,
}
use serv_mark.Harness.NumaBind.{Binding}
use serv_mark.Harness.Topology.{
  repaired, old_distance, old_node, topology_node, topology_from, node_total, bound_topology,
}
use serv_mark.Harness.Topology.Partition.{node_total-bound}
use serv_mark.System.Nodes.{NumaNode, default_distances}
use serv_mark.System.Probe.{SystemInfo}

default_distances_self :
    (n dj count i : ℕ)
    → n ≡ dj + i
    → i < count
    → get_or (default_distances n dj count) i (pos 0) ≡ pos 10
default_distances_self n dj zero i at h = absurd (omega arith)
default_distances_self n dj (suc count) zero at h = ground arith
default_distances_self n dj (suc count) (suc i) at h =
    default_distances_self n (suc dj) count i (omega arith) (omega arith)

repaired_self : (n : ℕ) (ds : List ℤ) → n < 16 → nonzero (get_or (repaired n ds) n (pos 0)) ≡ true
unfolding repaired
repaired_self n ds h = elim (Bool-cases (nonzero (get_or ds n (pos 0)))) [
  | inl set ↦ rw (repaired, set) set
  | inr unset ↦ rw (repaired, unset, default_distances_self n 0 16 n (omega arith) h) refl
]

-- A node that is at some distance from itself.
abbrev pub KnowsItself : NumaNode → Type 0
KnowsItself node = nonzero (get_or node.distance node.id (pos 0)) ≡ true

topology_from-KnowsItself :
    (c2n : List ℤ) (old : List NumaNode) (n count : ℕ)
    → n + count ≤ 16
    → All KnowsItself (topology_from c2n old n count)
unfolding topology_from topology_node
topology_from-KnowsItself c2n old n zero h = tt
topology_from-KnowsItself c2n old n (suc count) h = (
  repaired_self n (old_distance (old_node n old)) (omega arith),
  topology_from-KnowsItself c2n old (suc n) count (omega arith),
)

module _ {D : Type 0} where
  abbrev AllKnow : Option (SystemInfo D) → Type 0
  AllKnow none = Unit
  AllKnow (some info) = All KnowsItself info.numa_nodes

  bound_topology-AllKnow :
      (info : SystemInfo D) (binding : Binding)
      → 0 < binding.bound
      → AllKnow (bound_topology info (some binding))
  unfolding bound_topology
  bound_topology-AllKnow info binding h =
      elim (Bool-cases (leb (node_total binding.cpu_to_numa) 16)) [
        | inl few ↦
            rw (bound_topology, few, lt→ltb 0 binding.bound h)
              (topology_from-KnowsItself binding.cpu_to_numa info.numa_nodes 0
                (node_total binding.cpu_to_numa)
                (omega (arith, leb→le (node_total binding.cpu_to_numa) 16 few)))
        | inr many ↦ rw (bound_topology, many, lt→ltb 0 binding.bound h) tt
      ]

  -- After an override that binds a CPU, every node has a distance to itself that is not zero.
  pub bound_topology-KnowsItself :
      (info after : SystemInfo D) (binding : Binding)
      → 0 < binding.bound
      → bound_topology info (some binding) ≡ some after
      → All KnowsItself after.numa_nodes
  bound_topology-KnowsItself info after binding some_cpu done =
      subst AllKnow done (bound_topology-AllKnow info binding some_cpu)

  -- A CPU that is bound to a node from 16 on makes the override read behind the array of distances.
  pub bound_topology-overrun :
      (info : SystemInfo D) (binding : Binding) (i m : ℕ)
      → 0 < binding.bound
      → get_elem? binding.cpu_to_numa i ≡ some (pos m)
      → 16 ≤ m
      → bound_topology info (some binding) ≡ none
  unfolding bound_topology
  bound_topology-overrun info binding i m some_cpu at far =
      let total = node_total-bound binding.cpu_to_numa i m at in ground arith
