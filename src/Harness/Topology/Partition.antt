-- ===== src/Harness/Topology/Partition.antt =====
-- The CPUs of the nodes that the override makes.
use mathlib.Core.Path.{subst}
use serv_mark.Base.Member.{Member}
use serv_mark.Base.{
  ℕ, zero, suc, ◌+◌, ◌≡◌, ◌≤◌, ◌<◌, ◌↔◌, ◌⊎◌, inl, inr, true, Option, none, some, List, [], ◌∷◌,
  arith, refl, ap, if◌then◌else◌, ℤ, pos, negsuc, ltb_ℤ, ◌≤ℤ◌, pos_part, suc_ℤ, length, get_elem?,
}
use serv_mark.Harness.NumaBind.{Binding}
use serv_mark.Harness.Topology.{
  max_from, is_node, cpus_on, topology_node, topology_from, node_total, bound_topology,
}
use serv_mark.System.Nodes.{NumaNode}
use serv_mark.System.Probe.{SystemInfo}

is_node_iff : (n : ℕ) (node : ℤ) → (is_node n node ≡ true) ↔ (node ≡ pos n)
is_node_iff n (pos m) = ground arith
is_node_iff n (negsuc m) = ground arith

-- No CPU before the start of the list is on it.
cpus_on-above : (n k i : ℕ) (c2n : List ℤ) → Member i (cpus_on n k c2n) → k ≤ i
unfolding cpus_on
cpus_on-above n k i [] m = absurd m
cpus_on-above n k i (node ∷ c2n) m = ground (arith, cpus_on-above n (suc k) i c2n)

-- A CPU is on the list of a node exactly if the table gives it that node.
cpus_on-Member :
    (n k i j : ℕ) (c2n : List ℤ)
    → i ≡ k + j
    → Member i (cpus_on n k c2n) ↔ (get_elem? c2n j ≡ some (pos n))
unfolding cpus_on
cpus_on-Member n k i j [] at = ground arith
cpus_on-Member n k i zero (node ∷ c2n) at =
    ground (arith, is_node_iff n node, cpus_on-above n (suc k) i c2n)
cpus_on-Member n k i (suc j) (node ∷ c2n) at =
    ground (arith, cpus_on-Member n (suc k) i j c2n (omega arith))

max_from-above : (m : ℤ) (c2n : List ℤ) → m ≤ℤ max_from m c2n
unfolding max_from
max_from-above m [] = omega arith
max_from-above m (node ∷ c2n) = ground (arith, max_from-above node c2n, max_from-above m c2n)

max_from-bound :
    (m node : ℤ) (i : ℕ) (c2n : List ℤ) → get_elem? c2n i ≡ some node → node ≤ℤ max_from m c2n
unfolding max_from
max_from-bound m node i [] h = ground arith
max_from-bound m node zero (x ∷ c2n) h = ground (arith, max_from-above x c2n, max_from-above m c2n)
max_from-bound m node (suc i) (x ∷ c2n) h = max_from-bound (if ltb_ℤ m x then x else m) node i c2n h

-- The table's nodes are below the number of nodes.
pub node_total-bound :
    (c2n : List ℤ) (i m : ℕ) → get_elem? c2n i ≡ some (pos m) → m < node_total c2n
node_total-bound c2n i m h =
    below (max_from (negsuc 0) c2n) (max_from-bound (negsuc 0) (pos m) i c2n h)
  where
    below : (top : ℤ) → pos m ≤ℤ top → m < pos_part (suc_ℤ top)
    below (pos t) k = omega arith
    below (negsuc t) k = absurd (omega arith)

topology_from-get :
    (c2n : List ℤ) (old : List NumaNode) (n count i j : ℕ)
    → j ≡ n + i
    → i < count
    → get_elem? (topology_from c2n old n count) i ≡ some (topology_node c2n old j)
unfolding topology_from
topology_from-get c2n old n zero i j at h = absurd (omega arith)
topology_from-get c2n old n (suc count) zero j at h =
    ap (λ m. some (topology_node c2n old m)) (omega arith)
topology_from-get c2n old n (suc count) (suc i) j at h =
    topology_from-get c2n old (suc n) count i j (omega arith) (omega arith)

-- The node has a list of CPUs that counts them, and the CPU is on it.
abbrev pub HasCpu : ℕ → Option NumaNode → Type 0
HasCpu i none = ⊥
HasCpu i (some node) =
    (cpus : List ℕ) × (node.cpu_list ≡ some cpus)
    × (node.cpu_count ≡ pos (length cpus))
    × Member i cpus

topology_node-HasCpu :
    (c2n : List ℤ) (old : List NumaNode) (m i : ℕ)
    → get_elem? c2n i ≡ some (pos m)
    → HasCpu i (some (topology_node c2n old m))
unfolding topology_node
topology_node-HasCpu c2n old m i h =
    (cpus_on m 0 c2n, refl, refl, (cpus_on-Member m 0 i i c2n (omega arith)).1 h)

HasCpu-topology_node :
    (c2n : List ℤ) (old : List NumaNode) (m i : ℕ)
    → HasCpu i (some (topology_node c2n old m))
    → get_elem? c2n i ≡ some (pos m)
unfolding topology_node
HasCpu-topology_node c2n old m i (cpus, same, count, on) =
    let listed : cpus ≡ cpus_on m 0 c2n = cc in
    (cpus_on-Member m 0 i i c2n (omega arith)).0 (subst (Member i) listed on)

topology_from-short :
    (c2n : List ℤ) (old : List NumaNode) (n count i : ℕ)
    → count ≤ i
    → get_elem? (topology_from c2n old n count) i ≡ none
unfolding topology_from
topology_from-short c2n old n zero i h = refl
topology_from-short c2n old n (suc count) zero h = absurd (omega arith)
topology_from-short c2n old n (suc count) (suc i) h =
    topology_from-short c2n old (suc n) count i (omega arith)

le-or-lt : (a b : ℕ) → (a ≤ b) ⊎ (b < a)
le-or-lt a b = omega arith

topology_from-HasCpu :
    (c2n : List ℤ) (old : List NumaNode) (m i : ℕ)
    → HasCpu i (get_elem? (topology_from c2n old 0 (node_total c2n)) m)
      ↔ (get_elem? c2n i ≡ some (pos m))
topology_from-HasCpu c2n old m i = elim (le-or-lt (node_total c2n) m) [
  | inl out ↦
      let gone = topology_from-short c2n old 0 (node_total c2n) m out in
      rw gone ((λ f. absurd f), (λ h. absurd (omega (arith, node_total-bound c2n i m h))))
  | inr inside ↦
      let found = topology_from-get c2n old 0 (node_total c2n) m m (omega arith) inside in
      rw found (HasCpu-topology_node c2n old m i, topology_node-HasCpu c2n old m i)
]

module _ {D : Type 0} where
  abbrev HasNodes : List ℤ → SystemInfo D → Option (SystemInfo D) → Type 0
  HasNodes c2n old none = Unit
  HasNodes c2n old (some info) =
      info.numa_nodes ≡ topology_from c2n old.numa_nodes 0 (node_total c2n)

  bound_topology-HasNodes :
      (info : SystemInfo D) (binding : Binding)
      → 0 < binding.bound
      → HasNodes binding.cpu_to_numa info (bound_topology info (some binding))
  unfolding bound_topology
  bound_topology-HasNodes info binding h = ground arith

  -- After an override that binds a CPU, a CPU is on the list of a node exactly if the table gives it
  -- that node, and each node counts the CPUs of its list.
  pub bound_topology-cpus :
      (info after : SystemInfo D) (binding : Binding)
      → 0 < binding.bound
      → bound_topology info (some binding) ≡ some after
      → (m i : ℕ)
      → HasCpu i (get_elem? after.numa_nodes m) ↔ (get_elem? binding.cpu_to_numa i ≡ some (pos m))
  bound_topology-cpus info after binding some_cpu done m i =
      let nodes =
        subst (HasNodes binding.cpu_to_numa info) done
          (bound_topology-HasNodes info binding some_cpu) in
      rw nodes (topology_from-HasCpu binding.cpu_to_numa info.numa_nodes m i)
