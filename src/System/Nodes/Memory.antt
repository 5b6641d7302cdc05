-- ===== src/System/Nodes/Memory.antt =====
-- The memory of a node.
use mathlib.Core.Path.{subst}
use serv_mark.Base.Scan.{fgets_lines}
use serv_mark.Base.{
  ℕ, zero, suc, inl, inr, ◌≡◌, ◌<◌, true, false, Option, none, some, List, [], ◌∷◌, arith, refl, ℤ,
  Option-cases, All, Text, codes, starts_with,
}
use serv_mark.System.{Files, node_meminfo}
use serv_mark.System.Nodes.{
  NumaNode, max_nodes, memory_in, memory_of, probe_node, onto_nodes, read_nodes, nodes_or_single,
  probe_nodes, with_distance, distances_of,
}

-- Every line of the meminfo files carries the node in front, as the kernel prints them.
abbrev pub HasNodeLines : Files → Type 0
HasNodeLines files =
    (ni : ℕ) (content : Text)
    → files (node_meminfo ni) ≡ some content
    → All (λ l. starts_with l (codes "Node ") ≡ true) (fgets_lines 128 content)

other_name :
    (l : Text) → starts_with l (codes "Node ") ≡ true → starts_with l (codes "MemTotal:") ≡ false
other_name [] h = ground arith
other_name (c ∷ cs) h = ground arith

memory_in-nodes :
    (lines : List Text)
    → All (λ l. starts_with l (codes "Node ") ≡ true) lines
    → memory_in lines ≡ 0
unfolding memory_in
memory_in-nodes [] h = refl
memory_in-nodes (l ∷ lines) (h, hs) = rw (other_name l h, memory_in-nodes lines hs) refl

memory_of-nodes :
    (files : Files) (ni : ℕ) → HasNodeLines files → memory_of (files (node_meminfo ni)) ≡ 0
memory_of-nodes files ni h = elim (Option-cases (files (node_meminfo ni))) [
  | inl e ↦ rw e refl
  | inr (content, e) ↦ rw e (memory_in-nodes (fgets_lines 128 content) (h ni content e))
]

abbrev AreZero : Option (List NumaNode) → Type 0
AreZero none = Unit
AreZero (some nodes) = All (λ node. node.memory_kb ≡ 0) nodes

read_nodes-memory :
    (files : Files) (nodes ni n : ℕ) → HasNodeLines files → AreZero (read_nodes files nodes ni n)
unfolding read_nodes probe_node
read_nodes-memory files nodes ni zero h = tt
read_nodes-memory files nodes ni (suc n) h =
    with_first (distances_of files nodes ni) (read_nodes files nodes (suc ni) n)
      (read_nodes-memory files nodes (suc ni) n h)
  where
    with_first :
        (ds : Option (List ℤ)) (rest : Option (List NumaNode))
        → AreZero rest
        → AreZero (onto_nodes (with_distance files ni ds) rest)
    with_first none rest hs = tt
    with_first (some d) none hs = tt
    with_first (some d) (some nodes') hs = (memory_of-nodes files ni h, hs)

nodes_or_single-memory :
    (files : Files) (threads : ℤ) (ram n : ℕ)
    → HasNodeLines files
    → 0 < n
    → AreZero (nodes_or_single files threads ram n)
nodes_or_single-memory files threads ram zero h k = absurd (omega arith)
nodes_or_single-memory files threads ram (suc n) h k = read_nodes-memory files (suc n) 0 (suc n) h

-- On a machine with node directories whose meminfo files carry the node in front of each line, every
-- node that is found has memory 0.
pub probe_nodes-memory :
    (files : Files) (threads : ℤ) (ram : ℕ) (nodes : List NumaNode)
    → HasNodeLines files
    → 0 < max_nodes files
    → probe_nodes files threads ram ≡ some nodes
    → All (λ node. node.memory_kb ≡ 0) nodes
unfolding probe_nodes
probe_nodes-memory files threads ram nodes h some_node found =
    subst AreZero found (nodes_or_single-memory files threads ram (max_nodes files) h some_node)
