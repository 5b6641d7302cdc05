-- ===== src/System/Nodes/Distances.antt =====
-- When the default distances leave their array.
use serv_mark.Base.{
  ℕ, zero, suc, ◌≡◌, ◌<◌, ◌↔◌, ◌⊎◌, inl, inr, Option, none, some, List, arith, refl, ℤ,
  Option-cases,
}
use serv_mark.System.{Files, node_distance}
use serv_mark.System.Nodes.{
  NumaNode, max_nodes, probe_node, onto_nodes, read_nodes, nodes_or_single, probe_nodes,
  with_distance, distances_of,
}

distances_of-none :
    (files : Files) (all ni : ℕ)
    → (distances_of files all ni ≡ none) ↔ ((files (node_distance ni) ≡ none) × (16 < all))
unfolding distances_of
distances_of-none files all ni = elim (Option-cases (files (node_distance ni))) [
  | inl e ↦ rw (distances_of, e) (ground arith)
  | inr (content, e) ↦ rw (distances_of, e) (ground arith)
]

-- Some node from `ni` on, `n` of them, has no distance file.
abbrev pub Missing : Files → ℕ → ℕ → Type 0
Missing files ni zero = ⊥
Missing files ni (suc n) = (files (node_distance ni) ≡ none) ⊎ Missing files (suc ni) n

onto_nodes-none :
    (files : Files) (ni : ℕ) (ds : Option (List ℤ)) (rest : Option (List NumaNode))
    → (onto_nodes (with_distance files ni ds) rest ≡ none) ↔ ((ds ≡ none) ⊎ (rest ≡ none))
onto_nodes-none files ni none rest = ((λ h. inl refl), (λ h. refl))
onto_nodes-none files ni (some d) none = ((λ h. inr refl), (λ h. refl))
onto_nodes-none files ni (some d) (some nodes) = ground arith

read_nodes-none :
    (files : Files) (all ni n : ℕ)
    → (read_nodes files all ni n ≡ none) ↔ (Missing files ni n × (16 < all))
unfolding read_nodes probe_node
read_nodes-none files all ni zero = ground arith
read_nodes-none files all ni (suc n) =
    let here =
      onto_nodes-none files ni (distances_of files all ni) (read_nodes files all (suc ni) n) in
    let first = distances_of-none files all ni in
    let later = read_nodes-none files all (suc ni) n in ground (arith, here, first, later)

nodes_or_single-none :
    (files : Files) (threads : ℤ) (ram n : ℕ)
    → (nodes_or_single files threads ram n ≡ none) ↔ (Missing files 0 n × (16 < n))
nodes_or_single-none files threads ram zero = ground arith
nodes_or_single-none files threads ram (suc n) = read_nodes-none files (suc n) 0 (suc n)

-- The probe of the nodes writes behind the array of distances exactly if there are more than 16
-- nodes and one of them has no distance file.
pub probe_nodes-none :
    (files : Files) (threads : ℤ) (ram : ℕ)
    → (probe_nodes files threads ram ≡ none)
      ↔ (Missing files 0 (max_nodes files) × (16 < max_nodes files))
unfolding probe_nodes
probe_nodes-none files threads ram = nodes_or_single-none files threads ram (max_nodes files)
