-- ===== src/System/Nodes/Count.antt =====
-- How many nodes there are.
use mathlib.Core.Path.{subst}
use serv_mark.Base.{
  max, ℕ, zero, suc, ◌+◌, ◌≡◌, ◌≢◌, ◌≤◌, ◌<◌, ◌⊎◌, inl, inr, Option, none, some, List, [], ◌∷◌,
  arith, refl, ap, sym, ◌∙◌, ℤ, Option-cases, length, Text,
}
use serv_mark.System.{Files, node_dir}
use serv_mark.System.Nodes.{
  NumaNode, nodes_from, max_nodes, probe_node, onto_nodes, read_nodes, nodes_or_single, probe_nodes,
  with_distance, distances_of,
}

-- The first `n` node directories are there, and the next is not, unless all 64 are.
abbrev pub Counted : Files → ℕ → ℕ → ℕ → Type 0
Counted files ni fuel n =
    (ni ≤ n)
    × (n ≤ ni + fuel)
    × ((i : ℕ) → ni ≤ i → i < n → files (node_dir i) ≢ none)
    × ((n ≡ ni + fuel) ⊎ (files (node_dir n) ≡ none))

some-none : {t : Text} → some t ≢ none
some-none e = cc

le-cases : (a b : ℕ) → a ≤ b → (a ≡ b) ⊎ (suc a ≤ b)
le-cases a b h = omega arith

pub nodes_from-Counted :
    (files : Files) (ni fuel : ℕ) → Counted files ni fuel (nodes_from files ni fuel)
unfolding nodes_from
nodes_from-Counted files ni zero =
    (omega arith, omega arith, (λ i l u. absurd (omega arith)), inl (omega arith))
nodes_from-Counted files ni (suc fuel) = elim (Option-cases (files (node_dir ni))) [
  | inl e ↦ rw (nodes_from, e) ((omega arith, omega arith, (λ i l u. absurd (omega arith)), inr e))
  | inr (dir, e) ↦
      let (low, high, found, last) = nodes_from-Counted files (suc ni) fuel in
      rw (nodes_from, e)
        ((
          omega arith,
          omega arith,
          (λ i l u. elim (le-cases ni i l) [
            | inl same ↦ (λ gone. some-none (sym e ∙ ap (λ j. files (node_dir j)) same ∙ gone))
            | inr above ↦ found i above u
          ]),
          elim last [ inl full ↦ inl (omega arith) | inr gone ↦ inr gone ],
        ))
]

-- The numbers of the nodes count up from `ni`.
abbrev pub Numbered : ℕ → List NumaNode → Type 0
Numbered ni [] = Unit
Numbered ni (node ∷ nodes) = (node.id ≡ ni) × Numbered (suc ni) nodes

abbrev Listed : ℕ → ℕ → Option (List NumaNode) → Type 0
Listed ni n none = Unit
Listed ni n (some nodes) = (length nodes ≡ n) × Numbered ni nodes

read_nodes-Listed : (files : Files) (all ni n : ℕ) → Listed ni n (read_nodes files all ni n)
unfolding read_nodes probe_node
read_nodes-Listed files all ni zero = (refl, tt)
read_nodes-Listed files all ni (suc n) =
    with_first (distances_of files all ni) (read_nodes files all (suc ni) n)
      (read_nodes-Listed files all (suc ni) n)
  where
    with_first :
        (ds : Option (List ℤ)) (rest : Option (List NumaNode))
        → Listed (suc ni) n rest
        → Listed ni (suc n) (onto_nodes (with_distance files ni ds) rest)
    with_first none rest h = tt
    with_first (some d) none h = tt
    with_first (some d) (some nodes) (count, numbers) = (ap suc count, (refl, numbers))

suc-max : (n : ℕ) → suc n ≡ max 1 (suc n)
suc-max n = omega arith

nodes_or_single-Listed :
    (files : Files) (threads : ℤ) (ram n : ℕ)
    → Listed 0 (max 1 n) (nodes_or_single files threads ram n)
nodes_or_single-Listed files threads ram zero = (refl, (refl, tt))
nodes_or_single-Listed files threads ram (suc n) =
    subst (λ m. Listed 0 m (nodes_or_single files threads ram (suc n))) (suc-max n)
      (read_nodes-Listed files (suc n) 0 (suc n))

-- The nodes are as many as there are directories node0, node1, ... in a row, 64 of them at most, or
-- one if there is none, and they are numbered from 0 in order.
pub probe_nodes-Numbered :
    (files : Files) (threads : ℤ) (ram : ℕ) (nodes : List NumaNode)
    → probe_nodes files threads ram ≡ some nodes
    → Counted files 0 64 (max_nodes files)
      × (length nodes ≡ max 1 (max_nodes files))
      × Numbered 0 nodes
unfolding probe_nodes max_nodes
probe_nodes-Numbered files threads ram nodes found =
    let (count, numbers) =
      subst (Listed 0 (max 1 (max_nodes files))) found
        (nodes_or_single-Listed files threads ram (max_nodes files)) in
    (nodes_from-Counted files 0 64, count, numbers)
