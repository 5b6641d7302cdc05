-- ===== src/Harness/Policy/Nodes.antt =====
-- The size of the set of nodes that an interleaved policy passes to the kernel.
use serv_mark.Base.{
  ℕ, ◌+◌, ◌≤◌, ◌<◌, ◌^◌, List, [], ◌∷◌, arith, ℤ, pos, negsuc, All, ltb, if◌then◌else◌,
}
use Prim.Native.Nat.{bit_or}
use serv_mark.Harness.Policy.{gather_nodes}

-- A CPU without a node, or with one below `maxnode`.
abbrev pub IsBelow : ℕ → ℤ → Type 0
IsBelow maxnode (negsuc n) = Unit
IsBelow maxnode (pos nn) = nn < maxnode

gather_nodes-grows :
    (nodes : List ℤ) (nodemask maxnode : ℕ) → maxnode ≤ (gather_nodes nodes nodemask maxnode).1
unfolding gather_nodes
gather_nodes-grows [] nodemask maxnode = omega arith
gather_nodes-grows (negsuc n ∷ nodes) nodemask maxnode = gather_nodes-grows nodes nodemask maxnode
gather_nodes-grows (pos nn ∷ nodes) nodemask maxnode =
    let larger : maxnode ≤ (if ltb maxnode (nn + 1) then nn + 1 else maxnode) = ground arith in
    let rest =
      gather_nodes-grows nodes (bit_or nodemask (2 ^ nn))
        (if ltb maxnode (nn + 1) then nn + 1 else maxnode) in
    omega (arith, larger, rest)

-- The number that goes to the kernel with the gathered nodes is above every one of them, so that no
-- node of the topology is cut off.
pub gather_nodes-IsBelow :
    (nodes : List ℤ) (nodemask maxnode : ℕ)
    → All (IsBelow (gather_nodes nodes nodemask maxnode).1) nodes
unfolding gather_nodes
gather_nodes-IsBelow [] nodemask maxnode = tt
gather_nodes-IsBelow (negsuc n ∷ nodes) nodemask maxnode =
    (tt, gather_nodes-IsBelow nodes nodemask maxnode)
gather_nodes-IsBelow (pos nn ∷ nodes) nodemask maxnode =
    let next = if ltb maxnode (nn + 1) then nn + 1 else maxnode in
    let above : nn < next = ground arith in
    let rest = gather_nodes-grows nodes (bit_or nodemask (2 ^ nn)) next in
    (omega (arith, above, rest), gather_nodes-IsBelow nodes (bit_or nodemask (2 ^ nn)) next)
