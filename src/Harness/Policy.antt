-- ===== src/Harness/Policy.antt =====
-- The memory policy of a child in `harness_run_parallel` of src/core/harness.c: the reading of
-- `membind_spec` and the arguments of `set_mempolicy`. A node is below 64.
pub mod Nodes
use Prim.Native.Nat.{bit_or}
use serv_mark.Base.{
  ℕ, ◌+◌, ◌-◌, ◌^◌, Bool, true, false, Option, none, some, List, [], ◌∷◌, if◌then◌else◌, ltb, ◌==◌,
  ℤ, pos, negsuc, Text, codes, text_eq, get_elem?,
}
use serv_mark.Base.Scan.{atoi}

-- `s_membind_node` and `s_membind_interleave`.
pub record Membind : Type 0 where
  pub node : ℤ
  pub interleave : Bool

abbrev pub on_node : ℤ → Membind
on_node node = record { node = node; interleave = false }

abbrev pub everywhere : Membind
everywhere = record { node = negsuc 0; interleave = true }

unfoldable pub membind_of : Option Text → Membind
membind_of none = on_node (negsuc 0)
membind_of (some []) = on_node (negsuc 0)
membind_of (some (c ∷ cs)) =
    if text_eq (c ∷ cs) (codes "local")
    then on_node (negsuc 0)
    else if text_eq (c ∷ cs) (codes "interleave")
    then everywhere
    else on_node (atoi (c ∷ cs))

-- The mode with `nodemask` and `maxnode`.
pub data Policy : Type 0 where
  mpol_default : Policy
  mpol_interleave mpol_bind : ℕ → ℕ → Policy

-- The loop over the CPUs, which gathers the nodes.
unfoldable pub gather_nodes : List ℤ → ℕ → ℕ → ℕ × ℕ
gather_nodes [] nodemask maxnode = (nodemask, maxnode)
gather_nodes (negsuc n ∷ nodes) nodemask maxnode = gather_nodes nodes nodemask maxnode
gather_nodes (pos nn ∷ nodes) nodemask maxnode =
    gather_nodes nodes (bit_or nodemask (2 ^ nn)) (if ltb maxnode (nn + 1) then nn + 1 else maxnode)

-- `if (nodemask == 0) { nodemask = ~0UL; maxnode = 64; }`
abbrev pub all_if_none : ℕ × ℕ → Policy
all_if_none (nodemask, maxnode) =
    if nodemask == 0 then mpol_interleave (2 ^ 64 - 1) 64 else mpol_interleave nodemask maxnode

abbrev pub bind_to : ℤ → Policy
bind_to (pos nid) = mpol_bind (2 ^ nid) (nid + 1)
bind_to (negsuc n) = mpol_default

abbrev pub node_of : List ℤ → ℤ → Option ℤ
node_of cpu_to_numa (pos cpu) = get_elem? cpu_to_numa cpu
node_of cpu_to_numa (negsuc cpu) = none

abbrev pub bind_local : Option ℤ → Option Policy
bind_local none = none
bind_local (some nid) = some (bind_to nid)

abbrev pub bind_node : List ℤ → ℤ → ℤ → Option Policy
bind_node cpu_to_numa pin_cpu (pos nid) = some (bind_to (pos nid))
bind_node cpu_to_numa pin_cpu (negsuc n) = bind_local (node_of cpu_to_numa pin_cpu)

-- The policy of a child that is pinned to `pin_cpu`; `none` is a read outside of `s_cpu_to_numa`, as for
-- an instance whose number is taken as its CPU though there are fewer.
unfoldable pub policy_of : Membind → List ℤ → ℤ → Option Policy
unfolding gather_nodes
policy_of m cpu_to_numa pin_cpu =
    if m.interleave
    then some (all_if_none (gather_nodes cpu_to_numa 0 0))
    else bind_node cpu_to_numa pin_cpu m.node
