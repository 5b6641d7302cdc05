-- ===== src/Tests/Probe.antt =====
use mathlib.Core.Path.{subst}
use serv_mark.Base.Scan.{scan_int, digits_from, fgets_lines, tokens}
use serv_mark.Base.{
  ℕ, ◌≡◌, ◌<◌, ◌⊎◌, ◌↔◌, ltb, ◌==◌, true, some, none, List, [], ◌∷◌, ◌++◌, refl, pos, codes, All,
  lacks-Lacks, starts_with, replicate, arith, if◌then◌else◌, ℤ,
}
use serv_mark.Base.Strtoul.{strtoul}
use serv_mark.System.Caches.Sizes.{HasSmallSizes, probe_caches-size}
use serv_mark.System.Caches.{probe_caches, default_caches}
use serv_mark.System.Identity.Distro.{os_distro-name}
use serv_mark.System.Identity.{os_distro}
use serv_mark.System.Nodes.Distances.{Missing, probe_nodes-none}
use serv_mark.System.Nodes.Mask.{cpu_count_in-mask}
use serv_mark.System.Nodes.Memory.{HasNodeLines, probe_nodes-memory}
use serv_mark.System.Nodes.{NumaNode, max_nodes, probe_nodes, cpu_count_in, memory_in}
use serv_mark.System.{
  Files, node_dir, node_meminfo, node_cpumap, cache_type, cache_size, os_release,
}

-- Two nodes, one cache, and a distribution.
abbrev pub server : Files
server (node_dir i) = if ltb i 2 then some [] else none
server (node_meminfo i) = some (codes "Node 0 MemTotal:       16384 kB\n")
server (node_cpumap i) = some (codes "0000ffff,00000001\n")
server (cache_type i) = if i == 0 then some (codes "Data\n") else none
server (cache_size i) = some (codes "32K\n")
server os_release = some (codes "NAME=\"Debian\"\nPRETTY_NAME=\"Debian GNU/Linux 12\"\nID=debian\n")
server _ = none

cpu_count_in-mask_example : cpu_count_in (codes "0000ffff,00000001\n") ≡ 17
cpu_count_in-mask_example =
    cpu_count_in-mask
      ((0 ∷ 0 ∷ 0 ∷ 0 ∷ 15 ∷ 15 ∷ 15 ∷ 15 ∷ []) ∷ (0 ∷ 0 ∷ 0 ∷ 0 ∷ 0 ∷ 0 ∷ 0 ∷ 1 ∷ []) ∷ [])
      (ground arith) (omega arith)

os_distro-name_example : os_distro server ≡ codes "Debian GNU/Linux 12"
os_distro-name_example =
    os_distro-name server (codes "NAME=\"Debian\"" ∷ []) (codes "Debian GNU/Linux 12")
      (codes "ID=debian\n") refl
      ((lacks-Lacks 10 (codes "NAME=\"Debian\"") refl, omega arith, refl), tt)
      (lacks-Lacks 10 (codes "Debian GNU/Linux 12") refl) (omega arith)

size_of_cache : scan_int (codes "32K\n") ≡ some (pos 32, codes "K\n")
unfolding scan_int digits_from
size_of_cache = refl

small_sizes : HasSmallSizes server
small_sizes i content held =
    let same : codes "32K\n" ≡ content = cc in
    (
      32,
      codes "K\n",
      subst (λ c. scan_int c ≡ some (pos 32, codes "K\n")) same size_of_cache,
      omega arith,
    )

probe_caches-size_example :
    (probe_caches server ≡ default_caches) ⊎ All (λ c. c.size_kb ≡ pos 0) (probe_caches server)
probe_caches-size_example = probe_caches-size server small_sizes

probe_nodes-none_example :
    (probe_nodes server (pos 17) 1024 ≡ none)
    ↔ (Missing server 0 (max_nodes server) × (16 < max_nodes server))
probe_nodes-none_example = probe_nodes-none server (pos 17) 1024

node_lines :
    All
      (λ l. starts_with l (codes "Node ") ≡ true)
      (fgets_lines 128 (codes "Node 0 MemTotal:       16384 kB\n"))
unfolding fgets_lines
node_lines = (refl, tt)

has_node_lines : HasNodeLines server
has_node_lines ni content held =
    let same : codes "Node 0 MemTotal:       16384 kB\n" ≡ content = cc in
    subst (λ c. All (λ l. starts_with l (codes "Node ") ≡ true) (fgets_lines 128 c)) same node_lines

two : max_nodes server ≡ 2
unfolding max_nodes
two = refl

abbrev pub node : ℕ → List ℤ → NumaNode
node ni ds = record {
  id = ni;
  cpu_count = pos 17;
  cpu_list = none;
  memory_kb = 0;
  distance = ds ++ replicate 14 (pos 0);
}

abbrev pub two_nodes : List NumaNode
two_nodes = node 0 (pos 10 ∷ pos 20 ∷ []) ∷ node 1 (pos 20 ∷ pos 10 ∷ []) ∷ []

found : probe_nodes server (pos 17) 1024 ≡ some two_nodes
unfolding probe_nodes max_nodes cpu_count_in fgets_lines memory_in tokens strtoul
found = refl

probe_nodes-memory_example : All (λ n. n.memory_kb ≡ 0) two_nodes
probe_nodes-memory_example =
    probe_nodes-memory server (pos 17) 1024 two_nodes has_node_lines (rw two (omega arith)) found
