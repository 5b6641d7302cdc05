-- ===== src/Tests/Reports.antt =====
use serv_mark.Base.{
  ℕ, ◌≡◌, ◌↔◌, true, some, List, [], ◌∷◌, refl, pos, negsuc, codes, get_elem?, arith, replicate,
}
use serv_mark.Double.{Milli, milli_double}
use serv_mark.Harness.NumaBind.{Binding}
use serv_mark.Harness.Topology.Partition.{HasCpu, bound_topology-cpus}
use serv_mark.Harness.Topology.{bound_topology, with_topology}
use serv_mark.Output.Uuid.{uuid_form, has_form, output_generate_uuid-form}
use serv_mark.Output.{Printf, output_generate_uuid}
use serv_mark.Result.{Subtest}
use serv_mark.System.Probe.{Sysconf, SystemInfo, info_of}
use serv_mark.Tests.Probe.{server, two_nodes}
use serv_mark.Tests.Samples.{subtest}

-- A read that came short, and one that did not.
short_read :
    output_generate_uuid (some (1 ∷ 2 ∷ [])) (1 ∷ 2 ∷ 3 ∷ 4 ∷ 5 ∷ 6 ∷ [])
    ≡ codes "00000001-0002-4003-8004-000500000006"
unfolding output_generate_uuid
short_read = refl

output_generate_uuid-form_example :
    has_form uuid_form (output_generate_uuid (some (replicate 16 255)) []) ≡ true
output_generate_uuid-form_example = output_generate_uuid-form (some (replicate 16 255)) []

abbrev pub conf : Sysconf
conf = record {
  pagesize = pos 4096;
  nprocessors_onln = pos 4;
  nprocessors_conf = pos 4;
  phys_pages = pos 1000;
}

abbrev info : SystemInfo Milli
info = info_of conf server two_nodes

abbrev binding : Binding
binding = record { cpu_to_numa = pos 0 ∷ pos 0 ∷ pos 2 ∷ negsuc 0 ∷ []; bound = 3 }

abbrev overridden : SystemInfo Milli
overridden = with_topology info binding.cpu_to_numa

replaced : bound_topology info (some binding) ≡ some overridden
unfolding bound_topology
replaced = refl

bound_topology-cpus_example :
    HasCpu 2 (get_elem? overridden.numa_nodes 2) ↔ (get_elem? binding.cpu_to_numa 2 ≡ some (pos 2))
bound_topology-cpus_example = bound_topology-cpus info overridden binding (omega arith) replaced 2 2

abbrev pub printf : Printf Milli
printf = record {
  fixed = λ places x. codes "7.000000";
  decimal = λ n. codes "3";
  natural = λ n. codes "3";
  null = codes "(null)";
}

abbrev subtests : List (Subtest Milli ℕ)
subtests =
    subtest (codes "a") (codes "cpu") 7000 10 3 ∷ subtest (codes "b") (codes "cpu") 7000 10 3 ∷ []
