-- ===== src/Tests/Registry.antt =====
use serv_mark.Base.{ℕ, ◌≡◌, true, false, some, List, [], ◌∷◌, refl, codes}
use serv_mark.Benchmark.{Benchmark}
use serv_mark.Double.{Milli}
use serv_mark.Registry.{
  Registry, listed, refused, out_of_memory, benchmark_get_by_category, benchmark_get_by_tier,
  benchmark_get_all, no_benchmarks, register_all, benchmark_register,
}
use serv_mark.Registry.Refinement.{
  Operation, register, get_all, get_by_category, get_by_tier, answers, perform, specified,
  perform-refines,
}
use serv_mark.Tests.Samples.{steady}

abbrev three : List (Benchmark Milli ℕ)
three =
    steady (codes "int-hash") (codes "C1")
    ∷ steady (codes "mem-stream") (codes "C4")
    ∷ steady (codes "int-sort") (codes "C1")
    ∷ []

abbrev table : Registry Milli ℕ
table = record { benchmarks = three; benchmark_count = 3 }

register_three : register_all three no_benchmarks ≡ table
unfolding register_all benchmark_register
register_three = refl

queries :
    (benchmark_get_by_tier true true 2 table ≡ listed [] 0)
    × (benchmark_get_by_category true false (some (codes "C1")) table ≡ out_of_memory)
    × (benchmark_get_all false table ≡ refused)
unfolding benchmark_get_by_tier benchmark_get_by_category benchmark_get_all
queries = (refl, refl, refl)

abbrev calls : List (Operation Milli ℕ)
calls =
    register (steady (codes "int-hash") (codes "cpu"))
    ∷ get_by_category true (codes "cpu")
    ∷ get_by_tier false 1
    ∷ get_all
    ∷ []

perform-refines_example : answers perform calls no_benchmarks ≡ answers specified calls []
perform-refines_example = perform-refines calls
