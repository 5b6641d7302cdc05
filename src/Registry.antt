-- ===== src/Registry.antt =====
-- src/core/benchmark.c: the table of benchmarks, which constructors fill before `main`, and its
-- queries.
pub mod Laws
pub mod Refinement
use serv_mark.Base.{
  ℕ, zero, suc, ◌+◌, Bool, not, Option, none, some, List, [], ◌∷◌, ◌++◌, leb, ◌==◌, if◌then◌else◌,
  ℤ, pos, negsuc, Text, text_eq, length,
}
use serv_mark.Benchmark.{Benchmark}

abbrev pub max_benchmarks : ℕ
max_benchmarks = 128

-- `_benchmarks[]`, of which the entries that are set are listed, and `_benchmark_count`.
pub record Registry (D W : Type 0) : Type 0 where
  pub benchmarks : List (Benchmark D W)
  pub benchmark_count : ℕ

-- What a query returns: -1 for a null argument, -1 for a failed allocation, or 0 and the list.
pub data Listing (D W : Type 0) : Type 0 where
  refused : Listing D W
  out_of_memory : Listing D W
  listed : List (Benchmark D W) → ℕ → Listing D W

module _ {D W : Type 0} where
  -- The loop of the filtered queries: the first `n` entries that pass the test.
  pub select : (Benchmark D W → Bool) → ℕ → List (Benchmark D W) → List (Benchmark D W)
  select p zero bs = []
  select p (suc n) [] = []
  select p (suc n) (b ∷ bs) = let rest = select p n bs in if p b then b ∷ rest else rest

  unfoldable pub benchmark_register : Benchmark D W → Registry D W → ℤ × Registry D W
  benchmark_register b r = if leb max_benchmarks r.benchmark_count then (negsuc 0, r) else (
    pos 0,
    record r { benchmarks = r.benchmarks ++ (b ∷ []); benchmark_count = r.benchmark_count + 1 },
  )

  -- `given` says that neither out pointer is null.
  unfoldable pub benchmark_get_all : Bool → Registry D W → Listing D W
  benchmark_get_all given r = if not given then refused else listed r.benchmarks r.benchmark_count

  abbrev filtered : Bool → (Benchmark D W → Bool) → Registry D W → Listing D W
  filtered allocated p r =
      let found = select p r.benchmark_count r.benchmarks in
      if not allocated then out_of_memory else listed found (length found)

  -- `allocated` says that `calloc` gave an array.
  unfoldable pub benchmark_get_by_category : Bool → Bool → Option Text → Registry D W → Listing D W
  unfolding select
  benchmark_get_by_category given allocated none r = refused
  benchmark_get_by_category given allocated (some category) r =
      if not given then refused else filtered allocated (λ b. text_eq b.category category) r

  unfoldable pub benchmark_get_by_tier : Bool → Bool → ℕ → Registry D W → Listing D W
  unfolding select
  benchmark_get_by_tier given allocated tier r =
      if not given then refused else filtered allocated (λ b. b.tier == tier) r

  abbrev pub no_benchmarks : Registry D W
  no_benchmarks = record { benchmarks = []; benchmark_count = 0 }

  -- The constructors of the benchmark files, one after the other.
  unfoldable pub register_all : List (Benchmark D W) → Registry D W → Registry D W
  register_all [] r = r
  register_all (b ∷ bs) r = register_all bs (benchmark_register b r).1
