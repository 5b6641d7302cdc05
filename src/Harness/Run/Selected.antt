-- ===== src/Harness/Run/Selected.antt =====
-- Which benchmarks a run measures.
use mathlib.Core.Path.{subst}
use serv_mark.Base.{
  ◌≡◌, Option, none, some, List, [], ◌∷◌, Bool-cases, inl, inr, refl, ap, ◌∙◌, keep,
}
use serv_mark.Benchmark.{Benchmark}
use serv_mark.Config.{RunConfig}
use serv_mark.Double.{Double}
use serv_mark.Harness.Run.{
  Machine, score_result, followed_by, Measured, measured, undefined, is_selected, measure_one,
  after_measured, cool_down, run_all, score_all, harness_run, subtest_of,
}
use serv_mark.Result.{Subtest}

module _ {D W : Type 0} ⦃d : Double D⦄ where
  abbrev pub benches : List (Subtest D W) → List (Benchmark D W)
  benches [] = []
  benches (sr ∷ rest) = sr.bench ∷ benches rest

  -- The subtests of a run that is defined are about these benchmarks.
  abbrev pub IsAbout : List (Benchmark D W) → Option (List (Subtest D W) × W) → Type 0
  IsAbout bs none = Unit
  IsAbout bs (some (subtests, w)) = benches subtests ≡ bs

  followed_by-IsAbout :
      (sr : Subtest D W) (bs : List (Benchmark D W)) (rest : Option (List (Subtest D W) × W))
      → IsAbout bs rest
      → IsAbout (sr.bench ∷ bs) (followed_by sr rest)
  followed_by-IsAbout sr bs none h = tt
  followed_by-IsAbout sr bs (some (subtests, w)) h = ap (λ r. sr.bench ∷ r) h

  after_measured-IsAbout :
      (machine : Machine D W) (config : RunConfig D) (b : Benchmark D W) (bs : List (Benchmark D W))
      (again : W → Option (List (Subtest D W) × W)) (m : Measured D W)
      → ((w : W) → IsAbout bs (again w))
      → IsAbout (b ∷ bs) (after_measured machine config b again m)
  unfolding after_measured
  after_measured-IsAbout machine config b bs again undefined rest = tt
  after_measured-IsAbout machine config b bs again (measured ok s w) rest =
      let w' = cool_down machine config b w in
      followed_by-IsAbout (subtest_of b ok s) bs (again w') (rest w')

  run_all-IsAbout :
      (machine : Machine D W) (config : RunConfig D) (bs : List (Benchmark D W)) (w : W)
      → IsAbout (keep (is_selected config) bs) (run_all machine config bs w)
  unfolding run_all
  run_all-IsAbout machine config [] w = refl
  run_all-IsAbout machine config (b ∷ bs) w = elim (Bool-cases (is_selected config b)) [
    | inl here ↦
        rw (run_all, here)
          (after_measured-IsAbout machine config b (keep (is_selected config) bs)
            (run_all machine config bs) (measure_one machine config b w)
            (run_all-IsAbout machine config bs))
    | inr passed ↦ rw (run_all, passed) (run_all-IsAbout machine config bs w)
  ]

  benches-score_all :
      (config : RunConfig D) (subtests : List (Subtest D W))
      → benches (score_all config subtests) ≡ benches subtests
  unfolding score_all
  benches-score_all config [] = refl
  benches-score_all config (sr ∷ rest) = ap (λ r. sr.bench ∷ r) (benches-score_all config rest)

  score_result-IsAbout :
      (config : RunConfig D) (bs : List (Benchmark D W)) (r : Option (List (Subtest D W) × W))
      → IsAbout bs r
      → IsAbout bs (score_result config r)
  score_result-IsAbout config bs none h = tt
  score_result-IsAbout config bs (some (subtests, w)) h = benches-score_all config subtests ∙ h

  -- The subtests of a run, where its behaviour is defined, are about exactly the registered benchmarks
  -- whose tier, category and name the configuration asks for, one for each, in the order of
  -- registration.
  pub harness_run-selected :
      (machine : Machine D W) (config : RunConfig D) (benchmarks : List (Benchmark D W)) (w w' : W)
      (subtests : List (Subtest D W))
      → harness_run machine config benchmarks w ≡ some (subtests, w')
      → benches subtests ≡ keep (is_selected config) benchmarks
  unfolding harness_run
  harness_run-selected machine config benchmarks w w' subtests returned =
      let selected = keep (is_selected config) benchmarks in
      subst (IsAbout selected) returned (
        score_result-IsAbout config selected (run_all machine config benchmarks w)
          (run_all-IsAbout machine config benchmarks w))
