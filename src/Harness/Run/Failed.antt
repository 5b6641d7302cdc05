-- ===== src/Harness/Run/Failed.antt =====
-- What becomes of a benchmark that fails.
use mathlib.Core.Path.{subst}
use serv_mark.Base.{
  ◌≡◌, true, false, ◌&&◌, Option, none, some, List, [], ◌∷◌, Bool-cases, inl, inr, refl, ap, ◌∙◌,
  All, codes, ltb, arith, Text, if◌then◌else◌,
}
use serv_mark.Benchmark.{Benchmark}
use serv_mark.Config.{RunConfig}
use serv_mark.Double.{Double, IsOrdered, nought, one, ◌≺◌, ◌≼◌}
use serv_mark.Harness.Run.{
  Machine, Measured, measured, undefined, is_selected, measure_one, after_measured, cool_down,
  run_all, score_all, score_result, harness_run, subtest_of, followed_by, normalized_of, zero_stats,
  after_single, after_parallel, over_zeros, instances, is_one,
}
use serv_mark.Harness.Instance.{Single, single_failed, unwritten, single_done}
use serv_mark.Harness.Parallel.{Parallel, parallel_failed, parallel_done, parallel_zero}
use serv_mark.Stats.{Computed, too_few, computed, overrun, cv_high}
use serv_mark.Result.{Subtest}
use serv_mark.Base.Member.{Member, Member-All}
use serv_mark.Benchmark.{Stats}
use serv_mark.Scoring.{
  Collected, score_of, appended_if, one_of, t_cats, l_cats, e_cats, collect_one,
}

-- The arrays after a subtest of this category and score.
abbrev pub with_score : {D : Type 0} → Text → D → Collected D → Collected D
with_score category score c = record {
  t_scores = appended_if (one_of t_cats category) score c.t_scores;
  l_scores = appended_if (one_of l_cats category) score c.l_scores;
  e_scores = appended_if (one_of e_cats category) score c.e_scores;
}

module _ {D W : Type 0} ⦃d : Double D⦄ where
  -- A failed subtest has the statistics that `calloc` left.
  abbrev pub FailsEmpty : Subtest D W → Type 0
  FailsEmpty sr = sr.status ≡ codes "failed" → sr.stats ≡ zero_stats

  abbrev pub AllEmpty : Option (List (Subtest D W) × W) → Type 0
  AllEmpty none = Unit
  AllEmpty (some (subtests, w)) = All FailsEmpty subtests

  abbrev pub IsEmpty : Measured D W → Type 0
  IsEmpty (measured true s w) = Unit
  IsEmpty (measured false s w) = s ≡ zero_stats
  IsEmpty undefined = Unit

  over_zeros-IsEmpty : (c : Computed D) (w : W) → IsEmpty (over_zeros c w)
  over_zeros-IsEmpty too_few w = tt
  over_zeros-IsEmpty (computed s) w = tt
  over_zeros-IsEmpty overrun w = tt

  after_parallel-IsEmpty : (p : Parallel D) (w : W) → IsEmpty (after_parallel p w)
  after_parallel-IsEmpty parallel_failed w = refl
  after_parallel-IsEmpty (parallel_done c) w = over_zeros-IsEmpty c w
  after_parallel-IsEmpty parallel_zero w = tt

  after_single-IsEmpty : (r : Single D W) → IsEmpty (after_single r)
  after_single-IsEmpty (single_failed ret w) = refl
  after_single-IsEmpty (unwritten w) = tt
  after_single-IsEmpty (single_done c w) = over_zeros-IsEmpty c w

  measure_one-IsEmpty :
      (machine : Machine D W) (config : RunConfig D) (b : Benchmark D W) (w : W)
      → IsEmpty (measure_one machine config b w)
  unfolding measure_one
  measure_one-IsEmpty machine config b w =
      elim (Bool-cases (ltb 1 (instances config) && is_one b.num_threads)) [
        | inl many ↦ rw (measure_one, many) (after_parallel-IsEmpty _ _)
        | inr alone ↦ rw (measure_one, alone) (after_single-IsEmpty _)
      ]

  followed_by-AllEmpty :
      (sr : Subtest D W) (rest : Option (List (Subtest D W) × W))
      → FailsEmpty sr
      → AllEmpty rest
      → AllEmpty (followed_by sr rest)
  followed_by-AllEmpty sr none h hs = tt
  followed_by-AllEmpty sr (some (subtests, w)) h hs = (h, hs)

  after_measured-AllEmpty :
      (machine : Machine D W) (config : RunConfig D) (b : Benchmark D W)
      (again : W → Option (List (Subtest D W) × W)) (m : Measured D W)
      → IsEmpty m
      → ((w : W) → AllEmpty (again w))
      → AllEmpty (after_measured machine config b again m)
  unfolding after_measured
  after_measured-AllEmpty machine config b again undefined empty rest = tt
  after_measured-AllEmpty machine config b again (measured true s w) empty rest =
      let w' = cool_down machine config b w in
      followed_by-AllEmpty (subtest_of b true s) (again w') (λ failed. cc) (rest w')
  after_measured-AllEmpty machine config b again (measured false s w) empty rest =
      let w' = cool_down machine config b w in
      followed_by-AllEmpty (subtest_of b false s) (again w') (λ failed. empty) (rest w')

  run_all-AllEmpty :
      (machine : Machine D W) (config : RunConfig D) (bs : List (Benchmark D W)) (w : W)
      → AllEmpty (run_all machine config bs w)
  unfolding run_all
  run_all-AllEmpty machine config [] w = tt
  run_all-AllEmpty machine config (b ∷ bs) w = elim (Bool-cases (is_selected config b)) [
    | inl here ↦
        rw (run_all, here)
          (after_measured-AllEmpty machine config b (run_all machine config bs)
            (measure_one machine config b w) (measure_one-IsEmpty machine config b w)
            (run_all-AllEmpty machine config bs))
    | inr passed ↦ rw (run_all, passed) (run_all-AllEmpty machine config bs w)
  ]

  -- A failed subtest scores 0 after the second loop, with the statistics that `calloc` left.
  abbrev pub FailsAtZero : Subtest D W → Type 0
  FailsAtZero sr =
      sr.status ≡ codes "failed" → (sr.normalized_score ≡ nought) × (sr.stats ≡ zero_stats)

  abbrev pub AllAtZero : Option (List (Subtest D W) × W) → Type 0
  AllAtZero none = Unit
  AllAtZero (some (subtests, w)) = All FailsAtZero subtests

module _ {D W : Type 0} ⦃d : Double D⦄ where
  score_all-FailsEmpty :
      (config : RunConfig D) (subtests : List (Subtest D W))
      → All FailsEmpty subtests
      → All FailsEmpty (score_all config subtests)
  unfolding score_all
  score_all-FailsEmpty config [] h = tt
  score_all-FailsEmpty config (sr ∷ rest) (h, hs) = (h, score_all-FailsEmpty config rest hs)

  score_result-AllEmpty :
      (config : RunConfig D) (r : Option (List (Subtest D W) × W))
      → AllEmpty r
      → AllEmpty (score_result config r)
  score_result-AllEmpty config none h = tt
  score_result-AllEmpty config (some (subtests, w)) h = score_all-FailsEmpty config subtests h

  -- A failed subtest of a run has the statistics that `calloc` left.
  pub harness_run-FailsEmpty :
      (machine : Machine D W) (config : RunConfig D) (benchmarks : List (Benchmark D W)) (w w' : W)
      (subtests : List (Subtest D W))
      → harness_run machine config benchmarks w ≡ some (subtests, w')
      → All FailsEmpty subtests
  unfolding harness_run
  harness_run-FailsEmpty machine config benchmarks w w' subtests returned =
      subst AllEmpty returned (
        score_result-AllEmpty config (run_all machine config benchmarks w)
          (run_all-AllEmpty machine config benchmarks w))

module _ {D : Type 0} ⦃d : Double D⦄ (laws : IsOrdered D) where
  nought-le : (nought {D = D} ≼ nought) ≡ true
  nought-le = laws.lit_number 0 1

  nought-lt : (nought {D = D} ≺ nought) ≡ false
  nought-lt =
      let number = laws.lit_number 0 1 in
      laws.lt-eq-not-le nought nought number number ∙ rw nought-le refl

module _ {D W : Type 0} ⦃d : Double D⦄ (laws : IsOrdered D) where
  normalized_of-empty :
      (config : RunConfig D) (sr : Subtest D W)
      → sr.stats ≡ zero_stats
      → normalized_of config sr ≡ nought
  unfolding normalized_of
  normalized_of-empty config sr empty =
      let mean_nought : sr.stats.mean ≡ nought = ap (λ s. s.mean) empty in
      let not_above : (nought ≺ sr.stats.mean) ≡ false = rw mean_nought (nought-lt laws) in
      ground (arith, mean_nought, not_above)

  scored-FailsAtZero :
      (config : RunConfig D) (sr : Subtest D W)
      → FailsEmpty sr
      → FailsAtZero (record sr { normalized_score = normalized_of config sr })
  scored-FailsAtZero config sr empty failed =
      (normalized_of-empty config sr (empty failed), empty failed)

  score_all-FailsAtZero :
      (config : RunConfig D) (subtests : List (Subtest D W))
      → All FailsEmpty subtests
      → All FailsAtZero (score_all config subtests)
  unfolding score_all
  score_all-FailsAtZero config [] h = tt
  score_all-FailsAtZero config (sr ∷ rest) (h, hs) =
      (scored-FailsAtZero config sr h, score_all-FailsAtZero config rest hs)

  score_result-AllAtZero :
      (config : RunConfig D) (r : Option (List (Subtest D W) × W))
      → AllEmpty r
      → AllAtZero (score_result config r)
  score_result-AllAtZero config none h = tt
  score_result-AllAtZero config (some (subtests, w)) h = score_all-FailsAtZero config subtests h

  collect_one-zero :
      (sr : Subtest D W) (c : Collected D)
      → (cv_high {D = D} ≼ nought) ≡ false
      → sr.normalized_score ≡ nought
      → sr.stats ≡ zero_stats
      → collect_one sr c ≡ with_score sr.bench.category one c
  unfolding collect_one
  collect_one-zero sr c above zero_score empty =
      let low : (cv_high ≼ sr.stats.cv) ≡ false =
        ap (λ (s : Stats D). cv_high ≼ s.cv) empty ∙ above in
      let as_one : score_of sr ≡ one =
        ap (λ (x : D). if x ≼ nought then one else x) zero_score ∙ rw (nought-le laws) refl in
      rw (low, as_one) refl

  -- If 0.10 is above 0, in a run whose behaviour is defined every subtest of a benchmark that failed has
  -- the score 0, and the loop of the pillars adds a 1 for it to the scores of the pillar that its
  -- category belongs to, and nothing to the others.
  pub harness_run-failed :
      (machine : Machine D W) (config : RunConfig D) (benchmarks : List (Benchmark D W)) (w w' : W)
      (subtests : List (Subtest D W)) (sr : Subtest D W) (c : Collected D)
      → (cv_high {D = D} ≼ nought) ≡ false
      → harness_run machine config benchmarks w ≡ some (subtests, w')
      → Member sr subtests
      → sr.status ≡ codes "failed"
      → (sr.normalized_score ≡ nought) × (collect_one sr c ≡ with_score sr.bench.category one c)
  unfolding harness_run
  harness_run-failed machine config benchmarks w w' subtests sr c above returned here failed =
      let all_zero = subst AllAtZero returned (
        score_result-AllAtZero config (run_all machine config benchmarks w)
          (run_all-AllEmpty machine config benchmarks w)) in
      let (zero_score, empty) = Member-All FailsAtZero sr subtests all_zero here failed in
      (zero_score, collect_one-zero sr c above zero_score empty)
