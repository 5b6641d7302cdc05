-- ===== src/Harness/Parallel/Pooling.antt =====
-- When the statistics of a parallel run are sound, and when they run past their array.
use serv_mark.Base.{
  ℕ, ◌+◌, ◌-◌, ◌≡◌, ◌<◌, ◌↔◌, min, Bool, true, false, not, ◌&&◌, List, [], ◌∷◌, arith, refl,
  Bool-cases, inl, inr, length, length-append, length-take, take,
}
use serv_mark.Double.{Double}
use serv_mark.Harness.Parallel.{
  ChildResult, parallel_failed, parallel_done, max_pooled, any_failed, pool, samples, summarize,
  harness_run_parallel,
}
use serv_mark.Stats.{overrun, max_iterations}
use serv_mark.Stats.Bootstrap.{stats_compute_branches}

module _ {D : Type 0} where
  -- How many values the children sent.
  abbrev pub total : List (ChildResult D) → ℕ
  total [] = 0
  total (r ∷ rs) = length r.values + total rs

  length-pool : (room : ℕ) (rs : List (ChildResult D)) → length (pool room rs) ≡ min room (total rs)
  unfolding pool
  length-pool room [] = omega arith
  length-pool room (r ∷ rs) =
      let first = take room r.values in
      omega (
        arith,
        length-append first (pool (room - length first) rs),
        length-take room r.values,
        length-pool (room - length first) rs,
      )

module _ {D : Type 0} ⦃d : Double D⦄ where
  overrun_summary :
      (allocated : Bool) (rand : ℕ → ℕ) (values : List D)
      → (summarize allocated rand values ≡ parallel_done overrun) ↔ (max_iterations < length values)
  overrun_summary allocated rand [] = ((λ e. cc), (λ h. absurd (omega arith)))
  overrun_summary allocated rand (v ∷ vs) =
      let branch = (stats_compute_branches allocated rand (v ∷ vs)).1 in
      ((λ e. branch.0 (cc)), (λ h. rw (branch.1 h) refl))

  -- For a benchmark whose metric is better when lower, a parallel run in which no child fails copies
  -- its pooled values past the array of 31 exactly if the children sent more than 31 values together.
  pub harness_run_parallel-overrun :
      (allocated : Bool) (rand : ℕ → ℕ) (results : List (ChildResult D))
      → any_failed results ≡ false
      → (harness_run_parallel true allocated rand false results ≡ parallel_done overrun)
        ↔ (max_iterations < total results)
  unfolding harness_run_parallel samples
  harness_run_parallel-overrun allocated rand results ok =
      let pooled = pool max_pooled results in
      let branch = overrun_summary allocated rand pooled in
      let size : length pooled ≡ min max_pooled (total results) = length-pool max_pooled results in
      rw ok ((λ e. omega (arith, branch.0 e)), (λ h. branch.1 (omega arith)))

  summarize_never_fails :
      (allocated : Bool) (rand : ℕ → ℕ) (values : List D)
      → ¬ (summarize allocated rand values ≡ parallel_failed)
  summarize_never_fails allocated rand [] e = cc
  summarize_never_fails allocated rand (v ∷ vs) e = cc

  -- A parallel run fails exactly if its set-up fails or some child fails: it does not arrive whole,
  -- it reports an error or it does not exit by itself.
  pub harness_run_parallel-failed :
      (set_up allocated higher : Bool) (rand : ℕ → ℕ) (results : List (ChildResult D))
      → (harness_run_parallel set_up allocated rand higher results ≡ parallel_failed)
        ↔ ((set_up && not (any_failed results)) ≡ false)
  unfolding harness_run_parallel
  harness_run_parallel-failed set_up allocated higher rand results =
      let no_failure = summarize_never_fails allocated rand (samples higher results) in
      elim (Bool-cases set_up) [
        | inl on ↦ elim (Bool-cases (any_failed results)) [
          | inl failed ↦ rw (on, failed) ((λ e. refl), (λ e. refl))
          | inr fine ↦ rw (on, fine) ((λ e. absurd (no_failure e)), (λ e. cc))
        ]
        | inr off ↦ rw off ((λ e. refl), (λ e. refl))
      ]
