-- ===== src/Main/Program/Undefined.antt =====
-- The runs whose reports print a null pointer.
use serv_mark.Base.Member.{Member, Member-All}
use serv_mark.Base.{
  ◌≡◌, Bool, true, false, ◌||◌, Option, none, some, List, [], ◌∷◌, refl, ap, sym, ◌∙◌, Text, codes,
  inl, inr,
}
use serv_mark.Benchmark.{Benchmark, Stats}
use serv_mark.Config.{RunConfig}
use serv_mark.Double.{Double}
use serv_mark.Harness.Run.Failed.{FailsEmpty, harness_run-FailsEmpty}
use serv_mark.Harness.Run.{Machine}
use serv_mark.Harness.Whole.Parts.{whole_run-parts}
use serv_mark.Harness.Whole.{Host, whole_run}
use serv_mark.Main.Program.{
  is_null, with_pillars, some_null, opens_report, reported, delivered, main_run,
}
use serv_mark.Main.Reports.{Store}
use serv_mark.Output.{Printf, RunResult}
use serv_mark.Result.{Subtest}
use serv_mark.Scoring.{Pillars, scoring_compute_pillars}

module _ {D W : Type 0} ⦃d : Double D⦄ where
  some_null_lem :
      (sr : Subtest D W) (subtests : List (Subtest D W))
      → Member sr subtests
      → is_null sr.stats.reliability ≡ true
      → some_null subtests ≡ true
  some_null_lem sr [] here null = absurd here
  some_null_lem sr (x ∷ xs) (inl e) null =
      let first : is_null x.stats.reliability ≡ true =
        ap (λ (s : Subtest D W). is_null s.stats.reliability) (sym e) ∙ null in
      rw first refl
  some_null_lem sr (x ∷ xs) (inr m) null =
      rw (some_null_lem sr xs m null) (or_true (is_null x.stats.reliability))
    where
      or_true : (b : Bool) → (b || true) ≡ true
      or_true true = refl
      or_true false = refl

  module _ (printf : Printf D) (ctime : Text) (opens : Text → Bool) (config : RunConfig D)
      (store : Store) where
    reported-none :
        (r : RunResult D W) (o : Option (Pillars D))
        → opens_report opens config r ≡ true
        → some_null r.subtests ≡ true
        → reported printf ctime opens config store (with_pillars r o) ≡ none
    reported-none r none opened null = refl
    reported-none r (some pillars) opened null = rw (opened, null) refl

    -- A run in which a benchmark fails has no defined behaviour if one of the three reports of its
    -- subtests can be opened.
    pub main_run-failed :
        (machine : Machine D W) (host : Host) (benchmarks : List (Benchmark D W)) (w w' : W)
        (r : RunResult D W) (sr : Subtest D W)
        → whole_run machine host config benchmarks w ≡ some (r, w')
        → opens_report opens config r ≡ true
        → Member sr r.subtests
        → sr.status ≡ codes "failed"
        → main_run machine host printf ctime opens config benchmarks w store ≡ none
    unfolding main_run
    main_run-failed machine host benchmarks w w' r sr done opened here failed =
        let returned = (whole_run-parts machine host config benchmarks w w' r done).1 in
        let empty = harness_run-FailsEmpty machine config benchmarks w w' r.subtests returned in
        let unset : is_null sr.stats.reliability ≡ true =
          ap (λ (s : Stats D). is_null s.reliability)
            (Member-All FailsEmpty sr r.subtests empty here failed) in
        ap (delivered printf ctime opens config store) done
        ∙ reported-none r (scoring_compute_pillars r.subtests) opened
            (some_null_lem sr r.subtests here unset)
