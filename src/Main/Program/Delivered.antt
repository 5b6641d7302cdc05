-- ===== src/Main/Program/Delivered.antt =====
-- What a run of the program leaves in its files.
use mathlib.Core.Path.{subst}
use serv_mark.Base.{
  suc, ◌≡◌, ◌<◌, Bool, true, false, ◌&&◌, Option, none, some, List, [], ◌∷◌, arith, refl, ap, Text,
  length, ◌∙◌, inl, inr, Bool-cases, ◌+◌,
}
use serv_mark.Benchmark.{Benchmark}
use serv_mark.Config.{RunConfig}
use serv_mark.Double.{Double}
use serv_mark.Harness.Run.{Machine}
use serv_mark.Harness.Whole.Parts.{whole_run-parts}
use serv_mark.Harness.Whole.{Host, whole_run}
use serv_mark.Main.Program.{
  pillared, with_pillars, some_null, opens_report, reported, delivered, main_run,
}
use serv_mark.Main.Reports.Kept.{kept, write_reports-kept}
use serv_mark.Main.Reports.{Store, provenance, jsonl, html, reference, path_of, reference_text}
use serv_mark.Scoring.{Pillars, scoring_compute_pillars}
use serv_mark.Output.Uuid.{fits, has_form, uuid_form, output_generate_uuid-form}
use serv_mark.Output.{
  Printf, RunResult, output_generate_uuid, output_provenance, output_jsonl, output_html_report,
}

has_form-length : (form t : Text) → has_form form t ≡ true → length t ≡ length form
has_form-length [] [] h = refl
has_form-length [] (c ∷ cs) h = absurd cc
has_form-length (p ∷ ps) [] h = absurd cc
has_form-length (p ∷ ps) (c ∷ cs) h =
    ap suc (has_form-length ps cs (rest_true (fits p c) (has_form ps cs) h))
  where
    rest_true : (a b : Bool) → (a && b) ≡ true → b ≡ true
    rest_true true b e = e
    rest_true false b e = absurd cc

module _ {D W : Type 0} ⦃d : Double D⦄ (printf : Printf D) (ctime : Text)
    (opens : Text → Bool) where
  -- Each file holds its own report of the result, if it could be opened, and is as it was if not.
  abbrev pub HoldsReports : RunConfig D → RunResult D W → Store → Store → Type 0
  HoldsReports config r store after =
      let file = path_of config r in
      (after (file provenance)
        ≡ kept (output_provenance printf (opens (file provenance)) r) (store (file provenance)))
      × (after (file jsonl)
          ≡ kept (output_jsonl printf (opens (file jsonl)) r) (store (file jsonl)))
      × (after (file html)
          ≡ kept (output_html_report printf (opens (file html)) r) (store (file html)))
      × (after (file reference)
          ≡ kept (reference_text printf ctime (opens (file reference)) config r)
              (store (file reference)))

  abbrev AreDelivered : RunConfig D → Store → Option (Store × RunResult D W) → Type 0
  AreDelivered config store none = Unit
  AreDelivered config store (some (after, r)) = HoldsReports config r store after

  reported-AreDelivered :
      (config : RunConfig D) (store : Store) (r : RunResult D W) (o : Option (Pillars D))
      → length config.output_dir + length r.run_id + 17 < 512
      → AreDelivered config store (reported printf ctime opens config store (with_pillars r o))
  reported-AreDelivered config store r none short = tt
  reported-AreDelivered config store r (some pillars) short = elim (Bool-cases null) [
    | inl printed ↦ rw printed tt
    | inr not_printed ↦
        rw not_printed
          (write_reports-kept printf ctime opens config (pillared r pillars) store short)
  ]
    where
      null : Bool
      null = opens_report opens config (pillared r pillars) && some_null r.subtests

  delivered-AreDelivered :
      (machine : Machine D W) (host : Host) (config : RunConfig D)
      (benchmarks : List (Benchmark D W)) (w : W) (store : Store)
      → length config.output_dir < 459
      → (o : Option (RunResult D W × W)) → whole_run machine host config benchmarks w ≡ o
      → AreDelivered config store (delivered printf ctime opens config store o)
  delivered-AreDelivered machine host config benchmarks w store short none e = tt
  delivered-AreDelivered machine host config benchmarks w store short (some (r, w')) e =
      let identifier = (whole_run-parts machine host config benchmarks w w' r e).0 in
      let form = output_generate_uuid-form host.random host.rand in
      let size : length r.run_id ≡ length uuid_form =
        ap length identifier
        ∙ has_form-length uuid_form (output_generate_uuid host.random host.rand) form in
      reported-AreDelivered config store r (scoring_compute_pillars r.subtests) (omega arith)

  -- Where the output directory has fewer than 459 characters, a run whose behaviour is defined leaves
  -- the provenance, the JSON lines, the HTML table and, if it is asked for, the reference file of its
  -- result each in a file of its own, if that can be opened, and leaves the file as it was if not.
  pub main_run-reports :
      (machine : Machine D W) (host : Host) (config : RunConfig D)
      (benchmarks : List (Benchmark D W)) (w : W) (store after : Store) (r : RunResult D W)
      → length config.output_dir < 459
      → main_run machine host printf ctime opens config benchmarks w store ≡ some (after, r)
      → HoldsReports config r store after
  unfolding main_run
  main_run-reports machine host config benchmarks w store after r short done =
      subst (AreDelivered config store) done (
        delivered-AreDelivered machine host config benchmarks w store short
          (whole_run machine host config benchmarks w) refl)
