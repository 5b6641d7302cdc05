-- ===== src/Main/Reports/Kept.antt =====
-- No report of a run is written over by another.
use serv_mark.Base.{
  ◌+◌, ◌≡◌, ◌≤◌, ◌<◌, Bool, false, Option, none, some, [], ◌∷◌, ◌++◌, arith, refl, ap, ◌∙◌, Text,
  codes, text_eq, text_eq_refl, length, length-append, take-all,
}
use serv_mark.Config.{RunConfig}
use serv_mark.Double.{Double}
use serv_mark.Main.Reports.{
  Store, put_file, report_path, provenance, jsonl, html, reference, path_of, reference_text,
  write_reports,
}
use serv_mark.Output.{Printf, RunResult, output_provenance, output_jsonl, output_html_report}

-- What a writer's text, or else the old file, leaves at a path.
abbrev pub kept : Option Text → Option Text → Option Text
kept none old = old
kept (some text) old = some text

put_file_self :
    (path : Text) (o : Option Text) (store : Store)
    → put_file path o store path ≡ kept o (store path)
put_file_self path none store = refl
put_file_self path (some text) store = rw (text_eq_refl path) refl

put_file_other :
    (q path : Text) (o : Option Text) (store : Store)
    → text_eq q path ≡ false
    → put_file path o store q ≡ store q
put_file_other q path none store h = refl
put_file_other q path (some text) store h = rw h refl

text_eq-append : (p a b : Text) → text_eq (p ++ a) (p ++ b) ≡ text_eq a b
text_eq-append [] a b = refl
text_eq-append (x ∷ p) a b = ground (arith, text_eq-append p a b)

report_path-short :
    (dir id suffix : Text)
    → length dir + length id + 17 < 512
    → length suffix ≤ 16
    → report_path dir id suffix ≡ dir ++ (codes "/" ++ (id ++ suffix))
report_path-short dir id suffix h k =
    take-all 511 (dir ++ (codes "/" ++ (id ++ suffix)))
      (omega (arith, length-append dir (codes "/" ++ (id ++ suffix)), length-append id suffix))

-- Paths of a run differ as their suffixes do.
text_eq-report_path :
    (dir id a b : Text)
    → length dir + length id + 17 < 512
    → length a ≤ 16
    → length b ≤ 16
    → text_eq (report_path dir id a) (report_path dir id b) ≡ text_eq a b
text_eq-report_path dir id a b h ka kb =
    rw (report_path-short dir id a h ka, report_path-short dir id b h kb)
      (text_eq-append dir (codes "/" ++ (id ++ a)) (codes "/" ++ (id ++ b)) ∙ text_eq-append id a b)

module _ {D W : Type 0} ⦃d : Double D⦄ where
  -- Where the directory and the identifier together have fewer than 495 characters, each file holds
  -- its own report after a run, if it could be opened, and is as it was if not; the reference is there
  -- only if it was asked for. No report is written over by another.
  pub write_reports-kept :
      (printf : Printf D) (ctime : Text) (opens : Text → Bool) (config : RunConfig D)
      (result : RunResult D W) (store : Store)
      → length config.output_dir + length result.run_id + 17 < 512
      → let file = path_of config result in
        let after = write_reports printf ctime opens config result store in
        (after (file provenance)
          ≡ kept
              (output_provenance printf (opens (file provenance)) result)
              (store (file provenance)))
        × (after (file jsonl)
            ≡ kept (output_jsonl printf (opens (file jsonl)) result) (store (file jsonl)))
        × (after (file html)
            ≡ kept (output_html_report printf (opens (file html)) result) (store (file html)))
        × (after (file reference)
            ≡ kept
                (reference_text printf ctime (opens (file reference)) config result)
                (store (file reference)))
  unfolding write_reports
  write_reports-kept printf ctime opens config result store h =
      let file = path_of config result in
      let o1 = output_provenance printf (opens (file provenance)) result in
      let o2 = output_jsonl printf (opens (file jsonl)) result in
      let o3 = output_html_report printf (opens (file html)) result in
      let o4 = reference_text printf ctime (opens (file reference)) config result in
      let s1 = put_file (file provenance) o1 store in
      let s2 = put_file (file jsonl) o2 s1 in
      let s3 = put_file (file html) o3 s2 in
      (
        put_file_other (file provenance) (file reference) o4 s3
              (differ provenance reference (omega arith) (omega arith))
            ∙ put_file_other (file provenance) (file html) o3 s2
                (differ provenance html (omega arith) (omega arith))
            ∙ put_file_other (file provenance) (file jsonl) o2 s1
                (differ provenance jsonl (omega arith) (omega arith))
            ∙ put_file_self (file provenance) o1 store,
        put_file_other (file jsonl) (file reference) o4 s3
              (differ jsonl reference (omega arith) (omega arith))
            ∙ put_file_other (file jsonl) (file html) o3 s2
                (differ jsonl html (omega arith) (omega arith))
            ∙ put_file_self (file jsonl) o2 s1
            ∙ ap (kept o2) (
                put_file_other (file jsonl) (file provenance) o1 store
                  (differ jsonl provenance (omega arith) (omega arith))),
        put_file_other (file html) (file reference) o4 s3
              (differ html reference (omega arith) (omega arith))
            ∙ put_file_self (file html) o3 s2
            ∙ ap (kept o3) (
                put_file_other (file html) (file jsonl) o2 s1
                  (differ html jsonl (omega arith) (omega arith))
                ∙ put_file_other (file html) (file provenance) o1 store
                    (differ html provenance (omega arith) (omega arith))),
        put_file_self (file reference) o4 s3
            ∙ ap (kept o4) (
                put_file_other (file reference) (file html) o3 s2
                  (differ reference html (omega arith) (omega arith))
                ∙ put_file_other (file reference) (file jsonl) o2 s1
                    (differ reference jsonl (omega arith) (omega arith))
                ∙ put_file_other (file reference) (file provenance) o1 store
                    (differ reference provenance (omega arith) (omega arith))),
      )
    where
      differ :
          (a b : Text)
          → length a ≤ 16
          → length b ≤ 16
          → text_eq (path_of config result a) (path_of config result b) ≡ text_eq a b
      differ a b ka kb = text_eq-report_path config.output_dir result.run_id a b h ka kb
