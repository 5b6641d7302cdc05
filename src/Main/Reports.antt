-- ===== src/Main/Reports.antt =====
-- The files that `main` in src/main.c writes after a run: their paths and what they hold. A file is
-- written over; which of them can be opened is an argument.
pub mod Kept
use serv_mark.Base.{
  ℕ, ◌&&◌, Bool, true, false, Option, none, some, List, [], ◌∷◌, ◌++◌, if◌then◌else◌, Text, codes,
  text_eq, take,
}
use serv_mark.Config.{RunConfig}
use serv_mark.Double.{Double}
use serv_mark.Output.{Printf, RunResult, output_provenance, output_jsonl, output_html_report}
use serv_mark.Reference.{reference_file, measured}

abbrev pub Store : Type 0
Store = Text → Option Text

abbrev pub write : Text → Text → Store → Store
write path text store q = if text_eq q path then some text else store q

-- `snprintf(path, sizeof(path), "%s/%s.suffix", config.output_dir, result->run_id)`
abbrev pub report_path : Text → Text → Text → Text
report_path output_dir run_id suffix = take 511 (output_dir ++ (codes "/" ++ (run_id ++ suffix)))

abbrev pub provenance : Text
provenance = codes ".provenance.json"

abbrev pub jsonl : Text
jsonl = codes ".results.jsonl"

abbrev pub html : Text
html = codes ".report.html"

abbrev pub reference : Text
reference = codes ".reference.txt"

-- What a writer leaves; a file that cannot be opened stays as it is.
abbrev pub put_file : Text → Option Text → Store → Store
put_file path none store = store
put_file path (some text) store = write path text store

module _ {D W : Type 0} ⦃d : Double D⦄ where
  -- `path` of a suffix, for a configuration and a result.
  abbrev pub path_of : RunConfig D → RunResult D W → Text → Text
  path_of config result suffix = report_path config.output_dir result.run_id suffix

  abbrev pub reference_text : Printf D → Text → Bool → RunConfig D → RunResult D W → Option Text
  reference_text printf ctime opened config result =
      if config.generate_reference && opened
      then some
          (reference_file (printf.fixed 6) ctime (path_of config result reference) result.subtests)
      else none

  -- The files after all writes. `ctime` is the text of the start time.
  unfoldable pub write_reports :
      Printf D → Text → (Text → Bool) → RunConfig D → RunResult D W → Store → Store
  write_reports printf ctime opens config result store =
      let file = path_of config result in
      let s1 =
        put_file (file provenance) (output_provenance printf (opens (file provenance)) result)
          store in
      let s2 = put_file (file jsonl) (output_jsonl printf (opens (file jsonl)) result) s1 in
      let s3 = put_file (file html) (output_html_report printf (opens (file html)) result) s2 in
      put_file (file reference) (reference_text printf ctime (opens (file reference)) config result)
        s3
