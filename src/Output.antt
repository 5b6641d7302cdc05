-- ===== src/Output.antt =====
-- src/core/output.c: the identifier of a run, and the files that report it. What `printf` makes of a
-- number is not part of the repository, and is an argument.
pub mod Uuid
pub mod Array
pub mod Summary
use serv_mark.Base.{
  ℕ, zero, suc, ◌+◌, ◌-◌, ◌/◌, ◌%◌, Bool, true, false, Option, none, some, List, [], ◌∷◌, ◌++◌,
  ◌==◌, ltb, if◌then◌else◌, ℤ, pos, Text, hex_digit, codes, get_or, length,
}
use serv_mark.Config.{RunMode, validate, peak, sustained}
use serv_mark.Double.{Double, ◌⊗◌}
use serv_mark.Result.{Subtest}
use serv_mark.System.Probe.{SystemInfo}

-- "%02x" of a byte, "%04x" of 16 bits and "%08x" of 32 bits, for a width of 2, 4 and 8.
unfoldable pub hex_digits : ℕ → ℕ → Text
hex_digits zero n = []
hex_digits (suc width) n = hex_digits width (n / 16) ++ (hex_digit (n % 16) ∷ [])

-- The bytes from `i` on, `n` of them.
unfoldable pub hex_bytes : List ℕ → ℕ → ℕ → Text
unfolding hex_digits
hex_bytes r i zero = []
hex_bytes r i (suc n) = hex_digits 2 (get_or r i 0) ++ hex_bytes r (suc i) n

abbrev pub dash : Text → Text
dash rest = b'-' ∷ rest

-- From 16 random bytes. The masks keep the low 4 and the low 6 bits.
unfoldable pub uuid_of_bytes : List ℕ → Text
unfolding hex_bytes
uuid_of_bytes r =
    hex_bytes r 0 4
    ++ dash (
        hex_bytes r 4 2
        ++ dash (
            hex_digits 2 (get_or r 6 0 % 16 + 64)
            ++ hex_bytes r 7 1
            ++ dash (
                hex_digits 2 (get_or r 8 0 % 64 + 128)
                ++ hex_bytes r 9 1
                ++ dash (hex_bytes r 10 6))))

-- From what six calls of `rand` return, in the order of the arguments.
unfoldable pub uuid_of_rand : List ℕ → Text
unfolding hex_digits
uuid_of_rand v =
    hex_digits 8 (get_or v 0 0)
    ++ dash (
        hex_digits 4 (get_or v 1 0 % 65536)
        ++ dash (
            hex_digits 4 (get_or v 2 0 % 4096 + 16384)
            ++ dash (
                hex_digits 4 (get_or v 3 0 % 16384 + 32768)
                ++ dash (hex_digits 4 (get_or v 4 0 % 65536) ++ hex_digits 8 (get_or v 5 0)))))

-- `random` is what was read of /dev/urandom, if it could be opened.
unfoldable pub output_generate_uuid : Option (List ℕ) → List ℕ → Text
unfolding uuid_of_bytes uuid_of_rand
output_generate_uuid none v = uuid_of_rand v
output_generate_uuid (some r) v = if length r == 16 then uuid_of_bytes r else uuid_of_rand v

-- What `printf` makes of "%.Nf", of "%d", of "%zu", and of "%s" with a null pointer.
pub record Printf (D : Type 0) : Type 0 where
  pub fixed : ℕ → D → Text
  pub decimal : ℤ → Text
  pub natural : ℕ → Text
  pub null : Text

-- What the reports read of `struct run_result_s`.
pub record RunResult (D W : Type 0) : Type 0 where
  pub run_id : Text
  pub mode : RunMode
  pub sysinfo : Option (SystemInfo D)
  pub subtests : List (Subtest D W)
  pub category_scores : List D
  pub overall_score : D
  pub pillar_throughput : D
  pub pillar_latency : D
  pub pillar_efficiency : D
  pub mitigation_tax_pct : D
  pub thermal_derating_factor : D
  pub start_time : ℤ
  pub end_time : ℤ

abbrev pub version : Text
version = codes "1.0.0"

abbrev pub line : Text → Text
line s = s ++ (10 ∷ [])

abbrev pub by_mode : RunMode → Text → Text → Text
by_mode peak p s = p
by_mode validate p s = s
by_mode sustained p s = s

module _ {D : Type 0} (printf : Printf D) where
  abbrev pub string : Option Text → Text
  string none = printf.null
  string (some s) = s

  abbrev pub system_fields : Option (SystemInfo D) → Text
  system_fields none = []
  system_fields (some info) =
      line (codes "  \"system\": {")
      ++ line (codes "    \"cpu_model\": \"" ++ info.cpu_model ++ codes "\",")
      ++ line (codes "    \"cpu_cores\": " ++ printf.decimal info.cpu_cores_physical ++ codes ",")
      ++ line (codes "    \"numa_nodes\": " ++ printf.decimal info.numa_node_count ++ codes ",")
      ++ line (codes "    \"kernel\": \"" ++ info.kernel_version ++ codes "\",")
      ++ line (codes "    \"page_size\": " ++ printf.natural info.page_size)
      ++ line (codes "  },")

module _ {D W : Type 0} (printf : Printf D) where
  -- The fields of one subtest, up to its closing brace.
  unfoldable pub subtest_fields : Subtest D W → Text
  subtest_fields sr =
      line (codes "    {")
      ++ line (codes "      \"name\": \"" ++ sr.bench.name ++ codes "\",")
      ++ line (codes "      \"category\": \"" ++ sr.bench.category ++ codes "\",")
      ++ line (codes "      \"status\": \"" ++ sr.status ++ codes "\",")
      ++ line (codes "      \"mean\": " ++ printf.fixed 6 sr.stats.mean ++ codes ",")
      ++ line (codes "      \"cv\": " ++ printf.fixed 4 sr.stats.cv ++ codes ",")
      ++ line
          (codes "      \"reliability\": \"" ++ string printf sr.stats.reliability ++ codes "\",")
      ++ line (
          codes "      \"ci_95\": ["
          ++ printf.fixed 6 sr.stats.ci_lower
          ++ codes ", "
          ++ printf.fixed 6 sr.stats.ci_upper
          ++ codes "],")
      ++ line (codes "      \"iterations\": " ++ printf.decimal (pos sr.stats.iterations))
      ++ codes "    }"

  -- The loop over the subtests, at number `i` of `count`.
  unfoldable pub subtests_from : ℕ → ℕ → List (Subtest D W) → Text
  unfolding subtest_fields
  subtests_from count i [] = []
  subtests_from count i (sr ∷ rest) =
      line (subtest_fields sr ++ (if ltb i (count - 1) then codes "," else []))
      ++ subtests_from count (suc i) rest

  -- One line of the JSON file.
  abbrev pub jsonl_line : Text → Subtest D W → Text
  jsonl_line run_id sr = line (
      codes "{\"run_id\":\""
      ++ run_id
      ++ codes "\",\"bench\":\""
      ++ sr.bench.name
      ++ codes "\",\"cat\":\""
      ++ sr.bench.category
      ++ codes "\",\"mean\":"
      ++ printf.fixed 6 sr.stats.mean
      ++ codes ",\"cv\":"
      ++ printf.fixed 4 sr.stats.cv
      ++ codes ",\"rel\":\""
      ++ string printf sr.stats.reliability
      ++ codes "\",\"n\":"
      ++ printf.decimal (pos sr.stats.iterations)
      ++ codes "}")

  unfoldable pub jsonl_lines : Text → List (Subtest D W) → Text
  jsonl_lines run_id [] = []
  jsonl_lines run_id (sr ∷ rest) = jsonl_line run_id sr ++ jsonl_lines run_id rest

  unfoldable pub output_jsonl : Bool → RunResult D W → Option Text
  unfolding jsonl_lines
  output_jsonl false result = none
  output_jsonl true result = some (jsonl_lines result.run_id result.subtests)

module _ {D W : Type 0} ⦃d : Double D⦄ (printf : Printf D) where
  -- The text of the file; `none` is -1, when it cannot be opened.
  unfoldable pub output_provenance : Bool → RunResult D W → Option Text
  unfolding subtests_from
  output_provenance false result = none
  output_provenance true result = some (
      line (codes "{")
      ++ line (codes "  \"servmark_version\": \"" ++ version ++ codes "\",")
      ++ line (codes "  \"run_id\": \"" ++ result.run_id ++ codes "\",")
      ++ line (
          codes "  \"run_mode\": \""
          ++ by_mode result.mode (codes "peak") (codes "sustained")
          ++ codes "\",")
      ++ line (codes "  \"overall_score\": " ++ printf.fixed 4 result.overall_score ++ codes ",")
      ++ line (codes "  \"pillars\": {")
      ++ line (codes "    \"throughput\": " ++ printf.fixed 4 result.pillar_throughput ++ codes ",")
      ++ line (codes "    \"latency\": " ++ printf.fixed 4 result.pillar_latency ++ codes ",")
      ++ line (codes "    \"efficiency\": " ++ printf.fixed 4 result.pillar_efficiency)
      ++ line (codes "  },")
      ++ line (
          codes "  \"mitigation_tax_pct\": "
          ++ printf.fixed 1 (result.mitigation_tax_pct ⊗ d.lit 100 1)
          ++ codes ",")
      ++ line (
          codes "  \"thermal_derating\": "
          ++ printf.fixed 3 result.thermal_derating_factor
          ++ codes ",")
      ++ system_fields printf result.sysinfo
      ++ line (codes "  \"subtests\": [")
      ++ subtests_from printf (length result.subtests) 0 result.subtests
      ++ line (codes "  ]")
      ++ line (codes "}"))

  -- One row of the table.
  abbrev pub html_row : Subtest D W → Text
  html_row sr = line (
      codes "<tr><td>"
      ++ sr.bench.name
      ++ codes "</td><td>"
      ++ sr.bench.category
      ++ codes "</td><td>"
      ++ printf.fixed 4 sr.stats.mean
      ++ codes "</td><td>"
      ++ printf.fixed 2 (sr.stats.cv ⊗ d.lit 100 1)
      ++ codes "%</td><td>"
      ++ string printf sr.stats.reliability
      ++ codes "</td></tr>")

  unfoldable pub html_rows : List (Subtest D W) → Text
  html_rows [] = []
  html_rows (sr ∷ rest) = html_row sr ++ html_rows rest

  unfoldable pub output_html_report : Bool → RunResult D W → Option Text
  unfolding html_rows
  output_html_report false result = none
  output_html_report true result = some (
      line (
        codes "<!DOCTYPE html><html><head><meta charset=\"UTF-8\">"
        ++ codes "<title>ServMark Results</title></head><body>")
      ++ line (codes "<h1>ServMark " ++ version ++ codes " Results</h1>")
      ++ line (
          codes "<p>Run ID: "
          ++ result.run_id
          ++ codes " | Mode: "
          ++ by_mode result.mode (codes "Peak") (codes "Sustained")
          ++ codes "</p>")
      ++ line (
          codes "<table border=\"1\"><tr><th>Benchmark</th><th>Category</th>"
          ++ codes "<th>Score</th><th>CV</th><th>Reliability</th></tr>")
      ++ html_rows result.subtests
      ++ line (codes "</table></body></html>"))
