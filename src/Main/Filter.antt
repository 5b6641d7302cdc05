-- ===== src/Main/Filter.antt =====
-- The list of benchmark names that a configuration file leaves.
use mathlib.Core.List.{append-nil, append_assoc}
use serv_mark.Base.{
  ℕ, zero, suc, ◌≡◌, ◌≢◌, ◌≤◌, ◌<◌, true, ltb, Option, none, some, List, [], ◌∷◌, ◌++◌, Bool-cases,
  Option-cases, inl, inr, arith, refl, if◌then◌else◌, ℤ, Text, codes, text_eq, text_eq_iff, length,
  take, ap, ◌∙◌, sym, length-append, length-take, take-all,
}
use serv_mark.Base.Scan.{fgets_lines}
use serv_mark.Main.{
  Pending, Key, key_of, set_names, setting_of, parse_line, parse_lines, parse_config,
  config_line_size, push_name, push_benchmark, bench_name, max_bench_filter, benchmark,
}

-- The benchmark that a line names, if it names one.
abbrev pub named_by : Option Text → List Text
named_by none = []
named_by (some name) = name ∷ []

abbrev pub name_on : Text → List Text
name_on line = elim (setting_of line) [
  | none ↦ []
  | some (key, value) ↦ if text_eq key (codes "benchmark") then named_by (bench_name value) else []
]

abbrev pub names_on : List Text → List Text
names_on [] = []
names_on (line ∷ rest) = name_on line ++ names_on rest

take-append_take : (n : ℕ) (xs ys : List Text) → take n (take n xs ++ ys) ≡ take n (xs ++ ys)
take-append_take zero xs ys = refl
take-append_take (suc n) [] ys = refl
take-append_take (suc n) (x ∷ xs) ys = ap (λ r. x ∷ r) (take-append_take n xs ys)

take-append_full : (n : ℕ) (xs ys : List Text) → n ≤ length xs → take n (xs ++ ys) ≡ take n xs
take-append_full zero xs ys h = refl
take-append_full (suc n) [] ys h = absurd (omega arith)
take-append_full (suc n) (x ∷ xs) ys h = ap (λ r. x ∷ r) (take-append_full n xs ys (omega arith))

take-append_none : (n : ℕ) (xs : List Text) → length xs ≤ n → take n (xs ++ []) ≡ xs
take-append_none n xs h = rw (append-nil xs) (take-all n xs h)

push_name_lem :
    (names : List Text) (name : Text)
    → length names ≤ max_bench_filter
    → push_name names name ≡ take max_bench_filter (names ++ name ∷ [])
unfolding push_name
push_name_lem names name h =
    let longer = length-append names (name ∷ []) in
    elim (Bool-cases (ltb (length names) max_bench_filter)) [
      | inl room ↦
          let fits : length names < max_bench_filter = ground arith in
          rw room (sym (take-all max_bench_filter (names ++ name ∷ []) (omega arith)))
      | inr full ↦
          let enough : max_bench_filter ≤ length names = ground arith in
          rw full (
            sym (
              take-append_full max_bench_filter names (name ∷ []) enough
              ∙ take-all max_bench_filter names h))
    ]

push_benchmark_lem :
    (names : List Text) (value : Text)
    → length names ≤ max_bench_filter
    → push_benchmark names value ≡ take max_bench_filter (names ++ named_by (bench_name value))
unfolding push_benchmark
push_benchmark_lem names value h = elim (Option-cases (bench_name value)) [
  | inl e ↦ rw (push_benchmark, e) (sym (take-append_none max_bench_filter names h))
  | inr (name, e) ↦ rw (push_benchmark, e) (push_name_lem names name h)
]

key_of-benchmark : (key : Text) → key_of key ≡ benchmark → text_eq key (codes "benchmark") ≡ true
unfolding key_of
key_of-benchmark key h = ground arith

benchmark_key : (key : Text) → text_eq key (codes "benchmark") ≡ true → key_of key ≡ benchmark
unfolding key_of
benchmark_key key h = rw ((text_eq_iff key (codes "benchmark")).0 h) refl

set_names_other :
    (k : Key) (value : Text) (names : List Text) → k ≢ benchmark → set_names k value names ≡ names
unfolding set_names
set_names_other benchmark value names ne = absurd (ne refl)
set_names_other _ value names ne = refl

set_names_lem :
    (key value : Text) (names : List Text)
    → length names ≤ max_bench_filter
    → set_names (key_of key) value names
      ≡ take max_bench_filter
          (names ++ (if text_eq key (codes "benchmark") then named_by (bench_name value) else []))
unfolding set_names
set_names_lem key value names h = elim (Bool-cases (text_eq key (codes "benchmark"))) [
  | inl e ↦ rw (e, benchmark_key key e) (push_benchmark_lem names value h)
  | inr e ↦
      let other : key_of key ≢ benchmark = λ k. let found = key_of-benchmark key k in cc in
      rw (e, set_names_other (key_of key) value names other)
        (sym (take-append_none max_bench_filter names h))
]

module _ {D : Type 0} (atof : Text → D) (shift_other : ℤ → ℕ) where
  parse_line-names :
      (line : Text) (p : Pending D)
      → length p.names ≤ max_bench_filter
      → (parse_line atof shift_other line p).names ≡ take max_bench_filter (p.names ++ name_on line)
  unfolding parse_line
  parse_line-names line p h = elim (Option-cases (setting_of line)) [
    | inl e ↦
        let on : name_on line ≡ [] = rw (name_on, e) refl in
        rw (on, parse_line, e) (sym (take-append_none max_bench_filter p.names h))
    | inr ((key, value), e) ↦
        let on : name_on line
            ≡ (if text_eq key (codes "benchmark") then named_by (bench_name value) else []) =
          rw (name_on, e) refl in
        rw (on, parse_line, e) (set_names_lem key value p.names h)
  ]

  parse_lines-names :
      (lines : List Text) (p : Pending D)
      → length p.names ≤ max_bench_filter
      → (parse_lines atof shift_other lines p).names
        ≡ take max_bench_filter (p.names ++ names_on lines)
  unfolding parse_lines
  parse_lines-names [] p h = sym (take-append_none max_bench_filter p.names h)
  parse_lines-names (line ∷ rest) p h =
      let first = parse_line-names line p h in
      let all_names = p.names ++ name_on line in
      let short = length-take max_bench_filter all_names in
      let later =
        parse_lines-names rest (parse_line atof shift_other line p)
          (rw first (omega (arith, short))) in
      later
      ∙ rw (first, ← append_assoc p.names (name_on line) (names_on rest))
          (take-append_take max_bench_filter all_names (names_on rest))

  -- A configuration file that can be read adds the benchmarks that its lines name, in their order, as
  -- long as the list has at most 64 names; names past the 64th are dropped.
  pub parse_config-names :
      (file : Text) (p : Pending D)
      → length p.names ≤ max_bench_filter
      → (parse_config atof shift_other (some file) p).1.names
        ≡ take max_bench_filter (p.names ++ names_on (fgets_lines config_line_size file))
  unfolding parse_config
  parse_config-names file p h = parse_lines-names (fgets_lines config_line_size file) p h
