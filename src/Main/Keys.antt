-- ===== src/Main/Keys.antt =====
-- What a configuration file leaves in the configuration, line by line.
use serv_mark.Base.{
  ℕ, ◌≡◌, ◌≢◌, true, Option, none, some, List, [], ◌∷◌, Bool-cases, Option-cases, inl, inr, arith,
  refl, if◌then◌else◌, ℤ, Text, codes, text_eq, text_eq_iff, ◌∙◌,
}
use serv_mark.Base.Scan.{atoi, fgets_lines}
use serv_mark.Config.{RunConfig}
use serv_mark.Main.{
  Pending, Key, key_of, set_config, setting_of, parse_line, parse_lines, parse_config,
  config_line_size, threads, min_iterations, max_iterations, convergence,
}

-- The value on the last line that sets the key, if there is such a line.
abbrev pub value_on : Text → Text → Option Text
value_on word line = elim (setting_of line) [
  | none ↦ none
  | some (key, value) ↦ if text_eq key word then some value else none
]

abbrev pub last_value : Text → List Text → Option Text
last_value word [] = none
last_value word (line ∷ rest) = elim (last_value word rest) [
  | none ↦ value_on word line
  | some value ↦ some value
]

abbrev pub read_or : {A : Type 0} → (Text → A) → Option Text → A → A
read_or read none old = old
read_or read (some value) old = read value

max_iterations-key :
    (key : Text) → key_of key ≡ max_iterations → text_eq key (codes "max_iterations") ≡ true
unfolding key_of
max_iterations-key key h = ground arith

key-max_iterations :
    (key : Text) → text_eq key (codes "max_iterations") ≡ true → key_of key ≡ max_iterations
unfolding key_of
key-max_iterations key h = rw ((text_eq_iff key (codes "max_iterations")).0 h) refl

min_iterations-key :
    (key : Text) → key_of key ≡ min_iterations → text_eq key (codes "min_iterations") ≡ true
unfolding key_of
min_iterations-key key h = ground arith

key-min_iterations :
    (key : Text) → text_eq key (codes "min_iterations") ≡ true → key_of key ≡ min_iterations
unfolding key_of
key-min_iterations key h = rw ((text_eq_iff key (codes "min_iterations")).0 h) refl

threads-key : (key : Text) → key_of key ≡ threads → text_eq key (codes "threads") ≡ true
unfolding key_of
threads-key key h = ground arith

key-threads : (key : Text) → text_eq key (codes "threads") ≡ true → key_of key ≡ threads
unfolding key_of
key-threads key h = rw ((text_eq_iff key (codes "threads")).0 h) refl

convergence-key : (key : Text) → key_of key ≡ convergence → text_eq key (codes "convergence") ≡ true
unfolding key_of
convergence-key key h = ground arith

key-convergence : (key : Text) → text_eq key (codes "convergence") ≡ true → key_of key ≡ convergence
unfolding key_of
key-convergence key h = rw ((text_eq_iff key (codes "convergence")).0 h) refl

module _ {D : Type 0} (atof : Text → D) (shift_other : ℤ → ℕ) where
  -- A field that one key alone sets.
  module _ {X : Type 0} (get : RunConfig D → X) (read : Text → X) (word : Text) (k : Key)
      (from_key : (key : Text) → key_of key ≡ k → text_eq key word ≡ true)
      (to_key : (key : Text) → text_eq key word ≡ true → key_of key ≡ k)
      (here : (value : Text) (c : RunConfig D)
        → get (set_config atof shift_other k value c) ≡ read value)
      (keep_it : (j : Key) (value : Text) (c : RunConfig D)
        → j ≢ k
        → get (set_config atof shift_other j value c) ≡ get c) where
    field_step :
        (key value : Text) (c : RunConfig D)
        → get (set_config atof shift_other (key_of key) value c)
          ≡ read_or read (if text_eq key word then some value else none) (get c)
    field_step key value c = elim (Bool-cases (text_eq key word)) [
      | inl set_here ↦ rw (set_here, to_key key set_here) (here value c)
      | inr other ↦
          rw other (keep_it (key_of key) value c (λ e. let set_here = from_key key e in cc))
    ]

    field_on :
        (line : Text) (p : Pending D)
        → get (parse_line atof shift_other line p).config
          ≡ read_or read (value_on word line) (get p.config)
    unfolding parse_line
    field_on line p = elim (Option-cases (setting_of line)) [
      | inl e ↦
          let on : value_on word line ≡ none = rw (value_on, e) refl in rw (on, parse_line, e) refl
      | inr ((key, value), e) ↦
          let on : value_on word line ≡ (if text_eq key word then some value else none) =
            rw (value_on, e) refl in
          rw (on, parse_line, e) (field_step key value p.config)
    ]

    field_last :
        (lines : List Text) (p : Pending D)
        → get (parse_lines atof shift_other lines p).config
          ≡ read_or read (last_value word lines) (get p.config)
    unfolding parse_lines
    field_last [] p = refl
    field_last (line ∷ rest) p =
        let first = field_on line p in
        let others = field_last rest (parse_line atof shift_other line p) in
        elim (Option-cases (last_value word rest)) [
          | inl e ↦ others ∙ rw (e, first) refl
          | inr (value, e) ↦ others ∙ rw e refl
        ]

  keep_max_iterations :
      (k : Key) (value : Text) (c : RunConfig D)
      → k ≢ max_iterations
      → (set_config atof shift_other k value c).max_iterations ≡ c.max_iterations
  unfolding set_config
  keep_max_iterations max_iterations value c ne = absurd (ne refl)
  keep_max_iterations _ value c ne = refl

  keep_min_iterations :
      (k : Key) (value : Text) (c : RunConfig D)
      → k ≢ min_iterations
      → (set_config atof shift_other k value c).min_iterations ≡ c.min_iterations
  unfolding set_config
  keep_min_iterations min_iterations value c ne = absurd (ne refl)
  keep_min_iterations _ value c ne = refl

  keep_threads :
      (k : Key) (value : Text) (c : RunConfig D)
      → k ≢ threads
      → (set_config atof shift_other k value c).num_instances ≡ c.num_instances
  unfolding set_config
  keep_threads threads value c ne = absurd (ne refl)
  keep_threads _ value c ne = refl

  keep_convergence :
      (k : Key) (value : Text) (c : RunConfig D)
      → k ≢ convergence
      → (set_config atof shift_other k value c).convergence_target ≡ c.convergence_target
  unfolding set_config
  keep_convergence convergence value c ne = absurd (ne refl)
  keep_convergence _ value c ne = refl

  -- A configuration file that can be read has the say on the iteration limits, the number of
  -- instances and the convergence target exactly where a line of it sets them, and the last such line
  -- counts; a line sets a key if it is no comment and has the key, without blanks, before its first
  -- '='.
  pub parse_config_last :
      (file : Text) (p : Pending D)
      → let lines = fgets_lines config_line_size file in
        let c = (parse_config atof shift_other (some file) p).1.config in
        (c.min_iterations
          ≡ read_or atoi (last_value (codes "min_iterations") lines) p.config.min_iterations)
        × (c.max_iterations
            ≡ read_or atoi (last_value (codes "max_iterations") lines) p.config.max_iterations)
        × (c.num_instances
            ≡ read_or atoi (last_value (codes "threads") lines) p.config.num_instances)
        × (c.convergence_target
            ≡ read_or atof (last_value (codes "convergence") lines) p.config.convergence_target)
  unfolding parse_config set_config
  parse_config_last file p =
      let lines = fgets_lines config_line_size file in
      (
        field_last (λ c. c.min_iterations) atoi (codes "min_iterations") min_iterations
            min_iterations-key key-min_iterations (λ v c. refl) keep_min_iterations lines p,
        field_last (λ c. c.max_iterations) atoi (codes "max_iterations") max_iterations
            max_iterations-key key-max_iterations (λ v c. refl) keep_max_iterations lines p,
        field_last (λ c. c.num_instances) atoi (codes "threads") threads threads-key key-threads
            (λ v c. refl) keep_threads lines p,
        field_last (λ c. c.convergence_target) atof (codes "convergence") convergence
            convergence-key key-convergence (λ v c. refl) keep_convergence lines p,
      )
