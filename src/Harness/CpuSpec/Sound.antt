-- ===== src/Harness/CpuSpec/Sound.antt =====
-- The CPUs of an explicit list are those that its tokens name.
use serv_mark.Base.Member.{Member, Member-append_left, Member-append_right}
use serv_mark.Base.Scan.{Scanned, range, single, nothing, tokens}
use serv_mark.Base.{
  ℕ, zero, suc, ◌-◌, ◌≡◌, ◌≤◌, ◌<◌, ◌⊎◌, inl, inr, true, false, ◌&&◌, List, [], ◌∷◌, arith, refl,
  Bool-cases, ℤ, pos, ◌+ℤ◌, ◌≤ℤ◌, leb_ℤ, ltb_ℤ, length, length-append, Text, text_eq, codes, some,
  ◌≢◌, All, All-append, All-map,
}
use serv_mark.Harness.CpuSpec.{
  push_range, token_cpus, scan_token, explicit_cpus, max_pins, NodeFile, parse_spec,
  harness_parse_cpu_spec, is_comma, listed,
}

-- The CPUs that a token names.
abbrev pub Names : Scanned → ℤ → Type 0
Names (range start end) c = (start ≤ℤ c) × (c ≤ℤ end)
Names (single start) c = (c ≡ start) × (pos 0 ≤ℤ c)
Names nothing c = ⊥

-- `c < ncpu`
abbrev pub Below : ℤ → ℤ → Type 0
Below ncpu c = ltb_ℤ c ncpu ≡ true

push_range_sound :
    (ncpu end : ℤ) (room : ℕ) (c : ℤ)
    → All (λ x. (c ≤ℤ x) × (x ≤ℤ end) × Below ncpu x) (push_range ncpu end room c)
unfolding push_range
push_range_sound ncpu end zero c = tt
push_range_sound ncpu end (suc room) c = elim (Bool-cases (leb_ℤ c end && ltb_ℤ c ncpu)) [
  | inl ok ↦ rw ok (
    ground arith,
    All-map (λ x h. ground arith) (push_range ncpu end room (c +ℤ pos 1))
        (push_range_sound ncpu end room (c +ℤ pos 1)),
  )
  | inr bad ↦ rw bad tt
]

push_range-length : (ncpu end : ℤ) (room : ℕ) (c : ℤ) → length (push_range ncpu end room c) ≤ room
unfolding push_range
push_range-length ncpu end zero c = omega arith
push_range-length ncpu end (suc room) c =
    ground (arith, push_range-length ncpu end room (c +ℤ pos 1))

token_cpus_sound :
    (ncpu : ℤ) (room : ℕ) (t : Scanned)
    → All (λ x. Names t x × Below ncpu x) (token_cpus ncpu room t)
unfolding token_cpus
token_cpus_sound ncpu room (range start end) =
    All-map (λ x h. ((h.0, h.1), h.2)) (push_range ncpu end room start)
      (push_range_sound ncpu end room start)
token_cpus_sound ncpu room (single start) =
    elim (Bool-cases (leb_ℤ (pos 0) start && ltb_ℤ start ncpu)) [
      | inl ok ↦ rw ok (((refl, ground arith), ground arith), tt)
      | inr bad ↦ rw bad tt
    ]
token_cpus_sound ncpu room nothing = tt

token_cpus-length :
    (ncpu : ℤ) (room : ℕ) (t : Scanned) → length (token_cpus ncpu (suc room) t) ≤ suc room
unfolding token_cpus
token_cpus-length ncpu room (range start end) = push_range-length ncpu end (suc room) start
token_cpus-length ncpu room (single start) = ground arith
token_cpus-length ncpu room nothing = omega arith

-- Some token of the list names the CPU.
abbrev pub Named : List Text → ℤ → Type 0
Named [] c = ⊥
Named (tok ∷ toks) c = Names (scan_token tok) c ⊎ Named toks c

-- Every CPU of an explicit list exists and is named by a token, and the list fits its 512 places.
-- (The order `c < ncpu` is that of integers: it bounds a CPU from above only.)
pub explicit_cpus_sound :
    (ncpu : ℤ) (room : ℕ) (toks : List Text)
    → All (λ c. Named toks c × Below ncpu c) (explicit_cpus ncpu room toks)
      × (length (explicit_cpus ncpu room toks) ≤ room)
unfolding explicit_cpus
explicit_cpus_sound ncpu zero toks = (tt, omega arith)
explicit_cpus_sound ncpu (suc room) [] = (tt, omega arith)
explicit_cpus_sound ncpu (suc room) (tok ∷ toks) =
    let found = token_cpus ncpu (suc room) (scan_token tok) in
    let rest = explicit_cpus ncpu (suc room - length found) toks in
    let (sound, bounded) = explicit_cpus_sound ncpu (suc room - length found) toks in
    (
      All-append (λ c. Named (tok ∷ toks) c × Below ncpu c) found rest
          (All-map (λ c h. (inl h.0, h.1)) found
            (token_cpus_sound ncpu (suc room) (scan_token tok)))
          (All-map (λ c h. (inr h.0, h.1)) rest sound),
      omega (arith, token_cpus-length ncpu room (scan_token tok), length-append found rest),
    )

next_or_eq : (c x : ℤ) → c ≤ℤ x → (x ≡ c) ⊎ ((c +ℤ pos 1) ≤ℤ x)
next_or_eq c x h = ground arith

push_range_complete :
    (ncpu end : ℤ) (room : ℕ) (c x : ℤ)
    → length (push_range ncpu end room c) < room
    → c ≤ℤ x
    → x ≤ℤ end
    → Below ncpu x
    → Member x (push_range ncpu end room c)
unfolding push_range
push_range_complete ncpu end zero c x h lo hi b = absurd (omega arith)
push_range_complete ncpu end (suc room) c x h lo hi b =
    elim (Bool-cases (leb_ℤ c end && ltb_ℤ c ncpu)) [
      | inl ok ↦
          let shorter : suc (suc (length (push_range ncpu end room (c +ℤ pos 1)))) ≤ suc room =
            rw ok at h in
          rw ok (elim (next_or_eq c x lo) [
            | inl e ↦ inl e
            | inr next ↦
                inr (push_range_complete ncpu end room (c +ℤ pos 1) x (omega arith) next hi b)
          ])
      | inr bad ↦ absurd (ground arith)
    ]

token_cpus_complete :
    (ncpu : ℤ) (room : ℕ) (t : Scanned) (x : ℤ)
    → length (token_cpus ncpu room t) < room
    → Names t x
    → Below ncpu x
    → Member x (token_cpus ncpu room t)
unfolding token_cpus
token_cpus_complete ncpu room (range start end) x h n b =
    push_range_complete ncpu end room start x h n.0 n.1 b
token_cpus_complete ncpu room (single start) x h n b =
    elim (Bool-cases (leb_ℤ (pos 0) start && ltb_ℤ start ncpu)) [
      | inl ok ↦ rw ok (inl n.0)
      | inr bad ↦ absurd (ground arith)
    ]
token_cpus_complete ncpu room nothing x h n b = absurd n

-- Unless an explicit list uses up its places, it holds every CPU below the number of CPUs that one of
-- its tokens names.
pub explicit_cpus_complete :
    (ncpu : ℤ) (room : ℕ) (toks : List Text) (x : ℤ)
    → length (explicit_cpus ncpu room toks) < room
    → Named toks x
    → Below ncpu x
    → Member x (explicit_cpus ncpu room toks)
unfolding explicit_cpus
explicit_cpus_complete ncpu zero toks x h n b = absurd (omega arith)
explicit_cpus_complete ncpu (suc room) [] x h n b = absurd n
explicit_cpus_complete ncpu (suc room) (tok ∷ toks) x h (inl n) b =
    let found = token_cpus ncpu (suc room) (scan_token tok) in
    let rest = explicit_cpus ncpu (suc room - length found) toks in
    Member-append_left x found rest (
      token_cpus_complete ncpu (suc room) (scan_token tok) x
        (omega (arith, length-append found rest)) n b)
explicit_cpus_complete ncpu (suc room) (tok ∷ toks) x h (inr n) b =
    let found = token_cpus ncpu (suc room) (scan_token tok) in
    let rest = explicit_cpus ncpu (suc room - length found) toks in
    Member-append_right x found rest (
      explicit_cpus_complete ncpu (suc room - length found) toks x
        (omega (arith, length-append found rest)) n b)

-- A specification that is none of the keywords.
pub record IsExplicit (spec : Text) : Type 0 where
  pub some_text : spec ≢ []
  pub not_auto : text_eq spec (codes "auto") ≡ false
  pub not_all : text_eq spec (codes "auto-all") ≡ false
  pub not_numa : text_eq spec (codes "auto-numa") ≡ false

explicit_list :
    (ncpu : ℕ) (nodes : ℕ → NodeFile) (spec : Text)
    → IsExplicit spec
    → harness_parse_cpu_spec ncpu nodes true (some spec)
      ≡ listed (explicit_cpus (pos ncpu) max_pins (tokens is_comma spec))
unfolding harness_parse_cpu_spec parse_spec
explicit_list ncpu nodes [] e = absurd (e.some_text refl)
explicit_list ncpu nodes (c ∷ cs) e = rw (e.not_auto, e.not_all, e.not_numa) refl

-- For a specification other than the keywords, and with memory at hand, the parser returns a list of
-- at most 512 CPUs with its length. Every CPU of the list is below the number of CPUs and named by one
-- of the comma-separated tokens, as a single number from 0 up or in a range; and if the list is
-- shorter than 512, every CPU below the number of CPUs that a token names is in it.
pub harness_parse_cpu_spec_explicit :
    (ncpu : ℕ) (nodes : ℕ → NodeFile) (spec : Text)
    → IsExplicit spec
    → (list : List ℤ) × (harness_parse_cpu_spec ncpu nodes true (some spec)
        ≡ (some list, pos (length list)))
      × All (λ c. Named (tokens is_comma spec) c × Below (pos ncpu) c) list
      × (length list ≤ max_pins)
      × (length list < max_pins
          → (c : ℤ) → Named (tokens is_comma spec) c
          → Below (pos ncpu) c
          → Member c list)
harness_parse_cpu_spec_explicit ncpu nodes spec e =
    let toks = tokens is_comma spec in
    let sound = explicit_cpus_sound (pos ncpu) max_pins toks in
    (
      explicit_cpus (pos ncpu) max_pins toks,
      explicit_list ncpu nodes spec e,
      sound.0,
      sound.1,
      λ h c n b. explicit_cpus_complete (pos ncpu) max_pins toks c h n b,
    )
