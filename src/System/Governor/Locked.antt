-- ===== src/System/Governor/Locked.antt =====
-- What the first loop of a lock leaves of a CPU: its governor is saved, or the loop did not reach it.
use serv_mark.Base.{
  ℕ, zero, suc, ◌+◌, ◌≡◌, ◌≢◌, ◌≤◌, ◌<◌, ◌⊎◌, inl, inr, true, Option, some, List, [], ◌∷◌, ◌==◌,
  arith, refl, ap, ◌∙◌, Bool-cases, Text, Lacks, length, set, get_or, take, length-set, take-all,
}
use serv_mark.Base.Fgets.{with_newline}
use serv_mark.System.Lines.{first_line-line, chomp-with_newline}
use serv_mark.System.Governor.{
  Cpufreq, Frequency, update, read_governor, save_governor, performance, lock_governors, lock_at,
}

-- The name of a governor that the buffers can hold.
abbrev pub IsName : Text → Type 0
IsName [] = ⊥
IsName (c ∷ cs) = Lacks 10 (c ∷ cs) × (length cs < 30)

read_governor-name : (name : Text) → IsName name → read_governor (some (with_newline name)) ≡ name
unfolding read_governor
read_governor-name [] h = absurd h
read_governor-name (c ∷ cs) (one_line, short) =
    let whole = first_line-line 32 (c ∷ cs) one_line (omega arith) in
    rw (read_governor, whole) (chomp-with_newline (c ∷ cs))

get_or-set_self :
    (xs : List Text) (i : ℕ) (v o : Text) → i < length xs → get_or (set xs i v) i o ≡ v
get_or-set_self [] i v o h = absurd (omega arith)
get_or-set_self (x ∷ xs) zero v o h = refl
get_or-set_self (x ∷ xs) (suc i) v o h = get_or-set_self xs i v o (omega arith)

get_or-set_ne :
    (xs : List Text) (i j : ℕ) (v o : Text) → i ≢ j → get_or (set xs i v) j o ≡ get_or xs j o
get_or-set_ne [] i j v o ne = refl
get_or-set_ne (x ∷ xs) zero zero v o ne = absurd (ne refl)
get_or-set_ne (x ∷ xs) zero (suc j) v o ne = refl
get_or-set_ne (x ∷ xs) (suc i) zero v o ne = refl
get_or-set_ne (x ∷ xs) (suc i) (suc j) v o ne = get_or-set_ne xs i j v o (λ e. ne (ap suc e))

pub length-save_governor :
    (text : Text) (cpu : ℕ) (saved : List Text)
    → length (save_governor text cpu saved) ≡ length saved
length-save_governor [] cpu saved = refl
length-save_governor (c ∷ cs) cpu saved = length-set saved cpu (take 31 (c ∷ cs))

save_governor-name :
    (name : Text) (cpu : ℕ) (saved : List Text)
    → IsName name
    → cpu < length saved
    → get_or (save_governor name cpu saved) cpu [] ≡ name
save_governor-name [] cpu saved h k = absurd h
save_governor-name (c ∷ cs) cpu saved h k =
    get_or-set_self saved cpu (take 31 (c ∷ cs)) [] k ∙ take-all 31 (c ∷ cs) (omega (arith, h.1))

save_governor-ne :
    (text : Text) (cpu j : ℕ) (saved : List Text)
    → cpu ≢ j
    → get_or (save_governor text cpu saved) j [] ≡ get_or saved j []
save_governor-ne [] cpu j saved ne = refl
save_governor-ne (c ∷ cs) cpu j saved ne = get_or-set_ne saved cpu j (take 31 (c ∷ cs)) [] ne

pub update_ne :
    (files : ℕ → Option Text) (cpu j : ℕ) (text : Text)
    → cpu ≢ j
    → update files cpu text j ≡ files j
update_ne files cpu j text ne = ground arith

pub update_self :
    (files : ℕ → Option Text) (cpu : ℕ) (text : Text) → update files cpu text cpu ≡ some text
update_self files cpu text = ground arith

pub lock_governors-before :
    (n cpu j : ℕ) (s : Frequency)
    → j < cpu
    → (get_or (lock_governors n cpu s).saved j [] ≡ get_or s.saved j [])
      × ((lock_governors n cpu s).cpus.governor j ≡ s.cpus.governor j)
unfolding lock_governors
lock_governors-before zero cpu j s h = (refl, refl)
lock_governors-before (suc n) cpu j s h =
    let other : cpu ≢ j = omega arith in
    let kept = save_governor-ne (read_governor (s.cpus.governor cpu)) cpu j s.saved other in
    elim (Bool-cases (s.cpus.governor_opens cpu)) [
      | inl opens ↦
          let rest = lock_governors-before n (cpu + 1) j (lock_at cpu s) (omega arith) in
          rw (lock_governors, opens)
            (rest.0 ∙ kept, rest.1 ∙ update_ne s.cpus.governor cpu j performance other)
      | inr shut ↦ rw (lock_governors, shut) (kept, refl)
    ]

lock_governors-count :
    (n cpu : ℕ) (s : Frequency) → s.saved_count ≤ (lock_governors n cpu s).saved_count
unfolding lock_governors
lock_governors-count zero cpu s = omega arith
lock_governors-count (suc n) cpu s = elim (Bool-cases (s.cpus.governor_opens cpu)) [
  | inl opens ↦
      rw (lock_governors, opens) (omega (arith, lock_governors-count n (cpu + 1) (lock_at cpu s)))
  | inr shut ↦ rw (lock_governors, shut) (omega arith)
]

pub lock_governors-opens :
    (n cpu : ℕ) (s : Frequency)
    → (lock_governors n cpu s).cpus.governor_opens ≡ s.cpus.governor_opens
unfolding lock_governors
lock_governors-opens zero cpu s = refl
lock_governors-opens (suc n) cpu s = elim (Bool-cases (s.cpus.governor_opens cpu)) [
  | inl opens ↦ rw (lock_governors, opens) (lock_governors-opens n (cpu + 1) (lock_at cpu s))
  | inr shut ↦ rw (lock_governors, shut) refl
]

-- A file that is open for writing holds the name of a governor on a line.
abbrev pub Holds : ℕ → Text → Cpufreq → Type 0
Holds j name c = c.governor_opens j ≡ true → (c.governor j ≡ some (with_newline name)) × IsName name

-- After the first loop: CPU `j` is locked and its governor saved, or the loop did not reach it.
abbrev pub IsLocked : ℕ → Text → Frequency → Type 0
IsLocked j name s =
    (j < s.saved_count) × (s.cpus.governor_opens j ≡ true) × (get_or s.saved j [] ≡ name)

abbrev pub IsPassed : ℕ → Frequency → Frequency → Type 0
IsPassed j s s' = (s'.saved_count ≤ j) × (s'.cpus.governor j ≡ s.cpus.governor j)

IsLocked-here :
    (n cpu : ℕ) (name : Text) (s : Frequency)
    → s.saved_count ≡ cpu
    → cpu < length s.saved
    → Holds cpu name s.cpus
    → s.cpus.governor_opens cpu ≡ true
    → IsLocked cpu name (lock_governors n (cpu + 1) (lock_at cpu s))
IsLocked-here n cpu name s count room holds opens =
    let (line, is_name) = holds opens in
    let same : read_governor (s.cpus.governor cpu) ≡ name =
      rw line (read_governor-name name is_name) in
    let kept = (lock_governors-before n (cpu + 1) cpu (lock_at cpu s) (omega arith)).0 in
    (
      omega (arith, lock_governors-count n (cpu + 1) (lock_at cpu s)),
      rw (lock_governors-opens n (cpu + 1) (lock_at cpu s)) opens,
      kept ∙ rw same (save_governor-name name cpu s.saved is_name room),
    )

lock_at-Holds :
    (cpu j : ℕ) (name : Text) (s : Frequency)
    → cpu ≢ j
    → Holds j name s.cpus
    → Holds j name (lock_at cpu s).cpus
lock_at-Holds cpu j name s other holds opens =
    let (line, is_name) = holds opens in
    (update_ne s.cpus.governor cpu j performance other ∙ line, is_name)

IsPassed-lock_at :
    (cpu j : ℕ) (name : Text) (s s' : Frequency)
    → cpu ≢ j
    → IsLocked j name s' ⊎ IsPassed j (lock_at cpu s) s'
    → IsLocked j name s' ⊎ IsPassed j s s'
IsPassed-lock_at cpu j name s s' other (inl locked) = inl locked
IsPassed-lock_at cpu j name s s' other (inr (after, same)) =
    inr (after, same ∙ update_ne s.cpus.governor cpu j performance other)

pub lock_governors-at :
    (n cpu j : ℕ) (name : Text) (s : Frequency)
    → s.saved_count ≡ cpu
    → cpu ≤ j
    → j < length s.saved
    → Holds j name s.cpus
    → IsLocked j name (lock_governors n cpu s) ⊎ IsPassed j s (lock_governors n cpu s)
unfolding lock_governors
lock_governors-at zero cpu j name s count after room holds = inr (omega arith, refl)
lock_governors-at (suc n) cpu j name s count after room holds =
    let s1 = lock_at cpu s in
    elim (Bool-cases (s.cpus.governor_opens cpu)) [
      | inr shut ↦ rw (lock_governors, shut) (inr (omega arith, refl))
      | inl opens ↦ elim (Bool-cases (cpu == j)) [
        | inl here ↦
            let same : cpu ≡ j = ground arith in
            rw (lock_governors, opens, ← same)
              (inl (IsLocked-here n cpu name s count (omega arith) (rw same holds) opens))
        | inr later ↦
            let other : cpu ≢ j = ground arith in
            let size : length s1.saved ≡ length s.saved =
              length-save_governor (read_governor (s.cpus.governor cpu)) cpu s.saved in
            rw (lock_governors, opens)
              (IsPassed-lock_at cpu j name s (lock_governors n (cpu + 1) s1) other (
                lock_governors-at n (cpu + 1) j name s1 (omega arith) (omega arith) (omega arith)
                  (lock_at-Holds cpu j name s other holds)))
      ]
    ]
