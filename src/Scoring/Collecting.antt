-- ===== src/Scoring/Collecting.antt =====
-- Which subtests the pillars are made of.
use mathlib.Core.List.{append-nil, append_assoc}
use serv_mark.Base.{
  ℕ, leb, length, length-map, ◌≡◌, some, none, ◌∙◌, ap, Bool, false, not, ◌&&◌, List, [], ◌∷◌, ◌++◌,
  arith, refl, map, if◌then◌else◌, Bool-cases, inl, inr, Text, text_eq, text_eq_iff, codes, keep,
}
use serv_mark.Double.{Double, ◌≼◌}
use serv_mark.Result.{Subtest}
use serv_mark.Scoring.{
  Collected, one_of, t_cats, l_cats, e_cats, score_of, appended_if, collect_one, collect,
  nothing_collected, within_places, pillars_of, scoring_compute_pillars,
}
use serv_mark.Stats.{cv_high}

module _ {D W : Type 0} ⦃d : Double D⦄ where
  -- A subtest of one of these categories whose coefficient of variation is not at least 0.10.
  abbrev pub counts_in : List Text → Subtest D W → Bool
  counts_in cats sr = not (cv_high ≼ sr.stats.cv) && one_of cats sr.bench.category

  abbrev pub scores_in : List Text → List (Subtest D W) → List D
  scores_in cats subtests = map score_of (keep (counts_in cats) subtests)

  scores_in-cons :
      (cats : List Text) (sr : Subtest D W) (rest : List (Subtest D W)) (xs : List D)
      → (if cv_high ≼ sr.stats.cv
            then xs
            else appended_if (one_of cats sr.bench.category) (score_of sr) xs)
          ++ scores_in cats rest
        ≡ xs ++ scores_in cats (sr ∷ rest)
  scores_in-cons cats sr rest xs = elim (Bool-cases (cv_high ≼ sr.stats.cv)) [
    | inl high ↦ rw high refl
    | inr low ↦ elim (Bool-cases (one_of cats sr.bench.category)) [
      | inl here ↦ rw (low, here) (append_assoc xs (score_of sr ∷ []) (scores_in cats rest))
      | inr not_here ↦ rw (low, not_here) refl
    ]
  ]

  collect_one-scores :
      (sr : Subtest D W) (c : Collected D)
      → collect_one sr c ≡ record {
        t_scores =
            if cv_high ≼ sr.stats.cv
            then c.t_scores
            else appended_if (one_of t_cats sr.bench.category) (score_of sr) c.t_scores;
        l_scores =
            if cv_high ≼ sr.stats.cv
            then c.l_scores
            else appended_if (one_of l_cats sr.bench.category) (score_of sr) c.l_scores;
        e_scores =
            if cv_high ≼ sr.stats.cv
            then c.e_scores
            else appended_if (one_of e_cats sr.bench.category) (score_of sr) c.e_scores;
      }
  unfolding collect_one
  collect_one-scores sr c = elim (Bool-cases (cv_high ≼ sr.stats.cv)) [
    | inl high ↦ rw high refl
    | inr low ↦ rw low refl
  ]

  -- The loop appends to each array the scores of the subtests of its categories whose coefficient of
  -- variation is not at least 0.10, in the order of the subtests.
  pub collect-scores_in :
      (subtests : List (Subtest D W)) (c : Collected D)
      → collect subtests c ≡ record {
        t_scores = c.t_scores ++ scores_in t_cats subtests;
        l_scores = c.l_scores ++ scores_in l_cats subtests;
        e_scores = c.e_scores ++ scores_in e_cats subtests;
      }
  unfolding collect
  collect-scores_in [] c = simp append-nil
  collect-scores_in (sr ∷ rest) c =
      collect-scores_in rest (collect_one sr c)
      ∙ rw (collect_one-scores, scores_in-cons t_cats, scores_in-cons l_cats, scores_in-cons e_cats)

  -- The scores of the three pillars.
  abbrev pub all_scores : List (Subtest D W) → Collected D
  all_scores subtests = record {
    t_scores = scores_in t_cats subtests;
    l_scores = scores_in l_cats subtests;
    e_scores = scores_in e_cats subtests;
  }

  abbrev pub count_in : List Text → List (Subtest D W) → ℕ
  count_in cats subtests = length (keep (counts_in cats) subtests)

  -- At most 64 subtests count in each pillar.
  abbrev pub few_in_each : List (Subtest D W) → Bool
  few_in_each subtests =
      leb (count_in t_cats subtests) 64
      && leb (count_in l_cats subtests) 64
      && leb (count_in e_cats subtests) 64

  within_places-all_scores :
      (subtests : List (Subtest D W)) → within_places (all_scores subtests) ≡ few_in_each subtests
  within_places-all_scores subtests =
      rw
        (
          length-map (keep (counts_in t_cats) subtests) score_of,
          length-map (keep (counts_in l_cats) subtests) score_of,
          length-map (keep (counts_in e_cats) subtests) score_of,
        )
        refl

  of_all_scores :
      (subtests : List (Subtest D W))
      → scoring_compute_pillars subtests ≡ (
          if within_places (all_scores subtests)
          then some (pillars_of (all_scores subtests))
          else none)
  unfolding scoring_compute_pillars
  of_all_scores subtests =
      ap (λ c. if within_places c then some (pillars_of c) else none)
        (collect-scores_in subtests nothing_collected)

  -- The function writes behind one of its arrays exactly if more than 64 subtests count in a pillar, and
  -- else each pillar is computed from the scores of exactly the subtests of its own categories whose
  -- coefficient of variation is not at least 0.10, in their order, a score of at most 0 taken as 1.
  pub scoring_compute_pillars_lem :
      (subtests : List (Subtest D W))
      → scoring_compute_pillars subtests
        ≡ (if few_in_each subtests then some (pillars_of (all_scores subtests)) else none)
  scoring_compute_pillars_lem subtests =
      of_all_scores subtests
      ∙ ap (λ b. if b then some (pillars_of (all_scores subtests)) else none)
          (within_places-all_scores subtests)

  abbrev pub is_script : Subtest D W → Bool
  is_script sr = text_eq sr.bench.category (codes "C9")

  scores_in_script :
      (cats : List Text)
      → one_of cats (codes "C9") ≡ false
      → (subtests : List (Subtest D W))
      → scores_in cats (keep (λ sr. not (is_script sr)) subtests) ≡ scores_in cats subtests
  scores_in_script cats apart [] = refl
  scores_in_script cats apart (sr ∷ rest) = elim (Bool-cases (is_script sr)) [
    | inl script ↦
        let out : one_of cats sr.bench.category ≡ false =
          ap (one_of cats) ((text_eq_iff sr.bench.category (codes "C9")).0 script) ∙ apart in
        ground (arith, scores_in_script cats apart rest)
    | inr other ↦ ground (arith, scores_in_script cats apart rest)
  ]

  -- Subtests of the category of scripts and language runtimes change no pillar, whatever they measured.
  pub scoring_compute_pillars_script :
      (subtests : List (Subtest D W))
      → scoring_compute_pillars (keep (λ sr. not (is_script sr)) subtests)
        ≡ scoring_compute_pillars subtests
  scoring_compute_pillars_script subtests = rw (
    of_all_scores,
    of_all_scores,
    scores_in_script t_cats refl,
    scores_in_script l_cats refl,
    scores_in_script e_cats refl,
  )
