-- ===== src/Scoring.antt =====
-- src/core/scoring.c: the category table, the scores and the three pillars.
pub mod Collecting
use serv_mark.Base.{
  ℕ, ◌+◌, Bool, true, false, not, ◌||◌, ◌&&◌, leb, length, Option, none, some, List, [], ◌∷◌, ◌++◌,
  if◌then◌else◌, Text, text_eq, codes, ℤ, pos,
}
use serv_mark.Double.{Double, ◌⊕◌, ◌⊖◌, ◌⊗◌, ◌⊘◌, ◌≺◌, ◌≼◌, nought, one}
use serv_mark.Result.{Subtest}
use serv_mark.Stats.{cv_high, stats_geometric_mean}

-- `category_weight_t`. The weight is in hundredths.
pub record CategoryWeight : Type 0 where
  pub id : Text
  pub name : Text
  pub weight : ℕ
  pub group : Text

abbrev category : Text → Text → ℕ → Text → CategoryWeight
category id name weight group = record { id = id; name = name; weight = weight; group = group }

-- `_categories`, with a name's characters as code points.
unfoldable pub scoring_get_categories : List CategoryWeight
scoring_get_categories =
    category (codes "C1") (codes "整数计算") 12 (codes "cpu")
    ∷ category (codes "C2") (codes "浮点与向量计算") 10 (codes "cpu")
    ∷ category (codes "C3") (codes "压缩与加密") 8 (codes "cpu")
    ∷ category (codes "C4") (codes "内存层次与带宽") 8 (codes "memory")
    ∷ category (codes "C5") (codes "NUMA拓扑与远端访问") 5 (codes "memory")
    ∷ category (codes "C6") (codes "进程创建与生命周期") 8 (codes "process")
    ∷ category (codes "C7") (codes "并发同步与锁竞争") 7 (codes "process")
    ∷ category (codes "C8") (codes "上下文切换") 5 (codes "process")
    ∷ category (codes "C9") (codes "脚本与语言运行时") 5 (codes "process")
    ∷ category (codes "C10") (codes "文件I/O") 10 (codes "io")
    ∷ category (codes "C11") (codes "管道与本地IPC") 5 (codes "io")
    ∷ category (codes "C12") (codes "系统调用开销") 5 (codes "io")
    ∷ category (codes "C13") (codes "网络栈") 7 (codes "net_virt")
    ∷ category (codes "C14") (codes "虚拟化开销") 3 (codes "net_virt")
    ∷ category (codes "C15") (codes "容器开销与密度") 2 (codes "net_virt")
    ∷ []

-- The loops over `t_cats`, `l_cats` and `e_cats`.
abbrev pub one_of : List Text → Text → Bool
one_of [] c = false
one_of (t ∷ ts) c = text_eq c t || one_of ts c

abbrev pub t_cats : List Text
t_cats = codes "C1" ∷ codes "C2" ∷ codes "C3" ∷ codes "C4" ∷ codes "C10" ∷ codes "C13" ∷ []

abbrev pub l_cats : List Text
l_cats = codes "C6" ∷ codes "C7" ∷ codes "C8" ∷ codes "C11" ∷ codes "C12" ∷ []

abbrev pub e_cats : List Text
e_cats = codes "C5" ∷ codes "C14" ∷ codes "C15" ∷ []

-- `t_scores`, `l_scores` and `e_scores` with their counts.
pub record Collected (D : Type 0) : Type 0 where
  pub t_scores : List D
  pub l_scores : List D
  pub e_scores : List D

-- `*throughput`, `*latency` and `*efficiency`
pub record Pillars (D : Type 0) : Type 0 where
  pub throughput : D
  pub latency : D
  pub efficiency : D

-- The places of each of the three arrays.
abbrev pub score_places : ℕ
score_places = 64

-- No count has gone past its array. The counts only grow, so a loop that ends so never wrote behind one.
abbrev pub within_places : {D : Type 0} → Collected D → Bool
within_places c =
    leb (length c.t_scores) score_places
    && leb (length c.l_scores) score_places
    && leb (length c.e_scores) score_places

abbrev pub nothing_collected : {D : Type 0} → Collected D
nothing_collected = record { t_scores = []; l_scores = []; e_scores = [] }

abbrev pub appended_if : {D : Type 0} → Bool → D → List D → List D
appended_if b s scores = if b then scores ++ (s ∷ []) else scores

module _ {D W : Type 0} ⦃d : Double D⦄ where
  -- `score = normalized_score; if (score <= 0) score = 1.0;`
  abbrev pub score_of : Subtest D W → D
  score_of sr = if sr.normalized_score ≼ nought then one else sr.normalized_score

  -- One round of the loop over the subtests.
  unfoldable pub collect_one : Subtest D W → Collected D → Collected D
  collect_one sr c = if cv_high ≼ sr.stats.cv then c else record {
    t_scores = appended_if (one_of t_cats sr.bench.category) (score_of sr) c.t_scores;
    l_scores = appended_if (one_of l_cats sr.bench.category) (score_of sr) c.l_scores;
    e_scores = appended_if (one_of e_cats sr.bench.category) (score_of sr) c.e_scores;
  }

  unfoldable pub collect : List (Subtest D W) → Collected D → Collected D
  unfolding collect_one
  collect [] c = c
  collect (sr ∷ rest) c = collect rest (collect_one sr c)

module _ {D : Type 0} ⦃d : Double D⦄ where
  open d use {lit, of_int, log, exp}

  -- The sums `w_log` and `w_sum`; `term` is what a score adds to the former.
  unfoldable pub weigh : (D → D) → D × D → List D → D × D
  weigh term sums [] = sums
  weigh term sums (s ∷ rest) =
      weigh term (if nought ≺ s then (sums.0 ⊕ term s, sums.1 ⊕ one) else sums) rest

  abbrev pub mean_of_sums : D × D → D
  mean_of_sums (w_log, w_sum) = if nought ≺ w_sum then exp (w_log ⊘ w_sum) else one

  -- A pillar of no scores is 1.
  unfoldable pub pillar : (D → D) → List D → D
  unfolding weigh
  pillar term [] = one
  pillar term (s ∷ rest) = mean_of_sums (weigh term (nought, nought) (s ∷ rest))

  unfoldable pub pillars_of : Collected D → Pillars D
  unfolding pillar
  pillars_of c = record {
    throughput = pillar (λ s. one ⊗ log s) c.t_scores;
    latency = pillar (λ s. log s) c.l_scores;
    efficiency = pillar (λ s. log s) c.e_scores;
  }

  unfoldable pub scoring_overall_score : D → D → D → D
  scoring_overall_score t l e = stats_geometric_mean (t ∷ l ∷ e ∷ [])

  unfoldable pub scoring_normalize : D → D → D
  scoring_normalize raw baseline = if nought ≺ baseline then raw ⊘ baseline else one

  unfoldable pub scoring_compute_baseline : List D → D
  scoring_compute_baseline = stats_geometric_mean

  unfoldable pub scoring_category_score : List D → D
  scoring_category_score = stats_geometric_mean

  unfoldable pub scoring_mitigation_tax : D → D → D
  scoring_mitigation_tax mitigated unmitigated =
      if unmitigated ≼ nought then nought else mitigated ⊘ unmitigated ⊖ one

  unfoldable pub scoring_thermal_derating : D → D → D
  scoring_thermal_derating sustained peak = if peak ≼ nought then one else sustained ⊘ peak

  unfoldable pub scoring_estimate_runtime : ℤ → Bool → D
  scoring_estimate_runtime subtest_count peak_mode =
      of_int subtest_count ⊗ (if peak_mode then lit 60 1 else lit 45 1) ⊘ lit 60 1
      ⊕ (if peak_mode then lit 6 1 else nought)

module _ {D W : Type 0} ⦃d : Double D⦄ where
  -- `none` is a write behind one of the arrays.
  unfoldable pub scoring_compute_pillars : List (Subtest D W) → Option (Pillars D)
  unfolding collect pillars_of
  scoring_compute_pillars subtests =
      let collected = collect subtests nothing_collected in
      if within_places collected then some (pillars_of collected) else none
