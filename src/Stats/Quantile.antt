-- ===== src/Stats/Quantile.antt =====
-- The t distribution in src/core/stats.c: `beta_inc`, `t_dist_cdf` and `t_dist_quantile`, with lgamma
-- of the C library as an argument. The initial guess of the quantile, which nothing reads, is left
-- out, and so is the product `f` of the fraction.
use serv_mark.Base.{ℕ, zero, suc, ◌+◌, ◌*◌, Bool, ◌||◌, if◌then◌else◌, negsuc}
use serv_mark.Double.{Double, ◌⊕◌, ◌⊖◌, ◌⊗◌, ◌⊘◌, ◌≺◌, ◌≼◌, nought, one}
use serv_mark.Stats.{of_count}

-- `c`, `d` and `h` of the continued fraction.
pub record Fraction (D : Type 0) : Type 0 where
  pub num : D
  pub den : D
  pub acc : D

module _ {D : Type 0} ⦃d : Double D⦄ where
  open d use {lit, of_int, eq, fabs, log, exp}

  abbrev pub negated : D → D
  negated x = of_int (negsuc 0) ⊗ x

  -- `1e-30`
  abbrev pub smallest : D
  smallest = lit 1 (1_000_000_000_000_000 * 1_000_000_000_000_000)

  abbrev pub away_from_zero : D → D
  away_from_zero x = if fabs x ≺ smallest then smallest else x

  -- A half of a round: a coefficient is taken in. The second field is `d * c`.
  abbrev pub take_in : D → Fraction D → Fraction D × D
  take_in aa s =
      let den = one ⊘ away_from_zero (one ⊕ aa ⊗ s.den) in
      let num = away_from_zero (one ⊕ aa ⊘ s.num) in
      (record { num = num; den = den; acc = s.acc ⊗ (den ⊗ num) }, den ⊗ num)

  abbrev pub even_term : D → D → D → ℕ → D
  even_term a b x m =
      of_count m ⊗ (b ⊖ of_count m) ⊗ x ⊘ ((a ⊕ of_count (2 * m) ⊖ one) ⊗ (a ⊕ of_count (2 * m)))

  abbrev pub odd_term : D → D → D → ℕ → D
  odd_term a b x m =
      negated (a ⊕ of_count m)
      ⊗ (a ⊕ b ⊕ of_count m)
      ⊗ x
      ⊘ ((a ⊕ of_count (2 * m)) ⊗ (a ⊕ of_count (2 * m) ⊕ one))

  -- The rounds from `m` on, `left` of them; the result is `h`.
  unfoldable pub fraction_loop : D → D → D → ℕ → ℕ → Fraction D → D
  fraction_loop a b x zero m s = s.acc
  fraction_loop a b x (suc left) m s =
      let s1 = (take_in (even_term a b x m) s).0 in
      let (s2, del) = take_in (odd_term a b x m) s1 in
      let rest = fraction_loop a b x left (m + 1) s2 in
      if fabs (del ⊖ one) ≺ lit 3 10_000_000 then s2.acc else rest

  unfoldable pub beta_inc : (D → D) → D → D → D → D
  unfolding fraction_loop
  beta_inc lgamma a b x =
      let log_beta = lgamma a ⊕ lgamma b ⊖ lgamma (a ⊕ b) in
      let front = exp (log a ⊕ log x ⊕ b ⊗ log (one ⊖ x) ⊖ log a ⊖ log_beta) in
      let den = one ⊘ away_from_zero (one ⊖ (a ⊕ b) ⊗ x ⊘ (a ⊕ one)) in
      let h = fraction_loop a b x 200 1 (record { num = one; den = den; acc = den }) in
      if (x ≺ nought) || (one ≺ x)
      then nought
      else if eq x nought || eq x one
      then x
      else front ⊗ (h ⊖ one)

  unfoldable pub t_dist_cdf : (D → D) → D → D → D
  t_dist_cdf lgamma t df =
      let ib = beta_inc lgamma (df ⊘ lit 2 1) (lit 1 2) (df ⊘ (df ⊕ t ⊗ t)) in
      if nought ≼ t then one ⊖ lit 1 2 ⊗ ib else lit 1 2 ⊗ ib

  abbrev pub middle : D → D → D
  middle lo hi = (lo ⊕ hi) ⊘ lit 2 1

  -- The bisection, `left` rounds of it.
  unfoldable pub bisect : (D → Bool) → ℕ → D → D → D
  bisect is_low zero lo hi = middle lo hi
  bisect is_low (suc left) lo hi =
      let mid = middle lo hi in
      let lo' = if is_low mid then mid else lo in
      let hi' = if is_low mid then hi else mid in
      let rest = bisect is_low left lo' hi' in
      if (hi' ⊖ lo') ≺ lit 1 1_000_000 then middle lo' hi' else rest

  unfoldable pub t_dist_quantile : (D → D) → D → D → D
  unfolding bisect
  t_dist_quantile lgamma alpha df =
      let target = one ⊖ alpha ⊘ lit 2 1 in
      if df ≼ nought
      then lit 196 100
      else bisect (λ mid. t_dist_cdf lgamma mid df ≺ target) 50 nought (lit 10 1)
