-- ===== src/Main/Listing.antt =====
-- The listing of `--dry-run` in `main` of src/main.c, and how it relates to what a run measures.
use serv_mark.Base.{
  ◌≡◌, ◌∙◌, some, Bool, true, false, not, ◌&&◌, List, [], ◌∷◌, if◌then◌else◌, ltb, length, Text,
  text_eq, arith, refl, keep,
}
use serv_mark.Benchmark.{Benchmark}
use serv_mark.Config.{RunConfig}
use serv_mark.Double.{Double}
use serv_mark.Harness.Run.Selected.{benches, harness_run-selected}
use serv_mark.Result.{Subtest}
use serv_mark.Harness.Run.{
  Machine, harness_run, has_tier, has_category, in_filter, is_named, is_selected,
}

-- The search for the name, with its `break`.
unfoldable pub is_found : List Text → Text → Bool
is_found [] name = false
is_found (n ∷ ns) name = let rest = is_found ns name in if text_eq name n then true else rest

is_found-is_named : (names : List Text) (name : Text) → is_found names name ≡ is_named names name
unfolding is_found is_named
is_found-is_named [] name = refl
is_found-is_named (n ∷ ns) name = rw (is_found-is_named ns name) refl

in_filter_lem :
    (names : List Text) (name : Text)
    → in_filter names name ≡ (if ltb 0 (length names) then is_found names name else true)
unfolding in_filter
in_filter_lem [] name = refl
in_filter_lem (n ∷ ns) name =
    let some_names : ltb 0 (length (n ∷ ns)) ≡ true = ground arith in
    rw (some_names, is_found-is_named (n ∷ ns) name) refl

module _ {D W : Type 0} where
  -- The benchmarks that the listing prints; the first test is `bench_filter_count > 0`.
  unfoldable pub dry_run_listing : List Text → List (Benchmark D W) → List (Benchmark D W)
  dry_run_listing names [] = []
  dry_run_listing names (b ∷ bs) =
      let rest = dry_run_listing names bs in
      if ltb 0 (length names)
      then (if not (is_found names b.name) then rest else b ∷ rest)
      else b ∷ rest

  abbrev pub passes_tier : RunConfig D → Benchmark D W → Bool
  passes_tier config b =
      has_tier config.tier_mask b.tier && has_category config.category_filter b.category

  listing_selected :
      (config : RunConfig D) (benchmarks : List (Benchmark D W))
      → keep (is_selected config) benchmarks
        ≡ keep (passes_tier config) (dry_run_listing config.bench_filter benchmarks)
  unfolding dry_run_listing is_selected
  listing_selected config [] = refl
  listing_selected config (b ∷ bs) =
      let rest = listing_selected config bs in
      let filter = in_filter_lem config.bench_filter b.name in ground (arith, rest, filter)

module _ {D W : Type 0} ⦃d : Double D⦄ where
  -- The subtests of a run whose behaviour is defined are about exactly those benchmarks of the listing
  -- of --dry-run, under the same list of names, whose tier and category the run is configured for, one
  -- for each and in the order of the listing; the listing itself looks at neither.
  pub harness_run-dry_run_listing :
      (machine : Machine D W) (config : RunConfig D) (benchmarks : List (Benchmark D W)) (w w' : W)
      (subtests : List (Subtest D W))
      → harness_run machine config benchmarks w ≡ some (subtests, w')
      → benches subtests
        ≡ keep (passes_tier config) (dry_run_listing config.bench_filter benchmarks)
  harness_run-dry_run_listing machine config benchmarks w w' subtests returned =
      harness_run-selected machine config benchmarks w w' subtests returned
      ∙ listing_selected config benchmarks
