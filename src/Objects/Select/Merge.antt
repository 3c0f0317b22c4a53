-- ===== src/Objects/Select/Merge.antt =====
-- `selectCompared` over fixed trees: a reference with no store and no cache, and the refinement.
use treevial.Prelude.{
  ℕ, zero, suc, Bool, true, false, ◌||◌, List, [], ◌∷◌, Result, ok, err, and_then, ◌>>=◌, refl,
  if◌then◌else◌, ◌==◌, has, Bool-cases, inl, inr,
}
use treevial.Git.{Git, Hash, is_zero, TreeEntry, is_dir}
use treevial.Objects.Store.{Fault, out_of_fuel, Store, entries}
use treevial.Objects.Walk.Follow.{Trees}
use treevial.Objects.Walk.Refine.{Shows, Runs, Runs-lift, Runs-bind, entries-Runs}
use treevial.Objects.Select.{
  Selection, add, skip_earlier, counterpart, Compare, was_entries, merge_entries, expand,
  descend_compared,
}

abbrev pub CompareRef : Type 0
CompareRef = Hash → Hash → Bool → Selection → Result Fault Selection

abbrev pub merge_ref :
    CompareRef → List TreeEntry → List TreeEntry → Selection → Result Fault Selection
merge_ref step [] was sel = ok sel
merge_ref step (e ∷ now) was sel =
    let rest = skip_earlier e was in
    and_then (step (counterpart e rest) e.hash (is_dir e) sel) (merge_ref step now rest)

module _ (trees : Trees) where
  abbrev pub was_ref : Hash → Result Fault (List TreeEntry)
  was_ref from = if is_zero from then ok [] else trees from

  abbrev pub expand_ref : CompareRef → CompareRef
  expand_ref step from to true sel =
      and_then (trees to) λ now. and_then (was_ref from) λ was. merge_ref step now was sel
  expand_ref step from to false sel = ok sel

  unfoldable pub compare_ref : ℕ → CompareRef
  compare_ref zero from to is_tree sel = err out_of_fuel
  compare_ref (suc fuel) from to is_tree sel =
      if from == to || has sel.seen to
      then ok sel
      else expand_ref (compare_ref fuel) from to is_tree (add to sel)

module _ (g : Git) (trees : Trees) (storage : g.Storage) where
  abbrev CompareRuns : Compare g → CompareRef → Type 0
  CompareRuns step expected =
      (from to : Hash) (is_tree : Bool) (sel : Selection) (s : Store g)
      → Shows g trees storage s
      → Runs g trees storage (step from to is_tree sel s) (expected from to is_tree sel)

  was_entries-Runs :
      (from : Hash) (s : Store g)
      → Shows g trees storage s
      → Runs g trees storage (was_entries g from s) (was_ref trees from)
  unfolding was_entries
  was_entries-Runs from s shows = elim (Bool-cases (is_zero from)) [
    | inl z ↦ rw z (Runs-lift g s (ok []) shows)
    | inr n ↦ rw n (entries-Runs g trees storage s from shows)
  ]

  merge_entries-Runs :
      (step : Compare g) (expected : CompareRef)
      → CompareRuns step expected
      → (now was : List TreeEntry) (sel : Selection) (s : Store g) → Shows g trees storage s
      → Runs g trees storage (merge_entries g step now was sel s) (merge_ref expected now was sel)
  unfolding merge_entries
  merge_entries-Runs step expected steps [] was sel s shows = Runs-lift g s (ok sel) shows
  merge_entries-Runs step expected steps (e ∷ now) was sel s shows =
      let rest = skip_earlier e was in
      Runs-bind g (step (counterpart e rest) e.hash (is_dir e) sel) (merge_entries g step now rest)
        s _ _ (steps (counterpart e rest) e.hash (is_dir e) sel s shows)
        (merge_entries-Runs step expected steps now rest)

  expand-Runs :
      (step : Compare g) (expected : CompareRef)
      → CompareRuns step expected
      → CompareRuns (expand g step) (expand_ref trees expected)
  unfolding expand
  expand-Runs step expected steps from to false sel s shows = Runs-lift g s (ok sel) shows
  expand-Runs step expected steps from to true sel s shows =
      Runs-bind g (entries g to)
        (λ now. was_entries g from >>= λ was. merge_entries g step now was sel) s _ _
        (entries-Runs g trees storage s to shows)
        λ now s' shows'.
          Runs-bind g (was_entries g from) (λ was. merge_entries g step now was sel) s' _ _
            (was_entries-Runs from s' shows')
            λ was. merge_entries-Runs step expected steps now was sel

  -- `descend` of `selectCompared` gives what the reference gives, and leaves what the store shows.
  pub descend_compared-Runs :
      (fuel : ℕ) → CompareRuns (descend_compared g fuel) (compare_ref trees fuel)
  unfolding descend_compared compare_ref
  descend_compared-Runs zero from to is_tree sel s shows = record { shows = shows; result = refl }
  descend_compared-Runs (suc fuel) from to is_tree sel s shows =
      elim (Bool-cases (from == to || has sel.seen to)) [
        | inl stop ↦ rw stop (Runs-lift g s (ok sel) shows)
        | inr new ↦ rw new (
            expand-Runs (descend_compared g fuel) (compare_ref trees fuel)
              (descend_compared-Runs fuel) from to is_tree (add to sel) s shows)
      ]
