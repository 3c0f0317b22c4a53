-- ===== src/Objects/Walk/Ends.antt =====
-- A traversal of trees that nest to a bounded depth and can all be read ends with a result.
use treevial.Prelude.{
  ℕ, zero, suc, ◌<◌, Bool, true, false, List, [], ◌∷◌, Result, ok, ◌≡◌, refl, arith, All,
}
use treevial.Git.{Hash, TreeEntry, is_dir}
use treevial.Objects.Store.{Fault}
use treevial.Objects.Walk.{Visitor}
use treevial.Objects.Walk.Follow.{Trees, follow_entries, follow_below, follow}

-- The trees nest: an entry stands lower than the tree that holds it.
abbrev pub IsNested : Trees → (Hash → ℕ) → Type 0
IsNested trees rank =
    (x : Hash) (es : List TreeEntry) → trees x ≡ ok es → All (λ e. rank e.hash < rank x) es

-- Below an object with the property, every tree can be read, and its entries have the property.
abbrev pub IsReadable : Trees → (Hash → Bool → Type 0) → Type 0
IsReadable trees P =
    (x : Hash)
    → P x true
    → (es : List TreeEntry) × (trees x ≡ ok es) × All (λ e. P e.hash (is_dir e)) es

module _ (trees : Trees) (rank : Hash → ℕ) (nested : IsNested trees rank) (P : Hash → Bool → Type 0)
    (readable : IsReadable trees P) {V : Type 0} (visit : Visitor V)
    (visits : (h : Hash) (b : Bool) (v : V)
      → P h b
      → (seen : Bool × V) × (visit h v ≡ ok seen)) where
  abbrev pub StepEnds : ℕ → (Hash → Bool → V → Result Fault V) → Type 0
  StepEnds n step =
      (h : Hash) (b : Bool) (v : V) → P h b → rank h < n → (w : V) × (step h b v ≡ ok w)

  pub follow_entries_ends :
      (n : ℕ) (step : Hash → Bool → V → Result Fault V)
      → StepEnds n step
      → (es : List TreeEntry) (v : V) → All (λ e. P e.hash (is_dir e)) es
      → All (λ e. rank e.hash < n) es
      → (w : V) × (follow_entries step es v ≡ ok w)
  follow_entries_ends n step steps [] v p r = (v, refl)
  follow_entries_ends n step steps (e ∷ es) v p r =
      let (u, first) = steps e.hash (is_dir e) v p.0 r.0 in
      let (w, rest) = follow_entries_ends n step steps es u p.1 r.1 in (w, rw first rest)

  pub All_lower :
      (x : Hash) (n : ℕ) (es : List TreeEntry)
      → rank x < suc n
      → All (λ e. rank e.hash < rank x) es
      → All (λ e. rank e.hash < n) es
  All_lower x n [] h r = tt
  All_lower x n (e ∷ es) h r = (omega arith, All_lower x n es h r.1)

  follow_below_ends :
      (n : ℕ) (step : Hash → Bool → V → Result Fault V)
      → StepEnds n step
      → (h : Hash) (b c : Bool) (v : V) → P h b
      → rank h < suc n
      → (w : V) × (follow_below trees step h b (c, v) ≡ ok w)
  follow_below_ends n step steps h true true v p r =
      let (es, read, all) = readable h p in
      let (w, rest) =
        follow_entries_ends n step steps es v all (All_lower h n es r (nested h es read)) in
      (w, rw read rest)
  follow_below_ends n step steps h false true v p r = (v, refl)
  follow_below_ends n step steps h b false v p r = (v, refl)

  pub follow_ends : (fuel : ℕ) → StepEnds fuel (follow visit trees fuel)
  unfolding follow
  follow_ends zero h b v p r = absurd (omega arith)
  follow_ends (suc n) h b v p r =
      let (seen, visited) = visits h b v p in
      let (w, rest) =
        follow_below_ends n (follow visit trees n) (follow_ends n) h b seen.0 seen.1 p r in
      (w, rw visited rest)
