-- ===== src/Receive/Retain/Ends.antt =====
-- When `Retain` succeeds.
use treevial.Prelude.{
  ℕ, suc, ◌<◌, Bool, true, false, List, [], ◌∷◌, Bytes, ok, and_then, if◌then◌else◌, ◌≡◌, ◌≢◌, ◌∙◌,
  refl, subst, ap, All, has, Bool-cases, inl, inr, ==_iff,
}
use treevial.Git.{Hash, is_zero, zero_hash}
use treevial.Objects.Walk.Follow.{follow_entries, follow}
use treevial.Objects.Walk.Reach.{IsKinded}
use treevial.Objects.Walk.Ends.{IsNested, IsReadable, follow_ends, follow_entries_ends, All_lower}
use treevial.Receive.Graph.{Graph, entries, content, mark, mark_all, sweep_graph, retain}
use treevial.Receive.Retain.Marks.{visit_kinded, mark-eq-follow}

-- What is known to be there, with its kind: trees with all of their entries, and blobs.
pub record IsWhole (g : Graph) (kind : Hash → Bool) (P : Hash → Bool → Type 0) : Type 0 where
  pub trees : IsReadable (entries g) P
  pub blobs : (x : Hash) → P x false → (c : Bytes) × (content g x ≡ ok c)
  pub kinds : (x : Hash) (b : Bool) → P x b → b ≡ kind x

module _ (g : Graph) (kind : Hash → Bool) (kinded : IsKinded (entries g) kind) (rank : Hash → ℕ)
    (nested : IsNested (entries g) rank) (P : Hash → Bool → Type 0) (whole : IsWhole g kind P) where
  visit_kinded_ends :
      (h : Hash) (b : Bool) (live : List Hash)
      → P h b
      → (seen : Bool × List Hash) × (visit_kinded g kind h live ≡ ok seen)
  visit_kinded_ends h b live p = elim (Bool-cases (has live h)) [
    | inl m ↦ ((false, live), rw m refl)
    | inr n ↦ elim (Bool-cases (kind h)) [
      | inl k ↦ ((true, h ∷ live), rw (n, k) refl)
      | inr k ↦
          let (c, found) = whole.blobs h (subst (P h) (whole.kinds h b p ∙ k) p) in
          ((true, h ∷ live), rw (n, k) (rw found refl))
    ]
  ]

  mark_ends :
      (fuel : ℕ) (root : Hash) (live : List Hash)
      → P root true
      → rank root < suc fuel
      → (w : List Hash) × (mark g fuel root live ≡ ok w)
  mark_ends fuel root live p low =
      let (es, read, all) = whole.trees root p in
      let (w, run) =
        follow_entries_ends (entries g) rank nested P whole.trees (visit_kinded g kind)
          visit_kinded_ends fuel (follow (visit_kinded g kind) (entries g) fuel)
          (follow_ends (entries g) rank nested P whole.trees (visit_kinded g kind) visit_kinded_ends
            fuel)
          es (root ∷ live) all
          (All_lower (entries g) rank nested P whole.trees (visit_kinded g kind) visit_kinded_ends
            root fuel es low (nested root es read)) in
      (
        w,
        mark-eq-follow g kind kinded fuel root live
            ∙ ap
                (λ r. and_then r (λ es.
                  follow_entries (follow (visit_kinded g kind) (entries g) fuel) es (root ∷ live)))
                read
            ∙ run,
      )

  mark_all_ends :
      (fuel : ℕ) (roots live : List Hash)
      → All (λ r. r ≢ zero_hash → P r true × (rank r < suc fuel)) roots
      → (w : List Hash) × (mark_all g fuel roots live ≡ ok w)
  unfolding mark_all
  mark_all_ends fuel [] live good = (live, refl)
  mark_all_ends fuel (r ∷ roots) live good = elim (Bool-cases (is_zero r)) [
    | inl z ↦
        let (w, run) = mark_all_ends fuel roots live good.1 in
        (
          w,
          ap (λ b. and_then (if b then ok live else mark g fuel r live) (mark_all g fuel roots)) z
              ∙ run,
        )
    | inr nz ↦
        let (p, low) = good.0 (λ e. cc ((==_iff r zero_hash).1 e, nz)) in
        let (u, first) = mark_ends fuel r live p low in
        let (w, run) = mark_all_ends fuel roots u good.1 in
        (
          w,
          ap (λ b. and_then (if b then ok live else mark g fuel r live) (mark_all g fuel roots)) nz
              ∙ ap (λ m. and_then m (mark_all g fuel roots)) first
              ∙ run,
        )
  ]

  -- Over a graph whose trees nest and that is whole below its roots, which `P` says, `Retain` succeeds,
  -- given fuel that is not below the depth of the roots. The zero hash may stand among the roots.
  pub retain_ends :
      (fuel : ℕ) (roots : List Hash)
      → All (λ r. r ≢ zero_hash → P r true × (rank r < suc fuel)) roots
      → (n : ℕ) × ((retain fuel roots g).1 ≡ ok n)
  unfolding retain
  retain_ends fuel roots good =
      let (live, run) = mark_all_ends fuel roots [] good in (_, ap (λ r. (sweep_graph g r).1) run)
