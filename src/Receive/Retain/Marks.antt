-- ===== src/Receive/Retain/Marks.antt =====
-- `mark` as the traversal of fixed trees by a visitor that marks each object once.
use treevial.Prelude.{
  ℕ, zero, suc, Bool, true, false, ◌&&◌, List, [], ◌∷◌, ◌++◌, Bytes, Result, ok, err, and_then,
  if◌then◌else◌, ◌≡◌, refl, ap, ◌∙◌, All, has, number_key,
}
use treevial.Git.{Hash, TreeEntry, is_dir}
use treevial.Objects.Store.{Fault}
use treevial.Objects.Walk.{Visitor}
use treevial.Objects.Walk.Follow.{follow_entries, follow_below, follow}
use treevial.Objects.Walk.Reach.{IsKinded}
use treevial.Receive.Graph.{
  Graph, entries, content, each_entry, enter, below, visit_entry, descend, visit_mark, mark,
}

module _ (g : Graph) (kind : Hash → Bool) where
  -- `visit_mark`, with the kind of an object for the mode of its entry.
  abbrev pub visit_kinded : Visitor (List Hash)
  visit_kinded h live =
      if has live h
      then ok (false, live)
      else and_then (if kind h then ok [] else content g h) λ _. ok (true, h ∷ live)

  visit_mark-eq-visit_kinded :
      (path : Bytes) (e : TreeEntry) (live : List Hash)
      → is_dir e ≡ kind e.hash
      → visit_mark g path e live ≡ visit_kinded e.hash live
  visit_mark-eq-visit_kinded path e live k =
      ap
        (λ b.
          if has live e.hash
          then ok (false, live)
          else and_then (if b then ok [] else content g e.hash) λ _. ok (true, e.hash ∷ live))
        k

  module _ (kinded : IsKinded (entries g) kind) where
    abbrev step : ℕ → Hash → Bool → List Hash → Result Fault (List Hash)
    step fuel = follow visit_kinded (entries g) fuel

    each_entry-eq-follow_entries :
        (fuel : ℕ)
        → ((path : Bytes) (e : TreeEntry) (live : List Hash)
            → is_dir e ≡ kind e.hash
            → visit_entry g (visit_mark g) fuel path e live ≡ step fuel e.hash (is_dir e) live)
        → (prefix : Bytes) (es : List TreeEntry) (live : List Hash)
        → All (λ e. is_dir e ≡ kind e.hash) es
        → each_entry (visit_entry g (visit_mark g) fuel) prefix es live
          ≡ follow_entries (step fuel) es live
    each_entry-eq-follow_entries fuel same prefix [] live k = refl
    each_entry-eq-follow_entries fuel same prefix (e ∷ es) live k =
        ap (λ r. and_then r (each_entry (visit_entry g (visit_mark g) fuel) prefix es))
          (same (prefix ++ e.name) e live k.0)
        ∙ rest (step fuel e.hash (is_dir e) live)
            (λ w. each_entry-eq-follow_entries fuel same prefix es w k.1)
      where
        rest :
            (r : Result Fault (List Hash))
            → ((w : List Hash)
                → each_entry (visit_entry g (visit_mark g) fuel) prefix es w
                  ≡ follow_entries (step fuel) es w)
            → and_then r (each_entry (visit_entry g (visit_mark g) fuel) prefix es)
              ≡ and_then r (follow_entries (step fuel) es)
        rest (ok w) h = h w
        rest (err x) h = refl

    below-eq-follow :
        (fuel : ℕ)
        → ((path : Bytes) (e : TreeEntry) (live : List Hash)
            → is_dir e ≡ kind e.hash
            → visit_entry g (visit_mark g) fuel path e live ≡ step fuel e.hash (is_dir e) live)
        → (h : Hash) (prefix : Bytes) (live : List Hash)
        → below g (visit_entry g (visit_mark g) fuel) h prefix live
          ≡ and_then (entries g h) (λ es. follow_entries (step fuel) es live)
    below-eq-follow fuel same h prefix live = at (entries g h) refl
      where
        at :
            (r : Result Fault (List TreeEntry))
            → entries g h ≡ r
            → and_then r (λ es. each_entry (visit_entry g (visit_mark g) fuel) prefix es live)
              ≡ and_then r (λ es. follow_entries (step fuel) es live)
        at (ok es) e = each_entry-eq-follow_entries fuel same prefix es live (kinded h es e)
        at (err x) e = refl

    visit_entry-eq-follow :
        (fuel : ℕ) (path : Bytes) (e : TreeEntry) (live : List Hash)
        → is_dir e ≡ kind e.hash
        → visit_entry g (visit_mark g) fuel path e live ≡ step fuel e.hash (is_dir e) live
    unfolding visit_entry follow
    visit_entry-eq-follow zero path e live k = refl
    visit_entry-eq-follow (suc fuel) path e live k =
        ap (λ r. and_then r (enter (below g (visit_entry g (visit_mark g) fuel)) path e))
          (visit_mark-eq-visit_kinded path e live k)
        ∙ entered (visit_kinded e.hash live)
            (λ p l. below-eq-follow fuel (λ q d m. visit_entry-eq-follow fuel q d m) e.hash p l)
      where
        entered :
            (r : Result Fault (Bool × List Hash))
            → ((p : Bytes) (l : List Hash)
                → below g (visit_entry g (visit_mark g) fuel) e.hash p l
                  ≡ and_then (entries g e.hash) (λ es. follow_entries (step fuel) es l))
            → and_then r (enter (below g (visit_entry g (visit_mark g) fuel)) path e)
              ≡ and_then r (follow_below (entries g) (step fuel) e.hash (is_dir e))
        entered (err x) h = refl
        entered (ok (c, l)) h =
            ap (λ t. if c && is_dir e then t else ok l) (h (path ++ b'/' ∷ []) l)

    -- `mark`, without paths.
    pub mark-eq-follow :
        (fuel : ℕ) (h : Hash) (live : List Hash)
        → mark g fuel h live
          ≡ and_then (entries g h) (λ es. follow_entries (step fuel) es (h ∷ live))
    unfolding mark descend
    mark-eq-follow fuel h live =
        ap (λ r. and_then (entries g h) (λ _. r))
          (below-eq-follow fuel (visit_entry-eq-follow fuel) h [] (h ∷ live))
        ∙ twice (entries g h)
      where
        twice :
            (r : Result Fault (List TreeEntry))
            → and_then r (λ _. and_then r (λ es. follow_entries (step fuel) es (h ∷ live)))
              ≡ and_then r (λ es. follow_entries (step fuel) es (h ∷ live))
        twice (ok es) = refl
        twice (err x) = refl
