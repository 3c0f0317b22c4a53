-- ===== src/Objects/Select/Refine.antt =====
-- `selectExact` and `SelectSince` over fixed trees: references, and the refinement.
use treevial.Prelude.{
  ℕ, ◌/◌, true, List, [], Result, ok, and_then, ◌>>=◌, if◌then◌else◌, leb, length, ap,
}
use treevial.Git.{Git, Hash, is_zero}
use treevial.Objects.Store.{Fault, Store, entries, held}
use treevial.Objects.Walk.{walk}
use treevial.Objects.Walk.Follow.{Trees, follow}
use treevial.Objects.Walk.Refine.{
  Shows, Runs, Runs-lift, Runs-bind, Runs-if, Runs-if_state, entries-Runs, walk-Runs,
}
use treevial.Objects.Select.{
  visit_reachable, visit_exact, reachable, select_exact, descend_compared, select_compared, accept,
  select_since,
}
use treevial.Objects.Select.Merge.{compare_ref, descend_compared-Runs}

abbrev pub reachable_ref : Trees → ℕ → Hash → Result Fault (List Hash)
reachable_ref trees fuel root =
    if is_zero root then ok [] else follow visit_reachable trees fuel root true []

abbrev pub exact_ref : Trees → ℕ → Hash → Hash → Result Fault (List Hash)
exact_ref trees fuel from to = and_then (reachable_ref trees fuel from) λ held.
    and_then (follow visit_exact trees fuel to true (record { seen = held; out = [] }))
      λ sel. ok sel.out

abbrev pub compared_ref : Trees → ℕ → Hash → Hash → Result Fault (List Hash)
compared_ref trees fuel from to =
    and_then (compare_ref trees fuel from to true (record { seen = []; out = [] }))
      λ sel. ok sel.out

-- `size` is the number of objects that the store holds.
abbrev pub since_ref : Trees → ℕ → ℕ → Hash → Hash → Result Fault (List Hash)
since_ref trees size fuel from to =
    if is_zero from
    then exact_ref trees fuel from to
    else and_then (trees from) λ _.
      and_then (compared_ref trees fuel from to)
        λ out. if leb (length out) (size / 2) then ok out else exact_ref trees fuel from to

module _ (g : Git) (trees : Trees) (storage : g.Storage) where
  reachable-Runs :
      (fuel : ℕ) (root : Hash) (s : Store g)
      → Shows g trees storage s
      → Runs g trees storage (reachable g fuel root s) (reachable_ref trees fuel root)
  unfolding reachable
  reachable-Runs fuel root s shows =
      Runs-if g (is_zero root) _ _ s _ _ (Runs-lift g s (ok []) shows)
        (walk-Runs g trees storage visit_reachable fuel root [] s shows)

  pub select_exact-Runs :
      (fuel : ℕ) (from to : Hash) (s : Store g)
      → Shows g trees storage s
      → Runs g trees storage (select_exact g fuel from to s) (exact_ref trees fuel from to)
  unfolding select_exact
  select_exact-Runs fuel from to s shows =
      Runs-bind g (reachable g fuel from)
        (λ held. walk g visit_exact fuel to (record { seen = held; out = [] }) >>= λ sel s.
          (s, ok sel.out))
        s _ _ (reachable-Runs fuel from s shows)
        λ held s' shows'.
          Runs-bind g (walk g visit_exact fuel to (record { seen = held; out = [] }))
            (λ sel s. (s, ok sel.out)) s' _ _
            (walk-Runs g trees storage visit_exact fuel to _ s' shows')
            λ sel s'' shows''. Runs-lift g s'' (ok sel.out) shows''

  select_compared-Runs :
      (fuel : ℕ) (from to : Hash) (s : Store g)
      → Shows g trees storage s
      → Runs g trees storage (select_compared g fuel from to s) (compared_ref trees fuel from to)
  unfolding select_compared
  select_compared-Runs fuel from to s shows =
      Runs-bind g (descend_compared g fuel from to true (record { seen = []; out = [] }))
        (λ sel s. (s, ok sel.out)) s _ _
        (descend_compared-Runs g trees storage fuel from to true _ s shows)
        λ sel s' shows'. Runs-lift g s' (ok sel.out) shows'

  accept-Runs :
      (fuel : ℕ) (from to : Hash) (out : List Hash) (s : Store g)
      → Shows g trees storage s
      → Runs g trees storage
          (accept g fuel from to out s)
          (if leb (length out) (g.size storage / 2) then ok out else exact_ref trees fuel from to)
  unfolding accept held
  accept-Runs fuel from to out s shows =
      Runs-if_state g (leb (length out) (g.size s.storage / 2)) _ _ _ _ _
        (ap (λ t. leb (length out) (g.size t / 2)) shows.objects) (Runs-lift g s (ok out) shows)
        (select_exact-Runs fuel from to s shows)

  pub select_since-Runs :
      (fuel : ℕ) (from to : Hash) (s : Store g)
      → Shows g trees storage s
      → Runs g trees storage
          (select_since g fuel from to s)
          (since_ref trees (g.size storage) fuel from to)
  unfolding select_since
  select_since-Runs fuel from to s shows =
      Runs-if g (is_zero from) _ _ s _ _ (select_exact-Runs fuel from to s shows) (
        Runs-bind g (entries g from)
          (λ _. select_compared g fuel from to >>= λ out. accept g fuel from to out) s _ _
          (entries-Runs g trees storage s from shows)
          λ _ s' shows'.
            Runs-bind g (select_compared g fuel from to) (λ out. accept g fuel from to out) s' _ _
              (select_compared-Runs fuel from to s' shows') (accept-Runs fuel from to))
