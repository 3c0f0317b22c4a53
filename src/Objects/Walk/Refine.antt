-- ===== src/Objects/Walk/Refine.antt =====
-- `walk` over a store is the reference traversal of what the store shows: the cache of decoded trees
-- cannot be seen.
use treevial.Prelude.{
  ℕ, zero, suc, Bool, true, false, none, some, List, [], ◌∷◌, Result, ok, err, and_then, lift,
  ◌>>=◌, if◌then◌else◌, ◌≡◌, refl, ◌∙◌, arith, number_key, ==_iff, Option-cases, Result-cases, inl,
  inr,
}
use treevial.Prelude.Maps.{lookup, lookup-insert}
use treevial.Git.{Git, Hash, TreeEntry, is_dir}
use treevial.Objects.Store.{Fault, Store, Action, entries, remember, tree_at}
use treevial.Objects.Walk.{Visitor, walk_entries, below, descend, walk}
use treevial.Objects.Walk.Follow.{Trees, follow_entries, follow_below, follow}

module _ (g : Git) where
  -- The entries that a store shows for a tree: its cache first, then its storage.
  unfoldable pub view : Store g → Trees
  view s h = elim (lookup h s.decoded) [ some es ↦ ok es | none ↦ tree_at g s h ]

  -- The store shows these trees, and its objects are those of `storage`.
  pub record Shows (trees : Trees) (storage : g.Storage) (s : Store g) : Type 0 where
    pub views : (h : Hash) → view s h ≡ trees h
    pub objects : s.storage ≡ storage

  -- An action has the expected result, and leaves what the store shows as it was.
  pub record Runs {A : Type 0} (trees : Trees) (storage : g.Storage)
      (run : Store g × Result Fault A) (expected : Result Fault A) : Type 0 where
    pub shows : Shows trees storage run.0
    pub result : run.1 ≡ expected

  module _ (trees : Trees) (storage : g.Storage) where
    remember-Shows :
        (s : Store g) (h : Hash) (es : List TreeEntry)
        → tree_at g s h ≡ ok es
        → lookup h s.decoded ≡ none
        → Shows trees storage s
        → Shows trees storage (remember g h es s)
    unfolding remember view tree_at
    remember-Shows s h es e fresh shows = record {
      views = λ j. ground (arith, lookup-insert h j es s.decoded, shows.views j, ==_iff h j);
      objects = shows.objects;
    }

    entries-result : (s : Store g) (h : Hash) → (entries g h s).1 ≡ view s h
    unfolding entries view
    entries-result s h = ground arith

    entries-Shows :
        (s : Store g) (h : Hash) → Shows trees storage s → Shows trees storage (entries g h s).0
    unfolding entries
    entries-Shows s h shows = elim (Option-cases (lookup h s.decoded)) [
      | inr (es, cached) ↦ rw cached shows
      | inl fresh ↦ elim (Result-cases (tree_at g s h)) [
        | inl (es, e) ↦ rw (fresh, e) (remember-Shows s h es e fresh shows)
        | inr (f, e) ↦ rw (fresh, e) shows
      ]
    ]

    pub entries-Runs :
        (s : Store g) (h : Hash)
        → Shows trees storage s
        → Runs trees storage (entries g h s) (trees h)
    entries-Runs s h shows = record {
      shows = entries-Shows s h shows;
      result = entries-result s h ∙ shows.views h;
    }

  module _ {trees : Trees} {storage : g.Storage} where
    pub Runs-lift :
        {A : Type 0} (s : Store g) (r : Result Fault A)
        → Shows trees storage s
        → Runs trees storage (lift r s) r
    Runs-lift s r shows = record { shows = shows; result = refl }

    pub Runs-bind :
        {A B : Type 0} (m : Action g A) (f : A → Action g B) (s : Store g) (r : Result Fault A)
        (k : A → Result Fault B)
        → Runs trees storage (m s) r
        → ((a : A) (s' : Store g) → Shows trees storage s' → Runs trees storage (f a s') (k a))
        → Runs trees storage ((m >>= f) s) (and_then r k)
    Runs-bind m f s (ok a) k first rest = rw first.result (rest a (m s).0 first.shows)
    Runs-bind m f s (err e) k first rest =
        rw first.result (record { shows = first.shows; result = refl })

    pub Runs-if :
        {A : Type 0} (b : Bool) (m n : Action g A) (s : Store g) (r q : Result Fault A)
        → Runs trees storage (m s) r
        → Runs trees storage (n s) q
        → Runs trees storage ((if b then m else n) s) (if b then r else q)
    Runs-if true m n s r q first second = first
    Runs-if false m n s r q first second = second

    -- The action branches on what the state says.
    pub Runs-if_state :
        {A : Type 0} (b c : Bool) (x y : Store g × Result Fault A) (r q : Result Fault A)
        → b ≡ c
        → Runs trees storage x r
        → Runs trees storage y q
        → Runs trees storage (if b then x else y) (if c then r else q)
    Runs-if_state true c x y r q e first second = rw (← e) first
    Runs-if_state false c x y r q e first second = rw (← e) second

  module _ {V : Type 0} (trees : Trees) (storage : g.Storage) where
    -- `step` runs as `expected` does, from every store that shows the trees.
    abbrev StepRuns : (Hash → Bool → V → Action g V) → (Hash → Bool → V → Result Fault V) → Type 0
    StepRuns step expected =
        (h : Hash) (is_tree : Bool) (v : V) (s : Store g)
        → Shows trees storage s
        → Runs trees storage (step h is_tree v s) (expected h is_tree v)

    walk_entries-Runs :
        (step : Hash → Bool → V → Action g V) (expected : Hash → Bool → V → Result Fault V)
        → StepRuns step expected
        → (es : List TreeEntry) (v : V) (s : Store g) → Shows trees storage s
        → Runs trees storage (walk_entries g step es v s) (follow_entries expected es v)
    unfolding walk_entries
    walk_entries-Runs step expected steps [] v s shows = Runs-lift s (ok v) shows
    walk_entries-Runs step expected steps (e ∷ es) v s shows =
        Runs-bind (step e.hash (is_dir e) v) (walk_entries g step es) s _ _
          (steps e.hash (is_dir e) v s shows) (walk_entries-Runs step expected steps es)

    below-Runs :
        (step : Hash → Bool → V → Action g V) (expected : Hash → Bool → V → Result Fault V)
        → StepRuns step expected
        → (h : Hash) (is_tree : Bool) (seen : Bool × V) (s : Store g) → Shows trees storage s
        → Runs trees storage
            (below g step h is_tree seen s)
            (follow_below trees expected h is_tree seen)
    unfolding below
    below-Runs step expected steps h true (true, v) s shows =
        Runs-bind (entries g h) (λ es. walk_entries g step es v) s _ _
          (entries-Runs trees storage s h shows) (λ es. walk_entries-Runs step expected steps es v)
    below-Runs step expected steps h false (true, v) s shows = Runs-lift s (ok v) shows
    below-Runs step expected steps h is_tree (false, v) s shows = Runs-lift s (ok v) shows

    descend-Runs :
        (visit : Visitor V) (fuel : ℕ) → StepRuns (descend g visit fuel) (follow visit trees fuel)
    unfolding descend follow
    descend-Runs visit zero h is_tree v s shows = record { shows = shows; result = refl }
    descend-Runs visit (suc fuel) h is_tree v s shows =
        Runs-bind (lift (visit h v)) (below g (descend g visit fuel) h is_tree) s _ _
          (Runs-lift s (visit h v) shows)
          (below-Runs (descend g visit fuel) (follow visit trees fuel) (descend-Runs visit fuel) h
            is_tree)

  module _ {V : Type 0} where
    -- `walk` gives what the reference traversal of the trees that the store shows gives, errors
    -- included, and leaves the store's objects and all that it shows as they were.
    pub walk-eq-follow :
        (visit : Visitor V) (fuel : ℕ) (root : Hash) (v : V) (s : Store g)
        → Runs
            (view s)
            s.storage
            (walk g visit fuel root v s)
            (follow visit (view s) fuel root true v)
    unfolding walk
    walk-eq-follow visit fuel root v s =
        descend-Runs (view s) s.storage visit fuel root true v s
          (record { views = λ h. refl; objects = refl })

    pub walk-Runs :
        (trees : Trees) (storage : g.Storage) (visit : Visitor V) (fuel : ℕ) (root : Hash) (v : V)
        (s : Store g)
        → Shows trees storage s
        → Runs trees storage (walk g visit fuel root v s) (follow visit trees fuel root true v)
    unfolding walk
    walk-Runs trees storage visit fuel root v s =
        descend-Runs trees storage visit fuel root true v s
