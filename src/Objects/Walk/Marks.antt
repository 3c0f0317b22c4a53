-- ===== src/Objects/Walk/Marks.antt =====
-- What a traversal leaves marked, for visitors that mark each object once.
use treevial.Prelude.{
  ℕ, zero, suc, Bool, true, false, ◌||◌, List, [], ◌∷◌, Result, ok, err, and_then, ◌≡◌, refl, arith,
  All, Bool-cases, inl, inr, ◌==◌, ==_iff, subst, ok_injective,
}
use treevial.Git.{Hash, TreeEntry, is_dir}
use treevial.Objects.Store.{Fault}
use treevial.Objects.Walk.{Visitor}
use treevial.Objects.Walk.Follow.{Trees, follow_entries, follow_below, follow}
use treevial.Objects.Walk.Reach.{IsKinded}

-- The inversion of a successful `and_then`.
pub and_then-eq-ok :
    {A B : Type 0} (r : Result Fault A) (f : A → Result Fault B) {b : B}
    → and_then r f ≡ ok b
    → (a : A) × (r ≡ ok a) × (f a ≡ ok b)
and_then-eq-ok (ok a) f h = (a, refl, h)
and_then-eq-ok (err e) f h = cc

-- The visitor stops at marked objects, and marks any other.
pub record IsMarking {V : Type 0} (visit : Visitor V) (marked : V → Hash → Bool) : Type 0 where
  pub stops : (h : Hash) (v : V) → marked v h ≡ true → visit h v ≡ ok (false, v)
  pub marks :
      (h : Hash) (v : V) (seen : Bool × V)
      → marked v h ≡ false
      → visit h v ≡ ok seen
      → (seen.0 ≡ true) × ((x : Hash) → marked seen.1 x ≡ (h == x || marked v x))

module _ (trees : Trees) (kind : Hash → Bool) (P : Hash → Type 0) {V : Type 0}
    (marked : V → Hash → Bool) where
  -- The trees that are marked now and were not before have been read, and their entries are marked.
  -- What is newly marked has the property `P`.
  pub record Explored (v w : V) : Type 0 where
    pub keeps : (x : Hash) → marked v x ≡ true → marked w x ≡ true
    pub closed :
        (x : Hash)
        → marked v x ≡ false
        → marked w x ≡ true
        → kind x ≡ true
        → (es : List TreeEntry) × (trees x ≡ ok es) × All (λ e. marked w e.hash ≡ true) es
    pub sound : (x : Hash) → marked v x ≡ false → marked w x ≡ true → P x

module _ (trees : Trees) (kind : Hash → Bool) (kinded : IsKinded trees kind) (P : Hash → Type 0)
    (hand_on : (x : Hash) (es : List TreeEntry)
      → P x
      → kind x ≡ true
      → trees x ≡ ok es
      → All (λ e. P e.hash) es)
    {V : Type 0} (visit : Visitor V) (marked : V → Hash → Bool)
    (marking : IsMarking visit marked) where
  abbrev pub Explores : V → V → Type 0
  Explores = Explored trees kind P marked

  All_marked :
      (v w : V) (es : List TreeEntry)
      → ((x : Hash) → marked v x ≡ true → marked w x ≡ true)
      → All (λ e. marked v e.hash ≡ true) es
      → All (λ e. marked w e.hash ≡ true) es
  All_marked v w [] keeps h = tt
  All_marked v w (e ∷ es) keeps h = (keeps e.hash h.0, All_marked v w es keeps h.1)

  Explored-refl : (v : V) → Explores v v
  Explored-refl v = record { keeps = λ x h. h; closed = λ x h k. cc; sound = λ x h k. cc }

  Explored-trans : (u v w : V) → Explores u v → Explores v w → Explores u w
  Explored-trans u v w a b = record {
    keeps = λ x h. b.keeps x (a.keeps x h);
    closed = λ x h k is_tree. elim (Bool-cases (marked v x)) [
      | inl m ↦ let (es, e, all) = a.closed x h m is_tree in (es, e, All_marked v w es b.keeps all)
      | inr n ↦ b.closed x n k is_tree
    ];
    sound =
        λ x h k. elim (Bool-cases (marked v x)) [ inl m ↦ a.sound x h m | inr n ↦ b.sound x n k ];
  }

  -- `step` explores the object that it is given.
  abbrev pub StepExplores : (Hash → Bool → V → Result Fault V) → Type 0
  StepExplores step =
      (h : Hash) (v w : V) → P h → step h (kind h) v ≡ ok w → Explores v w × (marked w h ≡ true)

  pub follow_entries-Explored :
      (step : Hash → Bool → V → Result Fault V)
      → StepExplores step
      → (es : List TreeEntry) (v w : V) → All (λ e. is_dir e ≡ kind e.hash) es
      → All (λ e. P e.hash) es
      → follow_entries step es v ≡ ok w
      → Explores v w × All (λ e. marked w e.hash ≡ true) es
  follow_entries-Explored step steps [] v w k p h =
      (subst (Explores v) (ok_injective h) (Explored-refl v), tt)
  follow_entries-Explored step steps (e ∷ es) v w k p h =
      let (u, first, rest) = and_then-eq-ok (step e.hash (is_dir e) v) (follow_entries step es) h in
      let (a, m) = steps e.hash v u p.0 (subst (λ b. step e.hash b v ≡ ok u) k.0 first) in
      let (b, all) = follow_entries-Explored step steps es u w k.1 p.1 rest in
      (Explored-trans v u w a b, (b.keeps e.hash m, all))

  -- A newly marked object, with its entries if it is a tree.
  Explored-visit :
      (h : Hash) (v u w : V)
      → P h
      → marked v h ≡ false
      → ((x : Hash) → marked u x ≡ (h == x || marked v x))
      → Explores u w
      → (kind h ≡ true
          → (es : List TreeEntry) × (trees h ≡ ok es) × All (λ e. marked w e.hash ≡ true) es)
      → Explores v w × (marked w h ≡ true)
  Explored-visit h v u w p fresh marks rest children = (
    record {
      keeps = λ x m. rest.keeps x (ground (arith, marks x));
      closed = λ x n m is_tree. elim (Bool-cases (h == x)) [
        | inl same ↦
            subst
              (λ x.
                kind x ≡ true
                → (es : List TreeEntry) × (trees x ≡ ok es) × All (λ e. marked w e.hash ≡ true) es)
              ((==_iff h x).0 same) children is_tree
        | inr other ↦ rest.closed x (ground (arith, marks x)) m is_tree
      ];
      sound = λ x n m. elim (Bool-cases (h == x)) [
        | inl same ↦ subst P ((==_iff h x).0 same) p
        | inr other ↦ rest.sound x (ground (arith, marks x)) m
      ];
    },
    rest.keeps h (ground (arith, marks h)),
  )

  follow_below-Explored :
      (step : Hash → Bool → V → Result Fault V)
      → StepExplores step
      → (h : Hash) (v u w : V) → P h
      → marked v h ≡ false
      → ((x : Hash) → marked u x ≡ (h == x || marked v x))
      → follow_below trees step h (kind h) (true, u) ≡ ok w
      → Explores v w × (marked w h ≡ true)
  follow_below-Explored step steps h v u w p fresh marks run = elim (Bool-cases (kind h)) [
    | inr blob ↦
        let e : u ≡ w = ok_injective (rw blob at run) in
        Explored-visit h v u w p fresh marks (subst (Explores u) e (Explored-refl u))
          (λ is_tree. cc (blob, is_tree))
    | inl is_tree ↦
        let (es, read, rest) =
          and_then-eq-ok (trees h) (λ es. follow_entries step es u) (rw is_tree at run) in
        let (a, all) =
          follow_entries-Explored step steps es u w (kinded h es read) (hand_on h es p is_tree read)
            rest in
        Explored-visit h v u w p fresh marks a (λ _. (es, read, all))
  ]

  -- A traversal that succeeds has explored its root.
  pub follow-Explored : (fuel : ℕ) → StepExplores (follow visit trees fuel)
  unfolding follow
  follow-Explored zero h v w p run = cc
  follow-Explored (suc fuel) h v w p run = elim (Bool-cases (marked v h)) [
    | inl m ↦
        let e : v ≡ w = ok_injective (rw (marking.stops h v m) at run) in
        (subst (Explores v) e (Explored-refl v), rw (← e) m)
    | inr fresh ↦
        let (seen, visited, rest) =
          and_then-eq-ok (visit h v) (follow_below trees (follow visit trees fuel) h (kind h))
            run in
        let (go_on, marks) = marking.marks h v seen fresh visited in
        follow_below-Explored (follow visit trees fuel) (follow-Explored fuel) h v seen.1 w p fresh
          marks
          (subst (λ c. follow_below trees (follow visit trees fuel) h (kind h) (c, seen.1) ≡ ok w)
            go_on rest)
  ]

-- What the visitor keeps, a traversal keeps.
module _ {V : Type 0} (visit : Visitor V) (Inv : V → Type 0)
    (visit_keeps : (h : Hash) (v : V) (seen : Bool × V) → Inv v → visit h v ≡ ok seen → Inv seen.1)
    (trees : Trees) where
  abbrev pub StepKeeps : (Hash → Bool → V → Result Fault V) → Type 0
  StepKeeps step = (h : Hash) (b : Bool) (v w : V) → Inv v → step h b v ≡ ok w → Inv w

  pub follow_entries_keeps :
      (step : Hash → Bool → V → Result Fault V)
      → StepKeeps step
      → (es : List TreeEntry) (v w : V) → Inv v
      → follow_entries step es v ≡ ok w
      → Inv w
  follow_entries_keeps step steps [] v w i h = subst Inv (ok_injective h) i
  follow_entries_keeps step steps (e ∷ es) v w i h =
      let (u, first, rest) = and_then-eq-ok (step e.hash (is_dir e) v) (follow_entries step es) h in
      follow_entries_keeps step steps es u w (steps e.hash (is_dir e) v u i first) rest

  follow_below_keeps :
      (step : Hash → Bool → V → Result Fault V)
      → StepKeeps step
      → (h : Hash) (b c : Bool) (v w : V) → Inv v
      → follow_below trees step h b (c, v) ≡ ok w
      → Inv w
  follow_below_keeps step steps h true true v w i run =
      let (es, read, rest) = and_then-eq-ok (trees h) (λ es. follow_entries step es v) run in
      follow_entries_keeps step steps es v w i rest
  follow_below_keeps step steps h false true v w i run = subst Inv (ok_injective run) i
  follow_below_keeps step steps h b false v w i run = subst Inv (ok_injective run) i

  pub follow_keeps : (fuel : ℕ) → StepKeeps (follow visit trees fuel)
  unfolding follow
  follow_keeps zero h b v w i run = cc
  follow_keeps (suc fuel) h b v w i run =
      let (seen, visited, rest) =
        and_then-eq-ok (visit h v) (follow_below trees (follow visit trees fuel) h b) run in
      follow_below_keeps (follow visit trees fuel) (follow_keeps fuel) h b seen.0 seen.1 w
        (visit_keeps h v seen i visited) rest
