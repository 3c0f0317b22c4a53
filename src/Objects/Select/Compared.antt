-- ===== src/Objects/Select/Compared.antt =====
-- What `selectCompared` selects: together with what stands below `from`, everything below `to`.
use treevial.Prelude.{
  ℕ, zero, suc, Bool, true, false, ◌&&◌, ◌||◌, List, [], ◌∷◌, ok, and_then, ◌≡◌, ◌≢◌, ◌⊎◌, refl,
  sym, ◌∙◌, arith, subst, All, All_map, has, Distinct, ◌==◌, ==_iff, Bool-cases, inl, inr,
  ok_injective, same_bytes,
}
use treevial.Git.{Hash, zero_hash, is_zero, TreeEntry, is_dir}
use treevial.Objects.Order.{earlier}
use treevial.Objects.Walk.Follow.{Trees}
use treevial.Objects.Walk.Reach.{Reach, here, Below, IsKinded, Reach_induction, Reach_hands_on}
use treevial.Objects.Walk.Marks.{and_then-eq-ok}
use treevial.Objects.Select.{Selection, add, skip_earlier, counterpart}
use treevial.Objects.Select.Exact.{IsFresh, add-IsFresh}
use treevial.Objects.Select.Merge.{CompareRef, merge_ref, was_ref, expand_ref, compare_ref}

-- Entries name objects: their hashes are not the zero hash.
abbrev pub NamesObjects : Trees → Type 0
NamesObjects trees =
    (x : Hash) (es : List TreeEntry) → trees x ≡ ok es → All (λ e. e.hash ≢ zero_hash) es

pub skip_earlier-All :
    (P : TreeEntry → Type 0) (e : TreeEntry) (was : List TreeEntry)
    → All P was
    → All P (skip_earlier e was)
unfolding skip_earlier
skip_earlier-All P e [] h = tt
skip_earlier-All P e (w ∷ was) h = elim (Bool-cases (earlier w e)) [
  | inl skip ↦ rw skip (skip_earlier-All P e was h.1)
  | inr stay ↦ rw stay h
]

-- What a client holds: closed under the entries of trees.
abbrev pub IsHandedOn : Trees → (Hash → Bool) → (Hash → Type 0) → Type 0
IsHandedOn trees kind P =
    (x : Hash) (es : List TreeEntry)
    → P x
    → kind x ≡ true
    → trees x ≡ ok es
    → All (λ e. P e.hash) es

module _ (trees : Trees) (kind : Hash → Bool) (kinded : IsKinded trees kind)
    (names : NamesObjects trees) (Held : Hash → Type 0) (held_on : IsHandedOn trees kind Held)
    (P : Hash → Type 0) (hand_on : IsHandedOn trees kind P) where
  -- The object is in the selection, or the client holds it.
  abbrev Covered : Selection → Hash → Type 0
  Covered sel x = (has sel.seen x ≡ true) ⊎ Held x

  record Covers (v w : Selection) : Type 0 where
    keeps : (x : Hash) → has v.seen x ≡ true → has w.seen x ≡ true
    closed :
        (x : Hash)
        → has v.seen x ≡ false
        → has w.seen x ≡ true
        → kind x ≡ true
        → (es : List TreeEntry) × (trees x ≡ ok es) × All (λ e. Covered w e.hash) es
    sound : (x : Hash) → has v.seen x ≡ false → has w.seen x ≡ true → P x
    fresh : IsFresh [] v → IsFresh [] w

  Covers-seen : {v w : Selection} → Covers v w → (x : Hash) → Covered v x → Covered w x
  Covers-seen c x (inl m) = inl (c.keeps x m)
  Covers-seen c x (inr h) = inr h

  Covers-refl : (v : Selection) → Covers v v
  Covers-refl v = record {
    keeps = λ x h. h;
    closed = λ x h k. cc;
    sound = λ x h k. cc;
    fresh = λ f. f;
  }

  Covers-trans : (u v w : Selection) → Covers u v → Covers v w → Covers u w
  Covers-trans u v w a b = record {
    keeps = λ x h. b.keeps x (a.keeps x h);
    closed = λ x h k is_tree. elim (Bool-cases (has v.seen x)) [
      | inl m ↦
          let (es, e, all) = a.closed x h m is_tree in
          (
            es,
            e,
            All_map (λ e. Covered v e.hash) (λ e. Covered w e.hash) es (λ e. Covers-seen b e.hash)
                all,
          )
      | inr n ↦ b.closed x n k is_tree
    ];
    sound =
        λ x h k. elim (Bool-cases (has v.seen x)) [ inl m ↦ a.sound x h m | inr n ↦ b.sound x n k ];
    fresh = λ f. b.fresh (a.fresh f);
  }

  -- What stands in the place of `to` on the client's side: nothing, or an object that it holds, of
  -- the same kind.
  abbrev IsBefore : Hash → Hash → Type 0
  IsBefore from to = (from ≡ zero_hash) ⊎ (Held from × (kind from ≡ kind to))

  abbrev StepCovers : CompareRef → Type 0
  StepCovers step =
      (from to : Hash) (v w : Selection)
      → IsBefore from to
      → P to
      → to ≢ zero_hash
      → step from to (kind to) v ≡ ok w
      → Covers v w × Covered w to

  -- An entry that the client holds, with its kind.
  abbrev IsHeldEntry : TreeEntry → Type 0
  IsHeldEntry w = Held w.hash × (is_dir w ≡ kind w.hash)

  counterpart-IsBefore :
      (e : TreeEntry) (was : List TreeEntry)
      → All IsHeldEntry was
      → is_dir e ≡ kind e.hash
      → IsBefore (counterpart e was) e.hash
  unfolding counterpart
  counterpart-IsBefore e [] h k = inl refl
  counterpart-IsBefore e (w ∷ was) h k =
      elim (Bool-cases (same_bytes w.name e.name && w.mode == e.mode)) [
        | inl same ↦ rw same (inr (h.0.0, kinds same))
        | inr other ↦ rw other (inl refl)
      ]
    where
      kinds : (same_bytes w.name e.name && w.mode == e.mode) ≡ true → kind w.hash ≡ kind e.hash
      kinds same = ground (arith, h.0.1)

  merge_ref-Covers :
      (step : CompareRef)
      → StepCovers step
      → (now was : List TreeEntry) (v w : Selection) → All IsHeldEntry was
      → All (λ e. is_dir e ≡ kind e.hash) now
      → All (λ e. P e.hash) now
      → All (λ e. e.hash ≢ zero_hash) now
      → merge_ref step now was v ≡ ok w
      → Covers v w × All (λ e. Covered w e.hash) now
  merge_ref-Covers step steps [] was v w h k p z run =
      (subst (Covers v) (ok_injective run) (Covers-refl v), tt)
  merge_ref-Covers step steps (e ∷ now) was v w h k p z run =
      let rest = skip_earlier e was in
      let held = skip_earlier-All IsHeldEntry e was h in
      let (u, first, more) =
        and_then-eq-ok (step (counterpart e rest) e.hash (is_dir e) v) (merge_ref step now rest)
          run in
      let (a, m) =
        steps (counterpart e rest) e.hash v u (counterpart-IsBefore e rest held k.0) p.0 z.0
          (subst (λ b. step (counterpart e rest) e.hash b v ≡ ok u) k.0 first) in
      let (b, all) = merge_ref-Covers step steps now rest u w held k.1 p.1 z.1 more in
      (Covers-trans v u w a b, (Covers-seen b e.hash m, all))

  -- The entries on the client's side are held, each with its kind.
  was_ref-held :
      (from to : Hash) (was : List TreeEntry)
      → IsBefore from to
      → kind to ≡ true
      → was_ref trees from ≡ ok was
      → All IsHeldEntry was
  was_ref-held from to was (inl z) t run = subst (All IsHeldEntry) (ok_injective (rw z at run)) tt
  was_ref-held from to was (inr (held, same)) t run = elim (Bool-cases (is_zero from)) [
    | inl z ↦ subst (All IsHeldEntry) (ok_injective (rw z at run)) tt
    | inr n ↦
        let read : trees from ≡ ok was = rw n at run in
        All_both was (held_on from was held (same ∙ t) read) (kinded from was read)
  ]
    where
      All_both :
          (es : List TreeEntry)
          → All (λ e. Held e.hash) es
          → All (λ e. is_dir e ≡ kind e.hash) es
          → All IsHeldEntry es
      All_both [] h k = tt
      All_both (e ∷ es) h k = ((h.0, k.0), All_both es h.1 k.1)

  -- A newly selected object, with its entries if it is a tree.
  Covers-add :
      (to : Hash) (v w : Selection)
      → P to
      → has v.seen to ≡ false
      → Covers (add to v) w
      → (kind to ≡ true
          → (es : List TreeEntry) × (trees to ≡ ok es) × All (λ e. Covered w e.hash) es)
      → Covers v w × Covered w to
  Covers-add to v w p new rest children = (
    record {
      keeps = λ x m. rest.keeps x (ground arith);
      closed = λ x n m is_tree. elim (Bool-cases (to == x)) [
        | inl same ↦
            subst
              (λ x.
                kind x ≡ true
                → (es : List TreeEntry) × (trees x ≡ ok es) × All (λ e. Covered w e.hash) es)
              ((==_iff to x).0 same) children is_tree
        | inr other ↦ rest.closed x (ground arith) m is_tree
      ];
      sound = λ x n m. elim (Bool-cases (to == x)) [
        | inl same ↦ subst P ((==_iff to x).0 same) p
        | inr other ↦ rest.sound x (ground arith) m
      ];
      fresh = λ f. rest.fresh (add-IsFresh [] to v new f);
    },
    inl (rest.keeps to (ground arith)),
  )

  expand_ref-Covers :
      (step : CompareRef)
      → StepCovers step
      → (from to : Hash) (v w : Selection) → IsBefore from to
      → P to
      → has v.seen to ≡ false
      → expand_ref trees step from to (kind to) (add to v) ≡ ok w
      → Covers v w × Covered w to
  expand_ref-Covers step steps from to v w before p new run = elim (Bool-cases (kind to)) [
    | inr blob ↦
        Covers-add to v w p new
          (subst (Covers (add to v)) (ok_injective (rw blob at run)) (Covers-refl (add to v)))
          (λ is_tree. cc (blob, is_tree))
    | inl is_tree ↦
        let (now, read, more) =
          and_then-eq-ok (trees to)
            (λ now. and_then (was_ref trees from) λ was. merge_ref step now was (add to v))
            (rw is_tree at run) in
        let (was, read_was, rest) =
          and_then-eq-ok (was_ref trees from) (λ was. merge_ref step now was (add to v)) more in
        let (a, all) =
          merge_ref-Covers step steps now was (add to v) w
            (was_ref-held from to was before is_tree read_was) (kinded to now read)
            (hand_on to now p is_tree read) (names to now read) rest in
        Covers-add to v w p new a (λ _. (now, read, all))
  ]

  compare_ref-Covers : (fuel : ℕ) → StepCovers (compare_ref trees fuel)
  unfolding compare_ref
  compare_ref-Covers zero from to v w before p z run = cc
  compare_ref-Covers (suc fuel) from to v w before p z run =
      elim (Bool-cases (from == to || has v.seen to)) [
        | inl stop ↦
            let e : v ≡ w = ok_injective (rw stop at run) in
            (
              subst (Covers v) e (Covers-refl v),
              subst (λ w. Covered w to) e (stopped before z stop),
            )
        | inr new ↦
            expand_ref-Covers (compare_ref trees fuel) (compare_ref-Covers fuel) from to v w before
              p (ground arith) (rw new at run)
      ]
    where
      same_held : IsBefore from to → to ≢ zero_hash → (from == to) ≡ true → Held to
      same_held (inl zf) zt e = absurd (zt (sym ((==_iff from to).0 e) ∙ zf))
      same_held (inr (h, _)) zt e = subst Held ((==_iff from to).0 e) h

      stopped :
          IsBefore from to → to ≢ zero_hash → (from == to || has v.seen to) ≡ true → Covered v to
      stopped b zt s = elim (Bool-cases (from == to)) [
        | inl e ↦ inr (same_held b zt e)
        | inr n ↦ inl (ground arith)
      ]

-- The client holds what stands below `from`. What `selectCompared` then selects has no hash twice,
-- stands below `to`, and with what the client holds is everything below `to`.
module _ (trees : Trees) (kind : Hash → Bool) (kinded : IsKinded trees kind)
    (names : NamesObjects trees) where
  -- From a covered root, everything below it is covered.
  Covered_everywhere :
      (from to : Hash) (v w : Selection)
      → kind to ≡ true
      → Covers trees kind kinded names
          (Below trees kind from)
          (Reach_hands_on trees kind kinded from)
          (Below trees kind to)
          (Reach_hands_on trees kind kinded to)
          v
          w
      → v.seen ≡ []
      → (has w.seen to ≡ true) ⊎ Below trees kind from to
      → (x : Hash) (b : Bool) → Reach trees to x b
      → (has w.seen x ≡ true) ⊎ Below trees kind from x
  Covered_everywhere from to v w kt c empty m x b p =
      Reach_induction trees kind kinded Cov hand_on kt m p
    where
      Cov : Hash → Type 0
      Cov x = (has w.seen x ≡ true) ⊎ Below trees kind from x

      hand_on : IsHandedOn trees kind Cov
      hand_on y es (inr h) is_tree read =
          All_map (λ e. Below trees kind from e.hash) (λ e. Cov e.hash) es (λ e. inr)
            (Reach_hands_on trees kind kinded from y es h is_tree read)
      hand_on y es (inl h) is_tree read =
          let (es', read', all) = c.closed y (rw empty refl) h is_tree in
          subst (All (λ e. Cov e.hash)) (ok_injective (sym read' ∙ read)) all

  pub compared_covers :
      (fuel : ℕ) (from to : Hash) (sel : Selection)
      → kind from ≡ true
      → kind to ≡ true
      → to ≢ zero_hash
      → compare_ref trees fuel from to true (record { seen = []; out = [] }) ≡ ok sel
      → Distinct sel.out
        × ((x : Hash) → has sel.out x ≡ true → Below trees kind to x)
        × ((x : Hash) (b : Bool)
            → Reach trees to x b
            → (has sel.out x ≡ true) ⊎ Below trees kind from x)
  compared_covers fuel from to sel kf kt z run =
      let start : Selection = record { seen = []; out = [] } in
      let root = λ (h : Hash) (t : kind h ≡ true). subst (Reach trees h h) (sym t) here in
      let (c, m) =
        compare_ref-Covers trees kind kinded names (Below trees kind from)
          (Reach_hands_on trees kind kinded from) (Below trees kind to)
          (Reach_hands_on trees kind kinded to) fuel from to start sel
          (inr (root from kf, kf ∙ sym kt)) (root to kt) z (rw kt run) in
      let fresh = c.fresh (record { distinct = tt; split = λ x. refl; new = λ x h. cc }) in
      (
        fresh.distinct,
        λ x sent. c.sound x refl (ground (arith, fresh.split x)),
        λ x b p.
            ground (arith, fresh.split x, Covered_everywhere from to start sel kt c refl m x b p),
      )
