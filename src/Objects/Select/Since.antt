-- ===== src/Objects/Select/Since.antt =====
-- `SelectSince`: what is sent, with what the client holds, is everything below the new head.
use treevial.Prelude.{
  ℕ, ◌/◌, Bool, true, false, List, [], Result, ok, and_then, ◌≡◌, ◌≢◌, ◌⊎◌, ◌↔◌, refl, sym, ◌∙◌,
  subst, has, Distinct, ==_iff, Bool-cases, inl, inr, ok_injective, if◌then◌else◌, leb, length, All,
  All_map, ⊎_elim,
}
use treevial.Git.{Git, Hash, zero_hash, is_zero, TreeEntry}
use treevial.Objects.Store.{Fault, Store}
use treevial.Objects.Walk.Follow.{Trees, follow}
use treevial.Objects.Walk.Reach.{Reach, Below, IsKinded, Reach-kind, Reach_hands_on}
use treevial.Objects.Walk.Refine.{view, Shows}
use treevial.Objects.Walk.Marks.{and_then-eq-ok}
use treevial.Objects.Select.{visit_exact, select_exact, select_since}
use treevial.Objects.Select.Exact.{reachable_iff, exact_iff}
use treevial.Objects.Select.Merge.{compare_ref}
use treevial.Objects.Select.Compared.{NamesObjects, compared_covers}
use treevial.Objects.Select.Refine.{
  reachable_ref, exact_ref, compared_ref, since_ref, select_exact-Runs, select_since-Runs,
}

-- What the client holds: with the zero hash for a tree, nothing.
abbrev pub Holds : Trees → (Hash → Bool) → Hash → Hash → Type 0
Holds trees kind from x = (from ≢ zero_hash) × Below trees kind from x

module _ (trees : Trees) (kind : Hash → Bool) (kinded : IsKinded trees kind)
    (names : NamesObjects trees) (from to : Hash) (from_tree : kind from ≡ true)
    (to_tree : kind to ≡ true) where
  -- `reachable` is the set of what the client holds.
  reachable_ref_iff :
      (fuel : ℕ) (holding : List Hash)
      → reachable_ref trees fuel from ≡ ok holding
      → (x : Hash) → (has holding x ≡ true) ↔ Holds trees kind from x
  reachable_ref_iff fuel holding run x = elim (Bool-cases (is_zero from)) [
    | inl z ↦
        let e : [] ≡ holding = ok_injective (rw z at run) in
        (
          λ m. cc (subst (λ l. has l x ≡ true) (sym e) m),
          λ (n, _). absurd (n ((==_iff from zero_hash).0 z)),
        )
    | inr n ↦
        let iff = reachable_iff trees kind kinded fuel from holding from_tree (rw n at run) x in
        (λ m. (λ e. cc ((==_iff from zero_hash).1 e, n), iff.0 m), λ (_, b). iff.1 b)
  ]

  held_closed :
      (fuel : ℕ) (holding : List Hash)
      → reachable_ref trees fuel from ≡ ok holding
      → (x : Hash) (es : List TreeEntry) → has holding x ≡ true
      → kind x ≡ true
      → trees x ≡ ok es
      → All (λ e. has holding e.hash ≡ true) es
  held_closed fuel holding run x es m is_tree read =
      let (nz, b) = (reachable_ref_iff fuel holding run x).0 m in
      All_map (λ e. Below trees kind from e.hash) (λ e. has holding e.hash ≡ true) es
        (λ e p. (reachable_ref_iff fuel holding run e.hash).1 (nz, p))
        (Reach_hands_on trees kind kinded from x es b is_tree read)

  -- Whether the client holds an object is decided by `reachable`, if that succeeds.
  Holds-cases :
      (fuel : ℕ) (holding : List Hash)
      → reachable_ref trees fuel from ≡ ok holding
      → (x : Hash) → ((has holding x ≡ false) × ¬ Holds trees kind from x) ⊎ Holds trees kind from x
  Holds-cases fuel holding run x =
      let iff = reachable_ref_iff fuel holding run x in
      elim (Bool-cases (has holding x)) [
        | inl m ↦ inr (iff.0 m)
        | inr n ↦ inl (n, λ h. cc (iff.1 h, n))
      ]

  exact_ref-held :
      (fuel : ℕ) (out : List Hash)
      → exact_ref trees fuel from to ≡ ok out
      → (holding : List Hash) × (reachable_ref trees fuel from ≡ ok holding)
        × Distinct out
        × ((x : Hash) → (has out x ≡ true) ↔ (Below trees kind to x × (has holding x ≡ false)))
  exact_ref-held fuel out run =
      let (holding, first, more) =
        and_then-eq-ok (reachable_ref trees fuel from)
          (λ holding.
            and_then (follow visit_exact trees fuel to true (record { seen = holding; out = [] }))
              λ sel. ok sel.out)
          run in
      let (sel, second, last) =
        and_then-eq-ok (follow visit_exact trees fuel to true (record { seen = holding; out = [] }))
          (λ sel. ok sel.out) more in
      let e : sel.out ≡ out = ok_injective last in
      let (distinct, iff) =
        exact_iff trees kind kinded fuel to holding sel to_tree (held_closed fuel holding first)
          second in
      (
        holding,
        first,
        subst Distinct e distinct,
        subst
            (λ l. (x : Hash) → (has l x ≡ true) ↔ (Below trees kind to x × (has holding x ≡ false)))
            e iff,
      )

  -- Exactly what stands below `to` and is not held.
  exact_ref_lem :
      (fuel : ℕ) (out : List Hash)
      → exact_ref trees fuel from to ≡ ok out
      → Distinct out
        × ((x : Hash) → (has out x ≡ true) ↔ (Below trees kind to x × ¬ Holds trees kind from x))
  exact_ref_lem fuel out run =
      let (holding, first, distinct, iff) = exact_ref-held fuel out run in
      (
        distinct,
        λ x. (
          λ m.
              let (p, n) = (iff x).0 m in
              (p, λ h. cc ((reachable_ref_iff fuel holding first x).1 h, n)),
          λ (p, n). elim (Holds-cases fuel holding first x) [
            | inl (m, _) ↦ (iff x).1 (p, m)
            | inr h ↦ absurd (n h)
          ],
        ),
      )

  -- What a selection promises a client that holds the tree `from`.
  abbrev Serves : List Hash → Type 0
  Serves out =
      Distinct out
      × ((x : Hash) → has out x ≡ true → Below trees kind to x)
      × ((x : Hash) (b : Bool) → Reach trees to x b → (has out x ≡ true) ⊎ Holds trees kind from x)

  exact_ref-Serves :
      (fuel : ℕ) (out : List Hash) → exact_ref trees fuel from to ≡ ok out → Serves out
  exact_ref-Serves fuel out run =
      let (holding, first, distinct, iff) = exact_ref-held fuel out run in
      (
        distinct,
        λ x m. ((iff x).0 m).0,
        λ x b p. elim (Holds-cases fuel holding first x) [
          | inl (m, _) ↦
              inl
                ((iff x).1 (subst (Reach trees to x) (Reach-kind trees kind kinded to_tree p) p, m))
          | inr h ↦ inr h
        ],
      )

  compared_ref-Serves :
      (fuel : ℕ) (out : List Hash)
      → from ≢ zero_hash
      → to ≢ zero_hash
      → compared_ref trees fuel from to ≡ ok out
      → Serves out
  compared_ref-Serves fuel out nf nt run =
      let (sel, first, last) =
        and_then-eq-ok (compare_ref trees fuel from to true (record { seen = []; out = [] }))
          (λ sel. ok sel.out) run in
      let (distinct, sound, full) =
        compared_covers trees kind kinded names fuel from to sel from_tree to_tree nt first in
      subst Serves (ok_injective last)
        (distinct, sound, λ x b p. ⊎_elim inl (λ h. inr (nf, h)) (full x b p))

  since_ref-Serves :
      (size fuel : ℕ) (out : List Hash)
      → to ≢ zero_hash
      → since_ref trees size fuel from to ≡ ok out
      → Serves out
  since_ref-Serves size fuel out nt run = elim (Bool-cases (is_zero from)) [
    | inl z ↦
        exact_ref-Serves fuel out
          (subst (λ b. (if b then exact_ref trees fuel from to else rest) ≡ ok out) z run)
    | inr n ↦
        let (_, _, more) =
          and_then-eq-ok (trees from) (λ _. compared)
            (subst (λ b. (if b then exact_ref trees fuel from to else rest) ≡ ok out) n run) in
        let (few, first, last) = and_then-eq-ok (compared_ref trees fuel from to) choose more in
        elim (Bool-cases (leb (length few) (size / 2))) [
          | inl small ↦
              subst Serves (ok_injective (rw small at last))
                (compared_ref-Serves fuel few (λ e. cc ((==_iff from zero_hash).1 e, n)) nt first)
          | inr large ↦ exact_ref-Serves fuel out (
              subst (λ b. (if b then ok few else exact_ref trees fuel from to) ≡ ok out) large last)
        ]
  ]
    where
      choose : List Hash → Result Fault (List Hash)
      choose few = if leb (length few) (size / 2) then ok few else exact_ref trees fuel from to

      compared : Result Fault (List Hash)
      compared = and_then (compared_ref trees fuel from to) choose

      rest : Result Fault (List Hash)
      rest = and_then (trees from) λ _. compared

-- A store, the kinds of its objects, and two trees of it.
module _ (g : Git) (s : Store g) (kind : Hash → Bool) (kinded : IsKinded (view g s) kind)
    (names : NamesObjects (view g s)) (from to : Hash) (from_tree : kind from ≡ true)
    (to_tree : kind to ≡ true) (fuel : ℕ) (out : List Hash) where
  shown : Shows g (view g s) s.storage s
  shown = record { views = λ h. refl; objects = refl }

  -- Over a store in which `kind` says which objects are trees, and agrees with the modes of all entries,
  -- and whose entries never name the zero hash, with `from` and `to` trees: where `selectExact` succeeds,
  -- it selects exactly the objects that stand below `to` and not below `from`, none twice. Nothing stands
  -- below the zero hash, which is that of a client that holds nothing.
  pub select_exact_iff :
      (select_exact g fuel from to s).1 ≡ ok out
      → Distinct out
        × ((x : Hash)
            → (has out x ≡ true) ↔ (Below (view g s) kind to x × ¬ Holds (view g s) kind from x))
  select_exact_iff run =
      exact_ref_lem (view g s) kind kinded names from to from_tree to_tree fuel out
        (sym (select_exact-Runs g (view g s) s.storage fuel from to s shown).result ∙ run)

  -- Over a store in which `kind` says which objects are trees, and agrees with the modes of all entries,
  -- and whose entries never name the zero hash, with `from` and `to` trees, and `to` not the zero hash:
  -- where `SelectSince` succeeds, whichever way it took, no hash is selected twice, each stands below `to`,
  -- and everything below `to` is selected or stands below `from`. A client that holds the tree `from` then
  -- holds the whole tree `to` once it has what was selected.
  pub select_since_complete :
      to ≢ zero_hash
      → (select_since g fuel from to s).1 ≡ ok out
      → Distinct out
        × ((x : Hash) → has out x ≡ true → Below (view g s) kind to x)
        × ((x : Hash) (b : Bool)
            → Reach (view g s) to x b
            → (has out x ≡ true) ⊎ Holds (view g s) kind from x)
  select_since_complete nonzero run =
      since_ref-Serves (view g s) kind kinded names from to from_tree to_tree (g.size s.storage)
        fuel out nonzero
        (sym (select_since-Runs g (view g s) s.storage fuel from to s shown).result ∙ run)
