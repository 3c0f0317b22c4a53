-- ===== src/Objects/Select/Ends.antt =====
-- `SelectSince` succeeds over trees that nest and can be read, with fuel above the depth of both.
use treevial.Prelude.{
  ℕ, zero, suc, ◌<◌, ◌/◌, Bool, true, false, ◌&&◌, ◌||◌, List, [], ◌∷◌, Result, ok, and_then, ◌≡◌,
  ◌⊎◌, refl, ◌∙◌, arith, subst, All, has, ◌==◌, ==_iff, Bool-cases, inl, inr, if◌then◌else◌,
  same_bytes, leb, length, and_then-ok,
}
use treevial.Git.{Git, Hash, zero_hash, is_zero, TreeEntry, is_dir}
use treevial.Objects.Store.{Fault, Store}
use treevial.Objects.Walk.Follow.{Trees, follow}
use treevial.Objects.Walk.Refine.{view}
use treevial.Objects.Walk.Ends.{IsNested, IsReadable, follow_ends}
use treevial.Objects.Select.{
  Selection, add, skip_earlier, counterpart, visit_reachable, visit_exact, select_since,
}
use treevial.Objects.Select.Merge.{CompareRef, merge_ref, was_ref, expand_ref, compare_ref}
use treevial.Objects.Select.Compared.{skip_earlier-All}
use treevial.Objects.Select.Refine.{
  reachable_ref, exact_ref, compared_ref, since_ref, select_since-Runs,
}

visit_reachable_ends :
    (h : Hash) (v : List Hash) → (seen : Bool × List Hash) × (visit_reachable h v ≡ ok seen)
visit_reachable_ends h v = elim (Bool-cases (has v h)) [
  | inl m ↦ ((false, v), rw m)
  | inr n ↦ ((true, h ∷ v), rw n)
]

visit_exact_ends :
    (h : Hash) (v : Selection) → (seen : Bool × Selection) × (visit_exact h v ≡ ok seen)
visit_exact_ends h v = elim (Bool-cases (has v.seen h)) [
  | inl m ↦ ((false, v), ground arith)
  | inr n ↦ ((true, add h v), ground arith)
]

module _ (trees : Trees) (rank : Hash → ℕ) (nested : IsNested trees rank) (P : Hash → Bool → Type 0)
    (readable : IsReadable trees P) where
  -- Nothing, or an object that can be read as what `is_tree` says.
  abbrev IsReadableOrZero : Hash → Bool → Type 0
  IsReadableOrZero from b = (from ≡ zero_hash) ⊎ P from b

  abbrev CompareEnds : ℕ → CompareRef → Type 0
  CompareEnds n step =
      (from to : Hash) (b : Bool) (v : Selection)
      → IsReadableOrZero from b
      → P to b
      → rank to < n
      → (w : Selection) × (step from to b v ≡ ok w)

  counterpart-readable :
      (e : TreeEntry) (was : List TreeEntry)
      → All (λ w. P w.hash (is_dir w)) was
      → IsReadableOrZero (counterpart e was) (is_dir e)
  unfolding counterpart
  counterpart-readable e [] h = inl refl
  counterpart-readable e (w ∷ was) h =
      elim (Bool-cases (same_bytes w.name e.name && w.mode == e.mode)) [
        | inr other ↦ rw other (inl refl)
        | inl same ↦
            let mode : is_dir w ≡ is_dir e = ground arith in
            rw same (inr (subst (P w.hash) mode h.0))
      ]

  merge_ref_ends :
      (n : ℕ) (step : CompareRef)
      → CompareEnds n step
      → (now was : List TreeEntry) (v : Selection) → All (λ e. P e.hash (is_dir e)) now
      → All (λ e. rank e.hash < n) now
      → All (λ w. P w.hash (is_dir w)) was
      → (w : Selection) × (merge_ref step now was v ≡ ok w)
  merge_ref_ends n step steps [] was v p r h = (v, refl)
  merge_ref_ends n step steps (e ∷ now) was v p r h =
      let rest = skip_earlier e was in
      let held = skip_earlier-All (λ w. P w.hash (is_dir w)) e was h in
      let (u, first) =
        steps (counterpart e rest) e.hash (is_dir e) v (counterpart-readable e rest held) p.0 r.0 in
      let (w, more) = merge_ref_ends n step steps now rest u p.1 r.1 held in (w, rw first more)

  was_ref_ends :
      (from : Hash)
      → IsReadableOrZero from true
      → (was : List TreeEntry) × (was_ref trees from ≡ ok was) × All (λ w. P w.hash (is_dir w)) was
  was_ref_ends from (inl z) = ([], rw z, tt)
  was_ref_ends from (inr p) = elim (Bool-cases (is_zero from)) [
    | inl z ↦ ([], rw z, tt)
    | inr n ↦ let (es, read, all) = readable from p in (es, rw n read, all)
  ]

  lower :
      (n : ℕ) (x : Hash) (es : List TreeEntry)
      → rank x < suc n
      → All (λ e. rank e.hash < rank x) es
      → All (λ e. rank e.hash < n) es
  lower n x [] h r = tt
  lower n x (e ∷ es) h r = (omega arith, lower n x es h r.1)

  expand_ref_ends :
      (n : ℕ) (step : CompareRef)
      → CompareEnds n step
      → (from to : Hash) (b : Bool) (v : Selection) → IsReadableOrZero from b
      → P to b
      → rank to < suc n
      → (w : Selection) × (expand_ref trees step from to b v ≡ ok w)
  expand_ref_ends n step steps from to false v f p r = (v, refl)
  expand_ref_ends n step steps from to true v f p r =
      let (now, read, all) = readable to p in
      let (was, read_was, held) = was_ref_ends from f in
      let (w, run) =
        merge_ref_ends n step steps now was v all (lower n to now r (nested to now read)) held in
      (
        w,
        and_then-ok (trees to)
            (λ now. and_then (was_ref trees from) λ was. merge_ref step now was v) read
            (and_then-ok (was_ref trees from) (λ was. merge_ref step now was v) read_was run),
      )

  compare_ref_ends : (fuel : ℕ) → CompareEnds fuel (compare_ref trees fuel)
  unfolding compare_ref
  compare_ref_ends zero from to b v f p r = absurd (omega arith)
  compare_ref_ends (suc n) from to b v f p r = elim (Bool-cases (from == to || has v.seen to)) [
    | inl stop ↦ (v, rw stop)
    | inr new ↦
        let (w, run) =
          expand_ref_ends n (compare_ref trees n) (compare_ref_ends n) from to b (add to v) f p r in
        (w, rw new run)
  ]

  module _ (fuel : ℕ) (from to : Hash) (f : IsReadableOrZero from true) (p : P to true)
      (from_fits : rank from < fuel) (to_fits : rank to < fuel) where
    reachable_ref_ends : (out : List Hash) × (reachable_ref trees fuel from ≡ ok out)
    reachable_ref_ends = elim f [
      | inl z ↦ ([], rw z)
      | inr q ↦ elim (Bool-cases (is_zero from)) [
        | inl z ↦ ([], rw z)
        | inr n ↦
            let (out, run) =
              follow_ends trees rank nested P readable visit_reachable
                (λ h b v _. visit_reachable_ends h v) fuel from true [] q from_fits in
            (out, rw n run)
      ]
    ]

    exact_ref_ends : (out : List Hash) × (exact_ref trees fuel from to ≡ ok out)
    exact_ref_ends =
        let (held, first) = reachable_ref_ends in
        let (sel, second) =
          follow_ends trees rank nested P readable visit_exact (λ h b v _. visit_exact_ends h v)
            fuel to true (record { seen = held; out = [] }) p to_fits in
        (
          sel.out,
          and_then-ok (reachable_ref trees fuel from)
              (λ held.
                and_then (follow visit_exact trees fuel to true (record { seen = held; out = [] }))
                  λ sel. ok sel.out)
              first
              (and_then-ok
                (follow visit_exact trees fuel to true (record { seen = held; out = [] }))
                (λ sel. ok sel.out) second refl),
        )

    chosen_ends :
        (size : ℕ) (few : List Hash)
        → (out : List Hash) × ((if leb (length few) (size / 2)
              then ok few
              else exact_ref trees fuel from to)
            ≡ ok out)
    chosen_ends size few = elim (Bool-cases (leb (length few) (size / 2))) [
      | inl small ↦ (few, rw small)
      | inr large ↦ let (out, run) = exact_ref_ends in (out, rw large run)
    ]

    since_ref_ends : (size : ℕ) → (out : List Hash) × (since_ref trees size fuel from to ≡ ok out)
    since_ref_ends size = elim (Bool-cases (is_zero from)) [
      | inl z ↦
          let (out, run) = exact_ref_ends in
          (out, if-true (is_zero from) (exact_ref trees fuel from to) _ z run)
      | inr n ↦
          let (was, read) = from_read n in
          let (sel, first) =
            compare_ref_ends fuel from to true (record { seen = []; out = [] }) f p to_fits in
          let (out, last) = chosen_ends size sel.out in
          (
            out,
            if-false (is_zero from) (exact_ref trees fuel from to) _ n (
                and_then-ok (trees from)
                  (λ _. and_then (compared_ref trees fuel from to) λ few.
                    if leb (length few) (size / 2) then ok few else exact_ref trees fuel from to)
                  read
                  (and_then-ok (compared_ref trees fuel from to)
                    (λ few.
                      if leb (length few) (size / 2) then ok few else exact_ref trees fuel from to)
                    (and_then-ok
                      (compare_ref trees fuel from to true (record { seen = []; out = [] }))
                      (λ sel. ok sel.out) first refl)
                    last)),
          )
    ]
      where
        from_read : is_zero from ≡ false → (was : List TreeEntry) × (trees from ≡ ok was)
        from_read n = elim f [
          | inl z ↦ cc ((==_iff from zero_hash).1 z, n)
          | inr q ↦ let (es, read, _) = readable from q in (es, read)
        ]

        if-true :
            (b : Bool) (x y : Result Fault (List Hash)) {r : Result Fault (List Hash)}
            → b ≡ true
            → x ≡ r
            → (if b then x else y) ≡ r
        if-true b x y e h = rw e h

        if-false :
            (b : Bool) (x y : Result Fault (List Hash)) {r : Result Fault (List Hash)}
            → b ≡ false
            → y ≡ r
            → (if b then x else y) ≡ r
        if-false b x y e h = rw e h

-- Over a store whose trees nest, with no limit on how they share parts, `SelectSince` succeeds: where
-- every tree below `from` and `to` can be read (`P` is what is known to be readable, and `from` may be
-- the zero hash), it returns a selection, given fuel above the depth of both trees.
pub select_since_ends :
    (g : Git) (s : Store g) (rank : Hash → ℕ)
    → IsNested (view g s) rank
    → (P : Hash → Bool → Type 0) → IsReadable (view g s) P
    → (fuel : ℕ) (from to : Hash) → (from ≡ zero_hash) ⊎ P from true
    → P to true
    → rank from < fuel
    → rank to < fuel
    → (out : List Hash) × ((select_since g fuel from to s).1 ≡ ok out)
select_since_ends g s rank nested P readable fuel from to f p ff tf =
    let (out, run) =
      since_ref_ends (view g s) rank nested P readable fuel from to f p ff tf (g.size s.storage) in
    (
      out,
      (select_since-Runs g (view g s) s.storage fuel from to s
            (record { views = λ h. refl; objects = refl })).result
          ∙ run,
    )
