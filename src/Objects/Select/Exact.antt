-- ===== src/Objects/Select/Exact.antt =====
-- `reachable` and the visitor of `selectExact`, over fixed trees.
use treevial.Prelude.{
  ℕ, Bool, true, false, ◌||◌, List, [], ◌∷◌, ok, ◌≡◌, ◌↔◌, refl, sym, ◌∙◌, arith, subst, All,
  All_map, has, has-append, Distinct, Distinct-concat, ==_iff, Bool-cases, inl, inr, ok_injective,
}
use treevial.Git.{Hash, TreeEntry}
use treevial.Objects.Walk.Follow.{Trees, follow}
use treevial.Objects.Walk.Reach.{Reach, here, Below, IsKinded, Reach_induction, Reach_hands_on}
use treevial.Objects.Walk.Marks.{IsMarking, Explored, follow-Explored, follow_keeps}
use treevial.Objects.Select.{Selection, add, visit_reachable, visit_exact}

visit_reachable-IsMarking : IsMarking visit_reachable has
visit_reachable-IsMarking = record {
  stops = λ h v m. ground arith;
  marks = λ h v seen n e. (ground arith, λ x. ground arith);
}

abbrev pub selected : Selection → Hash → Bool
selected sel h = has sel.seen h

visit_exact-IsMarking : IsMarking visit_exact selected
visit_exact-IsMarking = record {
  stops = λ h v m. ground arith;
  marks = λ h v seen n e. (ground arith, λ x. ground arith);
}

-- What `selectExact` collects: no hash twice, and `seen` is what was held and what is sent.
pub record IsFresh (held : List Hash) (sel : Selection) : Type 0 where
  pub distinct : Distinct sel.out
  pub split : (x : Hash) → has sel.seen x ≡ (has held x || has sel.out x)
  pub new : (x : Hash) → has sel.out x ≡ true → has held x ≡ false

pub add-IsFresh :
    (held : List Hash) (h : Hash) (sel : Selection)
    → has sel.seen h ≡ false
    → IsFresh held sel
    → IsFresh held (add h sel)
add-IsFresh held h sel n f = record {
  distinct = Distinct-concat sel.out h f.distinct (ground (arith, f.split h));
  split = λ x. ground (arith, f.split x, has-append sel.out (h ∷ []) x);
  new = λ x m.
      ground (arith, f.split x, f.split h, f.new x, has-append sel.out (h ∷ []) x, ==_iff h x);
}

visit_exact_keeps :
    (held : List Hash) (h : Hash) (sel : Selection) (seen : Bool × Selection)
    → IsFresh held sel
    → visit_exact h sel ≡ ok seen
    → IsFresh held seen.1
visit_exact_keeps held h sel seen f e = elim (Bool-cases (has sel.seen h)) [
  | inl m ↦ subst (λ r. IsFresh held r.1) (ok_injective {a = (false, sel)} (rw m at e)) f
  | inr n ↦
      subst (λ r. IsFresh held r.1) (ok_injective {a = (true, add h sel)} (rw n at e))
        (add-IsFresh held h sel n f)
]

module _ (trees : Trees) (kind : Hash → Bool) (kinded : IsKinded trees kind) where
  pub Below-root : (root : Hash) → kind root ≡ true → Below trees kind root root
  Below-root root t = subst (Reach trees root root) (sym t) here

  -- The marks are closed under the entries of trees.
  abbrev IsClosed : (Hash → Bool) → Type 0
  IsClosed m =
      (x : Hash) (es : List TreeEntry)
      → m x ≡ true
      → kind x ≡ true
      → trees x ≡ ok es
      → All (λ e. m e.hash ≡ true) es

  -- Where the marks before were closed, everything below a marked root is marked.
  Explored-complete :
      {V : Type 0} (marked : V → Hash → Bool) (P : Hash → Type 0) (v w : V) (root : Hash)
      → kind root ≡ true
      → Explored trees kind P marked v w
      → IsClosed (marked v)
      → marked w root ≡ true
      → {x : Hash} {b : Bool} → Reach trees root x b
      → marked w x ≡ true
  Explored-complete marked P v w root t ex closed m p =
      Reach_induction trees kind kinded (λ x. marked w x ≡ true)
        (λ x es mx is_tree read. elim (Bool-cases (marked v x)) [
          | inl old ↦
              All_map (λ e. marked v e.hash ≡ true) (λ e. marked w e.hash ≡ true) es
                (λ e. ex.keeps e.hash) (closed x es old is_tree read)
          | inr new ↦
              let (es', read', all) = ex.closed x new mx is_tree in
              subst (All (λ e. marked w e.hash ≡ true)) (ok_injective (sym read' ∙ read)) all
        ])
        t m p

  -- `reachable` marks exactly what stands below its root.
  pub reachable_iff :
      (fuel : ℕ) (root : Hash) (out : List Hash)
      → kind root ≡ true
      → follow visit_reachable trees fuel root true [] ≡ ok out
      → (x : Hash) → (has out x ≡ true) ↔ Below trees kind root x
  reachable_iff fuel root out t run x =
      let (ex, m) =
        follow-Explored trees kind kinded (Below trees kind root)
          (Reach_hands_on trees kind kinded root) visit_reachable has visit_reachable-IsMarking fuel
          root [] out (Below-root root t) (rw t run) in
      (
        ex.sound x refl,
        Explored-complete has (Below trees kind root) [] out root t ex (λ y es h. cc) m,
      )

  -- From a set of held objects that is closed, the traversal selects exactly what stands below `to`
  -- and is not held.
  pub exact_iff :
      (fuel : ℕ) (to : Hash) (held : List Hash) (sel : Selection)
      → kind to ≡ true
      → IsClosed (has held)
      → follow visit_exact trees fuel to true (record { seen = held; out = [] }) ≡ ok sel
      → Distinct sel.out
        × ((x : Hash) → (has sel.out x ≡ true) ↔ (Below trees kind to x × (has held x ≡ false)))
  exact_iff fuel to held sel t closed run =
      let start : Selection = record { seen = held; out = [] } in
      let (ex, m) =
        follow-Explored trees kind kinded (Below trees kind to)
          (Reach_hands_on trees kind kinded to) visit_exact selected visit_exact-IsMarking fuel to
          start sel (Below-root to t) (rw t run) in
      let fresh =
        follow_keeps visit_exact (IsFresh held) (visit_exact_keeps held) trees fuel to true start
          sel (record { distinct = tt; split = λ x. ground arith; new = λ x h. cc }) run in
      (
        fresh.distinct,
        λ x. (
          λ sent. (ex.sound x (fresh.new x sent) (ground (arith, fresh.split x)), fresh.new x sent),
          λ (p, n).
              let marked =
                Explored-complete selected (Below trees kind to) start sel to t ex closed m p in
              ground (arith, fresh.split x),
        ),
      )
