-- ===== src/Objects/Compact/Given.antt =====
-- What `Compact` returns, and what it leaves of the store that it reads.
use treevial.Prelude.{
  ℕ, Bool, true, false, Option, none, some, List, [], Result, ok, err, and_then, has, ◌≡◌, ◌≢◌, ◌↔◌,
  refl, sym, ap, ◌∙◌, subst, All, All-Memᴰ, All_map, All_intro, Bool-cases, inl, inr, ok_injective,
  number_key,
}
use treevial.Prelude.Int.{ℤ}
use treevial.Prelude.Maps.{lookup, keep, lookup-keep}
use treevial.Git.{Git, Hash, zero_hash, TreeEntry, ObjectType, any_object, tree_object}
use treevial.Objects.Store.{Fault, missing, undecodable, Store, new_store, tree_at, or_fault}
use treevial.Objects.Walk.Reach.{Below, IsKinded, Reach_induction, Reach_hands_on}
use treevial.Objects.Walk.Refine.{view, Shows}
use treevial.Objects.Select.Exact.{Below-root}
use treevial.Objects.Compact.{Compacting, compact_roots, finish, compact}
use treevial.Objects.Compact.Copies.{IsCopying}
use treevial.Objects.Compact.Laws.{IsRetained, Took, compact_roots-Took}

-- What a compacted store has of an object that it retains: the object itself, and its entries.
pub record Retains (g : Git) (s out : Store g) (x : Hash) : Type 0 where
  pub same : (t : ObjectType) → g.find out.storage t x ≡ g.find s.storage t x
  pub found : (o : g.Encoded) × (g.find out.storage any_object x ≡ some o)
  pub reads : view g out x ≡ view g s x

module _ (g : Git) (copying : IsCopying g) (s : Store g) (kind : Hash → Bool)
    (kinded : IsKinded (view g s) kind) (roots : List Hash)
    (names : All (λ r. r ≢ zero_hash → kind r ≡ true) roots) (fuel : ℕ) where
  abbrev IsKept : Hash → Type 0
  IsKept = IsRetained (view g s) kind roots

  IsKept_hands_on :
      (x : Hash) (es : List TreeEntry)
      → IsKept x
      → kind x ≡ true
      → view g s x ≡ ok es
      → All (λ e. IsKept e.hash) es
  IsKept_hands_on x es p k read =
      All_map (λ e. Below (view g s) kind p.root e.hash) (λ e. IsKept e.hash) es
        (λ e q. record { root = p.root; named = p.named; nonzero = p.nonzero; reached = q })
        (Reach_hands_on (view g s) kind kinded p.root x es p.reached k read)

  roots-IsKept : All (λ r. r ≢ zero_hash → (kind r ≡ true) × IsKept r) roots
  roots-IsKept =
      All_intro (λ r. r ≢ zero_hash → (kind r ≡ true) × IsKept r) roots
        λ r m nz.
          let k = All-Memᴰ (λ r. r ≢ zero_hash → kind r ≡ true) names m nz in
          (
            k,
            record {
              root = r;
              named = m;
              nonzero = nz;
              reached = Below-root (view g s) kind kinded r k;
            },
          )

  took :
      (c : Compacting g) (v : Store g)
      → compact_roots g s fuel roots (record { live = []; out = new_store g }) s ≡ (v, ok c)
      → Took g copying s kind kinded IsKept IsKept_hands_on roots
          (record { live = []; out = new_store g })
          c
          v
  took c v run =
      compact_roots-Took g copying s kind kinded IsKept IsKept_hands_on fuel roots
        (record { live = []; out = new_store g }) c s v roots-IsKept
        (record { views = λ h. refl; objects = refl })
        (record {
          closed = λ x m. cc;
          sound = λ x m. cc;
          copies = record { same = λ t x. copying.empty t x; found = λ x m. cc };
        })
        run

  live_iff :
      (c : Compacting g) (v : Store g)
      → compact_roots g s fuel roots (record { live = []; out = new_store g }) s ≡ (v, ok c)
      → (x : Hash) → (has c.live x ≡ true) ↔ IsKept x
  live_iff c v run x =
      let t = took c v run in
      (
        t.taken.sound x,
        λ p.
            Reach_induction (view g s) kind kinded (λ y. has c.live y ≡ true)
              (λ y es m k read.
                let (es', read', all) = t.taken.closed y m k in
                subst (All (λ e. has c.live e.hash ≡ true)) (ok_injective (sym read' ∙ read)) all)
              (All-Memᴰ (λ r. r ≢ zero_hash → kind r ≡ true) names p.named p.nonzero)
              (All-Memᴰ (λ r. r ≢ zero_hash → has c.live r ≡ true) t.roots_live p.named p.nonzero)
              p.reached,
      )

  tree_at-same :
      (out : Store g) (x : Hash)
      → g.find out.storage tree_object x ≡ g.find s.storage tree_object x
      → tree_at g out x ≡ tree_at g s x
  unfolding tree_at
  tree_at-same out x e =
      ap
        (λ o.
          and_then (or_fault o (missing x)) λ obj. or_fault (g.tree_entries obj) (undecodable x))
        e

  view_of : Option (List TreeEntry) → Result Fault (List TreeEntry) → Result Fault (List TreeEntry)
  view_of (some es) r = ok es
  view_of none r = r

  view-eq-view_of :
      (u : Store g) (x : Hash) → view g u x ≡ view_of (lookup x u.decoded) (tree_at g u x)
  unfolding view view_of
  view-eq-view_of u x = at (lookup x u.decoded)
    where
      at :
          (o : Option (List TreeEntry))
          → elim o [ some es ↦ ok es | none ↦ tree_at g u x ] ≡ view_of o (tree_at g u x)
      at (some es) = refl
      at none = refl

  module _ (c : Compacting g) (v : Store g)
      (run : compact_roots g s fuel roots (record { live = []; out = new_store g }) s
        ≡ (v, ok c)) where
    abbrev out : Store g
    out = record c.out { decoded = keep c.live v.decoded }

    kept : (x : Hash) → IsKept x → Retains g s out x
    kept x p =
        let t = took c v run in
        let m = (live_iff c v run x).1 p in
        let same : (t : ObjectType) → g.find out.storage t x ≡ g.find s.storage t x =
          λ ty. t.taken.copies.same ty x ∙ rw m refl in
        let (o, found) = t.taken.copies.found x m in
        record {
          same = same;
          found = (o, same any_object ∙ found);
          reads =
              view-eq-view_of out x
              ∙ ap (λ l. view_of l (tree_at g out x)) (lookup-keep c.live x v.decoded ∙ rw m refl)
              ∙ ap (view_of (lookup x v.decoded)) (
                  tree_at-same out x (same tree_object)
                  ∙ sym (tree_at-same v x (ap (λ st. g.find st tree_object x) t.shows.objects)))
              ∙ sym (view-eq-view_of v x)
              ∙ t.shows.views x;
        }

    gone : (x : Hash) → ¬ IsKept x → (t : ObjectType) → g.find out.storage t x ≡ none
    gone x n ty =
        let t = took c v run in
        let m : has c.live x ≡ false = elim (Bool-cases (has c.live x)) [
          | inl y ↦ absurd (n ((live_iff c v run x).0 y))
          | inr z ↦ z
        ] in
        t.taken.copies.same ty x ∙ rw m refl

  -- Over a storage that stores what it has read where it was, a store in which `kind` says which hashes are
  -- those of trees, and roots that are trees or the zero hash: where `Compact` succeeds, the new store has
  -- everything that a root reaches as the old one does, object and entries, and finds nothing else. What the
  -- store that it read shows is as before.
  pub compact_lem :
      (new : Store g) (n : ℤ)
      → (compact g fuel roots s).1 ≡ ok (new, n)
      → ((x : Hash) → IsRetained (view g s) kind roots x → Retains g s new x)
        × ((x : Hash)
            → ¬ IsRetained (view g s) kind roots x
            → (t : ObjectType) → g.find new.storage t x ≡ none)
        × Shows g (view g s) s.storage (compact g fuel roots s).0
  unfolding compact
  compact_lem new n =
      done (compact_roots g s fuel roots (record { live = []; out = new_store g }) s) refl
    where
      done :
          (r : Store g × Result Fault (Compacting g))
          → compact_roots g s fuel roots (record { live = []; out = new_store g }) s ≡ r
          → (finish g r).1 ≡ ok (new, n)
          → ((x : Hash) → IsKept x → Retains g s new x)
            × ((x : Hash) → ¬ IsKept x → (t : ObjectType) → g.find new.storage t x ≡ none)
            × Shows g (view g s) s.storage (finish g r).0
      done (v, err e) run h = cc
      done (v, ok c) run h =
          let same : out c v run ≡ new = ap (λ p. p.0) (ok_injective h) in
          (
            λ x p. subst (λ o. Retains g s o x) same (kept c v run x p),
            λ x q t. subst (λ o. g.find o.storage t x ≡ none) same (gone c v run x q t),
            (took c v run).shows,
          )
