-- ===== src/Tests/Select.antt =====
-- The store of objects and `SelectSince`, on two trees that share a part.
use treevial.Prelude.{
  ℕ, ◌<◌, Bool, true, false, List, [], ◌∷◌, ok, ◌≡◌, ◌≢◌, ◌⊎◌, ◌↔◌, refl, sym, arith, subst₂, All,
  has, Distinct, inl, inr, ltb, ◌==◌, if◌then◌else◌,
}
use treevial.Git.{Hash, zero_hash, TreeEntry, is_dir, dir_mode, regular_mode}
use treevial.Objects.Order.{earlier}
use treevial.Objects.Store.{Store, entries, tree_at}
use treevial.Objects.Walk.{walk}
use treevial.Objects.Walk.Refine.{view, Runs, walk-eq-follow}
use treevial.Objects.Walk.Follow.{follow}
use treevial.Objects.Walk.Reach.{Reach, Below, IsKinded}
use treevial.Objects.Walk.Ends.{IsNested, IsReadable}
use treevial.Objects.Select.{visit_reachable, skip_earlier, counterpart, select_exact, select_since}
use treevial.Objects.Select.Compared.{NamesObjects}
use treevial.Objects.Select.Since.{Holds, select_exact_iff, select_since_complete}
use treevial.Objects.Select.Ends.{select_since_ends}
use treevial.Tests.Toy.{toy, blob, tree}

abbrev file : List ℕ → Hash → TreeEntry
file name h = record { name = name; mode = regular_mode; hash = h }

abbrev folder : List ℕ → Hash → TreeEntry
folder name h = record { name = name; mode = dir_mode; hash = h }

abbrev entries_1 : List TreeEntry
entries_1 = file (97 ∷ []) 10 ∷ []

abbrev entries_2 : List TreeEntry
entries_2 = file (97 ∷ []) 10 ∷ folder (98 ∷ []) 3 ∷ []

abbrev entries_3 : List TreeEntry
entries_3 = file (99 ∷ []) 11 ∷ []

-- Tree 2 is tree 1 with a folder, tree 3, added.
abbrev pub sample : Store toy
sample = record {
  storage =
      (1, tree entries_1)
      ∷ (2, tree entries_2)
      ∷ (3, tree entries_3)
      ∷ (10, blob (1 ∷ []))
      ∷ (11, blob (2 ∷ []))
      ∷ [];
  decoded = [];
}

abbrev kind : Hash → Bool
kind h = ltb h 4

pub sent : (select_since toy 5 1 2 sample).1 ≡ ok (2 ∷ 3 ∷ 11 ∷ [])
unfolding select_since entries walk counterpart skip_earlier earlier
sent = refl

exact : (select_exact toy 5 1 2 sample).1 ≡ ok (2 ∷ 3 ∷ 11 ∷ [])
unfolding select_exact entries walk
exact = refl

view_cases :
    (x : Hash) (es : List TreeEntry)
    → view toy sample x ≡ ok es
    → ((x ≡ 1) × (es ≡ entries_1)) ⊎ ((x ≡ 2) × (es ≡ entries_2)) ⊎ ((x ≡ 3) × (es ≡ entries_3))
unfolding view tree_at
view_cases x es read = ground arith

-- A property of the three trees of the sample is one of every tree that can be read.
each_tree :
    (P : Hash → List TreeEntry → Type 0)
    → P 1 entries_1
    → P 2 entries_2
    → P 3 entries_3
    → (x : Hash) (es : List TreeEntry) → view toy sample x ≡ ok es
    → P x es
each_tree P p q r x es read = elim (view_cases x es read) [
  | inl (i, e) ↦ subst₂ P (sym i) (sym e) p
  | inr (inl (i, e)) ↦ subst₂ P (sym i) (sym e) q
  | inr (inr (i, e)) ↦ subst₂ P (sym i) (sym e) r
]

kinded : IsKinded (view toy sample) kind
kinded =
    each_tree (λ x es. All (λ e. is_dir e ≡ kind e.hash) es) (refl, tt) (refl, (refl, tt))
      (refl, tt)

names : NamesObjects (view toy sample)
names =
    each_tree (λ x es. All (λ e. e.hash ≢ zero_hash) es) (omega arith) (omega arith) (omega arith)

abbrev rank : Hash → ℕ
rank h = if h == 2 then 2 else if kind h then 1 else 0

nested : IsNested (view toy sample) rank
nested =
    each_tree (λ x es. All (λ e. rank e.hash < rank x) es) (omega arith) (omega arith) (omega arith)

abbrev Known : Hash → Bool → Type 0
Known h true = (h ≡ 1) ⊎ (h ≡ 2) ⊎ (h ≡ 3)
Known h false = Unit

readable : IsReadable (view toy sample) Known
unfolding view tree_at
readable x (inl e) = (entries_1, rw e, (tt, tt))
readable x (inr (inl e)) = (entries_2, rw e, (tt, (inr (inr refl), tt)))
readable x (inr (inr e)) = (entries_3, rw e, (tt, tt))

select_exact_iff_example :
    Distinct (2 ∷ 3 ∷ 11 ∷ [])
    × ((x : Hash)
        → (has (2 ∷ 3 ∷ 11 ∷ []) x ≡ true)
          ↔ (Below (view toy sample) kind 2 x × ¬ Holds (view toy sample) kind 1 x))
select_exact_iff_example =
    select_exact_iff toy sample kind kinded names 1 2 refl refl 5 (2 ∷ 3 ∷ 11 ∷ []) exact

select_since_complete_example :
    Distinct (2 ∷ 3 ∷ 11 ∷ [])
    × ((x : Hash) → has (2 ∷ 3 ∷ 11 ∷ []) x ≡ true → Below (view toy sample) kind 2 x)
    × ((x : Hash) (b : Bool)
        → Reach (view toy sample) 2 x b
        → (has (2 ∷ 3 ∷ 11 ∷ []) x ≡ true) ⊎ Holds (view toy sample) kind 1 x)
select_since_complete_example =
    select_since_complete toy sample kind kinded names 1 2 refl refl 5 (2 ∷ 3 ∷ 11 ∷ [])
      (omega arith) sent

select_since_ends_example : (out : List Hash) × ((select_since toy 5 1 2 sample).1 ≡ ok out)
select_since_ends_example =
    select_since_ends toy sample rank nested Known readable 5 1 2 (inr (inl refl)) (inr (inl refl))
      (omega arith) (omega arith)

walk-eq-follow_example :
    Runs toy
      (view toy sample)
      sample.storage
      (walk toy visit_reachable 5 2 [] sample)
      (follow visit_reachable (view toy sample) 5 2 true [])
walk-eq-follow_example = walk-eq-follow toy visit_reachable 5 2 [] sample
