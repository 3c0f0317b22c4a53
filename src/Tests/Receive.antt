-- ===== src/Tests/Receive.antt =====
-- A graph of four trees: what is retained, and what differs.
use treevial.Prelude.{
  ℕ, ◌<◌, Bool, true, false, Option, none, some, List, [], ◌∷◌, map, Bytes, ok, ◌≡◌, ◌⊎◌, refl, sym,
  arith, subst₂, All, inl, inr, ltb, ◌==◌, if◌then◌else◌, ◌+◌, number_key,
}
use treevial.Prelude.Text.{ascii}
use treevial.Git.{Hash, TreeEntry, is_dir, dir_mode, regular_mode}
use treevial.Objects.Walk.Reach.{IsKinded}
use treevial.Objects.Walk.Ends.{IsNested, IsReadable}
use treevial.Receive.Graph.{
  Graph, get_tree, get_blob, entries, size, or_missing, visit_entry, descend, mark, mark_all,
  retain, leaves,
}
use treevial.Receive.Retain.Live.{IsLive}
use treevial.Receive.Retain.Laws.{Keeps, retain_lem}
use treevial.Receive.Retain.Ends.{IsWhole, retain_ends}
use treevial.Receive.Compare.{Change, added, modified, whole, compare, diff}
use treevial.Receive.Compare.Paths.{HasNames, leaf_at}
use treevial.Receive.Compare.Emits.{at_path, change_at}
use treevial.Receive.Compare.Between.{between}
use treevial.Receive.Compare.Sorted.{IsInPathOrder}
use treevial.Receive.Compare.Changes.{diff_lem}

abbrev file : Bytes → Hash → TreeEntry
file name h = record { name = name; mode = regular_mode; hash = h }

abbrev folder : Bytes → Hash → TreeEntry
folder name h = record { name = name; mode = dir_mode; hash = h }

abbrev entries_1 : List TreeEntry
entries_1 = file (ascii "a") 10 ∷ []

abbrev entries_2 : List TreeEntry
entries_2 = file (ascii "a") 10 ∷ folder (ascii "b") 3 ∷ []

abbrev entries_3 : List TreeEntry
entries_3 = file (ascii "c") 11 ∷ []

abbrev entries_4 : List TreeEntry
entries_4 = file (ascii "a") 12 ∷ []

-- Tree 2 is tree 1 with a folder, tree 3, added; in tree 4, the file of tree 1 is another.
abbrev pub sample : Graph
sample = record {
  blobs = (10, 1 ∷ []) ∷ (11, 2 ∷ []) ∷ (12, 3 ∷ []) ∷ [];
  trees = (1, entries_1) ∷ (2, entries_2) ∷ (3, entries_3) ∷ (4, entries_4) ∷ [];
}

abbrev kind : Hash → Bool
kind h = ltb h 5

tree_cases :
    (x : Hash) (es : List TreeEntry)
    → get_tree sample x ≡ some es
    → ((x ≡ 1) × (es ≡ entries_1))
      ⊎ ((x ≡ 2) × (es ≡ entries_2))
      ⊎ ((x ≡ 3) × (es ≡ entries_3))
      ⊎ ((x ≡ 4) × (es ≡ entries_4))
tree_cases x es read = ground arith

each_known_tree :
    (P : Hash → List TreeEntry → Type 0)
    → P 1 entries_1
    → P 2 entries_2
    → P 3 entries_3
    → P 4 entries_4
    → (x : Hash) (es : List TreeEntry) → get_tree sample x ≡ some es
    → P x es
each_known_tree P p q r t x es read = elim (tree_cases x es read) [
  | inl (i, e) ↦ subst₂ P (sym i) (sym e) p
  | inr (inl (i, e)) ↦ subst₂ P (sym i) (sym e) q
  | inr (inr (inl (i, e))) ↦ subst₂ P (sym i) (sym e) r
  | inr (inr (inr (i, e))) ↦ subst₂ P (sym i) (sym e) t
]

tree_of : (x : Hash) (es : List TreeEntry) → entries sample x ≡ ok es → get_tree sample x ≡ some es
tree_of x es read = at (get_tree sample x) read
  where
    at : (o : Option (List TreeEntry)) → or_missing x o ≡ ok es → o ≡ some es
    at none h = cc
    at (some fs) h = cc

kinded : IsKinded (entries sample) kind
kinded x es read =
    each_known_tree (λ x es. All (λ e. is_dir e ≡ kind e.hash) es) (refl, tt) (refl, (refl, tt))
      (refl, tt) (refl, tt) x es (tree_of x es read)

abbrev rank : Hash → ℕ
rank h = if h == 2 then 2 else if kind h then 1 else 0

nested : IsNested (entries sample) rank
nested x es read =
    each_known_tree (λ x es. All (λ e. rank e.hash < rank x) es) (omega arith) (omega arith)
      (omega arith) (omega arith) x es (tree_of x es read)

abbrev Known : Hash → Bool → Type 0
Known h true = (h ≡ 2) ⊎ (h ≡ 3)
Known h false = (h ≡ 10) ⊎ (h ≡ 11)

readable : IsReadable (entries sample) Known
readable x (inl e) = (entries_2, rw e refl, (inl refl, (inr refl, tt)))
readable x (inr e) = (entries_3, rw e refl, (inr refl, tt))

sample-IsWhole : IsWhole sample kind Known
sample-IsWhole = record {
  trees = readable;
  blobs = λ x p. elim p [ inl e ↦ (1 ∷ [], rw e refl) | inr e ↦ (2 ∷ [], rw e refl) ];
  kinds = λ x b p. known x b p;
}
  where
    known : (x : Hash) (b : Bool) → Known x b → b ≡ kind x
    known x true (inl e) = rw e refl
    known x true (inr e) = rw e refl
    known x false (inl e) = rw e refl
    known x false (inr e) = rw e refl

retained : (retain 5 (2 ∷ 0 ∷ []) sample).1 ≡ ok 3
unfolding retain mark_all mark descend visit_entry
retained = refl

retain_lem_example :
    ((x : Hash)
      → IsLive sample kind (2 ∷ 0 ∷ []) x
      → Keeps sample kind kinded
          (2 ∷ 0 ∷ [])
          ((λ nz. refl), ((λ nz. absurd (nz refl)), tt))
          5
          sample
          (retain 5 (2 ∷ 0 ∷ []) sample).0
          x)
    × ((x : Hash)
        → ¬ IsLive sample kind (2 ∷ 0 ∷ []) x
        → (get_blob (retain 5 (2 ∷ 0 ∷ []) sample).0 x ≡ none)
          × (get_tree (retain 5 (2 ∷ 0 ∷ []) sample).0 x ≡ none))
    × (size (retain 5 (2 ∷ 0 ∷ []) sample).0 + 3 ≡ size sample)
retain_lem_example =
    retain_lem sample kind kinded (2 ∷ 0 ∷ []) ((λ nz. refl), ((λ nz. absurd (nz refl)), tt)) 5 3
      retained

retain_ends_example : (n : ℕ) × ((retain 5 (2 ∷ 0 ∷ []) sample).1 ≡ ok n)
retain_ends_example =
    retain_ends sample kind kinded rank nested Known sample-IsWhole 5 (2 ∷ 0 ∷ [])
      ((λ nz. (inl refl, omega arith)), ((λ nz. absurd (nz refl)), tt))

named : (h : Hash) (es : List TreeEntry) → get_tree sample h ≡ some es → HasNames es
named =
    each_known_tree (λ x es. HasNames es) (refl, refl, tt) (refl, refl, (refl, refl, tt))
      (refl, refl, tt) (refl, refl, tt)

abbrev expected : List Change
expected =
    record { kind = modified; path = ascii "a"; hash = 10; content = some (1 ∷ []) }
    ∷ record { kind = added; path = ascii "b/c"; hash = 11; content = some (2 ∷ []) }
    ∷ []

listed : diff sample 5 4 2 ≡ ok expected
unfolding diff compare whole descend visit_entry
listed = refl

diff_lem_example :
    IsInPathOrder expected
    × ((p : Bytes)
        → at_path p expected
          ≡ map (change_at sample p) (between (leaf_at sample 5 4 p) (leaf_at sample 5 2 p)))
diff_lem_example = diff_lem sample named refl 5 4 2 expected listed

found_leaves : leaves sample 5 2 ≡ ok ((ascii "a", 1 ∷ []) ∷ (ascii "b/c", 2 ∷ []) ∷ [])
unfolding leaves descend visit_entry
found_leaves = refl
