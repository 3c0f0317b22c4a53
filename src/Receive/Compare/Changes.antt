-- ===== src/Receive/Compare/Changes.antt =====
-- What `Diff` lists.
use treevial.Prelude.{
  ℕ, zero, suc, false, Option, none, some, List, [], ◌∷◌, ◌++◌, map, Bytes, Result, ok, ◌≡◌, refl,
  sym, ap, ◌∙◌, subst, same_bytes, has, ok_injective, number_key, bytes_key, ◌==◌, ==_iff,
}
use treevial.Git.{Hash, zero_hash, TreeEntry}
use treevial.Objects.Store.{Fault}
use treevial.Objects.Walk.Marks.{and_then-eq-ok}
use treevial.Receive.Graph.{Graph, get_tree}
use treevial.Receive.Compare.{
  ChangeKind, deleted, Change, entries_by_name, ordered, compare, compare_moved, visit_diff,
  sort_changes, diff,
}
use treevial.Receive.Compare.Paths.{
  first_part, find_name, HasNames, leaf_entry, leaf_entries, leaf_at, leaf_entry-other, at_entry,
  leaf_entries-find_name,
}
use treevial.Receive.Compare.Emits.{
  at_path, Emits, Emits-nothing, Emits-same, Emits-then, change_at, made, made_same, made-append,
  made_nothing,
}
use treevial.Receive.Compare.Whole.{each, each_found, each-find_name, told, ordered-HasNames}
use treevial.Receive.Compare.Between.{between, between_same, none-between}
use treevial.Receive.Compare.Sorted.{
  IsInPathOrder, at_path-sort_changes, sort_changes-IsInPathOrder,
}
use treevial.Receive.Compare.Loops.{
  find_name-name, find_name-clean, entries_by_name-find_name, new_changes, old_changes,
  each_new-Emits, each_old-Emits, Emits-if,
}

append-empty {ℓ} : {A : Type ℓ} (xs : List A) → xs ++ [] ≡ xs
append-empty [] = refl
append-empty (x ∷ xs) = ap (λ l. x ∷ l) (append-empty xs)

-- The two loops together, at one path, by the entries that the path's first part names.
module _ (step : Hash → Bytes → Option TreeEntry) (olds news : List TreeEntry) (q : Bytes)
    (old_names : HasNames olds) (new_names : HasNames news) where
  abbrev new_at : TreeEntry → List (ChangeKind × TreeEntry)
  new_at e = new_changes step (find_name e.name olds) e q

  abbrev old_at : TreeEntry → List (ChangeKind × TreeEntry)
  old_at e = old_changes step (find_name e.name news) e q

  new_at-other :
      (e : TreeEntry)
      → has e.name b'/' ≡ false
      → same_bytes e.name (first_part q) ≡ false
      → new_at e ≡ []
  new_at-other e clean other = at (find_name e.name olds) refl
    where
      at : (o : Option TreeEntry) → find_name e.name olds ≡ o → new_changes step o e q ≡ []
      at none h = ap (between none) (leaf_entry-other step e q clean other)
      at (some b) h =
          ap (between (leaf_entry step b q)) (leaf_entry-other step e q clean other)
          ∙ ap (λ o. between o none)
              (leaf_entry-other step b q (find_name-clean e.name olds old_names h) (
                subst (λ n. same_bytes n (first_part q) ≡ false)
                  (sym (find_name-name e.name olds h)) other))

  old_at-other :
      (e : TreeEntry)
      → has e.name b'/' ≡ false
      → same_bytes e.name (first_part q) ≡ false
      → old_at e ≡ []
  old_at-other e clean other = at (find_name e.name news)
    where
      at : (o : Option TreeEntry) → old_changes step o e q ≡ []
      at none = ap (told deleted) (leaf_entry-other step e q clean other)
      at (some b) = refl

  both_found :
      (o o' : Option TreeEntry)
      → find_name (first_part q) olds ≡ o
      → find_name (first_part q) news ≡ o'
      → each_found new_at o' ++ each_found old_at o
        ≡ between (at_entry step o q) (at_entry step o' q)
  both_found none none h k = refl
  both_found none (some e) h k =
      append-empty (new_at e)
      ∙ ap (λ o. new_changes step o e q)
          (ap (λ n. find_name n olds) (find_name-name (first_part q) news k) ∙ h)
  both_found (some b) none h k =
      ap (λ o. old_changes step o b q)
        (ap (λ n. find_name n news) (find_name-name (first_part q) olds h) ∙ k)
      ∙ sym (none-between (leaf_entry step b q))
  both_found (some b) (some e) h k =
      ap (λ l. new_at e ++ l)
        (ap (λ o. old_changes step o b q)
          (ap (λ n. find_name n news) (find_name-name (first_part q) olds h) ∙ k))
      ∙ append-empty (new_at e)
      ∙ ap (λ o. new_changes step o e q)
          (ap (λ n. find_name n olds) (find_name-name (first_part q) news k) ∙ h)

  loops_between :
      each new_at news ++ each old_at olds
      ≡ between (leaf_entries step olds q) (leaf_entries step news q)
  loops_between =
      ap (λ l. l ++ each old_at olds)
        (each-find_name new_at (first_part q) news new_names new_at-other)
      ∙ ap (λ l. each_found new_at (find_name (first_part q) news) ++ l)
          (each-find_name old_at (first_part q) olds old_names old_at-other)
      ∙ both_found (find_name (first_part q) olds) (find_name (first_part q) news) refl refl
      ∙ ap (λ o. between o (at_entry step (find_name (first_part q) news) q))
          (sym (leaf_entries-find_name step olds q old_names))
      ∙ ap (between (leaf_entries step olds q)) (sym (leaf_entries-find_name step news q new_names))

module _ (g : Graph)
    (named : (h : Hash) (es : List TreeEntry) → get_tree g h ≡ some es → HasNames es)
    (no_zero : get_tree g zero_hash ≡ none) where
  moved-Emits :
      (fuel : ℕ) (step : Hash → Hash → Bytes → List Change → Result Fault (List Change))
      → ((old new : Hash) (prefix : Bytes)
          → Emits
              (made g prefix (λ q. between (leaf_at g fuel old q) (leaf_at g fuel new q)))
              (step old new prefix))
      → (old new : Hash) (prefix : Bytes)
      → Emits
          (made g prefix (λ q. between (leaf_at g (suc fuel) old q) (leaf_at g (suc fuel) new q)))
          (compare_moved g (visit_diff g) step fuel old new prefix)
  unfolding leaf_at
  moved-Emits fuel step steps old new prefix out after run =
      let (was, w, run') = and_then-eq-ok (entries_by_name g old) _ run in
      let (now, n, loops) = and_then-eq-ok (entries_by_name g new) _ run' in
      Emits-same
        (Emits-then
          (each_new-Emits g named no_zero fuel step steps was (ordered g old) prefix
            (entries_by_name-find_name g named no_zero old was w) (ordered g new))
          (each_old-Emits g named no_zero fuel step steps now (ordered g new) prefix
            (entries_by_name-find_name g named no_zero new now n) (ordered g old)))
        (λ p.
          made-append g prefix
            (λ q.
              each
                (new_at (leaf_at g fuel) (ordered g old) (ordered g new) q (names old) (names new))
                (ordered g new))
            (λ q.
              each
                (old_at (leaf_at g fuel) (ordered g old) (ordered g new) q (names old) (names new))
                (ordered g old))
            p
          ∙ made_same g prefix _
              (λ q. between (leaf_at g (suc fuel) old q) (leaf_at g (suc fuel) new q))
              (λ q.
                loops_between (leaf_at g fuel) (ordered g old) (ordered g new) q (names old)
                  (names new))
              p)
        out after loops
    where
      names : (h : Hash) → HasNames (ordered g h)
      names = ordered-HasNames g named no_zero

  compare-Emits :
      (fuel : ℕ) (old new : Hash) (prefix : Bytes)
      → Emits
          (made g prefix (λ q. between (leaf_at g fuel old q) (leaf_at g fuel new q)))
          (compare g (visit_diff g) fuel old new prefix)
  unfolding compare leaf_at
  compare-Emits zero old new prefix = λ out after run. cc
  compare-Emits (suc fuel) old new prefix =
      Emits-if (old == new)
        (λ same. Emits-same Emits-nothing (λ p.
          sym (made_nothing g prefix p)
          ∙ made_same g prefix (λ q. [])
              (λ q. between (leaf_at g (suc fuel) old q) (leaf_at g (suc fuel) new q))
              (λ q.
                sym (between_same (leaf_at g (suc fuel) old q))
                ∙ ap (λ h. between (leaf_at g (suc fuel) old q) (leaf_at g (suc fuel) h q))
                    ((==_iff old new).0 same))
              p))
        (λ differ.
          moved-Emits fuel (compare g (visit_diff g) fuel) (compare-Emits fuel) old new prefix)

  -- Over a graph in which no tree has the zero hash, the names in each tree are distinct, and none of them
  -- holds a slash: where `Diff` succeeds, what it lists is in the order of the paths, and of each path it
  -- lists how the blob that the newer tree has there differs from that of the older one, with its new
  -- content, and nothing where they do not differ.
  pub diff_lem :
      (fuel : ℕ) (old new : Hash) (changes : List Change)
      → diff g fuel old new ≡ ok changes
      → IsInPathOrder changes
        × ((p : Bytes)
            → at_path p changes
              ≡ map (change_at g p) (between (leaf_at g fuel old p) (leaf_at g fuel new p)))
  unfolding diff
  diff_lem fuel old new changes run =
      let (out, compared, sorted) =
        and_then-eq-ok (compare g (visit_diff g) fuel old new [] []) (λ out. ok (sort_changes out))
          run in
      let (cs, same, at) = compare-Emits fuel old new [] [] out compared in
      (
        subst IsInPathOrder (ok_injective sorted) (sort_changes-IsInPathOrder out),
        λ p.
            ap (at_path p) (sym (ok_injective sorted))
            ∙ at_path-sort_changes p out
            ∙ ap (at_path p) same
            ∙ at p,
      )
