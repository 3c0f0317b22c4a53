-- ===== src/Receive/Compare/Whole.antt =====
-- What a walk over one tree reports: its leaves.
use treevial.Prelude.{
  ℕ, zero, suc, Bool, true, false, Option, none, some, List, [], ◌∷◌, ◌++◌, Bytes, Result, ok, err,
  and_then, ◌≡◌, refl, sym, ap, ◌∙◌, subst, if◌then◌else◌, same_bytes, same_bytes_iff, has,
  Bool-cases, inl, inr, ok_injective, number_key, ==_iff,
}
use treevial.Prelude.Text.{ascii}
use treevial.Git.{Hash, zero_hash, is_zero, TreeEntry, is_dir}
use treevial.Objects.Store.{Fault}
use treevial.Objects.Walk.Marks.{and_then-eq-ok}
use treevial.Receive.Graph.{
  Graph, get_blob, get_tree, or_missing, entries, content, each_entry, enter, below, visit_entry,
  descend,
}
use treevial.Receive.Compare.{
  ChangeKind, added, modified, deleted, Change, or_none, ordered, reporting, whole, add_change,
  report_blob, visit_diff,
}
use treevial.Receive.Compare.Paths.{
  strip, first_part, find_name, HasNames, under, leaf_entry, leaf_entries, leaf_at,
  leaf_entry-other, at_entry, leaf_entries-find_name,
}
use treevial.Receive.Compare.Emits.{
  Emits, Emits-nothing, Emits-same, Emits-then, change_at, made, made_same, made-append,
  made_nothing, made_below, below_name, only, made-only, at_path,
}

-- The loop over entries as a concatenation.
abbrev pub each {ℓ} : {A : Type ℓ} → (TreeEntry → List A) → List TreeEntry → List A
each f [] = []
each f (e ∷ es) = f e ++ each f es

abbrev pub each_found {ℓ} : {A : Type ℓ} → (TreeEntry → List A) → Option TreeEntry → List A
each_found f none = []
each_found f (some e) = f e

append-empty {ℓ} : {A : Type ℓ} (xs : List A) → xs ++ [] ≡ xs
append-empty [] = refl
append-empty (x ∷ xs) = ap (λ l. x ∷ l) (append-empty xs)

-- Where only the entry of one name has anything, the loop is about that entry.
pub each-find_name {ℓ} :
    {A : Type ℓ} (f : TreeEntry → List A) (n : Bytes) (es : List TreeEntry)
    → HasNames es
    → ((e : TreeEntry) → has e.name b'/' ≡ false → same_bytes e.name n ≡ false → f e ≡ [])
    → each f es ≡ each_found f (find_name n es)
each-find_name f n [] names other = refl
each-find_name f n (e ∷ es) names other = elim (Bool-cases (same_bytes e.name n)) [
  | inl t ↦
      let gone : find_name n es ≡ none =
        subst (λ k. find_name k es ≡ none) ((same_bytes_iff e.name n).0 t) names.0 in
      ap (λ l. f e ++ l) (each-find_name f n es names.2 other ∙ ap (each_found f) gone)
      ∙ append-empty (f e)
      ∙ rw t refl
  | inr differ ↦
      ap (λ l. l ++ each f es) (other e names.1 differ)
      ∙ each-find_name f n es names.2 other
      ∙ rw differ refl
]

abbrev pub told : ChangeKind → Option TreeEntry → List (ChangeKind × TreeEntry)
told k none = []
told k (some e) = (k, e) ∷ []

-- What one entry and what is below it say.
abbrev pub entry_changes :
    ChangeKind
    → TreeEntry
    → (Bytes → List (ChangeKind × TreeEntry))
    → Bytes
    → List (ChangeKind × TreeEntry)
entry_changes k e f q =
    if is_dir e
    then below_name f (strip (e.name ++ ascii "/") q)
    else only (same_bytes e.name q) (k, e)

pub entry_changes-told :
    (k : ChangeKind) (e : TreeEntry) (step : Hash → Bytes → Option TreeEntry) (q : Bytes)
    → entry_changes k e (λ r. told k (step e.hash r)) q ≡ told k (leaf_entry step e q)
entry_changes-told k e step q = at (is_dir e)
  where
    rest :
        (o : Option Bytes)
        → below_name (λ r. told k (step e.hash r)) o
          ≡ told k (elim o [ none ↦ none | some r ↦ step e.hash r ])
    rest none = refl
    rest (some r) = refl

    here : (b : Bool) → only b (k, e) ≡ told k (if b then some e else none)
    here true = refl
    here false = refl

    at :
        (b : Bool)
        → (if b
            then below_name (λ r. told k (step e.hash r)) (strip (e.name ++ ascii "/") q)
            else only (same_bytes e.name q) (k, e))
          ≡ told k (
              if b
              then under e.name (step e.hash) q
              else if same_bytes e.name q
              then some e
              else none)
    at true = rest (strip (e.name ++ ascii "/") q)
    at false = here (same_bytes e.name q)

module _ (g : Graph) where
  or_missing-ok {ℓ} :
      {A : Type ℓ} (h : Hash) (o : Option A) {a : A} → or_missing h o ≡ ok a → o ≡ some a
  or_missing-ok h none e = cc
  or_missing-ok h (some b) e = cc

  report_blob-Emits :
      (k : ChangeKind) (e : TreeEntry) (prefix : Bytes)
      → Emits
          (made g prefix (λ q. only (same_bytes e.name q) (k, e)))
          (report_blob g k e (prefix ++ e.name))
  report_blob-Emits deleted e prefix out after h = (
    change_at g (prefix ++ e.name) (deleted, e) ∷ [],
    sym (ok_injective h),
    made-only g prefix e.name deleted e,
  )
  report_blob-Emits added e prefix out after h =
      let (c, found, done) =
        and_then-eq-ok (content g e.hash)
          (λ c. ok (add_change added e (prefix ++ e.name) (some c) out)) h in
      (
        change_at g (prefix ++ e.name) (added, e) ∷ [],
        sym (ok_injective done)
            ∙ ap (λ o. add_change added e (prefix ++ e.name) o out)
                (sym (or_missing-ok e.hash (get_blob g e.hash) found)),
        made-only g prefix e.name added e,
      )
  report_blob-Emits modified e prefix out after h =
      let (c, found, done) =
        and_then-eq-ok (content g e.hash)
          (λ c. ok (add_change modified e (prefix ++ e.name) (some c) out)) h in
      (
        change_at g (prefix ++ e.name) (modified, e) ∷ [],
        sym (ok_injective done)
            ∙ ap (λ o. add_change modified e (prefix ++ e.name) o out)
                (sym (or_missing-ok e.hash (get_blob g e.hash) found)),
        made-only g prefix e.name modified e,
      )

  pub entry-Emits :
      (k : ChangeKind) (e : TreeEntry) (prefix : Bytes) (f : Bytes → List (ChangeKind × TreeEntry))
      (deep : List Change → Result Fault (List Change))
      → Emits (made g ((prefix ++ e.name) ++ ascii "/") f) deep
      → Emits (made g prefix (entry_changes k e f)) (λ out.
        and_then (visit_diff g k e (prefix ++ e.name) out) (λ w. if is_dir e then deep w else ok w))
  entry-Emits k e prefix f deep below out after h = at (is_dir e) h
    where
      at :
          (b : Bool)
          → and_then
              (if b then ok out else report_blob g k e (prefix ++ e.name) out)
              (λ w. if b then deep w else ok w)
            ≡ ok after
          → (cs : List Change) × (after ≡ out ++ cs)
            × ((p : Bytes)
                → at_path p cs
                  ≡ made g prefix
                      (λ q.
                        if b
                        then below_name f (strip (e.name ++ ascii "/") q)
                        else only (same_bytes e.name q) (k, e))
                      p)
      at true h =
          let (cs, grown, all) = below out after h in
          (cs, grown, λ p. all p ∙ made_below g prefix e.name f p)
      at false h =
          let (mid, one, two) =
            and_then-eq-ok (report_blob g k e (prefix ++ e.name) out) (λ w. ok w) h in
          report_blob-Emits k e prefix out after (one ∙ two)

module _ (g : Graph)
    (named : (h : Hash) (es : List TreeEntry) → get_tree g h ≡ some es → HasNames es)
    (no_zero : get_tree g zero_hash ≡ none) where
  pub ordered-entries : (h : Hash) (es : List TreeEntry) → entries g h ≡ ok es → ordered g h ≡ es
  ordered-entries h es read = elim (Bool-cases (is_zero h)) [
    | inl z ↦ absurd (
        cc (
          or_missing-ok g h (get_tree g h) read,
          ap (get_tree g) ((==_iff h zero_hash).0 z),
          no_zero,
        ))
    | inr n ↦ rw n (ap or_none (or_missing-ok g h (get_tree g h) read))
  ]

  pub ordered-HasNames : (h : Hash) → HasNames (ordered g h)
  ordered-HasNames h = elim (Bool-cases (is_zero h)) [
    | inl z ↦ subst (λ b. HasNames (if b then [] else or_none (get_tree g h))) (sym z) tt
    | inr n ↦
        subst (λ b. HasNames (if b then [] else or_none (get_tree g h))) (sym n)
          (at (get_tree g h) refl)
  ]
    where
      at : (o : Option (List TreeEntry)) → get_tree g h ≡ o → HasNames (or_none o)
      at none e = tt
      at (some es) e = named h es e

  each-leaf_entries :
      (k : ChangeKind) (step : Hash → Bytes → Option TreeEntry) (es : List TreeEntry) (q : Bytes)
      → HasNames es
      → each (λ e. told k (leaf_entry step e q)) es ≡ told k (leaf_entries step es q)
  each-leaf_entries k step es q names =
      each-find_name (λ e. told k (leaf_entry step e q)) (first_part q) es names
        (λ e clean other. ap (told k) (leaf_entry-other step e q clean other))
      ∙ at (find_name (first_part q) es)
      ∙ ap (told k) (sym (leaf_entries-find_name step es q names))
    where
      at :
          (o : Option TreeEntry)
          → each_found (λ e. told k (leaf_entry step e q)) o ≡ told k (at_entry step o q)
      at none = refl
      at (some e) = refl

  -- A loop over entries whose body reports what `f` says.
  pub each_entry-Emits :
      (f : TreeEntry → Bytes → List (ChangeKind × TreeEntry))
      (step : Bytes → TreeEntry → List Change → Result Fault (List Change)) (prefix : Bytes)
      → ((e : TreeEntry) → Emits (made g prefix (f e)) (step (prefix ++ e.name) e))
      → (es : List TreeEntry)
      → Emits (made g prefix (λ q. each (λ e. f e q) es)) (each_entry step prefix es)
  each_entry-Emits f step prefix body [] =
      Emits-same Emits-nothing (λ p. sym (made_nothing g prefix p))
  each_entry-Emits f step prefix body (e ∷ es) =
      Emits-same (Emits-then (body e) (each_entry-Emits f step prefix body es))
        (made-append g prefix (f e) (λ q. each (λ e. f e q) es))

  module _ (k : ChangeKind) where
    below-Emits :
        (fuel : ℕ) (step : Bytes → TreeEntry → List Change → Result Fault (List Change))
        → ((prefix : Bytes) (e : TreeEntry)
            → Emits
                (made g prefix (λ q. told k (leaf_entry (leaf_at g fuel) e q)))
                (step (prefix ++ e.name) e))
        → (h : Hash) (prefix : Bytes)
        → Emits (made g prefix (λ q. told k (leaf_at g (suc fuel) h q))) (below g step h prefix)
    unfolding leaf_at
    below-Emits fuel step body h prefix out after run =
        let (es, read, loop) =
          and_then-eq-ok (entries g h) (λ es. each_entry step prefix es out) run in
        let same : ordered g h ≡ es = ordered-entries h es read in
        Emits-same
          (each_entry-Emits (λ e q. told k (leaf_entry (leaf_at g fuel) e q)) step prefix
            (body prefix) es)
          (made_same g prefix (λ q. each (λ e. told k (leaf_entry (leaf_at g fuel) e q)) es)
            (λ q. told k (leaf_entries (leaf_at g fuel) (ordered g h) q))
            (λ q.
              ap (each (λ e. told k (leaf_entry (leaf_at g fuel) e q))) (sym same)
              ∙ each-leaf_entries k (leaf_at g fuel) (ordered g h) q (ordered-HasNames h)))
          out after loop

    visit_entry-Emits :
        (fuel : ℕ) (prefix : Bytes) (e : TreeEntry)
        → Emits
            (made g prefix (λ q. told k (leaf_entry (leaf_at g fuel) e q)))
            (visit_entry g (reporting g (visit_diff g) k) fuel (prefix ++ e.name) e)
    unfolding visit_entry
    visit_entry-Emits zero prefix e out after run = cc
    visit_entry-Emits (suc fuel) prefix e out after run =
        Emits-same
          (entry-Emits g k e prefix (λ r. told k (leaf_at g (suc fuel) e.hash r)) deep
            (below-Emits fuel (visit_entry g (reporting g (visit_diff g) k) fuel)
              (visit_entry-Emits fuel) e.hash ((prefix ++ e.name) ++ ascii "/")))
          (made_same g prefix (entry_changes k e (λ r. told k (leaf_at g (suc fuel) e.hash r)))
            (λ q. told k (leaf_entry (leaf_at g (suc fuel)) e q))
            (entry_changes-told k e (leaf_at g (suc fuel))))
          out after (sym (one_by_one (visit_diff g k e (prefix ++ e.name) out)) ∙ run)
      where
        deep : List Change → Result Fault (List Change)
        deep =
            below g (visit_entry g (reporting g (visit_diff g) k) fuel) e.hash
              ((prefix ++ e.name) ++ ascii "/")

        one_by_one :
            (r : Result Fault (List Change))
            → and_then (and_then r λ w. ok (true, w)) (
                enter
                  (below g (visit_entry g (reporting g (visit_diff g) k) fuel))
                  (prefix ++ e.name)
                  e)
              ≡ and_then r (λ w. if is_dir e then deep w else ok w)
        one_by_one (ok w) = refl
        one_by_one (err x) = refl

    pub whole-Emits :
        (fuel : ℕ) (e : TreeEntry) (prefix : Bytes)
        → Emits
            (made g prefix (λ q. told k (leaf_entry (leaf_at g fuel) e q)))
            (whole g (visit_diff g) fuel k e (prefix ++ e.name))
    unfolding whole descend
    whole-Emits zero e prefix out after run = cc
    whole-Emits (suc fuel) e prefix out after run =
        Emits-same
          (entry-Emits g k e prefix (λ r. told k (leaf_at g (suc fuel) e.hash r))
            (descend g (reporting g (visit_diff g) k) fuel e.hash ((prefix ++ e.name) ++ ascii "/"))
            (below-Emits fuel (visit_entry g (reporting g (visit_diff g) k) fuel)
              (visit_entry-Emits fuel) e.hash ((prefix ++ e.name) ++ ascii "/")))
          (made_same g prefix (entry_changes k e (λ r. told k (leaf_at g (suc fuel) e.hash r)))
            (λ q. told k (leaf_entry (leaf_at g (suc fuel)) e q))
            (entry_changes-told k e (leaf_at g (suc fuel))))
          out after run
