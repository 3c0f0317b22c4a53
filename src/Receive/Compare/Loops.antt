-- ===== src/Receive/Compare/Loops.antt =====
-- The two loops of a comparison: over the newer tree, then over the older one.
use treevial.Prelude.{
  ℕ, Bool, true, false, Option, none, some, List, [], ◌∷◌, ◌++◌, Bytes, Result, ok, and_then, ◌≡◌,
  refl, sym, ap, ◌∙◌, subst, if◌then◌else◌, same_bytes, same_bytes_iff, has, Bool-cases, inl, inr,
  ok_injective, number_key, bytes_key,
}
use treevial.Prelude.Maps.{Map, lookup}
use treevial.Prelude.Text.{ascii}
use treevial.Git.{Hash, zero_hash, is_zero, TreeEntry}
use treevial.Objects.Store.{Fault}
use treevial.Objects.Walk.Marks.{and_then-eq-ok}
use treevial.Receive.Graph.{Graph, get_tree, entries}
use treevial.Receive.Compare.{
  ChangeKind, added, modified, deleted, Change, index, entries_by_name, ordered, unmoved, swapped,
  whole, compare_found, each_new, unless_still, each_old, visit_diff,
}
use treevial.Receive.Compare.Paths.{
  find_name, HasNames, lookup-index, or_else, leaf_entry, leaf_at, at_entry,
}
use treevial.Receive.Compare.Emits.{
  Emits, Emits-nothing, Emits-same, Emits-then, made, made_same, made-append, made_nothing,
}
use treevial.Receive.Compare.Whole.{
  entry_changes, each, told, entry-Emits, ordered-entries, ordered-HasNames, whole-Emits,
}
use treevial.Receive.Compare.Between.{
  between, between-none, unmoved-between, swapped-between, modified-between,
}

some_injective {ℓ} : {A : Type ℓ} {a b : A} → some a ≡ some b → a ≡ b
some_injective h = cc

pub find_name-name :
    (n : Bytes) (es : List TreeEntry) {e : TreeEntry} → find_name n es ≡ some e → e.name ≡ n
find_name-name n [] h = cc
find_name-name n (d ∷ es) {e = e} h = elim (Bool-cases (same_bytes d.name n)) [
  | inl t ↦
      let found : some d ≡ some e = rw t at h in
      subst (λ d. d.name ≡ n) (some_injective found) ((same_bytes_iff d.name n).0 t)
  | inr f ↦ find_name-name n es (rw f at h)
]

pub find_name-clean :
    (n : Bytes) (es : List TreeEntry) {e : TreeEntry}
    → HasNames es
    → find_name n es ≡ some e
    → has e.name b'/' ≡ false
find_name-clean n [] names h = cc
find_name-clean n (d ∷ es) {e = e} names h = elim (Bool-cases (same_bytes d.name n)) [
  | inl t ↦
      let found : some d ≡ some e = rw t at h in
      subst (λ d. has d.name b'/' ≡ false) (some_injective found) names.1
  | inr f ↦ find_name-clean n es names.2 (rw f at h)
]

abbrev FoundHasName : Bytes → Option TreeEntry → Type 0
FoundHasName n none = Unit
FoundHasName n (some e) = e.name ≡ n

find_name-HasName :
    (n : Bytes) (es : List TreeEntry) (o : Option TreeEntry) → find_name n es ≡ o → FoundHasName n o
find_name-HasName n es none h = tt
find_name-HasName n es (some e) h = find_name-name n es h

pub Emits-if :
    {F : Bytes → List Change} {one other : List Change → Result Fault (List Change)} (b : Bool)
    → (b ≡ true → Emits F one)
    → (b ≡ false → Emits F other)
    → Emits F (λ out. if b then one out else other out)
Emits-if true one other = one refl
Emits-if false one other = other refl

or_else-none : (o : Option TreeEntry) → or_else o none ≡ o
or_else-none none = refl
or_else-none (some e) = refl

-- What the loops say at a path of an entry, with what the other tree has under its name.
abbrev pub new_changes :
    (Hash → Bytes → Option TreeEntry)
    → Option TreeEntry
    → TreeEntry
    → Bytes
    → List (ChangeKind × TreeEntry)
new_changes step o e q = between (at_entry step o q) (leaf_entry step e q)

abbrev pub old_changes :
    (Hash → Bytes → Option TreeEntry)
    → Option TreeEntry
    → TreeEntry
    → Bytes
    → List (ChangeKind × TreeEntry)
old_changes step none e q = told deleted (leaf_entry step e q)
old_changes step (some still) e q = []

module _ (g : Graph)
    (named : (h : Hash) (es : List TreeEntry) → get_tree g h ≡ some es → HasNames es)
    (no_zero : get_tree g zero_hash ≡ none) where
  pub entries_by_name-find_name :
      (h : Hash) (m : Map Bytes TreeEntry)
      → entries_by_name g h ≡ ok m
      → (n : Bytes) → lookup n m ≡ find_name n (ordered g h)
  entries_by_name-find_name h m run n = elim (Bool-cases (is_zero h)) [
    | inl z ↦
        let empty : [] ≡ m = ok_injective (sym (rw z refl) ∙ run) in
        ap (lookup n) (sym empty) ∙ sym (rw z refl)
    | inr nz ↦
        let (es, read, done) =
          and_then-eq-ok (entries g h) (λ es. ok (index es []))
            (sym (ap (λ b. if b then ok [] else and_then (entries g h) (λ es. ok (index es []))) nz)
              ∙ run) in
        let same : ordered g h ≡ es = ordered-entries g named no_zero h es read in
        let names : HasNames es = subst HasNames same (ordered-HasNames g named no_zero h) in
        ap (lookup n) (sym (ok_injective done))
        ∙ lookup-index n es [] names
        ∙ or_else-none (find_name n es)
        ∙ ap (find_name n) (sym same)
  ]

  module _ (fuel : ℕ) (step : Hash → Hash → Bytes → List Change → Result Fault (List Change))
      (steps : (old new : Hash) (prefix : Bytes)
        → Emits
            (made g prefix (λ q. between (leaf_at g fuel old q) (leaf_at g fuel new q)))
            (step old new prefix)) where
    compare_found-Emits :
        (o : Option TreeEntry) (e : TreeEntry) (prefix : Bytes)
        → FoundHasName e.name o
        → Emits
            (made g prefix (new_changes (leaf_at g fuel) o e))
            (compare_found g (visit_diff g) step fuel o e (prefix ++ e.name))
    compare_found-Emits none e prefix name =
        Emits-same (whole-Emits g named no_zero added fuel e prefix) (
          made_same g prefix (λ q. told added (leaf_entry (leaf_at g fuel) e q))
            (new_changes (leaf_at g fuel) none e)
            (λ q. sym (between-none (leaf_entry (leaf_at g fuel) e q))))
    compare_found-Emits (some before) e prefix name =
        Emits-if (unmoved before e)
          (λ same. Emits-same Emits-nothing (λ p.
            sym (made_nothing g prefix p)
            ∙ made_same g prefix (λ q. []) (new_changes (leaf_at g fuel) (some before) e)
                (λ q. sym (unmoved-between (leaf_at g fuel) before e q name same)) p))
          (λ differ.
            Emits-if (swapped before e)
              (λ swap.
                Emits-same
                  (Emits-then
                    (subst
                      (λ n.
                        Emits
                          (made g prefix (λ q. told deleted (leaf_entry (leaf_at g fuel) before q)))
                          (whole g (visit_diff g) fuel deleted before (prefix ++ n)))
                      name (whole-Emits g named no_zero deleted fuel before prefix))
                    (whole-Emits g named no_zero added fuel e prefix))
                  (λ p.
                    made-append g prefix (λ q. told deleted (leaf_entry (leaf_at g fuel) before q))
                      (λ q. told added (leaf_entry (leaf_at g fuel) e q)) p
                    ∙ made_same g prefix
                        (λ q.
                          told deleted (leaf_entry (leaf_at g fuel) before q)
                          ++ told added (leaf_entry (leaf_at g fuel) e q))
                        (new_changes (leaf_at g fuel) (some before) e)
                        (λ q. swapped-between (leaf_at g fuel) before e q name swap) p))
              (λ still.
                Emits-same
                  (entry-Emits g modified e prefix
                    (λ r. between (leaf_at g fuel before.hash r) (leaf_at g fuel e.hash r))
                    (step before.hash e.hash ((prefix ++ e.name) ++ ascii "/"))
                    (steps before.hash e.hash ((prefix ++ e.name) ++ ascii "/")))
                  (made_same g prefix
                    (entry_changes modified e
                      (λ r. between (leaf_at g fuel before.hash r) (leaf_at g fuel e.hash r)))
                    (new_changes (leaf_at g fuel) (some before) e)
                    (λ q. modified-between (leaf_at g fuel) before e q name differ still))))

    pub each_new-Emits :
        (was : Map Bytes TreeEntry) (olds : List TreeEntry) (prefix : Bytes)
        → ((n : Bytes) → lookup n was ≡ find_name n olds)
        → (es : List TreeEntry)
        → Emits
            (made g prefix
              (λ q. each (λ e. new_changes (leaf_at g fuel) (find_name e.name olds) e q) es))
            (each_new g (visit_diff g) step fuel was prefix es)
    each_new-Emits was olds prefix known [] =
        Emits-same Emits-nothing (λ p. sym (made_nothing g prefix p))
    each_new-Emits was olds prefix known (e ∷ es) =
        Emits-same (Emits-then found (each_new-Emits was olds prefix known es)) (
          made-append g prefix (new_changes (leaf_at g fuel) (find_name e.name olds) e)
            (λ q. each (λ e. new_changes (leaf_at g fuel) (find_name e.name olds) e q) es))
      where
        found :
            Emits
              (made g prefix (new_changes (leaf_at g fuel) (find_name e.name olds) e))
              (compare_found g (visit_diff g) step fuel (lookup e.name was) e (prefix ++ e.name))
        found =
            subst
              (λ o.
                Emits (made g prefix (new_changes (leaf_at g fuel) (find_name e.name olds) e))
                  (compare_found g (visit_diff g) step fuel o e (prefix ++ e.name)))
              (sym (known e.name))
              (compare_found-Emits (find_name e.name olds) e prefix
                (find_name-HasName e.name olds (find_name e.name olds) refl))

    unless_still-Emits :
        (o : Option TreeEntry) (e : TreeEntry) (prefix : Bytes)
        → Emits
            (made g prefix (old_changes (leaf_at g fuel) o e))
            (unless_still g (visit_diff g) fuel o e (prefix ++ e.name))
    unless_still-Emits none e prefix = whole-Emits g named no_zero deleted fuel e prefix
    unless_still-Emits (some still) e prefix =
        Emits-same Emits-nothing (λ p. sym (made_nothing g prefix p))

    pub each_old-Emits :
        (now : Map Bytes TreeEntry) (news : List TreeEntry) (prefix : Bytes)
        → ((n : Bytes) → lookup n now ≡ find_name n news)
        → (es : List TreeEntry)
        → Emits
            (made g prefix
              (λ q. each (λ e. old_changes (leaf_at g fuel) (find_name e.name news) e q) es))
            (each_old g (visit_diff g) fuel now prefix es)
    each_old-Emits now news prefix known [] =
        Emits-same Emits-nothing (λ p. sym (made_nothing g prefix p))
    each_old-Emits now news prefix known (e ∷ es) =
        Emits-same
          (Emits-then
            (subst
              (λ o.
                Emits (made g prefix (old_changes (leaf_at g fuel) o e))
                  (unless_still g (visit_diff g) fuel (lookup e.name now) e (prefix ++ e.name)))
              (known e.name) (unless_still-Emits (lookup e.name now) e prefix))
            (each_old-Emits now news prefix known es))
          (made-append g prefix (old_changes (leaf_at g fuel) (find_name e.name news) e)
            (λ q. each (λ e. old_changes (leaf_at g fuel) (find_name e.name news) e q) es))
