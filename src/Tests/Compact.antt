-- ===== src/Tests/Compact.antt =====
-- `Compact`, over a storage whose objects carry the hash that they were read at.
use treevial.Prelude.{
  ℕ, Bool, true, false, Option, none, some, List, [], ◌∷◌, length, ok, All, ltb, arith, ◌⊎◌, inl,
  inr, ◌≡◌, refl, sym, ap, ◌∙◌, subst, if◌then◌else◌, ◌==◌, ==_iff, number_key,
}
use treevial.Prelude.Int.{pos}
use treevial.Prelude.Maps.{Map, lookup, insert, lookup-insert}
use treevial.Git.{Git, Hash, TreeEntry, is_dir, dir_mode, regular_mode, ObjectType, any_object}
use treevial.Objects.Store.{Store, entries, tree_at, set_encoded_object}
use treevial.Objects.Walk.{walk}
use treevial.Objects.Walk.Reach.{IsKinded}
use treevial.Objects.Walk.Refine.{view, Shows}
use treevial.Objects.Compact.{compact_roots, compact}
use treevial.Objects.Compact.Copies.{IsCopying}
use treevial.Objects.Compact.Laws.{IsRetained}
use treevial.Objects.Compact.Given.{Retains, compact_lem}
use treevial.Tests.Toy.{Object, blob, tree, typed_find, content, contained, hash_object}

abbrev label : Hash → Option Object → Option (Hash × Object)
label h none = none
label h (some o) = some (h, o)

abbrev labelled : Git
labelled = record {
  Encoded = Hash × Object;
  Storage = Map Hash Object;
  new_storage = [];
  find = λ m t h. label h (typed_find t (lookup h m));
  set_object = λ m o. some (insert o.0 o.1 m, o.0);
  size = λ m. length m;
  encode_blob = λ s. some (hash_object (blob s), blob s);
  encode_tree = λ es. some (hash_object (tree es), tree es);
  blob_content = λ o. content o.1;
  tree_entries = λ o. contained o.1;
}

put_back :
    (m m' : Map Hash Object) (h : Hash) (ob : Object) (t : ObjectType) (j : Hash)
    → lookup h m ≡ some ob
    → label j (typed_find t (lookup j (insert h ob m'))) ≡ (
        if h == j
        then label j (typed_find t (lookup j m))
        else label j (typed_find t (lookup j m')))
put_back m m' h ob t j found =
    ap (λ o. label j (typed_find t o)) (lookup-insert h j ob m') ∙ at (h == j) ((==_iff h j).0)
  where
    at :
        (b : Bool)
        → (b ≡ true → h ≡ j)
        → label j (typed_find t (if b then some ob else lookup j m')) ≡ (
            if b then label j (typed_find t (lookup j m)) else label j (typed_find t (lookup j m')))
    at true same = ap (λ o. label j (typed_find t o)) (sym found ∙ ap (λ k. lookup k m) (same refl))
    at false same = refl

some_injective {ℓ} : {A : Type ℓ} {a b : A} → some a ≡ some b → a ≡ b
some_injective h = cc

copied :
    (m m' m'' : Map Hash Object) (o : Hash × Object) (h : Hash) (t : ObjectType) (j : Hash)
    (r : Option Object)
    → lookup h m ≡ r
    → label h (typed_find any_object r) ≡ some o
    → insert o.0 o.1 m' ≡ m''
    → label j (typed_find t (lookup j m'')) ≡ (
        if h == j
        then label j (typed_find t (lookup j m))
        else label j (typed_find t (lookup j m')))
copied m m' m'' o h t j none at found put = cc
copied m m' m'' o h t j (some ob) at found put =
    let there : insert h ob m' ≡ m'' = ap (λ o. insert o.0 o.1 m') (some_injective found) ∙ put in
    ap (λ m. label j (typed_find t (lookup j m))) (sym there) ∙ put_back m m' h ob t j at

labelled-IsCopying : IsCopying labelled
labelled-IsCopying = record {
  empty = λ t h. refl;
  copied = λ m m' m'' o h k found put t j.
      let stored : insert o.0 o.1 m' ≡ m'' = ap (λ p. p.0) (some_injective put) in
      copied m m' m'' o h t j (lookup h m) refl found stored;
}

abbrev file : List ℕ → Hash → TreeEntry
file name h = record { name = name; mode = regular_mode; hash = h }

abbrev folder : List ℕ → Hash → TreeEntry
folder name h = record { name = name; mode = dir_mode; hash = h }

abbrev entries_1 : List TreeEntry
entries_1 = file (97 ∷ []) 10 ∷ folder (98 ∷ []) 2 ∷ []

abbrev entries_2 : List TreeEntry
entries_2 = file (99 ∷ []) 11 ∷ []

-- Tree 2 stands in tree 1; nothing refers to object 12.
abbrev sample : Store labelled
sample = record {
  storage =
      (1, tree entries_1)
      ∷ (2, tree entries_2)
      ∷ (10, blob (1 ∷ []))
      ∷ (11, blob (2 ∷ []))
      ∷ (12, blob (3 ∷ []))
      ∷ [];
  decoded = [];
}

abbrev kind : Hash → Bool
kind h = ltb h 3

view_cases :
    (x : Hash) (es : List TreeEntry)
    → view labelled sample x ≡ ok es
    → ((x ≡ 1) × (es ≡ entries_1)) ⊎ ((x ≡ 2) × (es ≡ entries_2))
unfolding view tree_at
view_cases x es read = ground arith

kinded : IsKinded (view labelled sample) kind
kinded x es read = elim (view_cases x es read) [
  | inl (i, e) ↦ subst (All (λ e. is_dir e ≡ kind e.hash)) (sym e) (refl, (refl, tt))
  | inr (i, e) ↦ subst (All (λ e. is_dir e ≡ kind e.hash)) (sym e) (refl, tt)
]

abbrev compacted : Store labelled
compacted = record {
  storage =
      (1, tree entries_1) ∷ (10, blob (1 ∷ [])) ∷ (2, tree entries_2) ∷ (11, blob (2 ∷ [])) ∷ [];
  decoded = (1, entries_1) ∷ (2, entries_2) ∷ [];
}

one_left_behind : (compact labelled 5 (1 ∷ 0 ∷ []) sample).1 ≡ ok (compacted, pos 1)
unfolding compact compact_roots walk entries set_encoded_object
one_left_behind = refl

compact_lem_example :
    ((x : Hash)
      → IsRetained (view labelled sample) kind (1 ∷ 0 ∷ []) x
      → Retains labelled sample compacted x)
    × ((x : Hash)
        → ¬ IsRetained (view labelled sample) kind (1 ∷ 0 ∷ []) x
        → (t : ObjectType) → labelled.find compacted.storage t x ≡ none)
    × Shows labelled
        (view labelled sample)
        sample.storage
        (compact labelled 5 (1 ∷ 0 ∷ []) sample).0
compact_lem_example =
    compact_lem labelled labelled-IsCopying sample kind kinded (1 ∷ 0 ∷ [])
      ((λ nz. refl), ((λ nz. absurd (nz refl)), tt)) 5 compacted (pos 1) one_left_behind
