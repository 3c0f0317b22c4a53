-- ===== src/Receive/Interpret/Complete.antt =====
-- What an update leaves a client with: what the server selects is what the client is missing.
use treevial.Prelude.{
  ℕ, Bool, true, false, Option, none, some, List, [], ◌∷◌, Bytes, length, Result, ok, err, then_run,
  ◌≡◌, ◌≢◌, refl, sym, ◌∙◌, subst, has, inl, inr, Memᴰ, ==_refl, number_key,
}
use treevial.Prelude.Maps.{Map, lookup, insert, lookup-insert}
use treevial.Git.{Git, Hash, zero_hash, TreeEntry}
use treevial.Objects.Store.{Store}
use treevial.Objects.Select.{select_since}
use treevial.Objects.Select.Compared.{NamesObjects}
use treevial.Objects.Select.Since.{Holds, select_since_complete}
use treevial.Objects.Walk.Follow.{Trees}
use treevial.Objects.Walk.Reach.{Below, IsKinded}
use treevial.Objects.Walk.Refine.{view}
use treevial.Packread.{
  blob_type, tree_type, other_type, NextObject, no_object_header, not_inflated, next, Scanned,
  PackCode, ScanFault, take_tree, take_object, take_objects, take_footer, take_counted, scan,
}
use treevial.Receive.Graph.{Graph, get_blob, get_tree, on_blob, on_tree}
use treevial.Receive.Interpret.{NoFault, graph_handler, interpret}
use treevial.Receive.Interpret.Addressed.{
  IsAddressed, HasNoCollision, Extends, interpret-Grown, take_objects-Grown, take_object-Grown,
}

-- The graph has an object that trees show: the entries of a tree, or a blob.
pub record HasObject (trees : Trees) (kind : Hash → Bool) (g : Graph) (x : Hash) : Type 0 where
  pub tree : kind x ≡ true → (es : List TreeEntry) → trees x ≡ ok es → get_tree g x ≡ some es
  pub blob : kind x ≡ false → (c : Bytes) × (get_blob g x ≡ some c)

-- A pack carries an object: it has one of its type that hashes to it, and a tree of the same entries.
pub record Carries (code : PackCode) (trees : Trees) (kind : Hash → Bool)
    (objects : List NextObject) (x : Hash) : Type 0 where
  pub tree :
      kind x ≡ true
      → (c : Bytes) × Memᴰ (next tree_type c) objects
        × (code.compute_hash tree_type c ≡ x)
        × ((es : List TreeEntry) → trees x ≡ ok es → code.decode_entries c ≡ some es)
  pub blob :
      kind x ≡ false
      → (c : Bytes) × Memᴰ (next blob_type c) objects × (code.compute_hash blob_type c ≡ x)

module _ (code : PackCode) (unique : HasNoCollision code) where
  -- A graph has what it was given.
  abbrev Given : NextObject → Graph → Type 0
  Given (next blob_type c) g = get_blob g (code.compute_hash blob_type c) ≡ some c
  Given (next tree_type c) g =
      (es : List TreeEntry)
      → code.decode_entries c ≡ some es
      → get_tree g (code.compute_hash tree_type c) ≡ some es
  Given o g = Unit

  Given-Extends : (o : NextObject) (g g' : Graph) → Extends g g' → Given o g → Given o g'
  Given-Extends (next blob_type c) g g' grown p = grown.blobs (code.compute_hash blob_type c) c p
  Given-Extends (next tree_type c) g g' grown p =
      λ es d. grown.trees (code.compute_hash tree_type c) es (p es d)
  Given-Extends (next (other_type n) c) g g' grown p = tt
  Given-Extends no_object_header g g' grown p = tt
  Given-Extends not_inflated g g' grown p = tt

  inserted_at {ℓ} :
      {A : Type ℓ} (k : Hash) (v : A) (m : Map Hash A) → lookup k (insert k v m) ≡ some v
  inserted_at k v m = lookup-insert k k v m ∙ rw (==_refl k) refl

  take_tree-Given :
      (c : Bytes) (g : Graph) (o : Option (List TreeEntry))
      → code.decode_entries c ≡ o
      → Given
          (next tree_type c)
          (take_tree code graph_handler (code.compute_hash tree_type c) o g).0
  unfolding on_tree
  take_tree-Given c g none d = λ es e. cc
  take_tree-Given c g (some fs) d =
      λ es e. inserted_at (code.compute_hash tree_type c) fs g.trees ∙ sym d ∙ e

  take_object-Given : (o : NextObject) (g : Graph) → Given o (take_object code graph_handler o g).0
  unfolding on_blob
  take_object-Given (next blob_type c) g = inserted_at (code.compute_hash blob_type c) c g.blobs
  take_object-Given (next tree_type c) g = take_tree-Given c g (code.decode_entries c) refl
  take_object-Given (next (other_type n) c) g = tt
  take_object-Given no_object_header g = tt
  take_object-Given not_inflated g = tt

  -- A run that succeeds has given every object.
  abbrev Gives : List NextObject → Graph × Result (ScanFault NoFault) (Unit {0}) → Type 0
  Gives objects (g, ok u) = (o : NextObject) → Memᴰ o objects → Given o g
  Gives objects (g, err e) = Unit

  take_objects-Gives :
      (objects : List NextObject) (g : Graph)
      → IsAddressed code g
      → Gives objects (take_objects code graph_handler (length objects) objects g)
  unfolding take_objects
  take_objects-Gives [] g a = λ o m. elim m [ ]
  take_objects-Gives (o ∷ objects) g a =
      first (take_object code graph_handler o g).1
        (take_objects-Gives objects (take_object code graph_handler o g).0 fine)
    where
      fine : IsAddressed code (take_object code graph_handler o g).0
      fine = (take_object-Grown code unique o g a).0

      rest : Graph × Result (ScanFault NoFault) (Unit {0})
      rest =
          take_objects code graph_handler (length objects) objects
            (take_object code graph_handler o g).0

      grown : Extends (take_object code graph_handler o g).0 rest.0
      grown =
          (take_objects-Grown code unique (length objects) objects
            (take_object code graph_handler o g).0 fine).1

      both :
          (r : Graph × Result (ScanFault NoFault) (Unit {0}))
          → Extends (take_object code graph_handler o g).0 r.0
          → Gives objects r
          → Gives (o ∷ objects) r
      both (g', err e) more all = tt
      both (g', ok u) more all = λ p m.
          member p
            (Given-Extends o (take_object code graph_handler o g).0 g' more (take_object-Given o g))
            all m
        where
          member :
              (p : NextObject)
              → Given o g'
              → ((p : NextObject) → Memᴰ p objects → Given p g')
              → Memᴰ p (o ∷ objects)
              → Given p g'
          member p here all (Memᴰ.head e) = subst (λ p. Given p g') (sym e) here
          member p here all (Memᴰ.tail m) = all p m

      first :
          (r : Result (ScanFault NoFault) (Unit {0}))
          → Gives objects rest
          → Gives (o ∷ objects) (
              then_run
                (take_object code graph_handler o g).0
                r
                (λ _. take_objects code graph_handler (length objects) objects))
      first (err e) all = tt
      first (ok u) all = both rest grown all

  scan-Gives :
      (pack : Scanned) (g : Graph)
      → IsAddressed code g
      → pack.header ≡ some (length pack.objects)
      → Gives pack.objects (interpret code pack g)
  unfolding interpret scan
  scan-Gives pack g a counted =
      subst
        (λ o. Gives pack.objects (take_counted code graph_handler o pack.objects pack.checksum g))
        (sym counted)
        (footed (take_objects code graph_handler (length pack.objects) pack.objects g) pack.checksum
          (take_objects-Gives pack.objects g a))
    where
      footed :
          (r : Graph × Result (ScanFault NoFault) (Unit {0})) (o : Option Hash)
          → Gives pack.objects r
          → Gives pack.objects (then_run r.0 r.1 (λ _. take_footer code graph_handler o))
      footed (g', err e) o all = tt
      footed (g', ok u) none all = tt
      footed (g', ok u) (some h) all = all

  module _ (trees : Trees) (kind : Hash → Bool) (pack : Scanned) (graph : Graph)
      (addressed : IsAddressed code graph) where
    extended : Extends graph (interpret code pack graph).0
    extended = (interpret-Grown code unique pack graph addressed).1

    HasObject-kept :
        (x : Hash)
        → HasObject trees kind graph x
        → HasObject trees kind (interpret code pack graph).0 x
    HasObject-kept x p = record {
      tree = λ k es read. extended.trees x es (p.tree k es read);
      blob = λ k. let (c, found) = p.blob k in (c, extended.blobs x c found);
    }

    HasObject-carried :
        (x : Hash)
        → Gives pack.objects (interpret code pack graph)
        → (interpret code pack graph).1 ≡ ok tt
        → Carries code trees kind pack.objects x
        → HasObject trees kind (interpret code pack graph).0 x
    HasObject-carried x = at (interpret code pack graph)
      where
        at :
            (r : Graph × Result (ScanFault NoFault) (Unit {0}))
            → Gives pack.objects r
            → r.1 ≡ ok tt
            → Carries code trees kind pack.objects x
            → HasObject trees kind r.0 x
        at (g', err e) all run carried = cc
        at (g', ok u) all run carried = record {
          tree = λ k es read.
              let (c, m, h, decodes) = carried.tree k in
              subst (λ y. get_tree g' y ≡ some es) h
                (all (next tree_type c) m es (decodes es read));
          blob = λ k.
              let (c, m, h) = carried.blob k in
              (c, subst (λ y. get_blob g' y ≡ some c) h (all (next blob_type c) m));
        }

  -- Where no two objects of a type have the same hash; over a store in which `kind` says which objects are
  -- trees, and whose entries never name the zero hash; with `from` and `to` trees, and `to` not zero; for a
  -- client whose graph has its objects under their hashes, and everything that stands below `from`, if that
  -- is not zero; and for a pack that says how many objects it has and carries each that `SelectSince`
  -- selected: where the client interprets the pack without a failure, its graph has everything that stands
  -- below `to`, each tree with the entries that the store shows.
  pub interpret_completes :
      (g : Git) (s : Store g) (kind : Hash → Bool) (kinded : IsKinded (view g s) kind)
      (names : NamesObjects (view g s)) (from to : Hash) (fuel : ℕ) (out : List Hash)
      (graph : Graph) (pack : Scanned)
      → kind from ≡ true
      → kind to ≡ true
      → to ≢ zero_hash
      → (select_since g fuel from to s).1 ≡ ok out
      → IsAddressed code graph
      → ((x : Hash) → Holds (view g s) kind from x → HasObject (view g s) kind graph x)
      → pack.header ≡ some (length pack.objects)
      → ((x : Hash) → has out x ≡ true → Carries code (view g s) kind pack.objects x)
      → (interpret code pack graph).1 ≡ ok tt
      → (x : Hash) → Below (view g s) kind to x
      → HasObject (view g s) kind (interpret code pack graph).0 x
  interpret_completes g s kind kinded names from to fuel out graph pack from_tree to_tree nonzero
        selected addressed held counted carried run x p =
      elim ((select_since_complete g s kind kinded names from to from_tree to_tree fuel out nonzero
          selected).2
        x (kind x) p) [
          | inl m ↦
              HasObject-carried (view g s) kind pack graph addressed x
                (scan-Gives pack graph addressed counted) run (carried x m)
          | inr h ↦ HasObject-kept (view g s) kind pack graph addressed x (held x h)
        ]
