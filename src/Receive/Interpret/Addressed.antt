-- ===== src/Receive/Interpret/Addressed.antt =====
-- A graph whose objects stand under their own hashes.
use treevial.Prelude.{
  ℕ, zero, suc, Bool, true, false, Option, none, some, List, [], ◌∷◌, Bytes, Result, ok, err, Exec,
  ◌≡◌, refl, sym, ap, ◌∙◌, if◌then◌else◌, ◌==◌, ==_iff, inl, inr, number_key, then_run, ◌⊎◌,
}
use treevial.Prelude.Maps.{Map, lookup, insert, lookup-insert}
use treevial.Git.{Hash, TreeEntry}
use treevial.Packread.{
  PackedType, blob_type, tree_type, other_type, NextObject, no_object_header, not_inflated, next,
  Scanned, PackCode, ScanFault, take_tree, take_object, take_objects, take_footer, take_counted,
  scan,
}
use treevial.Receive.Graph.{Graph, get_blob, get_tree, on_blob, on_tree}
use treevial.Receive.Interpret.{NoFault, graph_handler, interpret}

-- Each object stands under its hash.
pub record IsAddressed (code : PackCode) (g : Graph) : Type 0 where
  pub blobs : (h : Hash) (c : Bytes) → get_blob g h ≡ some c → code.compute_hash blob_type c ≡ h
  pub trees :
      (h : Hash) (es : List TreeEntry)
      → get_tree g h ≡ some es
      → (c : Bytes) × (code.compute_hash tree_type c ≡ h) × (code.decode_entries c ≡ some es)

-- Everything that the one holds, the other holds too.
pub record Extends (before after : Graph) : Type 0 where
  pub blobs : (h : Hash) (c : Bytes) → get_blob before h ≡ some c → get_blob after h ≡ some c
  pub trees :
      (h : Hash) (es : List TreeEntry) → get_tree before h ≡ some es → get_tree after h ≡ some es

-- No two objects of a type have the same hash: what git relies on.
abbrev pub HasNoCollision : PackCode → Type 0
HasNoCollision code =
    (t : PackedType) (c d : Bytes) → code.compute_hash t c ≡ code.compute_hash t d → c ≡ d

some_injective {ℓ} : {A : Type ℓ} {a b : A} → some a ≡ some b → a ≡ b
some_injective h = cc

-- An insertion as what a key has after it.
inserted {ℓ} :
    {A : Type ℓ} (k h : Hash) (v a : A) (m : Map Hash A)
    → lookup h (insert k v m) ≡ some a
    → ((k ≡ h) × (v ≡ a)) ⊎ (lookup h m ≡ some a)
inserted k h v a m e = at (k == h) ((==_iff k h).0) (sym (lookup-insert k h v m) ∙ e)
  where
    at :
        (b : Bool)
        → (b ≡ true → k ≡ h)
        → (if b then some v else lookup h m) ≡ some a
        → ((k ≡ h) × (v ≡ a)) ⊎ (lookup h m ≡ some a)
    at true same e = inl (same refl, some_injective e)
    at false same e = inr e

-- An insertion of what is there already, or of a new key, changes nothing else.
keeps {ℓ} :
    {A : Type ℓ} (k h : Hash) (v a : A) (m : Map Hash A)
    → (k ≡ h → v ≡ a)
    → lookup h m ≡ some a
    → lookup h (insert k v m) ≡ some a
keeps k h v a m agree e = lookup-insert k h v m ∙ at (k == h) ((==_iff k h).0)
  where
    at : (b : Bool) → (b ≡ true → k ≡ h) → (if b then some v else lookup h m) ≡ some a
    at true same = ap some (agree (same refl))
    at false same = e

module _ (code : PackCode) (unique : HasNoCollision code) where
  abbrev pub Grown : Graph → Graph → Type 0
  Grown before after = IsAddressed code after × Extends before after

  Grown-refl : (g : Graph) → IsAddressed code g → Grown g g
  Grown-refl g a = (a, record { blobs = λ h c e. e; trees = λ h es e. e })

  pub Grown-trans : (g g' g'' : Graph) → Grown g g' → Grown g' g'' → Grown g g''
  Grown-trans g g' g'' a b = (
    b.0,
    record {
      blobs = λ h c e. b.1.blobs h c (a.1.blobs h c e);
      trees = λ h es e. b.1.trees h es (a.1.trees h es e);
    },
  )

  on_blob-Grown :
      (g : Graph) (content : Bytes)
      → IsAddressed code g
      → Grown g (on_blob (code.compute_hash blob_type content) content g)
  unfolding on_blob
  on_blob-Grown g content a = (
    record {
      blobs = λ h c e. elim (inserted (code.compute_hash blob_type content) h content c g.blobs e) [
        | inl (k, v) ↦ ap (code.compute_hash blob_type) (sym v) ∙ k
        | inr old ↦ a.blobs h c old
      ];
      trees = a.trees;
    },
    record {
      blobs = λ h c e.
          keeps (code.compute_hash blob_type content) h content c g.blobs
            (λ k. unique blob_type content c (k ∙ sym (a.blobs h c e))) e;
      trees = λ h es e. e;
    },
  )

  on_tree-Grown :
      (g : Graph) (content : Bytes) (es : List TreeEntry)
      → IsAddressed code g
      → code.decode_entries content ≡ some es
      → Grown g (on_tree (code.compute_hash tree_type content) es g)
  unfolding on_tree
  on_tree-Grown g content es a d = (
    record {
      blobs = a.blobs;
      trees = λ h fs e. elim (inserted (code.compute_hash tree_type content) h es fs g.trees e) [
        | inl (k, v) ↦ (content, k, d ∙ ap some v)
        | inr old ↦ a.trees h fs old
      ];
    },
    record {
      blobs = λ h c e. e;
      trees = λ h fs e.
          let (c, k', d') = a.trees h fs e in
          keeps (code.compute_hash tree_type content) h es fs g.trees
            (λ k.
              some_injective
                (sym d ∙ ap code.decode_entries (unique tree_type content c (k ∙ sym k')) ∙ d'))
            e;
    },
  )

  take_tree-Grown :
      (g : Graph) (content : Bytes) (o : Option (List TreeEntry))
      → IsAddressed code g
      → code.decode_entries content ≡ o
      → Grown g (take_tree code graph_handler (code.compute_hash tree_type content) o g).0
  take_tree-Grown g content none a d = Grown-refl g a
  take_tree-Grown g content (some es) a d = on_tree-Grown g content es a d

  pub take_object-Grown :
      (o : NextObject) (g : Graph)
      → IsAddressed code g
      → Grown g (take_object code graph_handler o g).0
  take_object-Grown no_object_header g a = Grown-refl g a
  take_object-Grown not_inflated g a = Grown-refl g a
  take_object-Grown (next blob_type content) g a = on_blob-Grown g content a
  take_object-Grown (next tree_type content) g a =
      take_tree-Grown g content (code.decode_entries content) a refl
  take_object-Grown (next (other_type n) content) g a = Grown-refl g a

  then_run-Grown :
      (g g' : Graph) (r : Result (ScanFault NoFault) (Unit {0}))
      (rest : Exec Graph (ScanFault NoFault) (Unit {0}))
      → Grown g g'
      → (IsAddressed code g' → Grown g' (rest g').0)
      → Grown g (then_run g' r (λ _. rest)).0
  then_run-Grown g g' (err e) rest a b = a
  then_run-Grown g g' (ok u) rest a b = Grown-trans g g' (rest g').0 a (b a.0)

  pub take_objects-Grown :
      (count : ℕ) (objects : List NextObject) (g : Graph)
      → IsAddressed code g
      → Grown g (take_objects code graph_handler count objects g).0
  unfolding take_objects
  take_objects-Grown zero objects g a = Grown-refl g a
  take_objects-Grown (suc count) [] g a = Grown-refl g a
  take_objects-Grown (suc count) (o ∷ objects) g a =
      then_run-Grown g (take_object code graph_handler o g).0 (take_object code graph_handler o g).1
        (take_objects code graph_handler count objects) (take_object-Grown o g a)
        (take_objects-Grown count objects (take_object code graph_handler o g).0)

  take_footer-Grown :
      (o : Option Hash) (g : Graph)
      → IsAddressed code g
      → Grown g (take_footer code graph_handler o g).0
  take_footer-Grown none g a = Grown-refl g a
  take_footer-Grown (some h) g a = Grown-refl g a

  -- Where no two objects of a type have the same hash: whatever a pack carries, and also where reading it
  -- fails midway, a graph whose objects stand under their hashes is left one, and what it held before, it
  -- holds unchanged.
  pub interpret-Grown :
      (pack : Scanned) (g : Graph)
      → IsAddressed code g
      → IsAddressed code (interpret code pack g).0 × Extends g (interpret code pack g).0
  unfolding interpret scan
  interpret-Grown pack g a = at pack.header
    where
      at :
          (o : Option ℕ)
          → Grown g (take_counted code graph_handler o pack.objects pack.checksum g).0
      at none = Grown-refl g a
      at (some count) =
          then_run-Grown g (take_objects code graph_handler count pack.objects g).0
            (take_objects code graph_handler count pack.objects g).1
            (take_footer code graph_handler pack.checksum)
            (take_objects-Grown count pack.objects g a)
            (take_footer-Grown pack.checksum
              (take_objects code graph_handler count pack.objects g).0)
