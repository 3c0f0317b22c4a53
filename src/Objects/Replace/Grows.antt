-- ===== src/Objects/Replace/Grows.antt =====
-- Operations that add to a store: what it had, it has.
use treevial.Prelude.{
  Bool, true, false, Option, none, some, List, Bytes, Result, ok, err, and_then, ◌≡◌, refl, sym, ap,
  ◌∙◌, subst, if◌then◌else◌, number_key, ◌==◌, ==_iff, ok_injective, Option-cases, Result-cases,
  inl, inr,
}
use treevial.Prelude.Maps.{lookup, lookup-insert}
use treevial.Git.{Git, Hash, TreeEntry, ObjectType, blob_object, tree_object}
use treevial.Objects.Compact.Copies.{then_run-ok}
use treevial.Objects.Order.{in_order}
use treevial.Objects.Store.{
  Fault, missing, undecodable, unencodable, not_stored, or_fault, Store, set_encoded_object,
  remember, tree_at, entries, add_blob, add_tree,
}

-- A storage keeps what it has, and finds what it was given, as what it was: no two objects have one hash.
pub record IsAppending (g : Git) : Type 0 where
  pub kept :
      (m m' : g.Storage) (o : g.Encoded) (k : Hash)
      → g.set_object m o ≡ some (m', k)
      → (t : ObjectType) (h : Hash) (p : g.Encoded) → g.find m t h ≡ some p
      → g.find m' t h ≡ some p
  pub blobs :
      (m m' : g.Storage) (o : g.Encoded) (k : Hash) (c : Bytes)
      → g.encode_blob c ≡ some o
      → g.set_object m o ≡ some (m', k)
      → (p : g.Encoded) × (g.find m' blob_object k ≡ some p) × (g.blob_content p ≡ some c)
  pub trees :
      (m m' : g.Storage) (o : g.Encoded) (k : Hash) (es : List TreeEntry)
      → g.encode_tree es ≡ some o
      → g.set_object m o ≡ some (m', k)
      → (p : g.Encoded) × (g.find m' tree_object k ≡ some p) × (g.tree_entries p ≡ some es)

some_injective {ℓ} : {A : Type ℓ} {a b : A} → some a ≡ some b → a ≡ b
some_injective h = cc

or_fault-ok {ℓ} : {A : Type ℓ} (o : Option A) (f : Fault) {a : A} → or_fault o f ≡ ok a → o ≡ some a
or_fault-ok none f h = cc
or_fault-ok (some b) f h = ap some (ok_injective h)

module _ (g : Git) (appending : IsAppending g) where
  -- The tree, or the blob, that the storage has at a hash.
  abbrev pub TreeOf : Store g → Hash → List TreeEntry → Type 0
  TreeOf s h es =
      (p : g.Encoded) × (g.find s.storage tree_object h ≡ some p) × (g.tree_entries p ≡ some es)

  abbrev pub BlobOf : Store g → Hash → Bytes → Type 0
  BlobOf s h c =
      (p : g.Encoded) × (g.find s.storage blob_object h ≡ some p) × (g.blob_content p ≡ some c)

  -- The memo says what the storage has.
  abbrev pub IsCoherent : Store g → Type 0
  IsCoherent s = (h : Hash) (es : List TreeEntry) → lookup h s.decoded ≡ some es → TreeOf s h es

  pub record Grows (s s' : Store g) : Type 0 where
    pub coherent : IsCoherent s'
    pub kept :
        (t : ObjectType) (h : Hash) (p : g.Encoded)
        → g.find s.storage t h ≡ some p
        → g.find s'.storage t h ≡ some p

  pub Grows-refl : (s : Store g) → IsCoherent s → Grows s s
  Grows-refl s a = record { coherent = a; kept = λ t h p e. e }

  pub Grows-trans : (s s' s'' : Store g) → Grows s s' → Grows s' s'' → Grows s s''
  Grows-trans s s' s'' a b = record {
    coherent = b.coherent;
    kept = λ t h p e. b.kept t h p (a.kept t h p e);
  }

  pub TreeOf-Grows :
      (s s' : Store g) (h : Hash) (es : List TreeEntry)
      → Grows s s'
      → TreeOf s h es
      → TreeOf s' h es
  TreeOf-Grows s s' h es a (p, found, e) = (p, a.kept tree_object h p found, e)

  pub BlobOf-Grows :
      (s s' : Store g) (h : Hash) (c : Bytes) → Grows s s' → BlobOf s h c → BlobOf s' h c
  BlobOf-Grows s s' h c a (p, found, e) = (p, a.kept blob_object h p found, e)

  -- An entry of the memo is added for a tree that the storage has.
  remember-IsCoherent :
      (s : Store g) (h : Hash) (es : List TreeEntry)
      → IsCoherent s
      → TreeOf s h es
      → IsCoherent (remember g h es s)
  unfolding remember
  remember-IsCoherent s h es a t j fs e =
      at (h == j) ((==_iff h j).0) (sym (lookup-insert h j es s.decoded) ∙ e)
    where
      at :
          (b : Bool)
          → (b ≡ true → h ≡ j)
          → (if b then some es else lookup j s.decoded) ≡ some fs
          → TreeOf s j fs
      at true same e =
          subst (TreeOf s j) (some_injective e) (subst (λ k. TreeOf s k es) (same refl) t)
      at false same e = a j fs e

  remember-Grows :
      (s : Store g) (h : Hash) (es : List TreeEntry)
      → IsCoherent s
      → TreeOf s h es
      → Grows s (remember g h es s)
  unfolding remember
  remember-Grows s h es a t = record {
    coherent = unfold remember in remember-IsCoherent s h es a t;
    kept = λ ty j p e. e;
  }

  remember-TreeOf :
      (s : Store g) (h : Hash) (es : List TreeEntry)
      → TreeOf s h es
      → TreeOf (remember g h es s) h es
  unfolding remember
  remember-TreeOf s h es t = t

  tree_at-TreeOf :
      (s : Store g) (h : Hash) (es : List TreeEntry) → tree_at g s h ≡ ok es → TreeOf s h es
  unfolding tree_at
  tree_at-TreeOf s h es e = at (g.find s.storage tree_object h) refl e
    where
      at :
          (o : Option g.Encoded)
          → g.find s.storage tree_object h ≡ o
          → and_then (or_fault o (missing h)) (λ obj. or_fault (g.tree_entries obj) (undecodable h))
            ≡ ok es
          → TreeOf s h es
      at none f e = cc
      at (some p) f e = (p, f, or_fault-ok (g.tree_entries p) (undecodable h) e)

  pub entries-Grows :
      (s s' : Store g) (h : Hash) (es : List TreeEntry)
      → IsCoherent s
      → entries g h s ≡ (s', ok es)
      → Grows s s' × TreeOf s' h es
  unfolding entries
  entries-Grows s s' h es a run = elim (Option-cases (lookup h s.decoded)) [
    | inr (fs, cached) ↦
        let found : (s, ok fs) ≡ (s', ok es) = rw cached at run in
        let same : s ≡ s' = ap (λ r. r.0) found in
        let t : TreeOf s h es =
          subst (TreeOf s h) (ok_injective (ap (λ r. r.1) found)) (a h fs cached) in
        subst (λ u. Grows s u × TreeOf u h es) same (Grows-refl s a, t)
    | inl fresh ↦ elim (Result-cases (tree_at g s h)) [
      | inl (fs, e) ↦
          let found : (remember g h fs s, ok fs) ≡ (s', ok es) = rw (fresh, e) at run in
          let same : remember g h fs s ≡ s' = ap (λ r. r.0) found in
          let t = tree_at-TreeOf s h fs e in
          subst (λ u. Grows s u × TreeOf u h es) same
            (
              remember-Grows s h fs a t,
              subst (TreeOf (remember g h fs s) h) (ok_injective (ap (λ r. r.1) found))
                  (remember-TreeOf s h fs t),
            )
      | inr (f, e) ↦
          let failed : ◌≡◌ {A = Store g × Result Fault (List TreeEntry)} (s, err f) (s', ok es) =
            rw (fresh, e) at run in
          cc
    ]
  ]

  set_encoded-Grows :
      (s s' : Store g) (o : g.Encoded) (k : Hash)
      → IsCoherent s
      → set_encoded_object g o s ≡ (s', ok k)
      → Grows s s' × (g.set_object s.storage o ≡ some (s'.storage, k))
  unfolding set_encoded_object
  set_encoded-Grows s s' o k a run = at (g.set_object s.storage o) refl run
    where
      at :
          (r : Option (g.Storage × Hash))
          → g.set_object s.storage o ≡ r
          → ◌≡◌ {A = Store g × Result Fault Hash}
              (elim r [
                | none ↦ (s, err not_stored)
                | some (m, h) ↦ (record s { storage = m }, ok h)
              ])
              (s', ok k)
          → Grows s s' × (g.set_object s.storage o ≡ some (s'.storage, k))
      at none e run = cc
      at (some (m, h)) e run =
          let same : record s { storage = m } ≡ s' = ap (λ r. r.0) run in
          let keeps = appending.kept s.storage m o h e in
          let hash : h ≡ k = ok_injective (ap (λ r. r.1) run) in
          (
            subst (Grows s) same (record {
              coherent =
                  λ j es c. let (p, found, d) = a j es c in (p, keeps tree_object j p found, d);
              kept = keeps;
            }),
            e ∙ ap (λ u. some (u.storage, h)) same ∙ ap (λ i. some (s'.storage, i)) hash,
          )

  pub add_blob-Grows :
      (s s' : Store g) (c : Bytes) (k : Hash)
      → IsCoherent s
      → add_blob g c s ≡ (s', ok k)
      → Grows s s' × BlobOf s' k c
  unfolding add_blob
  add_blob-Grows s s' c k a run =
      let (o, encoded, run1) = then_run-ok s s' (or_fault (g.encode_blob c) unencodable) _ run in
      let (grown, stored) = set_encoded-Grows s s' o k a run1 in
      (
        grown,
        appending.blobs s.storage s'.storage o k c
            (or_fault-ok (g.encode_blob c) unencodable encoded) stored,
      )

  pub add_tree-Grows :
      (s s' : Store g) (es : List TreeEntry) (k : Hash)
      → IsCoherent s
      → add_tree g es s ≡ (s', ok k)
      → Grows s s' × TreeOf s' k (in_order es)
  unfolding add_tree
  add_tree-Grows s s' es k a run =
      let (o, encoded, run1) =
        then_run-ok s s' (or_fault (g.encode_tree (in_order es)) unencodable) _ run in
      let u = (set_encoded_object g o s).0 in
      let (h, put, run2) = then_run-ok u s' (set_encoded_object g o s).1 _ run1 in
      let (grown, stored) = set_encoded-Grows s u o h a (ap (λ r. (u, r)) put) in
      let t : TreeOf u h (in_order es) =
        appending.trees s.storage u.storage o h (in_order es)
          (or_fault-ok (g.encode_tree (in_order es)) unencodable encoded) stored in
      let same : remember g h (in_order es) u ≡ s' = ap (λ r. r.0) run2 in
      let hash : h ≡ k = ok_injective (ap (λ r. r.1) run2) in
      (
        subst (Grows s) same (
            Grows-trans s u (remember g h (in_order es) u) grown
              (remember-Grows u h (in_order es) grown.coherent t)),
        subst (λ i. TreeOf s' i (in_order es)) hash
            (subst (λ v. TreeOf v h (in_order es)) same (remember-TreeOf u h (in_order es) t)),
      )
