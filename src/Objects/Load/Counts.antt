-- ===== src/Objects/Load/Counts.antt =====
-- How many objects a pack loads, and what the store has of them.
use treevial.Prelude.{
  ℕ, zero, suc, ◌+◌, ◌≤◌, Bool, true, false, not, Option, none, some, List, [], ◌∷◌, Bytes, length,
  take, Result, ok, err, Exec, then_run, if◌then◌else◌, ◌==◌, ==_iff, number_key, ◌≡◌, refl, sym,
  ap, subst, arith, Memᴰ,
}
use treevial.Git.{Git, Hash, TreeEntry}
use treevial.Objects.Order.{in_order}
use treevial.Objects.Store.{Fault, misplaced, Store, add_blob, add_tree}
use treevial.Objects.Replace.Grows.{
  IsAppending, IsCoherent, TreeOf, BlobOf, Grows, Grows-refl, Grows-trans, TreeOf-Grows,
  BlobOf-Grows, add_blob-Grows, add_tree-Grows,
}
use treevial.Packread.{
  PackCode, Scanned, ScanFault, NextObject, next, no_object_header, not_inflated, blob_type,
  tree_type, other_type, or_refused, take_tree, take_object, take_objects, take_footer,
  take_counted, scan,
}
use treevial.Objects.Load.{Loader, check_loaded, loader, load_result, load_pack}

-- Over a storage that keeps what it has.
module _ (g : Git) (appending : IsAppending g) (code : PackCode) where
  abbrev Run : Type 0
  Run = Loader g × Result (ScanFault Fault) (Unit {0})

  -- A store has an object of a pack, under the hash of its content: a blob with that content, or a tree
  -- with the entries that the content decodes to.
  abbrev pub IsStored : NextObject → Store g → Type 0
  IsStored (next blob_type c) s = BlobOf g appending s (code.compute_hash blob_type c) c
  IsStored (next tree_type c) s =
      (es : List TreeEntry) × (code.decode_entries c ≡ some es)
      × TreeOf g appending s (code.compute_hash tree_type c) (in_order es)
  IsStored (next (other_type n) c) s = ⊥
  IsStored no_object_header s = ⊥
  IsStored not_inflated s = ⊥

  IsStored-Grows :
      (o : NextObject) (s s' : Store g) → Grows g appending s s' → IsStored o s → IsStored o s'
  IsStored-Grows (next blob_type c) s s' grown p =
      BlobOf-Grows g appending s s' (code.compute_hash blob_type c) c grown p
  IsStored-Grows (next tree_type c) s s' grown (es, decoded, p) = (
    es,
    decoded,
    TreeOf-Grows g appending s s' (code.compute_hash tree_type c) (in_order es) grown p,
  )
  IsStored-Grows (next (other_type n) c) s s' grown p = p
  IsStored-Grows no_object_header s s' grown p = p
  IsStored-Grows not_inflated s s' grown p = p

  -- One object: it is counted and stored, or the run has failed and at most counted it.
  abbrev Puts : NextObject → Loader g → Run → Type 0
  Puts o l (l', ok u) =
      (l'.loaded ≡ suc l.loaded) × Grows g appending l.store l'.store × IsStored o l'.store
  Puts o l (l', err e) = l'.loaded ≤ suc l.loaded

  abbrev refuse : Loader g × Result Fault (Unit {0}) → Run
  refuse r = (r.0, or_refused code (loader g) r.1)

  -- Where it was stored, and under the hash that it arrived with.
  stored-Puts :
      (o : NextObject) (arrived : Hash) (l : Loader g) (t : Store g) (r : Result Fault Hash)
      → ((k : Hash) → r ≡ ok k → Grows g appending l.store t × (k ≡ arrived → IsStored o t))
      → Puts o l (refuse (then_run (record l { store = t }) r (check_loaded g arrived)))
  stored-Puts o arrived l t (err e) put = omega arith
  stored-Puts o arrived l t (ok stored) put =
      at (stored == arrived) ((==_iff stored arrived).0) (put stored refl)
    where
      at :
          (b : Bool)
          → (b ≡ true → stored ≡ arrived)
          → Grows g appending l.store t × (stored ≡ arrived → IsStored o t)
          → Puts o l (
              refuse (
                if not b
                then (record l { store = t }, err (misplaced arrived stored))
                else (record l { store = t; loaded = suc l.loaded }, ok tt)))
      at true same (grown, there) = (refl, grown, there (same refl))
      at false same p = omega arith

  take_tree-Puts :
      (c : Bytes) (d : Option (List TreeEntry)) (l : Loader g)
      → code.decode_entries c ≡ d
      → IsCoherent g appending l.store
      → Puts (next tree_type c) l (take_tree code (loader g) (code.compute_hash tree_type c) d l)
  take_tree-Puts c none l decoded a = omega arith
  take_tree-Puts c (some es) l decoded a =
      let t = (add_tree g es l.store).0 in
      stored-Puts (next tree_type c) (code.compute_hash tree_type c) l t (add_tree g es l.store).1
        λ k e.
          let (grown, there) = add_tree-Grows g appending l.store t es k a (ap (λ r. (t, r)) e) in
          (
            grown,
            λ same. (es, decoded, subst (λ h. TreeOf g appending t h (in_order es)) same there),
          )

  take_object-Puts :
      (o : NextObject) (l : Loader g)
      → IsCoherent g appending l.store
      → Puts o l (take_object code (loader g) o l)
  take_object-Puts no_object_header l a = omega arith
  take_object-Puts not_inflated l a = omega arith
  take_object-Puts (next blob_type c) l a =
      let t = (add_blob g c l.store).0 in
      stored-Puts (next blob_type c) (code.compute_hash blob_type c) l t (add_blob g c l.store).1
        λ k e.
          let (grown, there) = add_blob-Grows g appending l.store t c k a (ap (λ r. (t, r)) e) in
          (grown, λ same. subst (λ h. BlobOf g appending t h c) same there)
  take_object-Puts (next tree_type c) l a = take_tree-Puts c (code.decode_entries c) l refl a
  take_object-Puts (next (other_type n) c) l a = omega arith

  -- The first `count` objects.
  abbrev PutsAll : ℕ → List NextObject → Loader g → Run → Type 0
  PutsAll count objects l (l', ok u) =
      (l'.loaded ≡ count + l.loaded)
      × (count ≤ length objects)
      × Grows g appending l.store l'.store
      × ((o : NextObject) → Memᴰ o (take count objects) → IsStored o l'.store)
  PutsAll count objects l (l', err e) = l'.loaded ≤ count + l.loaded

  PutsAll-step :
      (count : ℕ) (o : NextObject) (objects : List NextObject) (l : Loader g) (t : Run)
      (rest : Exec (Loader g) (ScanFault Fault) (Unit {0}))
      → Puts o l t
      → ((l' : Loader g) → IsCoherent g appending l'.store → PutsAll count objects l' (rest l'))
      → PutsAll (suc count) (o ∷ objects) l (then_run t.0 t.1 (λ _. rest))
  PutsAll-step count o objects l (l', err e) rest first more = omega (arith, first)
  PutsAll-step count o objects l (l', ok u) rest (counted, grown, here) more =
      at (rest l') (more l' grown.coherent)
    where
      at : (t : Run) → PutsAll count objects l' t → PutsAll (suc count) (o ∷ objects) l t
      at (l'', err e) n = omega (arith, n, counted)
      at (l'', ok v) (n, few, grown', all) = (
        omega (arith, n, counted),
        omega (arith, few),
        Grows-trans g appending l.store l'.store l''.store grown grown',
        member,
      )
        where
          member : (p : NextObject) → Memᴰ p (o ∷ take count objects) → IsStored p l''.store
          member p (Memᴰ.head e) =
              subst (λ p. IsStored p l''.store) (sym e)
                (IsStored-Grows o l'.store l''.store grown' here)
          member p (Memᴰ.tail m) = all p m

  take_objects-PutsAll :
      (count : ℕ) (objects : List NextObject) (l : Loader g)
      → IsCoherent g appending l.store
      → PutsAll count objects l (take_objects code (loader g) count objects l)
  unfolding take_objects
  take_objects-PutsAll zero objects l a =
      (omega arith, omega arith, Grows-refl g appending l.store a, λ o m. elim m [ ])
  take_objects-PutsAll (suc count) [] l a = omega arith
  take_objects-PutsAll (suc count) (o ∷ objects) l a =
      PutsAll-step count o objects l (take_object code (loader g) o l)
        (take_objects code (loader g) count objects) (take_object-Puts o l a)
        (take_objects-PutsAll count objects)

  -- What was loaded into a store, by the header of the pack, its objects and the end of the run.
  abbrev pub IsLoaded :
      Option ℕ
      → List NextObject
      → Store g
      → Store g × ℕ × Result (ScanFault Fault) (Unit {0})
      → Type 0
  IsLoaded none objects s (s', n, r) = (s' ≡ s) × (n ≡ 0) × (e : ScanFault Fault) × (r ≡ err e)
  IsLoaded (some count) objects s (s', n, ok u) =
      (n ≡ count)
      × (count ≤ length objects)
      × Grows g appending s s'
      × ((o : NextObject) → Memᴰ o (take count objects) → IsStored o s')
  IsLoaded (some count) objects s (s', n, err e) = n ≤ count

  -- Over a storage that keeps what it has and finds what it was given, and a store whose memo says what its
  -- storage has: where `LoadPack` succeeds, it reports as many objects as the header of the pack says, and
  -- the store has each of that many first objects of the pack under the hash of its content, a blob with
  -- that content or a tree with its entries in order, and everything that it had before. Where it fails, it
  -- reports a count that is at most that of the header; and if the header cannot be read it fails, reports
  -- zero, and leaves the store as it was.
  pub load_pack-IsLoaded :
      (pack : Scanned) (s : Store g)
      → IsCoherent g appending s
      → IsLoaded pack.header pack.objects s (load_pack g code pack s)
  unfolding load_pack scan
  load_pack-IsLoaded pack s a = at pack.header
    where
      start : Loader g
      start = record { store = s; loaded = 0 }

      footed :
          (count : ℕ) (t : Run) (o : Option Hash)
          → PutsAll count pack.objects start t
          → IsLoaded
              (some count)
              pack.objects
              s
              (load_result g (then_run t.0 t.1 (λ _. take_footer code (loader g) o)))
      footed count (l, err e) o n = omega (arith, n)
      footed count (l, ok u) none (n, few, grown, all) = omega (arith, n)
      footed count (l, ok u) (some h) (n, few, grown, all) = (omega (arith, n), few, grown, all)

      at :
          (o : Option ℕ)
          → IsLoaded o pack.objects s
              (load_result g (take_counted code (loader g) o pack.objects pack.checksum start))
      at none = (refl, refl, _, refl)
      at (some count) =
          footed count (take_objects code (loader g) count pack.objects start) pack.checksum
            (take_objects-PutsAll count pack.objects start a)
