-- ===== src/Objects/Store.antt =====
-- objects/store.go: the store, its cache of decoded trees, and the operations on single objects.
use treevial.Prelude.{
  ℕ, Bool, true, false, Option, none, some, List, [], Bytes, Result, ok, err, and_then, Exec, lift,
  ◌>>=◌, if◌then◌else◌,
}
use treevial.Prelude.Maps.{Map, lookup, insert}
use treevial.Prelude.{number_key}
use treevial.Git.{Git, Hash, is_zero, TreeEntry, ObjectType, any_object, blob_object, tree_object}
use treevial.Objects.Order.{in_order}

-- What an operation of the store can fail with.
pub data Fault : Type 0 where
  missing undecodable : Hash → Fault
  unencodable not_stored : Fault
  -- `pack carries %s but this store puts it at %s`
  misplaced : Hash → Hash → Fault
  -- `path element %q not found in tree %s`
  no_element : Bytes → Hash → Fault
  out_of_fuel : Fault

abbrev pub or_fault {ℓ} : {A : Type ℓ} → Option A → Fault → Result Fault A
or_fault (some a) f = ok a
or_fault none f = err f

module _ (g : Git) where
  open g use {
    Encoded, Storage, new_storage, find, set_object, size, encode_blob, encode_tree, blob_content,
    tree_entries,
  }

  pub record Store : Type 0 where
    pub storage : Storage
    -- the trees that have been decoded
    pub decoded : Map Hash (List TreeEntry)

  abbrev pub Action {ℓ} : Type ℓ → Type ℓ
  Action A = Exec Store Fault A

  abbrev pub new_store : Store
  new_store = record { storage = new_storage; decoded = [] }

  -- `storer().EncodedObject(t, h)`
  abbrev pub encoded_object : Store → ObjectType → Hash → Result Fault Encoded
  encoded_object s t h = or_fault (find s.storage t h) (missing h)

  -- `storer().SetEncodedObject(obj)`
  unfoldable pub set_encoded_object : Encoded → Action Hash
  set_encoded_object obj s = elim (set_object s.storage obj) [
    | none ↦ (s, err not_stored)
    | some (storage', h) ↦ (record s { storage = storage' }, ok h)
  ]

  unfoldable pub remember : Hash → List TreeEntry → Store → Store
  remember h es s = record s { decoded = insert h es s.decoded }

  unfoldable pub tree_at : Store → Hash → Result Fault (List TreeEntry)
  tree_at s h =
      and_then (encoded_object s tree_object h) λ obj. or_fault (tree_entries obj) (undecodable h)

  fill : Hash → Result Fault (List TreeEntry) → Action (List TreeEntry)
  unfolding remember
  fill h (ok es) s = (remember h es s, ok es)
  fill h (err e) s = (s, err e)

  or_decode : Hash → Option (List TreeEntry) → Action (List TreeEntry)
  unfolding fill tree_at
  or_decode h (some cached) s = (s, ok cached)
  or_decode h none s = fill h (tree_at s h) s

  -- Through the cache.
  unfoldable pub entries : Hash → Action (List TreeEntry)
  unfolding or_decode
  entries h s = or_decode h (lookup h s.decoded) s

  unfoldable pub add_blob : Bytes → Action Hash
  unfolding set_encoded_object
  add_blob content = do
    obj ← lift (or_fault (encode_blob content) unencodable)
    set_encoded_object obj

  remember_stored : Hash → List TreeEntry → Action Hash
  unfolding remember
  remember_stored h es s = (remember h es s, ok h)

  unfoldable pub add_tree : List TreeEntry → Action Hash
  unfolding set_encoded_object remember_stored in_order
  add_tree es = do
    let sorted = in_order es
    obj ← lift (or_fault (encode_tree sorted) unencodable)
    h ← set_encoded_object obj
    remember_stored h sorted

  -- The second part of the result is the source's `ok`.
  abbrev to_option {ℓ} : {A : Type ℓ} → Result Fault A → Option A
  to_option (ok a) = some a
  to_option (err e) = none

  unfoldable pub tree : Hash → Store → Store × Option (List TreeEntry)
  unfolding entries
  tree h s = ((entries h s).0, to_option (entries h s).1)

  unfoldable pub blob : Store → Hash → Option Bytes
  blob s h = elim (find s.storage blob_object h) [ none ↦ none | some obj ↦ blob_content obj ]

  unfoldable pub has_object : Store → Hash → Bool
  has_object s h =
      if is_zero h
      then false
      else elim (find s.storage any_object h) [ none ↦ false | some _ ↦ true ]

  unfoldable pub held : Store → ℕ
  held s = size s.storage
