-- ===== src/Packread.antt =====
-- internal/packread/packread.go: a pack is read as it arrives, and its objects go to a handler. go-git's
-- scanner, its hash of an object and its decoder of trees are parameters.
use treevial.Prelude.{
  ℕ, zero, suc, Option, none, some, List, [], ◌∷◌, Bytes, Result, ok, err, Exec, pure, raise, ◌>>=◌,
}
use treevial.Git.{Hash, TreeEntry}

-- `oh.Type`, and what `NextObjectHeader` and `NextObject` give for an object.
pub data PackedType : Type 0 where
  blob_type tree_type : PackedType
  other_type : ℕ → PackedType

pub data NextObject : Type 0 where
  no_object_header not_inflated : NextObject
  next : PackedType → Bytes → NextObject

-- What the scanner makes of the bytes of a pack; `none` stands for a returned error.
pub record Scanned : Type 0 where
  pub header : Option ℕ
  pub objects : List NextObject
  pub checksum : Option Hash

-- `plumbing.ComputeHash`, and `tree.Decode`.
pub record PackCode : Type 0 where
  pub compute_hash : PackedType → Bytes → Hash
  pub decode_entries : Bytes → Option (List TreeEntry)

pub data ScanFault (E : Type 0) : Type 0 where
  bad_pack_header bad_checksum : ScanFault E
  bad_object_header bad_object : ScanFault E
  bad_tree : Hash → ScanFault E
  unexpected_type : ℕ → ScanFault E
  refused : E → ScanFault E

-- The calls of the header and of the footer, which no handler here does anything in, are left out.
pub record Handler (S E : Type 0) : Type 0 where
  pub on_blob : Hash → Bytes → Exec S E (Unit {0})
  pub on_tree : Hash → List TreeEntry → Exec S E (Unit {0})

module _ {S E : Type 0} (code : PackCode) (handler : Handler S E) where
  open code use {compute_hash, decode_entries}

  abbrev pub Reading {ℓ} : Type ℓ → Type ℓ
  Reading A = Exec S (ScanFault E) A

  abbrev pub or_refused {ℓ} : {A : Type ℓ} → Result E A → Result (ScanFault E) A
  or_refused (ok a) = ok a
  or_refused (err e) = err (refused e)

  abbrev pub handle {ℓ} : {A : Type ℓ} → Exec S E A → Reading A
  handle run s = ((run s).0, or_refused (run s).1)

  abbrev pub take_tree : Hash → Option (List TreeEntry) → Reading (Unit {0})
  take_tree h none = raise (bad_tree h)
  take_tree h (some es) = handle (handler.on_tree h es)

  -- The body of the loop.
  abbrev pub take_object : NextObject → Reading (Unit {0})
  take_object no_object_header = raise bad_object_header
  take_object not_inflated = raise bad_object
  take_object (next blob_type content) =
      handle (handler.on_blob (compute_hash blob_type content) content)
  take_object (next tree_type content) =
      take_tree (compute_hash tree_type content) (decode_entries content)
  take_object (next (other_type n) content) = raise (unexpected_type n)

  unfoldable pub take_objects : ℕ → List NextObject → Reading (Unit {0})
  take_objects zero objects = pure tt
  take_objects (suc count) [] = raise bad_object_header
  take_objects (suc count) (o ∷ objects) = take_object o >>= λ _. take_objects count objects

  abbrev pub take_footer : Option Hash → Reading (Unit {0})
  take_footer none = raise bad_checksum
  take_footer (some h) = pure tt

  abbrev pub take_counted : Option ℕ → List NextObject → Option Hash → Reading (Unit {0})
  take_counted none objects checksum = raise bad_pack_header
  take_counted (some count) objects checksum =
      take_objects count objects >>= λ _. take_footer checksum

  unfoldable pub scan : Scanned → Reading (Unit {0})
  scan pack = take_counted pack.header pack.objects pack.checksum
