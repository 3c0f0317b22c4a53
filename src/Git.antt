-- ===== src/Git.antt =====
-- What the program takes from go-git: object hashes, file modes, tree entries, and the object
-- storage, which is a parameter (github.com/go-git/go-git is not part of the repository).
use treevial.Prelude.{ℕ, Bool, Option, List, Bytes, ◌==◌}

-- `plumbing.Hash`, its bytes read as one number. `plumbing.ZeroHash` is 0.
abbrev pub Hash : Type 0
Hash = ℕ

abbrev pub zero_hash : Hash
zero_hash = 0

abbrev pub is_zero : Hash → Bool
is_zero h = h == zero_hash

-- `filemode.Dir` and `filemode.Regular`.
abbrev pub dir_mode : ℕ
dir_mode = 0o40000

abbrev pub regular_mode : ℕ
regular_mode = 0o100644

-- `object.TreeEntry`
pub record TreeEntry : Type 0 where
  pub name : Bytes
  pub mode : ℕ
  pub hash : Hash

-- `e.Mode == filemode.Dir`
abbrev pub is_dir : TreeEntry → Bool
is_dir e = e.mode == dir_mode

-- The type argument of `EncodedObject`.
pub data ObjectType : Type 0 where
  any_object blob_object tree_object : ObjectType

-- `memory.Storage` and the object codec. `none` stands for a returned error.
pub record Git : Type 1 where
  pub Encoded : Type 0
  pub Storage : Type 0
  -- `memory.NewStorage()`
  pub new_storage : Storage
  -- `EncodedObject(t, h)`
  pub find : Storage → ObjectType → Hash → Option Encoded
  -- `SetEncodedObject(obj)`
  pub set_object : Storage → Encoded → Option (Storage × Hash)
  -- `len(storage.Objects)`
  pub size : Storage → ℕ
  -- a new object of type blob, written in full; `tree.Encode`
  pub encode_blob : Bytes → Option Encoded
  pub encode_tree : List TreeEntry → Option Encoded
  -- the bytes of the object's reader; `object.DecodeTree`
  pub blob_content : Encoded → Option Bytes
  pub tree_entries : Encoded → Option (List TreeEntry)
