-- ===== src/Objects/Replace.antt =====
-- objects/store.go: `ReplaceBlob`, which rewrites the trees on a path.
pub mod Grows
pub mod Laws
use treevial.Prelude.{
  Option, none, some, List, [], ◌∷◌, Bytes, raise, ◌>>=◌, same_bytes, if◌then◌else◌,
}
use treevial.Prelude.Text.{split}
use treevial.Git.{Git, Hash, TreeEntry}
use treevial.Objects.Store.{no_element, Action, entries, add_blob, add_tree}

-- The hash of the first entry of the name, and that hash set.
abbrev pub hash_of_name : Bytes → List TreeEntry → Option Hash
hash_of_name n [] = none
hash_of_name n (e ∷ es) = if same_bytes e.name n then some e.hash else hash_of_name n es

abbrev pub set_hash : Bytes → Hash → List TreeEntry → List TreeEntry
set_hash n h [] = []
set_hash n h (e ∷ es) =
    if same_bytes e.name n then record e { hash = h } ∷ es else e ∷ set_hash n h es

module _ (g : Git) where
  -- The body of the loop for the entry that was found; `step` gives its new hash.
  abbrev pub replace_found :
      (Hash → Action g Hash) → Bytes → Hash → List TreeEntry → Option Hash → Action g Hash
  replace_found step part h es none = raise (no_element part h)
  replace_found step part h es (some old) = step old >>= λ new. add_tree g (set_hash part new es)

  -- `rebuild`, on a path of at least one part.
  unfoldable pub rebuild : Bytes → Bytes → List Bytes → Hash → Action g Hash
  rebuild content part [] h = do
    es ← entries g h
    replace_found (λ _. add_blob g content) part h es (hash_of_name part es)
  rebuild content part (next ∷ parts) h = do
    es ← entries g h
    replace_found (rebuild content next parts) part h es (hash_of_name part es)

  -- Splitting gives at least one part.
  abbrev pub rebuild_parts : Bytes → Hash → List Bytes → Action g Hash
  rebuild_parts content root [] = raise (no_element [] root)
  rebuild_parts content root (part ∷ parts) = rebuild content part parts root

  unfoldable pub replace_blob : Hash → Bytes → Bytes → Action g Hash
  replace_blob root path content = rebuild_parts content root (split b'/' path)
