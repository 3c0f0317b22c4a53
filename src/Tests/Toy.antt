-- ===== src/Tests/Toy.antt =====
-- A concrete stand-in for go-git: objects as data, a storage that is a map, and a simple hash.
use treevial.Prelude.{
  ℕ, ◌+◌, ◌*◌, ◌%◌, ◌^◌, Option, none, some, List, [], ◌∷◌, Bytes, length, number_key,
}
use treevial.Prelude.Maps.{Map, lookup, insert}
use treevial.Git.{Git, Hash, TreeEntry, ObjectType, any_object, blob_object, tree_object}

pub data Object : Type 0 where
  blob : Bytes → Object
  tree : List TreeEntry → Object

abbrev mix : ℕ → ℕ → ℕ
mix acc b = (acc * 257 + b + 1) % 2 ^ 160

abbrev hash_bytes : ℕ → Bytes → ℕ
hash_bytes acc [] = acc
hash_bytes acc (b ∷ s) = hash_bytes (mix acc b) s

abbrev hash_entries : ℕ → List TreeEntry → ℕ
hash_entries acc [] = acc
hash_entries acc (e ∷ es) = hash_entries (mix (mix (hash_bytes acc e.name) e.mode) e.hash) es

abbrev pub hash_object : Object → Hash
hash_object (blob s) = hash_bytes 1 s
hash_object (tree es) = hash_entries 2 es

abbrev typed : ObjectType → Object → Option Object
typed any_object o = some o
typed blob_object (blob s) = some (blob s)
typed blob_object (tree es) = none
typed tree_object (blob s) = none
typed tree_object (tree es) = some (tree es)

abbrev pub typed_find : ObjectType → Option Object → Option Object
typed_find t none = none
typed_find t (some o) = typed t o

abbrev pub content : Object → Option Bytes
content (blob s) = some s
content (tree es) = none

abbrev pub contained : Object → Option (List TreeEntry)
contained (blob s) = none
contained (tree es) = some es

abbrev pub toy : Git
toy = record {
  Encoded = Object;
  Storage = Map Hash Object;
  new_storage = [];
  find = λ m t h. typed_find t (lookup h m);
  set_object = λ m o. some (insert (hash_object o) o m, hash_object o);
  size = λ m. length m;
  encode_blob = λ s. some (blob s);
  encode_tree = λ es. some (tree es);
  blob_content = content;
  tree_entries = contained;
}
