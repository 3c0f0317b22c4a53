-- ===== src/Tests/Replace.antt =====
-- A file that is replaced, and a pack that is loaded, over a storage that numbers its objects.
use treevial.Prelude.{
  ℕ, zero, suc, Option, none, some, List, [], ◌∷◌, ◌++◌, Bytes, length, ok, ◌≡◌, refl, sym, ap, ◌∙◌,
  subst, subst₂,
}
use treevial.Prelude.Text.{ascii}
use treevial.Git.{
  Git, Hash, ObjectType, blob_object, tree_object, TreeEntry, dir_mode, regular_mode,
}
use treevial.Objects.Store.{Store, set_encoded_object, add_blob, add_tree}
use treevial.Objects.Replace.Grows.{IsAppending, Grows}
use treevial.Objects.Load.{load_pack}
use treevial.Objects.Load.Counts.{IsLoaded, load_pack-IsLoaded}
use treevial.Packread.{
  next, blob_type, tree_type, other_type, PackedType, Scanned, PackCode, take_objects, scan,
}
use treevial.Tests.Toy.{Object, blob, tree, typed_find, content, contained}

abbrev nth : ℕ → List Object → Option Object
nth n [] = none
nth zero (o ∷ os) = some o
nth (suc n) (o ∷ os) = nth n os

abbrev numbered : Git
numbered = record {
  Encoded = Object;
  Storage = List Object;
  new_storage = [];
  find = λ m t h. typed_find t (nth h m);
  set_object = λ m o. some (m ++ o ∷ [], length m);
  size = λ m. length m;
  encode_blob = λ s. some (blob s);
  encode_tree = λ es. some (tree es);
  blob_content = content;
  tree_entries = contained;
}

nth-kept :
    (m : List Object) (o : Object) (t : ObjectType) (h : ℕ) (p : Object)
    → typed_find t (nth h m) ≡ some p
    → typed_find t (nth h (m ++ o ∷ [])) ≡ some p
nth-kept [] o t h p e = cc
nth-kept (q ∷ m) o t zero p e = e
nth-kept (q ∷ m) o t (suc h) p e = nth-kept m o t h p e

nth_last : (m : List Object) (o : Object) → nth (length m) (m ++ o ∷ []) ≡ some o
nth_last [] o = refl
nth_last (q ∷ m) o = nth_last m o

pair_injective :
    {m m' : List Object} {k k' : Hash}
    → ◌≡◌ {A = Option (List Object × Hash)} (some (m, k)) (some (m', k'))
    → (m ≡ m') × (k ≡ k')
pair_injective h = (cc, cc)

numbered-IsAppending : IsAppending numbered
numbered-IsAppending = record {
  kept = λ m m' o k put t h p e.
      subst (λ n. typed_find t (nth h n) ≡ some p) (pair_injective put).0 (nth-kept m o t h p e);
  blobs = λ m m' o k c enc put.
      let there : nth k m' ≡ some o =
        subst₂ (λ n i. nth i n ≡ some o) (pair_injective put).0 (pair_injective put).1
          (nth_last m o) in
      (blob c, ap (typed_find blob_object) (there ∙ sym enc), refl);
  trees = λ m m' o k es enc put.
      let there : nth k m' ≡ some o =
        subst₂ (λ n i. nth i n ≡ some o) (pair_injective put).0 (pair_injective put).1
          (nth_last m o) in
      (tree es, ap (typed_find tree_object) (there ∙ sym enc), refl);
}

abbrev file : Bytes → Hash → TreeEntry
file name h = record { name = name; mode = regular_mode; hash = h }

abbrev folder : Bytes → Hash → TreeEntry
folder name h = record { name = name; mode = dir_mode; hash = h }

-- A file in a folder in the root, which is object 2.
abbrev before : Store numbered
before = record {
  storage = blob (1 ∷ []) ∷ tree (file (ascii "f") 0 ∷ []) ∷ tree (folder (ascii "d") 1 ∷ []) ∷ [];
  decoded = [];
}

abbrev after : Store numbered
after = record {
  storage =
      before.storage
      ++ blob (9 ∷ []) ∷ tree (file (ascii "f") 3 ∷ []) ∷ tree (folder (ascii "d") 4 ∷ []) ∷ [];
  decoded =
      (2, folder (ascii "d") 1 ∷ [])
      ∷ (1, file (ascii "f") 0 ∷ [])
      ∷ (4, file (ascii "f") 3 ∷ [])
      ∷ (5, folder (ascii "d") 4 ∷ [])
      ∷ [];
}

-- The blob and the tree that come next.
abbrev next_hash : PackedType → Bytes → Hash
next_hash blob_type s = 3
next_hash tree_type s = 4
next_hash (other_type n) s = 0

-- Every tree in a pack has the two files, the wrong way round.
abbrev code : PackCode
code = record {
  compute_hash = next_hash;
  decode_entries = λ s. some (file (ascii "g") 0 ∷ file (ascii "f") 3 ∷ []);
}

abbrev pack : Scanned
pack = record {
  header = some 2;
  objects = next blob_type (9 ∷ []) ∷ next tree_type [] ∷ [];
  checksum = some 9;
}

abbrev loaded : Store numbered
loaded = record {
  storage =
      before.storage ++ blob (9 ∷ []) ∷ tree (file (ascii "f") 3 ∷ file (ascii "g") 0 ∷ []) ∷ [];
  decoded = (4, file (ascii "f") 3 ∷ file (ascii "g") 0 ∷ []) ∷ [];
}

load_pack-IsLoaded_example :
    IsLoaded numbered numbered-IsAppending code (some 2) pack.objects before (loaded, 2, ok tt)
unfolding load_pack scan take_objects add_blob add_tree set_encoded_object
load_pack-IsLoaded_example =
    load_pack-IsLoaded numbered numbered-IsAppending code pack before (λ h es e. cc)
