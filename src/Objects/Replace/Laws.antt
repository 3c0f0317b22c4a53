-- ===== src/Objects/Replace/Laws.antt =====
-- What `ReplaceBlob` leaves in a store.
use treevial.Prelude.{some, List, [], ◌∷◌, Bytes, ◌≡◌, number_key}
use treevial.Git.{Git, Hash, TreeEntry}
use treevial.Objects.Order.{in_order}
use treevial.Objects.Store.{Store}
use treevial.Objects.Replace.{hash_of_name, set_hash}
use treevial.Objects.Replace.Grows.{IsAppending, TreeOf, BlobOf, Grows}

module _ (g : Git) (appending : IsAppending g) where
  -- What a run of `rebuild` did to the tree at `h`, all in the store that it left.
  abbrev pub Replaced : Store g → Bytes → Bytes → List Bytes → Hash → Hash → Type 0
  Replaced s content part [] h h' =
      (es : List TreeEntry) × (old : Hash) × (new : Hash) × TreeOf g appending s h es
      × (hash_of_name part es ≡ some old)
      × BlobOf g appending s new content
      × TreeOf g appending s h' (in_order (set_hash part new es))
  Replaced s content part (next ∷ parts) h h' =
      (es : List TreeEntry) × (old : Hash) × (new : Hash) × TreeOf g appending s h es
      × (hash_of_name part es ≡ some old)
      × Replaced s content next parts old new
      × TreeOf g appending s h' (in_order (set_hash part new es))
