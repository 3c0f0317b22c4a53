-- ===== src/Receive/Compare.antt =====
-- receive/compare.go and receive/diff.go: two trees of a graph side by side, and the paths that differ.
pub mod Paths
pub mod Emits
pub mod Whole
pub mod Between
pub mod Loops
pub mod Sorted
pub mod Changes
use treevial.Prelude.{
  ℕ, zero, suc, Bool, true, false, not, ◌&&◌, Option, none, some, List, [], ◌∷◌, ◌++◌, Bytes,
  Result, ok, err, and_then, if◌then◌else◌, ◌==◌, bytes_key, number_key,
}
use treevial.Prelude.Maps.{Map, lookup, insert}
use treevial.Prelude.Text.{ascii}
use treevial.Git.{Hash, is_zero, TreeEntry, is_dir}
use treevial.Objects.Order.{bytes_lt}
use treevial.Objects.Store.{Fault, out_of_fuel}
use treevial.Receive.Graph.{Graph, get_tree, entries, content, EntryVisitor, descend}

pub data ChangeKind : Type 0 where
  added modified deleted : ChangeKind

-- What a comparison calls for each entry that differs.
abbrev pub ChangeVisitor : Type 0 → Type 0
ChangeVisitor V = ChangeKind → TreeEntry → Bytes → V → Result Fault V

-- `out[e.Name] = e` for each entry.
abbrev pub index : List TreeEntry → Map Bytes TreeEntry → Map Bytes TreeEntry
index [] m = m
index (e ∷ es) m = index es (insert e.name e m)

abbrev pub entries_by_name : Graph → Hash → Result Fault (Map Bytes TreeEntry)
entries_by_name g h = if is_zero h then ok [] else and_then (entries g h) (λ es. ok (index es []))

abbrev pub or_none : Option (List TreeEntry) → List TreeEntry
or_none none = []
or_none (some es) = es

abbrev pub ordered : Graph → Hash → List TreeEntry
ordered g h = if is_zero h then [] else or_none (get_tree g h)

-- `before.Hash == e.Hash && before.Mode == e.Mode`, and whether one is a directory and the other is not.
abbrev pub unmoved : TreeEntry → TreeEntry → Bool
unmoved before e = before.hash == e.hash && before.mode == e.mode

abbrev pub swapped : TreeEntry → TreeEntry → Bool
swapped before e = if is_dir before then not (is_dir e) else is_dir e

module _ {V : Type 0} (g : Graph) (visit : ChangeVisitor V) where
  -- What is called for a whole subtree: always go on.
  abbrev pub reporting : ChangeKind → EntryVisitor V
  reporting kind path e v = and_then (visit kind e path v) λ w. ok (true, w)

  unfoldable pub whole : ℕ → ChangeKind → TreeEntry → Bytes → V → Result Fault V
  whole zero kind e path v = err out_of_fuel
  whole (suc fuel) kind e path v =
      and_then (visit kind e path v)
        λ w. if is_dir e then descend g (reporting kind) fuel e.hash (path ++ ascii "/") w else ok w

  -- The cases for an entry of the newer tree, `before` being what the older one has under its name; `step`
  -- compares two trees.
  abbrev pub compare_found :
      (Hash → Hash → Bytes → V → Result Fault V)
      → ℕ
      → Option TreeEntry
      → TreeEntry
      → Bytes
      → V
      → Result Fault V
  compare_found step fuel none e path v = whole fuel added e path v
  compare_found step fuel (some before) e path v =
      if unmoved before e
      then ok v
      else if swapped before e
      then and_then (whole fuel deleted before path v) (whole fuel added e path)
      else and_then (visit modified e path v)
          λ w. if is_dir e then step before.hash e.hash (path ++ ascii "/") w else ok w

  abbrev pub each_new :
      (Hash → Hash → Bytes → V → Result Fault V)
      → ℕ
      → Map Bytes TreeEntry
      → Bytes
      → List TreeEntry
      → V
      → Result Fault V
  each_new step fuel was prefix [] v = ok v
  each_new step fuel was prefix (e ∷ es) v =
      and_then (compare_found step fuel (lookup e.name was) e (prefix ++ e.name) v)
        (each_new step fuel was prefix es)

  abbrev pub unless_still : ℕ → Option TreeEntry → TreeEntry → Bytes → V → Result Fault V
  unless_still fuel (some still) e path v = ok v
  unless_still fuel none e path v = whole fuel deleted e path v

  abbrev pub each_old : ℕ → Map Bytes TreeEntry → Bytes → List TreeEntry → V → Result Fault V
  each_old fuel now prefix [] v = ok v
  each_old fuel now prefix (e ∷ es) v =
      and_then (unless_still fuel (lookup e.name now) e (prefix ++ e.name) v)
        (each_old fuel now prefix es)

  -- The comparison of two trees that differ.
  abbrev pub compare_moved :
      (Hash → Hash → Bytes → V → Result Fault V) → ℕ → Hash → Hash → Bytes → V → Result Fault V
  compare_moved step fuel old new prefix v = and_then (entries_by_name g old) λ was.
      and_then (entries_by_name g new) λ now.
        and_then (each_new step fuel was prefix (ordered g new) v)
          (each_old fuel now prefix (ordered g old))

  unfoldable pub compare : ℕ → Hash → Hash → Bytes → V → Result Fault V
  compare zero old new prefix v = err out_of_fuel
  compare (suc fuel) old new prefix v =
      if old == new then ok v else compare_moved (compare fuel) fuel old new prefix v

pub record Change : Type 0 where
  pub kind : ChangeKind
  pub path : Bytes
  pub hash : Hash
  pub content : Option Bytes

abbrev pub add_change : ChangeKind → TreeEntry → Bytes → Option Bytes → List Change → List Change
add_change kind e path content out =
    out ++ record { kind = kind; path = path; hash = e.hash; content = content } ∷ []

-- For an entry that is no tree: a deletion has no content.
abbrev pub report_blob : Graph → ChangeVisitor (List Change)
report_blob g deleted e path out = ok (add_change deleted e path none out)
report_blob g kind e path out =
    and_then (content g e.hash) λ c. ok (add_change kind e path (some c) out)

abbrev pub visit_diff : Graph → ChangeVisitor (List Change)
visit_diff g kind e path out = if is_dir e then ok out else report_blob g kind e path out

-- `slices.SortFunc` by path.
abbrev pub insert_change : Change → List Change → List Change
insert_change c [] = c ∷ []
insert_change c (d ∷ ds) = if bytes_lt d.path c.path then d ∷ insert_change c ds else c ∷ d ∷ ds

abbrev pub sort_changes : List Change → List Change
sort_changes [] = []
sort_changes (c ∷ cs) = insert_change c (sort_changes cs)

unfoldable pub diff : Graph → ℕ → Hash → Hash → Result Fault (List Change)
diff g fuel old new =
    and_then (compare g (visit_diff g) fuel old new [] []) λ out. ok (sort_changes out)
