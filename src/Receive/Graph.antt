-- ===== src/Receive/Graph.antt =====
-- receive/graph.go: the objects a client holds, the walk over them, and what it collects. A gap is
-- `missing`, with the hash of what is not there; the path in the text of that error is left out.
use treevial.Prelude.{
  ℕ, zero, suc, ◌+◌, Bool, true, false, ◌&&◌, Option, none, some, List, [], ◌∷◌, ◌++◌, Bytes,
  length, Result, ok, err, and_then, if◌then◌else◌, has, number_key, bytes_key,
}
use treevial.Prelude.Maps.{Map, lookup, insert, keep}
use treevial.Prelude.Text.{ascii}
use treevial.Git.{Hash, is_zero, TreeEntry, is_dir}
use treevial.Objects.Store.{Fault, missing, out_of_fuel}

pub record Graph : Type 0 where
  pub blobs : Map Hash Bytes
  pub trees : Map Hash (List TreeEntry)

abbrev pub new_graph : Graph
new_graph = record { blobs = []; trees = [] }

unfoldable pub on_blob : Hash → Bytes → Graph → Graph
on_blob h content g = record g { blobs = insert h content g.blobs }

unfoldable pub on_tree : Hash → List TreeEntry → Graph → Graph
on_tree h es g = record g { trees = insert h es g.trees }

-- `Blob` and `Tree`.
abbrev pub get_blob : Graph → Hash → Option Bytes
get_blob g h = lookup h g.blobs

abbrev pub get_tree : Graph → Hash → Option (List TreeEntry)
get_tree g h = lookup h g.trees

abbrev pub or_missing {ℓ} : {A : Type ℓ} → Hash → Option A → Result Fault A
or_missing h none = err (missing h)
or_missing h (some a) = ok a

abbrev pub entries : Graph → Hash → Result Fault (List TreeEntry)
entries g h = or_missing h (get_tree g h)

abbrev pub content : Graph → Hash → Result Fault Bytes
content g h = or_missing h (get_blob g h)

-- `Len`
abbrev pub size : Graph → ℕ
size g = length g.blobs + length g.trees

-- What a walk over a graph calls for each entry, with its path; and whether to go on below it.
abbrev pub EntryVisitor : Type 0 → Type 0
EntryVisitor V = Bytes → TreeEntry → V → Result Fault (Bool × V)

module _ {V : Type 0} where
  -- The loop over the entries of a tree, and what is done with one of them.
  abbrev pub each_entry :
      (Bytes → TreeEntry → V → Result Fault V) → Bytes → List TreeEntry → V → Result Fault V
  each_entry step prefix [] v = ok v
  each_entry step prefix (e ∷ es) v =
      and_then (step (prefix ++ e.name) e v) (each_entry step prefix es)

  abbrev pub enter :
      (Hash → Bytes → V → Result Fault V) → Bytes → TreeEntry → Bool × V → Result Fault V
  enter descend path e (carry_on, v) =
      if carry_on && is_dir e then descend e.hash (path ++ ascii "/") v else ok v

  -- `descend`, with what is done with an entry: the body of its loop.
  abbrev pub below :
      Graph → (Bytes → TreeEntry → V → Result Fault V) → Hash → Bytes → V → Result Fault V
  below g step h prefix v = and_then (entries g h) λ es. each_entry step prefix es v

  unfoldable pub visit_entry : Graph → EntryVisitor V → ℕ → Bytes → TreeEntry → V → Result Fault V
  visit_entry g visit zero path e v = err out_of_fuel
  visit_entry g visit (suc fuel) path e v =
      and_then (visit path e v) (enter (below g (visit_entry g visit fuel)) path e)

  unfoldable pub descend : Graph → EntryVisitor V → ℕ → Hash → Bytes → V → Result Fault V
  descend g visit fuel = below g (visit_entry g visit fuel)

-- The visitor of `mark`; the map `live` is a list of its keys.
abbrev pub visit_mark : Graph → EntryVisitor (List Hash)
visit_mark g path e live =
    if has live e.hash
    then ok (false, live)
    else and_then (if is_dir e then ok [] else content g e.hash) λ _. ok (true, e.hash ∷ live)

unfoldable pub mark : Graph → ℕ → Hash → List Hash → Result Fault (List Hash)
mark g fuel h live = and_then (entries g h) λ _. descend g (visit_mark g) fuel h [] (h ∷ live)

unfoldable pub mark_all : Graph → ℕ → List Hash → List Hash → Result Fault (List Hash)
mark_all g fuel [] live = ok live
mark_all g fuel (root ∷ roots) live =
    and_then (if is_zero root then ok live else mark g fuel root live) (mark_all g fuel roots)

-- How many a sweep drops.
abbrev pub dropped {ℓ} : {A : Type ℓ} → List Hash → Map Hash A → ℕ
dropped live [] = 0
dropped live ((h, a) ∷ m) = let rest = dropped live m in if has live h then rest else suc rest

abbrev pub sweep_graph : Graph → Result Fault (List Hash) → Graph × Result Fault ℕ
sweep_graph g (err e) = (g, err e)
sweep_graph g (ok live) = (
  record { blobs = keep live g.blobs; trees = keep live g.trees },
  ok (dropped live g.blobs + dropped live g.trees),
)

unfoldable pub retain : ℕ → List Hash → Graph → Graph × Result Fault ℕ
retain fuel roots g = sweep_graph g (mark_all g fuel roots [])

-- The visitor of `Leaves`.
abbrev pub visit_leaf : Graph → EntryVisitor (Map Bytes Bytes)
visit_leaf g path e out =
    if is_dir e
    then ok (true, out)
    else and_then (content g e.hash) λ c. ok (false, insert path c out)

unfoldable pub leaves : Graph → ℕ → Hash → Result Fault (Map Bytes Bytes)
leaves g fuel root = descend g (visit_leaf g) fuel root [] []
