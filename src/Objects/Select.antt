-- ===== src/Objects/Select.antt =====
-- objects/select.go: which objects a client that holds the tree `from` needs to reach `to`.
pub mod Exact
pub mod Merge
pub mod Compared
pub mod Refine
pub mod Since
pub mod Ends
use treevial.Prelude.{
  ℕ, zero, suc, ◌/◌, Bool, true, false, ◌&&◌, ◌||◌, List, [], ◌∷◌, ◌++◌, Result, ok, err, Exec,
  pure, raise, lift, ◌>>=◌, if◌then◌else◌, ◌==◌, leb, has, length, same_bytes,
}
use treevial.Git.{Git, Hash, zero_hash, is_zero, TreeEntry, is_dir}
use treevial.Objects.Order.{earlier}
use treevial.Objects.Store.{Fault, out_of_fuel, Store, Action, entries, held}
use treevial.Objects.Walk.{Visitor, walk}

-- A list of hashes in the order in which they are to be sent, and the set that keeps it free of
-- repetitions: `held` of `selectExact`, `seen` of `selectCompared`.
pub record Selection : Type 0 where
  pub seen : List Hash
  pub out : List Hash

abbrev pub add : Hash → Selection → Selection
add h sel = record { seen = h ∷ sel.seen; out = sel.out ++ h ∷ [] }

-- The visitor of `reachable`; the map `out` is a list of its keys.
abbrev pub visit_reachable : Visitor (List Hash)
visit_reachable h out = if has out h then ok (false, out) else ok (true, h ∷ out)

-- The visitor of `selectExact`.
abbrev pub visit_exact : Visitor Selection
visit_exact h sel = if has sel.seen h then ok (false, sel) else ok (true, add h sel)

-- `for held < len(was) && earlier(was[held], e) { held++ }`, with `was[held:]` for `held`.
unfoldable pub skip_earlier : TreeEntry → List TreeEntry → List TreeEntry
skip_earlier e [] = []
skip_earlier e (w ∷ was) = let rest = skip_earlier e was in if earlier w e then rest else w ∷ was

-- The hash that `from` has in the place of `e`: `before`.
unfoldable pub counterpart : TreeEntry → List TreeEntry → Hash
counterpart e [] = zero_hash
counterpart e (w ∷ was) = if same_bytes w.name e.name && w.mode == e.mode then w.hash else zero_hash

module _ (g : Git) where
  unfoldable pub reachable : ℕ → Hash → Action g (List Hash)
  reachable fuel root = if is_zero root then pure [] else walk g visit_reachable fuel root []

  unfoldable pub select_exact : ℕ → Hash → Hash → Action g (List Hash)
  unfolding reachable
  select_exact fuel from to = do
    held ← reachable fuel from
    sel ← walk g visit_exact fuel to (record { seen = held; out = [] })
    pure sel.out

  -- `from`, `to` and whether they are trees.
  abbrev pub Compare : Type 0
  Compare = Hash → Hash → Bool → Selection → Action g Selection

  unfoldable pub was_entries : Hash → Action g (List TreeEntry)
  was_entries from = if is_zero from then pure [] else entries g from

  -- The loop over the entries of `to`, beside the rest of those of `from`.
  unfoldable pub merge_entries :
      Compare → List TreeEntry → List TreeEntry → Selection → Action g Selection
  merge_entries step [] was sel = pure sel
  merge_entries step (e ∷ now) was sel = do
    let rest = skip_earlier e was
    sel' ← step (counterpart e rest) e.hash (is_dir e) sel
    merge_entries step now rest sel'

  unfoldable pub expand : Compare → Hash → Hash → Bool → Selection → Action g Selection
  unfolding merge_entries was_entries
  expand step from to true sel = do
    now ← entries g to
    was ← was_entries from
    merge_entries step now was sel
  expand step from to false sel = pure sel

  -- The closure `descend` of `selectCompared`, with a bound on the depth.
  unfoldable pub descend_compared : ℕ → Compare
  unfolding expand
  descend_compared zero from to is_tree sel = raise out_of_fuel
  descend_compared (suc fuel) from to is_tree sel =
      if from == to || has sel.seen to
      then pure sel
      else expand (descend_compared fuel) from to is_tree (add to sel)

  unfoldable pub select_compared : ℕ → Hash → Hash → Action g (List Hash)
  unfolding descend_compared
  select_compared fuel from to = do
    sel ← descend_compared fuel from to true (record { seen = []; out = [] })
    pure sel.out

  -- `len(out) <= s.held()/2`
  unfoldable pub accept : ℕ → Hash → Hash → List Hash → Action g (List Hash)
  unfolding select_exact held
  accept fuel from to out s =
      if leb (length out) (held g s / 2) then (s, ok out) else select_exact fuel from to s

  unfoldable pub select_since : ℕ → Hash → Hash → Action g (List Hash)
  unfolding select_exact select_compared accept
  select_since fuel from to =
      if is_zero from
      then select_exact fuel from to
      else do _ ← entries g from; out ← select_compared fuel from to; accept fuel from to out
