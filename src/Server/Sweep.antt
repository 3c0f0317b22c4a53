-- ===== src/Server/Sweep.antt =====
-- server/publish.go: `Sweep`, which puts a new store in place of those of all published refs.
pub mod Laws
pub mod Serves
use treevial.Prelude.{
  ℕ, suc, Bool, true, false, not, ◌&&◌, ◌||◌, Option, none, some, List, [], ◌∷◌, Bytes, Result, ok,
  err, and_then, if◌then◌else◌, bytes_key, ◌==◌,
}
use treevial.Prelude.Maps.{Map, lookup}
use treevial.Git.{Git, Hash, is_zero}
use treevial.Objects.Store.{Store, has_object}
use treevial.Server.Head.{
  Head, StoreId, RefId, SubscriberId, ServerFault, unknown_ref, not_published, nil_store,
  not_in_store, RefState, set_store, would_move, install,
}
use treevial.Server.Registry.{Server, set_state, living, reset, wake}

-- The refs that the heads name: each is held and published.
unfoldable pub check_ref : Server → Bytes → Result ServerFault (Unit {0})
unfolding living
check_ref s ref = elim (living ref s) [
  | none ↦ err unknown_ref
  | some i ↦ if not (s.states i).published then err not_published else ok tt
]

unfoldable pub check_named : Server → Map Bytes Head → Result ServerFault (Unit {0})
unfolding check_ref
check_named s [] = ok tt
check_named s ((ref, h) ∷ heads) = and_then (check_ref s ref) λ _. check_named s heads

abbrev pub published_of : (RefId → RefState) → Map Bytes RefId → Map Bytes RefId
published_of states [] = []
published_of states ((ref, i) ∷ refs) =
    let rest = published_of states refs in if (states i).published then (ref, i) ∷ rest else rest

-- The head that a ref will have: the one that is named for it, or its own.
abbrev pub head_or : Option Head → RefState → Head
head_or none st = st.head
head_or (some h) st = h

-- A head that is named has to advance its ref.
abbrev pub check_advance : Option Head → RefState → Result ServerFault (Unit {0})
check_advance none st = ok tt
check_advance (some h) st = would_move h st

abbrev pub has_moved : Result ServerFault Bool → Bool
has_moved (ok moved) = moved
has_moved (err e) = false

-- The state of a ref with the new store and, if one is named, the new head; and whether it moved.
unfoldable pub swept : StoreId → Option Head → RefState → RefState × Result ServerFault Bool
unfolding install
swept store none st = (set_store store st, ok false)
swept store (some h) st = install store h st

module _ (g : Git) (stores : StoreId → Store g) where
  abbrev pub is_in : StoreId → Hash → Bool
  is_in store h = has_object g (stores store) h

  unfoldable pub check_head : StoreId → Option Head → RefState → Result ServerFault (Unit {0})
  check_head store named st =
      let h = (head_or named st).hash in
      if not (is_zero h) && not (is_in store h) then err not_in_store else check_advance named st

  unfoldable pub check_published :
      StoreId → Map Bytes Head → Server → Map Bytes RefId → Result ServerFault (Unit {0})
  unfolding check_head
  check_published store heads s [] = ok tt
  check_published store heads s ((ref, i) ∷ refs) =
      and_then (check_head store (lookup ref heads) (s.states i))
        λ _. check_published store heads s refs

  -- A subscriber that holds a tree which the new store does not hold starts again.
  unfoldable pub sweep_member : StoreId → Bool → SubscriberId → Server × ℕ → Server × ℕ
  unfolding reset wake
  sweep_member store moved c (s, n) =
      let synced = (s.subscribers c).synced in
      let dropped = not (is_zero synced) && not (is_in store synced) in
      let after = if dropped then reset c s else s in
      (if moved || dropped then wake c after else after, if dropped then suc n else n)

  unfoldable pub sweep_members : StoreId → Bool → List SubscriberId → Server × ℕ → Server × ℕ
  unfolding sweep_member
  sweep_members store moved [] acc = acc
  sweep_members store moved (c ∷ cs) acc =
      sweep_members store moved cs (sweep_member store moved c acc)

  unfoldable pub sweep_ref : StoreId → Map Bytes Head → Bytes → RefId → Server × ℕ → Server × ℕ
  unfolding swept sweep_members
  sweep_ref store heads ref i (s, n) =
      let new = swept store (lookup ref heads) (s.states i) in
      sweep_members store (has_moved new.1) new.0.members (set_state i new.0 s, n)

  unfoldable pub sweep_refs : StoreId → Map Bytes Head → Map Bytes RefId → Server × ℕ → Server × ℕ
  unfolding sweep_ref
  sweep_refs store heads [] acc = acc
  sweep_refs store heads ((ref, i) ∷ refs) acc =
      sweep_refs store heads refs (sweep_ref store heads ref i acc)

  unfoldable pub checked : StoreId → Map Bytes Head → Server → Result ServerFault (Unit {0})
  unfolding check_named check_published
  checked store heads s =
      and_then (check_named s heads)
        λ _. check_published store heads s (published_of s.states s.refs)

  unfoldable pub sweep_checked :
      StoreId
      → Map Bytes Head
      → Server
      → Result ServerFault (Unit {0})
      → Server × Result ServerFault ℕ
  unfolding sweep_refs
  sweep_checked store heads s (err e) = (s, err e)
  sweep_checked store heads s (ok _) =
      let done = sweep_refs store heads (published_of s.states s.refs) (s, 0) in (done.0, ok done.1)

  unfoldable pub sweep : Option StoreId → Map Bytes Head → Server → Server × Result ServerFault ℕ
  unfolding checked sweep_checked
  sweep none heads s = (s, err nil_store)
  sweep (some store) heads s = sweep_checked store heads s (checked store heads s)
