-- ===== src/Server/Connect.antt =====
-- server/server.go: how a subscriber joins its ref and leaves it: `connect`, `prepare` and `disconnect`.
pub mod Laws
use treevial.Prelude.{
  ℕ, Bool, true, false, not, ◌&&◌, Option, none, some, List, [], ◌∷◌, ◌++◌, Bytes, Result, ok, err,
  ◌==◌, if◌then◌else◌, bytes_key, is_empty,
}
use treevial.Prelude.Maps.{lookup, erase}
use treevial.Git.{Git, Hash, is_zero}
use treevial.Objects.Store.{Store, has_object}
use treevial.Server.Head.{
  Head, StoreId, RefId, SubscriberId, ServerFault, no_provider, not_prepared, RefState,
  new_ref_state, set_store, move,
}
use treevial.Server.Registry.{
  Subscriber, Server, set_state, set_subscriber, without, add_state, forget, reset, same_ref,
}

-- What the first section of `connect` finds: a release to wait for, or the state that the subscriber has
-- joined, and whether it is the first to.
pub data Joining : Type 0 where
  wait : RefId → Joining
  joined : RefId → Bool → Joining

-- `st.members[c] = struct{}{}` and `c.state = st`.
abbrev pub add_member : RefId → SubscriberId → Server → Server
add_member i c s =
    set_subscriber c (record (s.subscribers c) { state = i })
      (set_state i (record (s.states i) { members = c ∷ without c (s.states i).members }) s)

abbrev pub join_held : RefId → SubscriberId → Server → Server × Result ServerFault Joining
join_held i c s =
    if (s.states i).retiring then (s, ok (wait i)) else (add_member i c s, ok (joined i false))

abbrev pub join_new : Bytes → SubscriberId → Server → Server × Result ServerFault Joining
join_new ref c s =
    if not s.has_provider
    then (s, err no_provider)
    else (add_member s.next c (add_state ref new_ref_state s), ok (joined s.next true))

abbrev pub join_found :
    Option RefId → Bytes → SubscriberId → Server → Server × Result ServerFault Joining
join_found none ref c s = join_new ref c s
join_found (some i) ref c s = join_held i c s

unfoldable pub join : Bytes → SubscriberId → Server → Server × Result ServerFault Joining
join ref c s = join_found (lookup ref s.refs) ref c s

abbrev pub set_ready : RefId → Server → Server
set_ready i s = set_state i (record (s.states i) { ready = true }) s

-- A preparation that failed.
abbrev pub fail_state : Bytes → RefId → Server → Server
fail_state ref i s =
    set_ready i (forget ref i (set_state i (record (s.states i) { failed = some not_prepared }) s))

-- What `prepare` does once the head has been moved, or has not.
abbrev pub prepare_moved :
    Bytes → RefId → StoreId → RefState → Result ServerFault Bool → Server → Server
prepare_moved ref i store st (err e) s = fail_state ref i (set_state i st s)
prepare_moved ref i store st (ok _) s =
    set_ready i (set_state i (record (set_store store st) { prepared = true }) s)

-- With the provider's answer, if it has one.
unfoldable pub prepare : Bytes → RefId → Option (StoreId × Head) → Server → Server
prepare ref i none s = fail_state ref i s
prepare ref i (some (store, h)) s =
    prepare_moved ref i store (move h (s.states i)).0 (move h (s.states i)).1 s

-- `last`: nobody follows the ref any more, and it is still the one that this subscriber joined.
abbrev pub is_last : RefId → Option RefId → RefState → Bool
is_last i found st = not st.published && is_empty st.members && same_ref found i

abbrev pub remove_member : RefId → SubscriberId → Server → Server
remove_member i c s =
    set_state i (record (s.states i) { members = without c (s.states i).members }) s

abbrev pub retire : Bool → RefId → Server → Server × Bool
retire true i s = (set_state i (record (s.states i) { retiring = true }) s, true)
retire false i s = (s, false)

-- The first section of `disconnect`, and whether the ref is to be released.
unfoldable pub leave : SubscriberId → Server → Server × Bool
leave c s =
    let i = (s.subscribers c).state in
    let after = remove_member i c s in
    retire (is_last i (lookup (s.subscribers c).ref s.refs) (after.states i)) i after

abbrev pub give_back : Bool → Bytes → Server → Server
give_back true ref s = record s { released = s.released ++ ref ∷ [] }
give_back false ref s = s

-- What the provider prepared goes back to it, then the ref is free, and those who wait are let through.
unfoldable pub release : Bytes → RefId → Server → Server
release ref i s =
    let freed = forget ref i (give_back (s.states i).prepared ref s) in
    set_state i (record (freed.states i) { retired = true }) freed

abbrev pub release_if : Bool → Bytes → RefId → Server → Server
release_if true ref i s = release ref i s
release_if false ref i s = s

unfoldable pub disconnect : SubscriberId → Server → Server
disconnect c s =
    release_if (leave c s).1 (s.subscribers c).ref (s.subscribers c).state (leave c s).0

module _ (g : Git) (stores : StoreId → Store g) where
  abbrev pub store_has : Option StoreId → Hash → Bool
  store_has none h = false
  store_has (some i) h = has_object g (stores i) h

  -- The end of `connect`, once the state is ready: a tree that the store does not hold is forgotten.
  unfoldable pub admit : SubscriberId → Server → Server × Result ServerFault (Unit {0})
  admit c s =
      let st = s.states (s.subscribers c).state in
      let synced = (s.subscribers c).synced in
      let fresh =
        if not (is_zero synced) && not (store_has st.store synced) then reset c s else s in
      elim st.failed [
        | some e ↦ (disconnect c s, err e)
        | none ↦ (set_subscriber c (record (fresh.subscribers c) { announced = true }) fresh, ok tt)
      ]
