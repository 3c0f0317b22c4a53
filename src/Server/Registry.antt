-- ===== src/Server/Registry.antt =====
-- server/server.go, server/publish.go and server/subscriber.go: what a server holds, and the operations on
-- it. Each section under the server's lock is one operation; channels are flags.
pub mod Laws
pub mod Publish
use treevial.Prelude.{
  ℕ, suc, Bool, true, false, not, ◌&&◌, Option, none, some, List, [], ◌∷◌, ◌++◌, Bytes, Result, ok,
  err, ◌==◌, if◌then◌else◌, bytes_key,
}
use treevial.Prelude.Maps.{Map, lookup, insert, erase}
use treevial.Git.{Git, Hash, zero_hash, is_zero}
use treevial.Ids.{Checked, validate_ref}
use treevial.Objects.Store.{Store, has_object}
use treevial.Server.Head.{
  Head, StoreId, RefId, SubscriberId, ServerFault, unknown_ref, ref_held, not_published,
  not_advancing, bad_name, nil_store, no_provider, not_prepared, RefState, new_ref_state, set_store,
  move,
}

-- `notify` says whether a signal is pending, `closed` whether the connection is.
pub record Subscriber : Type 0 where
  pub ref : Bytes
  pub client_id : Bytes
  pub state : RefId
  pub announced : Bool
  pub notify : Bool
  pub synced : Hash
  pub closed : Bool

-- `next` is where the next state of a ref will be allocated, `released` what was handed back to the
-- provider.
pub record Server : Type 0 where
  pub has_provider : Bool
  pub refs : Map Bytes RefId
  pub states : RefId → RefState
  pub subscribers : SubscriberId → Subscriber
  pub next : RefId
  pub released : List Bytes

-- A pointer's target, replaced.
abbrev pub put {ℓ} : {A : Type ℓ} → (ℕ → A) → ℕ → A → ℕ → A
put f i a j = if i == j then a else f j

abbrev pub set_state : RefId → RefState → Server → Server
set_state i st s = record s { states = put s.states i st }

abbrev pub set_subscriber : SubscriberId → Subscriber → Server → Server
set_subscriber c sub s = record s { subscribers = put s.subscribers c sub }

-- `delete(members, c)`
abbrev pub without : SubscriberId → List SubscriberId → List SubscriberId
without c [] = []
without c (d ∷ ds) = let rest = without c ds in if d == c then rest else d ∷ rest

unfoldable pub reset : SubscriberId → Server → Server
reset c s = set_subscriber c (record (s.subscribers c) { synced = zero_hash }) s

unfoldable pub wake : SubscriberId → Server → Server
wake c s = set_subscriber c (record (s.subscribers c) { notify = true }) s

abbrev same_store : Option StoreId → StoreId → Bool
same_store none i = false
same_store (some j) i = j == i

-- An acknowledgement of a tree from a store that has been replaced says nothing.
unfoldable pub ack : SubscriberId → StoreId → Hash → Server → Server
ack c store hash s =
    if same_store (s.states (s.subscribers c).state).store store
    then set_subscriber c (record (s.subscribers c) { synced = hash }) s
    else s

abbrev unless_retiring : RefId → RefState → Option RefId
unless_retiring i st = if st.retiring then none else some i

unfoldable pub living : Bytes → Server → Option RefId
living ref s = elim (lookup ref s.refs) [ none ↦ none | some i ↦ unless_retiring i (s.states i) ]

abbrev pub same_ref : Option RefId → RefId → Bool
same_ref none i = false
same_ref (some j) i = j == i

unfoldable pub forget : Bytes → RefId → Server → Server
forget ref i s = if same_ref (lookup ref s.refs) i then record s { refs = erase ref s.refs } else s

-- A state that is new to the server, under a ref.
abbrev pub add_state : Bytes → RefState → Server → Server
add_state ref st s = record s {
  refs = insert ref s.next s.refs;
  states = put s.states s.next st;
  next = suc s.next;
}

abbrev pub published_state : StoreId → RefState
published_state store = set_store store (record new_ref_state { published = true; prepared = true })

-- What `Publish` does with the result of moving the head of the state that it has put in place.
unfoldable pub settle :
    Bytes
    → RefId
    → RefState
    → Result ServerFault Bool
    → Server
    → Server × Result ServerFault (Unit {0})
unfolding forget
settle ref i st (err e) s = (forget ref i (set_state i st s), err e)
settle ref i st (ok _) s = (set_state i (record st { ready = true }) s, ok tt)

unfoldable pub publish_new :
    Bytes → StoreId → Head → Server → Server × Result ServerFault (Unit {0})
unfolding settle move set_store
publish_new ref store head s =
    let moved = move head (published_state store) in
    settle ref s.next moved.0 moved.1 (add_state ref (published_state store) s)

-- The checks of `Publish`: is the ref held, and before it, is its name valid and is there a store.
abbrev pub publish_free :
    Option RefId → Bytes → StoreId → Head → Server → Server × Result ServerFault (Unit {0})
publish_free none ref store head s = publish_new ref store head s
publish_free (some i) ref store head s = (s, err ref_held)

abbrev pub publish_valid :
    Checked → Bytes → Option StoreId → Head → Server → Server × Result ServerFault (Unit {0})
publish_valid (err e) ref store head s = (s, err bad_name)
publish_valid (ok _) ref none head s = (s, err nil_store)
publish_valid (ok _) ref (some store) head s = publish_free (lookup ref s.refs) ref store head s

unfoldable pub publish :
    Bytes → Option StoreId → Head → Server → Server × Result ServerFault (Unit {0})
publish ref store head s = publish_valid (validate_ref ref) ref store head s

abbrev pub wake_all : List SubscriberId → Server → Server
wake_all [] s = s
wake_all (c ∷ cs) s = wake_all cs (wake c s)

abbrev pub gathered : Server → Option RefId → Option (RefId × List SubscriberId)
gathered s none = none
gathered s (some i) = some (i, (s.states i).members)

-- The first half of `SetHead`, under the lock: the state of the ref, and who follows it.
unfoldable pub gather : Bytes → Server → Option (RefId × List SubscriberId)
gather ref s = gathered s (living ref s)

-- The second half, when the head has moved or not.
unfoldable pub tell :
    RefId
    → List SubscriberId
    → RefState
    → Result ServerFault Bool
    → Server
    → Server × Result ServerFault (Unit {0})
tell i following st (err e) s = (set_state i st s, err e)
tell i following st (ok false) s = (set_state i st s, err not_advancing)
tell i following st (ok true) s = (wake_all following (set_state i st s), ok tt)

unfoldable pub apply_head :
    RefId → List SubscriberId → Head → Server → Server × Result ServerFault (Unit {0})
unfolding tell
apply_head i following h s = let moved = move h (s.states i) in tell i following moved.0 moved.1 s

abbrev pub set_gathered :
    Option (RefId × List SubscriberId) → Head → Server → Server × Result ServerFault (Unit {0})
set_gathered none h s = (s, err unknown_ref)
set_gathered (some (i, following)) h s = apply_head i following h s

unfoldable pub set_head : Bytes → Head → Server → Server × Result ServerFault (Unit {0})
set_head ref h s = set_gathered (gather ref s) h s

abbrev pub close_all : List SubscriberId → Server → Server
close_all [] s = s
close_all (c ∷ cs) s =
    close_all cs (set_subscriber c (record (s.subscribers c) { closed = true }) s)

abbrev pub drop_ref : Bytes → RefState → Server → Server × Result ServerFault (Unit {0})
drop_ref ref st s =
    if not st.published
    then (s, err not_published)
    else (close_all st.members (record s { refs = erase ref s.refs }), ok tt)

unfoldable pub unpublish : Bytes → Server → Server × Result ServerFault (Unit {0})
unpublish ref s = elim (lookup ref s.refs) [
  | none ↦ (s, err unknown_ref)
  | some i ↦ drop_ref ref (s.states i) s
]
