-- ===== src/Server/Serve.antt =====
-- server/server.go: one connection: its registration, what it is pushed, and its acknowledgements; and the
-- snapshot of those who are connected.
pub mod Laws
use treevial.Prelude.{
  ℕ, Bool, true, false, not, ◌&&◌, Option, none, some, List, [], ◌∷◌, ◌++◌, Bytes, length, Result,
  ok, err, ◌==◌, if◌then◌else◌,
}
use treevial.Prelude.Maps.{Map}
use treevial.Git.{Git, Hash, is_zero}
use treevial.Ids.{Checked, NameFault, validate_ref, validate_client_id}
use treevial.Objects.Store.{Fault, Store}
use treevial.Objects.Select.{select_since}
use treevial.Wire.{
  HashText, ClientMessageType, register, ack, ClientMessage, WireFault, read_client_message,
  write_update,
}
use treevial.Server.Head.{Head, StoreId, RefId, SubscriberId, RefState}
use treevial.Server.Registry.{Server, living}
use treevial.Server.Registry

-- Why a connection ends.
pub data ServeFault : Type 0 where
  unreadable : WireFault → ServeFault
  not_registration not_acknowledgement disconnected : ServeFault
  bad_ref bad_client : NameFault → ServeFault
  unresolved : Fault → ServeFault

abbrev pub check_client : Checked → ClientMessage → Result ServeFault ClientMessage
check_client (ok _) msg = ok msg
check_client (err e) msg = err (bad_client e)

abbrev pub check_names : Checked → ClientMessage → Result ServeFault ClientMessage
check_names (ok _) msg = check_client (validate_client_id msg.client_id) msg
check_names (err e) msg = err (bad_ref e)

abbrev pub check_type : ClientMessageType → ClientMessage → Result ServeFault ClientMessage
check_type register msg = check_names (validate_ref msg.ref) msg
check_type ack msg = err not_registration

abbrev pub check_opening : Result WireFault ClientMessage → Result ServeFault ClientMessage
check_opening (ok msg) = check_type msg.type msg
check_opening (err e) = err (unreadable e)

-- `acks <- msg.Hash` into a channel with room for one, or nothing if it is full.
abbrev pub offer : Option Hash → Hash → Option Hash
offer none h = some h
offer (some unread) h = some unread

abbrev pub take_ack :
    ClientMessageType → Hash → Option Hash → Option Hash × Result ServeFault (Unit {0})
take_ack ack h unread = (offer unread h, ok tt)
take_ack register h unread = (unread, err not_acknowledgement)

abbrev pub read_ack :
    Result WireFault ClientMessage → Option Hash → Option Hash × Result ServeFault (Unit {0})
read_ack (ok msg) unread = take_ack msg.type msg.hash unread
read_ack (err e) unread = (unread, err (unreadable e))

-- `awaitAck`, with the acknowledgements that it is going to receive before the connection ends.
unfoldable pub await_ack :
    SubscriberId → StoreId → Hash → List Hash → Server → Server × Result ServeFault (Unit {0})
await_ack c store hash [] s = (s, err disconnected)
await_ack c store hash (acked ∷ acks) s =
    let rest = await_ack c store hash acks s in
    if acked == hash then (Registry.ack c store hash s, ok tt) else rest

module _ (t : HashText) where
  -- The first message of a connection.
  unfoldable pub open_registration : Bytes → Result ServeFault ClientMessage
  open_registration payload = check_opening (read_client_message t payload)

  abbrev continue_acks :
      Option Hash × Result ServeFault (Unit {0})
      → (Option Hash → Option Hash × Result ServeFault (Unit {0}))
      → Option Hash × Result ServeFault (Unit {0})
  continue_acks (unread, ok _) more = more unread
  continue_acks (unread, err e) more = (unread, err e)

  -- `readAcks` on the messages that arrive before anything is taken out of the channel.
  unfoldable pub read_acks : List Bytes → Option Hash → Option Hash × Result ServeFault (Unit {0})
  read_acks [] unread = (unread, ok tt)
  read_acks (payload ∷ payloads) unread =
      continue_acks (read_ack (read_client_message t payload) unread) (read_acks payloads)

  -- The line that announces an update, and the objects that are sent behind it.
  abbrev pub announcement : Head → Result Fault (List Hash) → Result ServeFault (Bytes × List Hash)
  announcement head (ok missing) =
      ok (write_update t head.hash (length missing) head.sequence, missing)
  announcement head (err e) = err (unresolved e)

  abbrev pub push_with :
      {S : Type 0} → Head → S × Result Fault (List Hash) → S × Result ServeFault (Bytes × List Hash)
  push_with head (store, missing) = (store, announcement head missing)

  -- Nothing is walked for a void head.
  unfoldable pub push :
      (g : Git) → ℕ → Hash → Head → Store g → Store g × Result ServeFault (Bytes × List Hash)
  push g fuel synced head store =
      push_with head
        (if is_zero head.hash then (store, ok []) else select_since g fuel synced head.hash store)

abbrev pub head_held : Option RefId → Server → Option Head
head_held none s = none
head_held (some i) s = some (s.states i).head

-- `Head`
unfoldable pub head_of : Bytes → Server → Option Head
head_of ref s = head_held (living ref s) s

abbrev pub members_of : RefState → List SubscriberId
members_of st = if st.ready && st.prepared then st.members else []

-- The subscribers that `Subscribers` takes snapshots of.
unfoldable pub connected : Map Bytes RefId → Server → List SubscriberId
connected [] s = []
connected ((ref, i) ∷ refs) s = members_of (s.states i) ++ connected refs s
