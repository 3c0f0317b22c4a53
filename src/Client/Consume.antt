-- ===== src/Client/Consume.antt =====
-- client/client.go: `consume`, the loop that reads what the server sends. What the connection and the caller
-- do is an input: each reading is what one turn of the loop meets.
pub mod Turn
pub mod Updates
pub mod Window
pub mod Previous
use treevial.Prelude.{
  ℕ, zero, suc, ◌-◌, ltb, Bool, true, false, ◌&&◌, not, Option, none, some, List, [], ◌∷◌, ◌++◌,
  Bytes, length, drop, is_empty, Result, ok, err, Exec, pure, raise, lift, ◌>>=◌, if◌then◌else◌,
  ◌==◌, guard,
}
use treevial.Prelude.Int.{ℤ, pos, negsuc, sub_ℕ}
use treevial.Git.{Hash, is_zero}
use treevial.Objects.Store.{Fault}
use treevial.Packread.{PackCode, Scanned, ScanFault}
use treevial.Receive.Graph.{Graph, retain}
use treevial.Receive.Interpret.{NoFault, interpret}
use treevial.Wire.{WireFault, ServerMessage, ServerMessageType, update, announce}

-- What follows an update message: what the scanner makes of its pack, whether the rest of the pack could be
-- read, the acknowledgement written, and the update handed over before the context ended; and the bytes
-- read from the connection before the message and after its pack.
pub record Push : Type 0 where
  pub pack : Scanned
  pub drained : Bool
  pub acknowledged : Bool
  pub delivered : Bool
  pub start : ℕ
  pub received : ℕ

pub data Arrival : Type 0 where
  end_of_file : Arrival
  unreadable : WireFault → Arrival
  message : ServerMessage → Push → Arrival

pub record Update : Type 0 where
  pub ref : Bytes
  pub server_id : Bytes
  pub sequence : ℕ
  pub hash : Hash
  pub previous : Hash
  pub object_count : ℤ
  pub bytes : ℤ
  pub total_bytes : ℕ

-- The variables of `consume`, what it acknowledged, and what it sent on the channel.
pub record Session : Type 0 where
  pub graph : Graph
  pub previous : Hash
  pub server_id : Bytes
  pub heads : List Hash
  pub acks : List Hash
  pub updates : List Update

pub data ConsumeFault : Type 0 where
  bad_message : WireFault → ConsumeFault
  unswept : Fault → ConsumeFault
  uninterpreted : ScanFault NoFault → ConsumeFault
  undrained unacknowledged cancelled : ConsumeFault

-- Whether the connection ended, or is open with nothing more to read as yet.
pub data Ending : Type 0 where
  closed open_still : Ending

-- Whether this is the last of the heads.
abbrev pub last_is : List Hash → Hash → Bool
last_is [] h = false
last_is (x ∷ []) h = x == h
last_is (x ∷ y ∷ xs) h = last_is (y ∷ xs) h

abbrev pub is_positive : ℤ → Bool
is_positive (pos n) = ltb 0 n
is_positive (negsuc n) = false

-- What a subscription is set up with; `history` is that of an accepted client, and so not negative.
pub record Setup : Type 0 where
  pub ref : Bytes
  pub history : ℕ
  pub sweeping : Bool

abbrev pub Consuming {ℓ} : Type ℓ → Type ℓ
Consuming A = Exec Session ConsumeFault A

abbrev pub or_unswept : Result Fault ℕ → Result ConsumeFault (Unit {0})
or_unswept (ok n) = ok tt
or_unswept (err e) = err (unswept e)

abbrev pub or_uninterpreted : Result (ScanFault NoFault) (Unit {0}) → Result ConsumeFault (Unit {0})
or_uninterpreted (ok u) = ok tt
or_uninterpreted (err e) = err (uninterpreted e)

abbrev pub new_session : Setup → Hash → Graph → Session
new_session setup synced graph = record {
  graph = graph;
  previous = synced;
  server_id = [];
  heads = if setup.sweeping && not (is_zero synced) then synced ∷ [] else [];
  acks = [];
  updates = [];
}

module _ (code : PackCode) (fuel : ℕ) (setup : Setup) where
  abbrev pub sweep_heads : Consuming (Unit {0})
  sweep_heads s =
      let swept = retain fuel s.heads s.graph in
      if setup.sweeping && not (is_empty s.heads)
      then (record s { graph = swept.0 }, or_unswept swept.1)
      else (s, ok tt)

  abbrev pub take_pack : ServerMessage → Push → Consuming (Unit {0})
  take_pack msg push s =
      let read = interpret code push.pack s.graph in
      if is_positive msg.object_count
      then (record s { graph = read.0 }, or_uninterpreted read.1)
      else (s, ok tt)

  abbrev pub acknowledge : Hash → Bool → Consuming (Unit {0})
  acknowledge h true s = (record s { acks = s.acks ++ h ∷ [] }, ok tt)
  acknowledge h false s = (s, err unacknowledged)

  abbrev pub report : ServerMessage → Push → Session → Update
  report msg push s = record {
    ref = setup.ref;
    server_id = s.server_id;
    sequence = msg.sequence;
    hash = msg.hash;
    previous = s.previous;
    object_count = msg.object_count;
    bytes = sub_ℕ push.received push.start;
    total_bytes = push.received;
  }

  abbrev pub deliver : ServerMessage → Push → Bool → Consuming (Unit {0})
  deliver msg push true s = (record s { updates = s.updates ++ report msg push s ∷ [] }, ok tt)
  deliver msg push false s = (s, err cancelled)

  -- The end of a turn.
  abbrev pub shorten : List Hash → List Hash
  shorten heads =
      if ltb setup.history (length heads) then drop (length heads - setup.history) heads else heads

  abbrev pub next_heads : Hash → List Hash → List Hash
  next_heads h heads =
      if setup.sweeping && not (last_is heads h) then shorten (heads ++ h ∷ []) else heads

  abbrev pub move_on : Hash → Consuming (Unit {0})
  move_on h s = (record s { previous = h; heads = next_heads h s.heads }, ok tt)

  unfoldable pub take_update : ServerMessage → Push → Consuming (Unit {0})
  take_update msg push = do
    swept ← sweep_heads
    taken ← take_pack msg push
    drained ← lift (guard push.drained undrained)
    acknowledged ← acknowledge msg.hash push.acknowledged
    delivered ← deliver msg push push.delivered
    move_on msg.hash

  abbrev pub take_message : ServerMessageType → ServerMessage → Push → Consuming (Unit {0})
  take_message announce msg push s = (record s { server_id = msg.server_id }, ok tt)
  take_message update msg push s = take_update msg push s

  unfoldable pub consume : List Arrival → Consuming Ending
  consume [] = pure open_still
  consume (end_of_file ∷ rest) = pure closed
  consume (unreadable e ∷ rest) = raise (bad_message e)
  consume (message msg push ∷ rest) = take_message msg.type msg push >>= λ _. consume rest
