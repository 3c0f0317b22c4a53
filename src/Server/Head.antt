-- ===== src/Server/Head.antt =====
-- server/head.go: what the server holds for one ref, and how its head moves.
pub mod Laws
use treevial.Prelude.{
  ℕ, Bool, true, false, not, ◌&&◌, Option, none, some, List, [], Result, ok, err, Exec, ◌==◌, leb,
  if◌then◌else◌,
}
use treevial.Git.{Hash, zero_hash}

pub record Head : Type 0 where
  pub hash : Hash
  pub sequence : ℕ

-- Pointers, as numbers: of stores, of what is held for a ref, and of subscribers.
abbrev pub StoreId : Type 0
StoreId = ℕ

abbrev pub RefId : Type 0
RefId = ℕ

abbrev pub SubscriberId : Type 0
SubscriberId = ℕ

-- Why a server refuses an operation, or a head.
pub data ServerFault : Type 0 where
  unknown_ref ref_held not_published not_advancing : ServerFault
  -- the code `invalid`: a bad name, a nil store, a mixture of heads, a hash that a store does not hold
  bad_name nil_store mixed_heads not_in_store no_provider : ServerFault
  -- the code `internal`: a preparation that failed
  not_prepared : ServerFault

-- `ready` and `retired` say whether the channel is closed.
pub record RefState : Type 0 where
  pub ready : Bool
  pub prepared : Bool
  pub failed : Option ServerFault
  pub retiring : Bool
  pub retired : Bool
  pub members : List SubscriberId
  pub published : Bool
  pub head : Head
  pub store : Option StoreId
  pub sequenced : Bool
  pub installed : Bool

abbrev pub new_ref_state : RefState
new_ref_state = record {
  ready = false;
  prepared = false;
  failed = none;
  retiring = false;
  retired = false;
  members = [];
  published = false;
  head = record { hash = zero_hash; sequence = 0 };
  store = none;
  sequenced = false;
  installed = false;
}

-- `head.Sequence != 0`
abbrev pub is_sequenced : Head → Bool
is_sequenced h = not (h.sequence == 0)

-- `a != b` on truth values.
abbrev pub differ : Bool → Bool → Bool
differ true b = not b
differ false b = b

unfoldable pub set_store : StoreId → RefState → RefState
set_store s st = record st { store = some s }

unfoldable pub allows : Head → RefState → Result ServerFault (Unit {0})
allows h st =
    if st.installed && differ st.sequenced (is_sequenced h) then err mixed_heads else ok tt

-- The rest of `move`, behind the check of `allows`.
unfoldable pub advance : Head → Result ServerFault (Unit {0}) → Exec RefState ServerFault Bool
advance h (err e) st = (st, err e)
advance h (ok _) st =
    if st.sequenced && leb h.sequence st.head.sequence
    then (st, ok false)
    else (record st { head = h }, ok true)

unfoldable pub move : Head → Exec RefState ServerFault Bool
unfolding allows advance
move h st =
    if not st.installed
    then (record st { head = h; sequenced = is_sequenced h; installed = true }, ok true)
    else advance h (allows h st) st

unfoldable pub would_move : Head → RefState → Result ServerFault (Unit {0})
unfolding allows
would_move h st = elim (allows h st) [
  | err e ↦ err e
  | ok _ ↦
      if st.installed && (st.sequenced && leb h.sequence st.head.sequence)
      then err not_advancing
      else ok tt
]

unfoldable pub install : StoreId → Head → Exec RefState ServerFault Bool
unfolding move
install s h st = move h (record st { store = some s })
