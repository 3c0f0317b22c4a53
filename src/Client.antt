-- ===== src/Client.antt =====
-- client/client.go: the options of a client, what they are checked for as it dials, and how it registers.
-- Dialling itself, the goroutines and the channel are left out.
pub mod Consume
pub mod Dial
use treevial.Prelude.{
  ℕ, suc, ltb, Bool, true, false, ◌&&◌, Option, none, some, List, [], ◌∷◌, Bytes, Result, ok, err,
  and_then, guard, not,
}
use treevial.Prelude.Int.{ℤ, pos, negsuc}
use treevial.Git.{Hash}
use treevial.Ids.{NameFault, validate_client_id, validate_ref}
use treevial.Keepalive.{TimeoutFault}
use treevial.Server.Options.{with_dead_peer_timeout, Tuning, tune}
use treevial.Wire.{HashText, write_register}

pub record Client : Type 0 where
  pub id : Bytes
  pub history : ℤ
  pub sweeping : Bool
  pub dead_peer : ℤ

pub data ClientOption : Type 0 where
  with_id : Bytes → ClientOption
  with_history with_timeout : ℤ → ClientOption

abbrev pub new_client : Client
new_client = record { id = []; history = pos 0; sweeping = false; dead_peer = pos 0 }

abbrev pub apply_option : ClientOption → Client → Client
apply_option (with_id id) c = record c { id = id }
apply_option (with_history n) c = record c { history = n; sweeping = true }
apply_option (with_timeout d) c = record c { dead_peer = d }

-- In the order in which they are given.
abbrev pub apply_options : List ClientOption → Client → Client
apply_options [] c = c
apply_options (o ∷ os) c = apply_options os (apply_option o c)

pub data ClientFault : Type 0 where
  bad_id bad_ref : NameFault → ClientFault
  bad_history : ℤ → ClientFault
  bad_timeout : TimeoutFault → ClientFault

abbrev pub or_client {ℓ} : {A E : Type ℓ} → (E → ClientFault) → Result E A → Result ClientFault A
or_client f (ok a) = ok a
or_client f (err e) = err (f e)

-- `c.history < 1`
abbrev pub keeps_nothing : ℤ → Bool
keeps_nothing (pos n) = ltb n 1
keeps_nothing (negsuc n) = true

-- `Dial`, up to the connection: the client, and how its connection is tuned. A budget of zero is one that is
-- not set, as for the server, and the connection is then tuned with the plain period.
unfoldable pub dial : List ClientOption → Result ClientFault (Client × Tuning)
dial options =
    let c = apply_options options new_client in
    and_then (or_client bad_id (validate_client_id c.id)) λ _.
      and_then (guard (not (c.sweeping && keeps_nothing c.history)) (bad_history c.history)) λ _.
        and_then (or_client bad_timeout (with_dead_peer_timeout c.dead_peer)) λ d. ok (c, tune d)

-- `Resume`, up to the first read: the line that it writes.
unfoldable pub resume : HashText → Client → Bytes → Hash → Result ClientFault Bytes
resume t c ref synced =
    and_then (or_client bad_ref (validate_ref ref)) λ _. ok (write_register t ref synced c.id)

-- `setErr`: the first error is the one that stays.
abbrev pub set_err {ℓ} : {E : Type ℓ} → E → Option E → Option E
set_err e none = some e
set_err e (some first) = some first
