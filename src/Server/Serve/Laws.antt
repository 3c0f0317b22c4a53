-- ===== src/Server/Serve/Laws.antt =====
-- What is accepted at the start of a connection, what is announced on it, and which acknowledgement counts.
use treevial.Prelude.{
  ℕ, ◌<◌, ◌^◌, none, some, List, [], ◌∷◌, Bytes, length, map, Result, ok, err, ◌≡◌, refl, sym, ap,
  ◌∙◌, subst, All, if◌then◌else◌,
}
use treevial.Git.{Git, Hash, is_zero}
use treevial.Ids.{Checked, validate_ref, validate_client_id}
use treevial.Ids.Laws.{IsRef, IsOneField, validate_ref-IsRef, validate_client_id-IsOneField}
use treevial.Objects.Store.{Fault, Store}
use treevial.Objects.Select.{select_since}
use treevial.Wire.{
  HashText, IsHashText, ClientMessageType, register, ack, ClientMessage, WireFault,
  read_client_message, read_server_message, write_register, write_ack, write_update,
}
use treevial.Wire.RoundTrip.{read-write_register, read-write_ack, read-write_update, update_of}
use treevial.Server.Head.{Head}
use treevial.Server.Registry.{Server}
use treevial.Server.Serve.{
  check_client, check_names, check_type, check_opening, open_registration, read_acks, push_with,
  push,
}
use treevial.Server.Registry

check_type-names :
    (type : ClientMessageType) (msg accepted : ClientMessage)
    → check_type type msg ≡ ok accepted
    → (type ≡ register)
      × (msg ≡ accepted)
      × (validate_ref msg.ref ≡ ok tt)
      × (validate_client_id msg.client_id ≡ ok tt)
check_type-names ack msg accepted h = cc
check_type-names register msg accepted h =
    names (validate_ref msg.ref) (validate_client_id msg.client_id) refl refl h
  where
    clients : (v : Checked) → check_client v msg ≡ ok accepted → (msg ≡ accepted) × (v ≡ ok tt)
    clients (ok _) h = (cc, refl)
    clients (err e) h = cc

    names :
        (v w : Checked)
        → validate_ref msg.ref ≡ v
        → validate_client_id msg.client_id ≡ w
        → check_names v msg ≡ ok accepted
        → (register ≡ register)
          × (msg ≡ accepted)
          × (validate_ref msg.ref ≡ ok tt)
          × (validate_client_id msg.client_id ≡ ok tt)
    names (ok _) w e f h =
        let r = clients (validate_client_id msg.client_id) h in (refl, r.0, e, r.1)
    names (err x) w e f h = cc

-- A connection is taken on only with a registration, whose ref is a ref and whose client name is one field
-- of a line.
pub open_registration-IsRef :
    (t : HashText) (payload : Bytes) (msg : ClientMessage)
    → open_registration t payload ≡ ok msg
    → (msg.type ≡ register) × IsRef msg.ref × IsOneField msg.client_id
unfolding open_registration
open_registration-IsRef t payload msg = opened (read_client_message t payload)
  where
    opened :
        (r : Result WireFault ClientMessage)
        → check_opening r ≡ ok msg
        → (msg.type ≡ register) × IsRef msg.ref × IsOneField msg.client_id
    opened (err e) h = cc
    opened (ok m) h =
        let r = check_type-names m.type m msg h in
        subst (λ k. (k.type ≡ register) × IsRef k.ref × IsOneField k.client_id) r.1
          (r.0, validate_ref-IsRef m.ref r.2, (validate_client_id-IsOneField m.client_id r.3).0)

-- What a client writes to register an accepted ref under an accepted name, or under none, the server takes
-- as it was meant.
pub open_registration-write_register :
    (t : HashText)
    → IsHashText t
    → (ref id : Bytes) (h : Hash) → validate_ref ref ≡ ok tt
    → validate_client_id id ≡ ok tt
    → h < 2 ^ 160
    → open_registration t (write_register t ref h id)
      ≡ ok (record { type = register; ref = ref; client_id = id; hash = h })
unfolding open_registration
open_registration-write_register t texts ref id h valid named fits =
    ap check_opening (read-write_register t texts ref id h valid named fits)
    ∙ ap (λ v. check_names v (record { type = register; ref = ref; client_id = id; hash = h }))
        valid
    ∙ ap (λ v. check_client v (record { type = register; ref = ref; client_id = id; hash = h }))
        named

-- What a push announces, for a head whose numbers fit and as many objects as an integer counts, the client
-- reads: the head, its sequence, and the number of objects that are sent behind it.
pub push-announces :
    (t : HashText) (texts : IsHashText t)
    → (g : Git) (fuel : ℕ) (synced : Hash) (head : Head) (store : Store g) (line : Bytes)
      (missing : List Hash)
    → (push t g fuel synced head store).1 ≡ ok (line, missing)
    → head.hash < 2 ^ 160
    → head.sequence < 2 ^ 64
    → length missing < 2 ^ 63
    → read_server_message t line ≡ ok (update_of t texts head.hash (length missing) head.sequence)
unfolding push
push-announces t texts g fuel synced head store line missing run fits bounded small =
    announced
      (if is_zero head.hash then (store, ok []) else select_since g fuel synced head.hash store) run
  where
    announced :
        (r : Store g × Result Fault (List Hash))
        → (push_with t head r).1 ≡ ok (line, missing)
        → read_server_message t line
          ≡ ok (update_of t texts head.hash (length missing) head.sequence)
    announced (s, err e) h = cc
    announced (s, ok ms) h =
        let e : write_update t head.hash (length ms) head.sequence ≡ line = cc in
        let m : ms ≡ missing = cc in
        ap (read_server_message t)
          (sym e ∙ ap (λ l. write_update t head.hash (length l) head.sequence) m)
        ∙ read-write_update t texts head.hash (length missing) head.sequence fits small bounded

-- Of the acknowledgements that arrive while none is taken out of the channel, the first is the one that
-- stays in it.
pub read_acks-first :
    (t : HashText)
    → IsHashText t
    → (h : Hash) (hs : List Hash) → All (λ k. k < 2 ^ 160) (h ∷ hs)
    → read_acks t (map (write_ack t) (h ∷ hs)) none ≡ (some h, ok tt)
unfolding read_acks
read_acks-first t texts h hs a = rw (read-write_ack t texts h a.0) (full hs a.1)
  where
    full :
        (ks : List Hash)
        → All (λ k. k < 2 ^ 160) ks
        → read_acks t (map (write_ack t) ks) (some h) ≡ (some h, ok tt)
    full [] a = refl
    full (k ∷ ks) a = rw (read-write_ack t texts k a.0) (full ks a.1)
