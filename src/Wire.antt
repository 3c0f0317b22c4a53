-- ===== src/Wire.antt =====
-- internal/wire/wire.go: the lines of the protocol. A line is the payload of one pkt-line; the framing
-- of pkt-lines and the text of a hash are go-git's, and the latter is a parameter.
pub mod RoundTrip
pub mod Pack
use treevial.Prelude.{
  ℕ, zero, suc, ◌<◌, ◌^◌, Bool, true, false, not, ◌&&◌, ◌||◌, Option, none, some, List, [], ◌∷◌,
  ◌++◌, Bytes, length, Result, ok, err, and_then, ◌==◌, if◌then◌else◌, same_bytes, has, ◌≡◌,
}
use treevial.Prelude.Int.{ℤ}
use treevial.Prelude.Text.{ascii, split, join}
use treevial.Prelude.Decimal.{show, parse_uint, atoi}
use treevial.Git.{Hash, zero_hash, is_zero}
use treevial.Ids.{ErrorCode, Error}

-- `Hash.String()` and `plumbing.NewHash`.
pub record HashText : Type 0 where
  pub show_hash : Hash → Bytes
  pub new_hash : Bytes → Hash

-- A hash has 20 bytes, its text 40 hexadecimal digits, and the text names the hash.
pub record IsHashText (t : HashText) : Type 0 where
  pub length_text : (h : Hash) → h < 2 ^ 160 → length (t.show_hash h) ≡ 40
  pub no_space : (h : Hash) → h < 2 ^ 160 → has (t.show_hash h) b' ' ≡ false
  pub named : (h : Hash) → h < 2 ^ 160 → t.new_hash (t.show_hash h) ≡ h

pub data ClientMessageType : Type 0 where
  register ack : ClientMessageType

pub record ClientMessage : Type 0 where
  pub type : ClientMessageType
  pub ref : Bytes
  pub client_id : Bytes
  pub hash : Hash

pub data ServerMessageType : Type 0 where
  update announce : ServerMessageType

pub record ServerMessage : Type 0 where
  pub type : ServerMessageType
  pub hash : Hash
  pub object_count : ℤ
  pub server_id : Bytes
  pub sequence : ℕ

-- Why a line is refused; `reported` is an error that the server sent.
pub data WireFault : Type 0 where
  empty_line : WireFault
  malformed unknown_message not_a_hash : Bytes → WireFault
  reported : Error → WireFault

-- `WriteLine`: the payload of a line.
unfoldable pub write_line : Bytes → Bytes
write_line line = line ++ ascii "\n"

-- `strings.TrimSuffix(line, "\n")`
unfoldable pub trim_newline : Bytes → Bytes
trim_newline [] = []
trim_newline (c ∷ []) = if c == b'\n' then [] else c ∷ []
trim_newline (c ∷ d ∷ s) = c ∷ trim_newline (d ∷ s)

unfoldable pub read_line : Bytes → Result WireFault Bytes
unfolding trim_newline
read_line payload =
    let line = trim_newline payload in if same_bytes line [] then err empty_line else ok line

module _ (t : HashText) where
  open t use {show_hash, new_hash}

  unfoldable pub write_register : Bytes → Hash → Bytes → Bytes
  unfolding write_line
  write_register ref synced id =
      let line = ascii "register " ++ ref ++ ascii " " ++ show_hash synced in
      write_line (if same_bytes id [] then line else line ++ ascii " " ++ id)

  unfoldable pub write_ack : Hash → Bytes
  unfolding write_line
  write_ack hash = write_line (ascii "ack " ++ show_hash hash)

  unfoldable pub write_server_id : Bytes → Bytes
  unfolding write_line
  write_server_id id = write_line (ascii "server " ++ id)

  unfoldable pub write_update : Hash → ℕ → ℕ → Bytes
  unfolding write_line
  write_update hash objects seq =
      let line = ascii "update " ++ show_hash hash ++ ascii " " ++ show objects in
      write_line (if seq == 0 then line else line ++ ascii " seq=" ++ show seq)

  unfoldable pub write_error : Error → Bytes
  unfolding write_line
  write_error e = write_line (ascii "error " ++ e.code ++ ascii " " ++ e.message)

  unfoldable pub parse_hash : Bytes → Result WireFault Hash
  parse_hash s =
      if not (length s == 40)
      then err (not_a_hash s)
      else if is_zero (new_hash s) && not (same_bytes s (show_hash zero_hash))
      then err (not_a_hash s)
      else ok (new_hash s)

  -- The switch on the first field, with the fields behind it.
  unfoldable pub client_fields : Bytes → List Bytes → Result WireFault ClientMessage
  unfolding parse_hash
  client_fields line (verb ∷ ref ∷ hash ∷ []) =
      if same_bytes verb (ascii "register")
      then and_then (parse_hash hash)
          (λ h. ok (record { type = register; ref = ref; client_id = []; hash = h }))
      else if same_bytes verb (ascii "ack")
      then err (malformed line)
      else err (unknown_message verb)
  client_fields line (verb ∷ ref ∷ hash ∷ id ∷ []) =
      if same_bytes verb (ascii "register")
      then and_then (parse_hash hash)
          (λ h. ok (record { type = register; ref = ref; client_id = id; hash = h }))
      else if same_bytes verb (ascii "ack")
      then err (malformed line)
      else err (unknown_message verb)
  client_fields line (verb ∷ hash ∷ []) =
      if same_bytes verb (ascii "register")
      then err (malformed line)
      else if same_bytes verb (ascii "ack")
      then and_then (parse_hash hash)
          (λ h. ok (record { type = ack; ref = []; client_id = []; hash = h }))
      else err (unknown_message verb)
  client_fields line (verb ∷ _) =
      if same_bytes verb (ascii "register") || same_bytes verb (ascii "ack")
      then err (malformed line)
      else err (unknown_message verb)
  client_fields line [] = err (unknown_message [])

  unfoldable pub read_client_message : Bytes → Result WireFault ClientMessage
  unfolding read_line client_fields
  read_client_message payload =
      and_then (read_line payload) λ line. client_fields line (split b' ' line)

  -- `strings.Cut(field, "=")` of a trailer: its key and its value.
  unfoldable pub cut : ℕ → Bytes → Option (Bytes × Bytes)
  cut c [] = none
  cut c (a ∷ s) =
      let rest = cut c s in
      if a == c then some ([], s) else elim rest [ none ↦ none | some (k, v) ↦ some (a ∷ k, v) ]

  -- One trailer of an update, and the sequence that it sets.
  unfoldable pub parse_sequence :
      Bytes → ServerMessage → Option (Bytes × Bytes) → Result WireFault ServerMessage
  parse_sequence line msg none = err (malformed line)
  parse_sequence line msg (some (key, value)) =
      if same_bytes value []
      then err (malformed line)
      else if not (same_bytes key (ascii "seq"))
      then err (malformed line)
      else if not (msg.sequence == 0)
      then err (malformed line)
      else elim (parse_uint value) [
        | none ↦ err (malformed line)
        | some seq ↦ if seq == 0 then err (malformed line) else ok (record msg { sequence = seq })
      ]

  unfoldable pub parse_trailers :
      Bytes → ServerMessage → List Bytes → Result WireFault ServerMessage
  unfolding cut parse_sequence
  parse_trailers line msg [] = ok msg
  parse_trailers line msg (field ∷ fields) =
      and_then (parse_sequence line msg (cut b'=' field)) λ msg'. parse_trailers line msg' fields

  unfoldable pub update_fields : Bytes → Bytes → Bytes → List Bytes → Result WireFault ServerMessage
  unfolding parse_hash parse_trailers
  update_fields line hash objects trailers = and_then (parse_hash hash) λ h. elim (atoi objects) [
    | none ↦ err (malformed line)
    | some n ↦
        parse_trailers line
          (record { type = update; hash = h; object_count = n; server_id = []; sequence = 0 })
          trailers
  ]

  unfoldable pub server_line : Bytes → List Bytes → Result WireFault ServerMessage
  server_line line (id ∷ []) =
      if same_bytes id []
      then err (malformed line)
      else ok (record {
        type = announce;
        hash = 0;
        object_count = ℤ.pos 0;
        server_id = id;
        sequence = 0;
      })
  server_line line _ = err (malformed line)

  unfoldable pub update_line : Bytes → List Bytes → Result WireFault ServerMessage
  unfolding update_fields
  update_line line (hash ∷ objects ∷ trailers) = update_fields line hash objects trailers
  update_line line _ = err (malformed line)

  unfoldable pub error_line : Bytes → List Bytes → Result WireFault ServerMessage
  error_line line (code ∷ words) =
      err (reported (record { code = code; message = join b' ' words }))
  error_line line [] = err (malformed line)

  unfoldable pub server_fields : Bytes → List Bytes → Result WireFault ServerMessage
  unfolding server_line update_line error_line
  server_fields line [] = err (unknown_message [])
  server_fields line (verb ∷ fields) =
      if same_bytes verb (ascii "server")
      then server_line line fields
      else if same_bytes verb (ascii "update")
      then update_line line fields
      else if same_bytes verb (ascii "error")
      then error_line line fields
      else err (unknown_message verb)

  unfoldable pub read_server_message : Bytes → Result WireFault ServerMessage
  unfolding read_line server_fields
  read_server_message payload =
      and_then (read_line payload) λ line. server_fields line (split b' ' line)
