-- ===== src/Wire/RoundTrip.antt =====
-- What one side writes, the other reads.
use mathlib.Core.List.{append_assoc}
use treevial.Prelude.{
  ℕ, ◌<◌, ◌^◌, false, List, [], ◌∷◌, ◌++◌, Bytes, ok, err, ◌==◌, ==_iff, same_bytes, same_bytes_iff,
  has, ◌≡◌, refl, ap, ◌∙◌, arith, Bool-cases, inl, inr,
}
use treevial.Prelude.Int.{pos}
use treevial.Prelude.Text.{ascii, split, split-cons, split-single, join-split}
use treevial.Prelude.Decimal.{show, parse_uint-show, atoi-show, has-show, show-ne-nil}
use treevial.Git.{Hash, is_zero}
use treevial.Ids.{Error, validate_ref, validate_client_id, validate_server_id}
use treevial.Ids.Laws.{
  validate_ref-IsRef, validate_client_id-IsOneField, validate_server_id-IsOneField,
}
use treevial.Wire.{
  HashText, IsHashText, register, ack, ServerMessage, update, announce, reported, write_line,
  trim_newline, read_line, write_register, write_ack, write_server_id, write_update, write_error,
  parse_hash, client_fields, read_client_message, parse_trailers, server_fields,
  read_server_message,
}

trim_newline-write_line : (c : ℕ) (s : Bytes) → trim_newline (write_line (c ∷ s)) ≡ c ∷ s
unfolding trim_newline write_line
trim_newline-write_line c [] = refl
trim_newline-write_line c (d ∷ s) = ap (λ l. c ∷ l) (trim_newline-write_line d s)

read_line-write_line : (c : ℕ) (s : Bytes) → read_line (write_line (c ∷ s)) ≡ ok (c ∷ s)
unfolding read_line
read_line-write_line c s = rw (trim_newline-write_line c s)

module _ (t : HashText) (texts : IsHashText t) where
  open t use {show_hash, new_hash}

  parse_hash-show_hash : (h : Hash) → h < 2 ^ 160 → parse_hash t (show_hash h) ≡ ok h
  unfolding parse_hash
  parse_hash-show_hash h fits =
      rw (texts.length_text h fits, texts.named h fits)
        (elim (Bool-cases (is_zero h)) [
          | inr n ↦ rw n refl
          | inl z ↦
              rw
                (
                  z,
                  (same_bytes_iff (show_hash h) (show_hash 0)).1 (ap show_hash ((==_iff h 0).0 z)),
                )
                refl
        ])

  -- The parts of a registration.
  split-register :
      (ref rest : Bytes)
      → has ref b' ' ≡ false
      → split b' ' (ascii "register " ++ (ref ++ b' ' ∷ rest))
        ≡ ascii "register" ∷ ref ∷ split b' ' rest
  split-register ref rest h =
      split-cons b' ' (ascii "register") (ref ++ b' ' ∷ rest) refl
      ∙ ap (λ l. ascii "register" ∷ l) (split-cons b' ' ref rest h)

  read_client_line :
      (c : ℕ) (s : Bytes) (fields : List Bytes)
      → split b' ' (c ∷ s) ≡ fields
      → read_client_message t (write_line (c ∷ s)) ≡ client_fields t (c ∷ s) fields
  unfolding read_client_message
  read_client_line c s fields e = rw (trim_newline-write_line c s, e) refl

  write_register_unnamed :
      (ref : Bytes) (h : Hash)
      → write_register t ref h [] ≡ write_line (ascii "register " ++ (ref ++ b' ' ∷ show_hash h))
  unfolding write_register
  write_register_unnamed ref h =
      ap (λ l. ascii "register " ++ l ++ ascii "\n") (append_assoc ref (b' ' ∷ []) (show_hash h))

  write_register_named :
      (ref : Bytes) (h : Hash) (c : ℕ) (id : Bytes)
      → write_register t ref h (c ∷ id)
        ≡ write_line (ascii "register " ++ (ref ++ b' ' ∷ (show_hash h ++ b' ' ∷ c ∷ id)))
  unfolding write_register
  write_register_named ref h c id = simp append_assoc

  client_fields-register :
      (line ref id : Bytes) (h : Hash)
      → h < 2 ^ 160
      → (client_fields t line (ascii "register" ∷ ref ∷ show_hash h ∷ [])
          ≡ ok (record { type = register; ref = ref; client_id = []; hash = h }))
        × (client_fields t line (ascii "register" ∷ ref ∷ show_hash h ∷ id ∷ [])
            ≡ ok (record { type = register; ref = ref; client_id = id; hash = h }))
  client_fields-register line ref id h fits =
      let read = parse_hash-show_hash h fits in
      (unfold client_fields in ground (arith, read), unfold client_fields in ground (arith, read))

  register_line :
      (ref id : Bytes) (h : Hash)
      → has ref b' ' ≡ false
      → has id b' ' ≡ false
      → h < 2 ^ 160
      → read_client_message t (write_register t ref h id)
        ≡ ok (record { type = register; ref = ref; client_id = id; hash = h })
  register_line ref [] h r i fits =
      ap (read_client_message t) (write_register_unnamed ref h)
      ∙ read_client_line _ _ _ (
          split-register ref (show_hash h) r
          ∙ ap (λ l. ascii "register" ∷ ref ∷ l)
              (split-single b' ' (show_hash h) (texts.no_space h fits)))
      ∙ (client_fields-register _ ref [] h fits).0
  register_line ref (c ∷ id) h r i fits =
      ap (read_client_message t) (write_register_named ref h c id)
      ∙ read_client_line _ _ _ (
          split-register ref (show_hash h ++ b' ' ∷ c ∷ id) r
          ∙ ap (λ l. ascii "register" ∷ ref ∷ l)
              (split-cons b' ' (show_hash h) (c ∷ id) (texts.no_space h fits)
                ∙ ap (λ l. show_hash h ∷ l) (split-single b' ' (c ∷ id) i)))
      ∙ (client_fields-register _ ref (c ∷ id) h fits).1

  -- A registration that names an accepted ref and an accepted client, or no client, is read as it was
  -- written.
  pub read-write_register :
      (ref id : Bytes) (h : Hash)
      → validate_ref ref ≡ ok tt
      → validate_client_id id ≡ ok tt
      → h < 2 ^ 160
      → read_client_message t (write_register t ref h id)
        ≡ ok (record { type = register; ref = ref; client_id = id; hash = h })
  read-write_register ref id h valid named fits =
      register_line ref id h ((validate_ref-IsRef ref valid).one_field.no_blank b' ' (omega arith))
        ((validate_client_id-IsOneField id named).0.no_blank b' ' (omega arith)) fits

  client_fields-ack :
      (line : Bytes) (h : Hash)
      → h < 2 ^ 160
      → client_fields t line (ascii "ack" ∷ show_hash h ∷ [])
        ≡ ok (record { type = ack; ref = []; client_id = []; hash = h })
  client_fields-ack line h fits =
      let read = parse_hash-show_hash h fits in unfold client_fields in ground (arith, read)

  -- An acknowledgement is read as it was written.
  pub read-write_ack :
      (h : Hash)
      → h < 2 ^ 160
      → read_client_message t (write_ack t h)
        ≡ ok (record { type = ack; ref = []; client_id = []; hash = h })
  unfolding write_ack
  read-write_ack h fits =
      read_client_line _ _ _ (
        split-cons b' ' (ascii "ack") (show_hash h) refl
        ∙ ap (λ l. ascii "ack" ∷ l) (split-single b' ' (show_hash h) (texts.no_space h fits)))
      ∙ client_fields-ack _ h fits

  read_server_line :
      (c : ℕ) (s : Bytes) (fields : List Bytes)
      → split b' ' (c ∷ s) ≡ fields
      → read_server_message t (write_line (c ∷ s)) ≡ server_fields t (c ∷ s) fields
  unfolding read_server_message
  read_server_line c s fields e = rw (trim_newline-write_line c s, e) refl

  -- The name of a server, if it is not empty, is read as it was written.
  pub read-write_server_id :
      (c : ℕ) (id : Bytes)
      → validate_server_id (c ∷ id) ≡ ok tt
      → read_server_message t (write_server_id t (c ∷ id))
        ≡ ok (record {
          type = announce;
          hash = 0;
          object_count = pos 0;
          server_id = c ∷ id;
          sequence = 0;
        })
  unfolding write_server_id
  read-write_server_id c id valid =
      let field = (validate_server_id-IsOneField (c ∷ id) valid).0.no_blank b' ' (omega arith) in
      read_server_line _ _ _ (
        split-cons b' ' (ascii "server") (c ∷ id) refl
        ∙ ap (λ l. ascii "server" ∷ l) (split-single b' ' (c ∷ id) field))
      ∙ unfold server_fields in refl

  -- An error whose code is one word is reported as it was sent, whatever its message.
  pub read-write_error :
      (e : Error)
      → has e.code b' ' ≡ false
      → read_server_message t (write_error t e) ≡ err (reported e)
  unfolding write_error
  read-write_error e h =
      ap (read_server_message t)
        (ap (λ l. ascii "error " ++ l ++ ascii "\n") (append_assoc e.code (b' ' ∷ []) e.message))
      ∙ read_server_line _ _ _ (
          split-cons b' ' (ascii "error") (e.code ++ b' ' ∷ e.message) refl
          ∙ ap (λ l. ascii "error" ∷ l) (split-cons b' ' e.code e.message h))
      ∙ (unfold server_fields in
          ap (λ m. err (reported (record { code = e.code; message = m })))
            (join-split b' ' e.message))

  write_update_unsequenced :
      (h : Hash) (n : ℕ)
      → write_update t h n 0 ≡ write_line (ascii "update " ++ (show_hash h ++ b' ' ∷ show n))
  unfolding write_update
  write_update_unsequenced h n =
      ap (λ l. ascii "update " ++ l ++ ascii "\n") (append_assoc (show_hash h) (b' ' ∷ []) (show n))

  write_update_sequenced :
      (h : Hash) (n seq : ℕ)
      → (seq == 0) ≡ false
      → write_update t h n seq
        ≡ write_line (
            ascii "update "
            ++ (show_hash h ++ b' ' ∷ (show n ++ b' ' ∷ (ascii "seq=" ++ show seq))))
  unfolding write_update
  write_update_sequenced h n seq e = rw e (simp append_assoc)

  abbrev pub update_of : Hash → ℕ → ℕ → ServerMessage
  update_of h n seq = record {
    type = update;
    hash = h;
    object_count = pos n;
    server_id = [];
    sequence = seq;
  }

  -- The one trailer that is written is read.
  parse_trailers_sequence :
      (line : Bytes) (h : Hash) (n seq : ℕ)
      → (seq == 0) ≡ false
      → seq < 2 ^ 64
      → parse_trailers t line (update_of h n 0) ((ascii "seq=" ++ show seq) ∷ [])
        ≡ ok (update_of h n seq)
  unfolding parse_trailers
  parse_trailers_sequence line h n seq e fits =
      let read = parse_uint-show seq fits in
      elim (Bool-cases (same_bytes (show seq) [])) [
        | inl empty ↦ absurd (show-ne-nil seq ((same_bytes_iff (show seq) []).0 empty))
        | inr more ↦ rw (more, read, e) refl
      ]

  server_fields_update :
      (line : Bytes) (h : Hash) (n : ℕ) (trailers : List Bytes)
      → h < 2 ^ 160
      → n < 2 ^ 63
      → server_fields t line (ascii "update" ∷ show_hash h ∷ show n ∷ trailers)
        ≡ parse_trailers t line (update_of h n 0) trailers
  server_fields_update line h n trailers fits small =
      let read = parse_hash-show_hash h fits in
      let count = atoi-show n small in unfold server_fields in rw (read, count) refl

  -- An update is read as it was written: its head, its count of objects, and its sequence if it has
  -- one.
  pub read-write_update :
      (h : Hash) (n seq : ℕ)
      → h < 2 ^ 160
      → n < 2 ^ 63
      → seq < 2 ^ 64
      → read_server_message t (write_update t h n seq) ≡ ok (update_of h n seq)
  read-write_update h n seq fits small bounded = elim (Bool-cases (seq == 0)) [
    | inl z ↦
        let e : seq ≡ 0 = (==_iff seq 0).0 z in
        rw e (
          ap (read_server_message t) (write_update_unsequenced h n)
          ∙ read_server_line _ _ _ (
              split-cons b' ' (ascii "update") (show_hash h ++ b' ' ∷ show n) refl
              ∙ ap (λ l. ascii "update" ∷ l)
                  (split-cons b' ' (show_hash h) (show n) (texts.no_space h fits)
                    ∙ ap (λ l. show_hash h ∷ l)
                        (split-single b' ' (show n) (has-show n b' ' (omega arith)))))
          ∙ server_fields_update _ h n [] fits small
          ∙ unfold parse_trailers in refl)
    | inr s ↦
        ap (read_server_message t) (write_update_sequenced h n seq s)
        ∙ read_server_line _ _ _ (
            split-cons b' ' (ascii "update")
              (show_hash h ++ b' ' ∷ (show n ++ b' ' ∷ (ascii "seq=" ++ show seq))) refl
            ∙ ap (λ l. ascii "update" ∷ l)
                (split-cons b' ' (show_hash h) (show n ++ b' ' ∷ (ascii "seq=" ++ show seq))
                    (texts.no_space h fits)
                  ∙ ap (λ l. show_hash h ∷ l)
                      (split-cons b' ' (show n) (ascii "seq=" ++ show seq)
                          (has-show n b' ' (omega arith))
                        ∙ ap (λ l. show n ∷ l)
                            (split-single b' ' (ascii "seq=" ++ show seq)
                              (has-show seq b' ' (omega arith))))))
        ∙ server_fields_update _ h n ((ascii "seq=" ++ show seq) ∷ []) fits small
        ∙ parse_trailers_sequence _ h n seq s bounded
  ]
