-- ===== src/Wire/Pack/Reads.antt =====
-- `packReader` gives the bytes of the payloads up to the flush-pkt, and stops there.
use mathlib.Core.List.{append_assoc}
use treevial.Prelude.{
  ℕ, zero, suc, Bool, ◌+◌, ◌<◌, true, false, some, List, [], ◌∷◌, ◌++◌, Bytes, length, take, drop,
  ok, ◌≡◌, ◌≢◌, refl, sym, ap, ◌∙◌, arith, All, All_map, length-append,
}
use treevial.Wire.Pack.{
  PackReader, eof, read, read_all, onto_bytes, Encoder, PackWriter, write_all, close,
}
use treevial.Wire.Pack.Laws.{concat, take-drop, length-drop_le, IsPayload, written_pack}

-- The reader in the middle of a payload, with others and a flush-pkt to come.
abbrev pub reading : Bool → Bytes → List Bytes → List Bytes → PackReader
reading broken rest payloads after = record {
  incoming = payloads ++ [] ∷ after;
  rest = rest;
  done = false;
  broken = broken;
}

abbrev ended : Bool → List Bytes → PackReader
ended broken after = record { incoming = after; rest = []; done = true; broken = broken }

regroup :
    (broken : Bool) (b n : ℕ) (p q : Bytes) (after : List Bytes)
    → onto_bytes
        (b ∷ take n p)
        (record { reader = ended broken after; ended = some eof; bytes = drop n p ++ q })
      ≡ record { reader = ended broken after; ended = some eof; bytes = b ∷ (p ++ q) }
regroup broken b n p q after =
    ap (λ l. record { reader = ended broken after; ended = some eof; bytes = b ∷ l })
      (sym (append_assoc (take n p) (drop n p) q) ∙ ap (λ l. l ++ q) (take-drop n p))

-- With room for at least one byte in each read, and more fuel than bytes, the reads give the bytes of
-- the payloads, end with EOF, and leave what follows the flush-pkt to be read.
read_all-reading :
    (broken : Bool) (fuel n : ℕ) (rest : Bytes) (payloads after : List Bytes)
    → 0 < n
    → All (λ c. c ≢ []) payloads
    → length rest + length (concat payloads) < fuel
    → read_all fuel n (reading broken rest payloads after)
      ≡ record { reader = ended broken after; ended = some eof; bytes = rest ++ concat payloads }
unfolding read_all read
read_all-reading broken zero n rest payloads after positive all fits = absurd (omega arith)
read_all-reading broken (suc fuel) n [] [] after positive all fits = refl
read_all-reading broken (suc fuel) n [] ([] ∷ payloads) after positive all fits =
    absurd (all.0 refl)
read_all-reading broken (suc fuel) zero [] ((b ∷ p) ∷ payloads) after positive all fits =
    absurd (omega arith)
read_all-reading broken (suc fuel) (suc n) [] ((b ∷ p) ∷ payloads) after positive all fits =
    ap (onto_bytes (b ∷ take n p)) (
      read_all-reading broken fuel (suc n) (drop n p) payloads after positive all.1
        (omega (arith, length-append p (concat payloads), length-drop_le n p)))
    ∙ regroup broken b n p (concat payloads) after
read_all-reading broken (suc fuel) zero (b ∷ p) payloads after positive all fits =
    absurd (omega arith)
read_all-reading broken (suc fuel) (suc n) (b ∷ p) payloads after positive all fits =
    ap (onto_bytes (b ∷ take n p)) (
      read_all-reading broken fuel (suc n) (drop n p) payloads after positive all
        (omega (arith, length-drop_le n p)))
    ∙ regroup broken b n p (concat payloads) after

-- Over an encoder that appends each payload or fails, and with room for at least one byte in a chunk and
-- in each read: where a pack was written, in whatever pieces, and closed without a failure, the reads on
-- the other side give its bytes whole, end with EOF, and leave what was sent behind it to be read. More
-- reads than bytes are enough.
pub read-written_pack :
    (encode : Encoder) (chunk : ℕ)
    → ((sent : List Bytes) (p : Bytes) (sent' : List Bytes)
        → encode sent p ≡ some sent'
        → sent' ≡ sent ++ p ∷ [])
    → (ps : List Bytes) (v w : PackWriter) (after : List Bytes) (fuel n : ℕ) (broken : Bool)
    → 0 < chunk
    → write_all encode chunk ps (record { sent = []; buf = [] }) ≡ (v, ok tt)
    → close encode chunk v ≡ (w, ok tt)
    → 0 < n
    → length (concat ps) < fuel
    → read_all fuel n
        (record { incoming = w.sent ++ after; rest = []; done = false; broken = broken })
      ≡ record { reader = ended broken after; ended = some eof; bytes = concat ps }
read-written_pack encode chunk appends ps v w after fuel n broken positive run closed room fits =
    let (payloads, sent, bytes, all) =
      written_pack encode chunk appends ps [] v w positive run closed in
    ap (λ l. read_all fuel n (record { incoming = l; rest = []; done = false; broken = broken }))
      (ap (λ l. l ++ after) sent ∙ append_assoc payloads ([] ∷ []) after)
    ∙ read_all-reading broken fuel n [] payloads after room
        (All_map (IsPayload encode chunk appends) (λ c. c ≢ []) payloads (λ c p. p.0) all)
        (omega (arith, ap length bytes))
    ∙ ap (λ b. record { reader = ended broken after; ended = some eof; bytes = b }) bytes
