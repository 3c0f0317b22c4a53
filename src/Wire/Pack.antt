-- ===== src/Wire/Pack.antt =====
-- internal/wire/wire.go: a pack cut into pkt-lines by `PackWriter`, and put together by `packReader`.
pub mod Laws
pub mod Reads
pub mod Ends
use treevial.Prelude.{
  ℕ, zero, suc, ◌+◌, ◌-◌, ◌*◌, min, Bool, true, false, Option, none, some, List, [], ◌∷◌, ◌++◌,
  Bytes, length, take, drop, Result, ok, err, Exec, pure, raise, ◌>>=◌, if◌then◌else◌, ltb,
}

abbrev pub chunk_size : ℕ
chunk_size = 32 * 1024

-- A failed write says how many bytes it took; out of fuel is the model's own.
pub data PackFault : Type 0 where
  not_sent : PackFault
  short_write : ℕ → PackFault
  out_of_fuel : PackFault

-- What has been sent, a payload for each pkt-line, the empty one for a flush-pkt; and the buffer.
pub record PackWriter : Type 0 where
  pub sent : List Bytes
  pub buf : Bytes

-- go-git's encoder over the connection: what has been sent after one more payload, or a failure.
abbrev pub Encoder : Type 0
Encoder = List Bytes → Bytes → Option (List Bytes)

-- The buffer holds at most `chunk` bytes.
module _ (encode : Encoder) (chunk : ℕ) where
  abbrev pub Writing {ℓ} : Type ℓ → Type ℓ
  Writing A = Exec PackWriter PackFault A

  -- `enc.Encode(payload)`, and an emptied buffer.
  unfoldable pub send : Bytes → Writing (Unit {0})
  send payload w = elim (encode w.sent payload) [
    | none ↦ (w, err not_sent)
    | some sent ↦ (record { sent = sent; buf = [] }, ok tt)
  ]

  unfoldable pub flush : Writing (Unit {0})
  unfolding send
  flush w = elim w.buf [ [] ↦ (w, ok tt) | _ ∷ _ ↦ send w.buf w ]

  abbrev pub fill : ℕ → Bytes → PackWriter → PackWriter
  fill n p w = record w { buf = w.buf ++ take n p }

  -- What follows the flush of a full buffer, with `left` bytes still to write.
  unfoldable pub or_short :
      ℕ → PackWriter × Result PackFault (Unit {0}) → Writing ℕ → PackWriter × Result PackFault ℕ
  or_short taken (w, ok _) more = more w
  or_short taken (w, err e) more = (w, err (short_write taken))

  -- The loop of `Write`: fuel, the length of the whole, and what is left of it. Only the first round, over
  -- a buffer that a failed flush left full, can take no byte.
  unfoldable pub write_loop : ℕ → ℕ → Bytes → Writing ℕ
  unfolding flush or_short
  write_loop zero took p w = (w, err out_of_fuel)
  write_loop (suc fuel) took [] w = (w, ok took)
  write_loop (suc fuel) took (b ∷ p) w =
      let n = min (chunk - length w.buf) (length (b ∷ p)) in
      let w' = fill n (b ∷ p) w in
      let left = drop n (b ∷ p) in
      let rest = or_short (took - length left) (flush w') (write_loop fuel took left) in
      if ltb (length w'.buf) chunk then (w', ok took) else rest

  unfoldable pub write : Bytes → Writing ℕ
  unfolding write_loop
  write p = write_loop (suc (suc (length p))) (length p) p

  -- Several writes, one after another.
  unfoldable pub write_all : List Bytes → Writing (Unit {0})
  write_all [] = pure tt
  write_all (p ∷ ps) = do _ ← write p; write_all ps

  -- What is buffered, and then a flush-pkt.
  unfoldable pub close : Writing (Unit {0})
  unfolding flush send
  close = do _ ← flush; send []

-- `buf[off:]` is `rest`, and `incoming` are the payloads of the pkt-lines to come. `broken` says whether
-- the scanner has an error to report where these end: `scan.Err()`.
pub record PackReader : Type 0 where
  pub incoming : List Bytes
  pub rest : Bytes
  pub done : Bool
  pub broken : Bool

pub data ReadEnd : Type 0 where
  eof unexpected_eof scan_error : ReadEnd

-- `copy(p, r.buf[r.off:])` into room for `n` bytes.
unfoldable pub copy_out : ℕ → Exec PackReader ReadEnd Bytes
copy_out n r = (record r { rest = drop n r.rest }, ok (take n r.rest))

unfoldable pub next_payload : ℕ → List Bytes → Exec PackReader ReadEnd Bytes
unfolding copy_out
next_payload n [] r = (r, err (if r.broken then scan_error else unexpected_eof))
next_payload n ([] ∷ incoming) r = (record r { incoming = incoming; done = true }, err eof)
next_payload n ((b ∷ p) ∷ incoming) r = copy_out n (record r { incoming = incoming; rest = b ∷ p })

unfoldable pub read : ℕ → Exec PackReader ReadEnd Bytes
unfolding copy_out next_payload
read n r = elim r.rest [
  | [] ↦ if r.done then (r, err eof) else next_payload n r.incoming r
  | _ ∷ _ ↦ copy_out n r
]

-- Reads into room for `n` bytes until one does not return any: what was read, and how it ended.
pub record Drained : Type 0 where
  pub reader : PackReader
  pub ended : Option ReadEnd
  pub bytes : Bytes

abbrev pub onto_bytes : Bytes → Drained → Drained
onto_bytes s d = record d { bytes = s ++ d.bytes }

-- The read that was made, and the reads that follow it.
abbrev go_on : PackReader → Result ReadEnd Bytes → (PackReader → Drained) → Drained
go_on r (err e) more = record { reader = r; ended = some e; bytes = [] }
go_on r (ok s) more = onto_bytes s (more r)

unfoldable pub read_all : ℕ → ℕ → PackReader → Drained
read_all zero n r = record { reader = r; ended = none; bytes = [] }
read_all (suc fuel) n r = go_on (read n r).0 (read n r).1 (read_all fuel n)
