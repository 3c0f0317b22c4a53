-- ===== src/Wire/Pack/Ends.antt =====
-- Writing a pack over a connection that does not fail.
use mathlib.Core.List.{append_assoc, append-nil}
use treevial.Prelude.{
  ℕ, zero, suc, ◌+◌, ◌-◌, ◌<◌, ◌≤◌, min, none, some, List, [], ◌∷◌, ◌++◌, Bytes, length,
  length-append, take, drop, Result, ok, err, ltb, ◌≡◌, ◌≢◌, refl, sym, ap, ◌∙◌, subst, arith,
  then_run, Bool-cases, ◌⊎◌, inl, inr,
}
use treevial.Wire.Pack.{
  PackFault, not_sent, PackWriter, Encoder, send, flush, fill, or_short, write_loop, write,
  write_all, close,
}
use treevial.Wire.Pack.Laws.{
  concat, concat-append, take-drop, length-take_le, length-drop_lt, length-drop_le, take-all,
}

-- Over an encoder that takes every payload, with room for a byte in a chunk.
module _ (encode : Encoder) (chunk : ℕ) (positive : 0 < chunk)
    (steady : (sent : List Bytes) (p : Bytes) → encode sent p ≡ some (sent ++ p ∷ [])) where
  -- A run that succeeds, and after which the bytes `p` that were given have been sent or stand in the
  -- buffer, in order, behind those from before. A buffer has at most a chunk.
  record Took {A : Type 0} (v : PackWriter) (p : Bytes) (run : PackWriter × Result PackFault A)
      : Type 0 where
    succeeded : (a : A) × (run.1 ≡ ok a)
    full : List Bytes
    sent : run.0.sent ≡ v.sent ++ full
    content : concat full ++ run.0.buf ≡ v.buf ++ p
    room : length run.0.buf ≤ chunk

  send-steady :
      (p : Bytes) (w : PackWriter)
      → send encode chunk p w ≡ (record { sent = w.sent ++ p ∷ []; buf = [] }, ok tt)
  unfolding send
  send-steady p w =
      ap {B = PackWriter × Result PackFault (Unit {0})}
        (λ o. elim o [
          | none ↦ (w, err not_sent)
          | some sent ↦ (record { sent = sent; buf = [] }, ok tt)
        ])
        (steady w.sent p)

  flush-empty :
      (sent : List Bytes)
      → flush encode chunk (record { sent = sent; buf = [] })
        ≡ (record { sent = sent; buf = [] }, ok tt)
  unfolding flush
  flush-empty sent = refl

  flush-cons :
      (sent : List Bytes) (c : ℕ) (b : Bytes)
      → flush encode chunk (record { sent = sent; buf = c ∷ b })
        ≡ (record { sent = sent ++ (c ∷ b) ∷ []; buf = [] }, ok tt)
  unfolding flush
  flush-cons sent c b = send-steady (c ∷ b) (record { sent = sent; buf = c ∷ b })

  flush-full :
      (w : PackWriter)
      → w.buf ≢ []
      → flush encode chunk w ≡ (record { sent = w.sent ++ w.buf ∷ []; buf = [] }, ok tt)
  flush-full w n = at w.buf n
    where
      at :
          (b : Bytes)
          → b ≢ []
          → flush encode chunk (record { sent = w.sent; buf = b })
            ≡ (record { sent = w.sent ++ b ∷ []; buf = [] }, ok tt)
      at [] n = absurd (n refl)
      at (c ∷ b) n = flush-cons w.sent c b

  Took-chunk :
      {A : Type 0} (v : PackWriter) (p : Bytes) (n : ℕ) (run : PackWriter × Result PackFault A)
      → Took (record { sent = v.sent ++ (v.buf ++ take n p) ∷ []; buf = [] }) (drop n p) run
      → Took v p run
  Took-chunk v p n run more = record {
    succeeded = more.succeeded;
    full = (v.buf ++ take n p) ∷ more.full;
    sent = more.sent ∙ append_assoc v.sent ((v.buf ++ take n p) ∷ []) more.full;
    content =
        append_assoc (v.buf ++ take n p) (concat more.full) run.0.buf
        ∙ ap (λ l. (v.buf ++ take n p) ++ l) more.content
        ∙ append_assoc v.buf (take n p) (drop n p)
        ∙ ap (λ l. v.buf ++ l) (take-drop n p);
    room = more.room;
  }

  -- Fuel above the number of bytes, and one more over a full buffer, whose first round takes none.
  write_loop-Took :
      (fuel took : ℕ) (p : Bytes) (v : PackWriter)
      → length v.buf ≤ chunk
      → ((length v.buf < chunk) × (length p < fuel)) ⊎ (suc (length p) < fuel)
      → Took v p (write_loop encode chunk fuel took p v)
  unfolding write_loop or_short
  write_loop-Took zero took p v room fits = absurd (ground arith)
  write_loop-Took (suc fuel) took [] v room fits = record {
    succeeded = (took, refl);
    full = [];
    sent = sym (append-nil v.sent);
    content = sym (append-nil v.buf);
    room = room;
  }
  write_loop-Took (suc fuel) took (b ∷ p) v room fits =
      elim (Bool-cases (ltb (length (v.buf ++ take n (b ∷ p))) chunk)) [
        | inl t ↦ rw t (part (ground arith))
        | inr f ↦
            let full : length (v.buf ++ take n (b ∷ p)) ≡ chunk = ground (arith, size, taken) in
            rw
              (
                f,
                flush-full (fill encode chunk n (b ∷ p) v)
                    (λ e. absurd (omega (arith, ap length e, full))),
              )
              (Took-chunk v (b ∷ p) n
                (write_loop encode chunk fuel took (drop n (b ∷ p))
                  (record { sent = v.sent ++ (v.buf ++ take n (b ∷ p)) ∷ []; buf = [] }))
                (write_loop-Took fuel took (drop n (b ∷ p)) _ (omega arith)
                  (inl (positive, left_fits fits))))
      ]
    where
      n : ℕ
      n = min (chunk - length v.buf) (length (b ∷ p))

      size : length (v.buf ++ take n (b ∷ p)) ≡ length v.buf + length (take n (b ∷ p))
      size = length-append v.buf (take n (b ∷ p))

      taken : length (take n (b ∷ p)) ≡ n
      taken = length-take_le n (b ∷ p) (omega arith)

      part :
          length (v.buf ++ take n (b ∷ p)) < chunk
          → Took v (b ∷ p) (fill encode chunk n (b ∷ p) v, ok took)
      part less = record {
        succeeded = (took, refl);
        full = [];
        sent = sym (append-nil v.sent);
        content = ap (λ q. v.buf ++ q) (take-all (b ∷ p) n (omega (arith, size, taken)));
        room = omega arith;
      }

      left_fits :
          ((length v.buf < chunk) × (length (b ∷ p) < suc fuel)) ⊎ (suc (length (b ∷ p)) < suc fuel)
          → length (drop n (b ∷ p)) < fuel
      left_fits (inl (less, few)) = omega (arith, length-drop_lt n (b ∷ p))
      left_fits (inr few) = omega (arith, length-drop_le n (b ∷ p))

  write-Took :
      (p : Bytes) (v : PackWriter) → length v.buf ≤ chunk → Took v p (write encode chunk p v)
  unfolding write
  write-Took p v room =
      write_loop-Took (suc (suc (length p))) (length p) p v room (inr (omega arith))

  Took-then :
      (v : PackWriter) (p q : Bytes) (run : PackWriter × Result PackFault ℕ)
      (more : ℕ → PackWriter → PackWriter × Result PackFault (Unit {0}))
      → Took v p run
      → ((k : ℕ) → Took run.0 q (more k run.0))
      → Took v (p ++ q) (then_run run.0 run.1 more)
  Took-then v p q (w, err e) more first rest = absurd (let f = first.succeeded.1 in cc)
  Took-then v p q (w, ok k) more first rest = record {
    succeeded = (rest k).succeeded;
    full = first.full ++ (rest k).full;
    sent =
        (rest k).sent
        ∙ ap (λ l. l ++ (rest k).full) first.sent
        ∙ append_assoc v.sent first.full (rest k).full;
    content =
        ap (λ l. l ++ (more k w).0.buf) (concat-append first.full (rest k).full)
        ∙ append_assoc (concat first.full) (concat (rest k).full) (more k w).0.buf
        ∙ ap (λ l. concat first.full ++ l) (rest k).content
        ∙ sym (append_assoc (concat first.full) w.buf q)
        ∙ ap (λ l. l ++ q) first.content
        ∙ append_assoc v.buf p q;
    room = (rest k).room;
  }

  write_all-Took :
      (ps : List Bytes) (v : PackWriter)
      → length v.buf ≤ chunk
      → Took v (concat ps) (write_all encode chunk ps v)
  unfolding write_all
  write_all-Took [] v room = record {
    succeeded = (tt, refl);
    full = [];
    sent = sym (append-nil v.sent);
    content = sym (append-nil v.buf);
    room = room;
  }
  write_all-Took (p ∷ ps) v room =
      let first = write-Took p v room in
      Took-then v p (concat ps) (write encode chunk p v) (λ _. write_all encode chunk ps) first
        (λ _. write_all-Took ps (write encode chunk p v).0 first.room)

  -- What `close` has sent after what stood in the buffer.
  record Closed (v : PackWriter) (run : PackWriter × Result PackFault (Unit {0})) : Type 0 where
    succeeded : run.1 ≡ ok tt
    last : List Bytes
    sent : run.0.sent ≡ (v.sent ++ last) ++ [] ∷ []
    content : concat last ≡ v.buf

  Closed-flushed :
      (v u : PackWriter) (last : List Bytes)
      → flush encode chunk v ≡ (u, ok tt)
      → u.sent ≡ v.sent ++ last
      → concat last ≡ v.buf
      → Closed v (close encode chunk v)
  unfolding close
  Closed-flushed v u last flushed sent content =
      subst (λ r. Closed v (then_run r.0 r.1 (λ _. send encode chunk []))) (sym flushed)
        (subst (Closed v) (sym (send-steady [] u)) (record {
          succeeded = refl;
          last = last;
          sent = ap (λ l. l ++ [] ∷ []) sent;
          content = content;
        }))

  close-Closed : (v : PackWriter) → Closed v (close encode chunk v)
  close-Closed v = at v.buf
    where
      at :
          (b : Bytes)
          → Closed
              (record { sent = v.sent; buf = b })
              (close encode chunk (record { sent = v.sent; buf = b }))
      at [] =
          Closed-flushed (record { sent = v.sent; buf = [] }) (record { sent = v.sent; buf = [] })
            [] (flush-empty v.sent) (sym (append-nil v.sent)) refl
      at (c ∷ b) =
          Closed-flushed (record { sent = v.sent; buf = c ∷ b })
            (record { sent = v.sent ++ (c ∷ b) ∷ []; buf = [] }) ((c ∷ b) ∷ [])
            (flush-cons v.sent c b) refl (append-nil (c ∷ b))

  -- Over an encoder that takes every payload, with room for at least one byte in a chunk: to a `PackWriter`
  -- whose buffer holds at most a chunk, a full one included, any pieces can be written, and it can be
  -- closed after them, without a failure. What has then been sent, behind what was sent before, are
  -- payloads whose bytes are those of the buffer and of the pieces, in order, and a flush-pkt.
  pub write_all-close_succeed :
      (ps : List Bytes) (w : PackWriter)
      → length w.buf ≤ chunk
      → (n : Unit {0}) × ((write_all encode chunk ps w).1 ≡ ok n)
        × ((close encode chunk (write_all encode chunk ps w).0).1 ≡ ok tt)
        × (payloads : List Bytes) × ((close encode chunk (write_all encode chunk ps w).0).0.sent
            ≡ (w.sent ++ payloads) ++ [] ∷ [])
        × (concat payloads ≡ w.buf ++ concat ps)
  write_all-close_succeed ps w room =
      let took = write_all-Took ps w room in
      let closed = close-Closed (write_all encode chunk ps w).0 in
      (
        took.succeeded.0,
        took.succeeded.1,
        closed.succeeded,
        took.full ++ closed.last,
        closed.sent
            ∙ ap (λ l. (l ++ closed.last) ++ [] ∷ []) took.sent
            ∙ ap (λ l. l ++ [] ∷ []) (append_assoc w.sent took.full closed.last),
        concat-append took.full closed.last
            ∙ ap (λ l. concat took.full ++ l) closed.content
            ∙ took.content,
      )
