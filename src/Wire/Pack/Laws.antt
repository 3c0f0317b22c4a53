-- ===== src/Wire/Pack/Laws.antt =====
-- A pack that is written in any pieces is read as one, chunk by chunk.
use mathlib.Core.List.{append_assoc, append-nil}
use treevial.Prelude.{
  ℕ, zero, suc, ◌+◌, ◌-◌, ◌≤◌, ◌<◌, min, some, List, [], ◌∷◌, ◌++◌, Bytes, length, length-append,
  take, drop, Result, ok, err, ok_injective, then_run, ◌>>=◌, ltb, ◌≡◌, ◌≢◌, refl, sym, ap, ◌∙◌,
  subst, arith, All, Bool-cases, Option-cases, inl, inr,
}
use treevial.Wire.Pack.{
  Encoder, PackWriter, PackFault, fill, flush, send, or_short, write_loop, write, write_all, close,
}

-- The bytes of the payloads.
abbrev pub concat : List Bytes → Bytes
concat [] = []
concat (p ∷ ps) = p ++ concat ps

pub concat-append : (ps qs : List Bytes) → concat (ps ++ qs) ≡ concat ps ++ concat qs
concat-append [] qs = refl
concat-append (p ∷ ps) qs =
    ap (λ l. p ++ l) (concat-append ps qs) ∙ sym (append_assoc p (concat ps) (concat qs))

pub take-all : (p : Bytes) (n : ℕ) → length p ≤ n → take n p ≡ p
take-all [] zero h = refl
take-all [] (suc n) h = refl
take-all (b ∷ p) zero h = absurd (omega arith)
take-all (b ∷ p) (suc n) h = ap (λ l. b ∷ l) (take-all p n (omega arith))

pub take-drop : (n : ℕ) (p : Bytes) → take n p ++ drop n p ≡ p
take-drop zero p = refl
take-drop (suc n) [] = refl
take-drop (suc n) (b ∷ p) = ap (λ l. b ∷ l) (take-drop n p)

pub length-take_le : (n : ℕ) (p : Bytes) → n ≤ length p → length (take n p) ≡ n
length-take_le zero p h = refl
length-take_le (suc n) [] h = absurd (omega arith)
length-take_le (suc n) (b ∷ p) h = omega (arith, length-take_le n p)

pub length-drop_le : (n : ℕ) (p : Bytes) → length (drop n p) + n ≤ length p + n
length-drop_le zero p = omega arith
length-drop_le (suc n) [] = omega arith
length-drop_le (suc n) (b ∷ p) = omega (arith, length-drop_le n p)

pub length-drop_lt : (n : ℕ) (p : Bytes) → 0 < n → n ≤ length p → length (drop n p) < length p
length-drop_lt zero p h k = absurd (omega arith)
length-drop_lt (suc n) [] h k = absurd (omega arith)
length-drop_lt (suc n) (b ∷ p) h k = omega (arith, length-drop_le n p)

module _ (encode : Encoder) (chunk : ℕ)
    -- A payload that the encoder takes stands behind those before it.
    (appends : (sent : List Bytes) (p : Bytes) (sent' : List Bytes)
      → encode sent p ≡ some sent'
      → sent' ≡ sent ++ p ∷ []) where
  -- What writing `p` has done: full chunks were sent, and the rest is in the buffer, which has room.
  record Wrote (v w : PackWriter) (p : Bytes) : Type 0 where
    full : List Bytes
    sent : w.sent ≡ v.sent ++ full
    sizes : All (λ c. length c ≡ chunk) full
    content : concat full ++ w.buf ≡ v.buf ++ p
    room : length w.buf < chunk

  flush-sent :
      (w w' : PackWriter)
      → w.buf ≢ []
      → flush encode chunk w ≡ (w', ok tt)
      → (w'.sent ≡ w.sent ++ w.buf ∷ []) × (w'.buf ≡ [])
  unfolding flush send
  flush-sent w w' ne h = ground (arith, appends w.sent w.buf w'.sent)

  -- The buffer had room for all of `p`.
  Wrote-part :
      (v : PackWriter) (p : Bytes) (n : ℕ)
      → length p ≤ n
      → length (v.buf ++ take n p) < chunk
      → Wrote v (fill encode chunk n p v) p
  Wrote-part v p n all room = record {
    full = [];
    sent = sym (append-nil v.sent);
    sizes = tt;
    content = ap (λ q. v.buf ++ q) (take-all p n all);
    room = room;
  }

  -- A chunk was filled and sent, and then the rest written.
  Wrote-chunk :
      (v u w : PackWriter) (p : Bytes) (n : ℕ)
      → length (v.buf ++ take n p) ≡ chunk
      → u.sent ≡ v.sent ++ (v.buf ++ take n p) ∷ []
      → u.buf ≡ []
      → Wrote u w (drop n p)
      → Wrote v w p
  Wrote-chunk v u w p n size sent empty more = record {
    full = (v.buf ++ take n p) ∷ more.full;
    sent =
        more.sent
        ∙ ap (λ l. l ++ more.full) sent
        ∙ append_assoc v.sent ((v.buf ++ take n p) ∷ []) more.full;
    sizes = (size, more.sizes);
    content =
        append_assoc (v.buf ++ take n p) (concat more.full) w.buf
        ∙ ap (λ l. (v.buf ++ take n p) ++ l) (more.content ∙ ap (λ b. b ++ drop n p) empty)
        ∙ append_assoc v.buf (take n p) (drop n p)
        ∙ ap (λ l. v.buf ++ l) (take-drop n p);
    room = more.room;
  }

  or_short-ok :
      (taken k : ℕ) (w : PackWriter) (r : Result PackFault (Unit {0}))
      (more : PackWriter → PackWriter × Result PackFault ℕ) (w' : PackWriter)
      → or_short encode chunk taken (w, r) more ≡ (w', ok k)
      → (r ≡ ok tt) × (more w ≡ (w', ok k))
  unfolding or_short
  or_short-ok taken k w (ok tt) more w' h = (refl, h)
  or_short-ok taken k w (err e) more w' h = cc

  Wrote-none : (v : PackWriter) → length v.buf < chunk → Wrote v v []
  Wrote-none v room = record {
    full = [];
    sent = sym (append-nil v.sent);
    sizes = tt;
    content = sym (append-nil v.buf);
    room = room;
  }

  Wrote-ended :
      (v u w : PackWriter) (p : Bytes) (k took : ℕ)
      → Wrote v u p
      → ◌≡◌ {A = PackWriter × Result PackFault ℕ} (u, ok took) (w, ok k)
      → Wrote v w p × (k ≡ took)
  Wrote-ended v u w p k took wrote e =
      (subst (λ u. Wrote v u p) (ap (λ r. r.0) e) wrote, sym (ok_injective (ap (λ r. r.1) e)))

  -- A write that succeeds has taken all that it was given.
  write_loop-Wrote :
      (fuel took k : ℕ) (p : Bytes) (v w : PackWriter)
      → length v.buf < chunk
      → write_loop encode chunk fuel took p v ≡ (w, ok k)
      → Wrote v w p × (k ≡ took)
  unfolding write_loop
  write_loop-Wrote zero took k p v w room h = cc
  write_loop-Wrote (suc fuel) took k [] v w room h =
      Wrote-ended v v w [] k took (Wrote-none v room) h
  write_loop-Wrote (suc fuel) took k (b ∷ p) v w room h =
      elim (Bool-cases (ltb (length (v.buf ++ take n (b ∷ p))) chunk)) [
        | inl t ↦
            let room' : length (v.buf ++ take n (b ∷ p)) < chunk = ground arith in
            Wrote-ended v (fill encode chunk n (b ∷ p) v) w (b ∷ p) k took
              (Wrote-part v (b ∷ p) n (omega (arith, size, taken)) room') (rw t at h)
        | inr f ↦
            let full : length (v.buf ++ take n (b ∷ p)) ≡ chunk = ground (arith, size, taken) in
            let u = (flush encode chunk (fill encode chunk n (b ∷ p) v)).0 in
            let (flushed, rest) =
              or_short-ok (took - length (drop n (b ∷ p))) k u
                (flush encode chunk (fill encode chunk n (b ∷ p) v)).1
                (write_loop encode chunk fuel took (drop n (b ∷ p))) w (rw f at h) in
            let (sent, empty) =
              flush-sent (fill encode chunk n (b ∷ p) v) u
                (λ e. absurd (omega (arith, ap length e, full))) (ap (λ r. (u, r)) flushed) in
            let (more, count) =
              write_loop-Wrote fuel took k (drop n (b ∷ p)) u w (omega (arith, ap length empty))
                rest in
            (Wrote-chunk v u w (b ∷ p) n full sent empty more, count)
      ]
    where
      n : ℕ
      n = min (chunk - length v.buf) (length (b ∷ p))

      size : length (v.buf ++ take n (b ∷ p)) ≡ length v.buf + length (take n (b ∷ p))
      size = length-append v.buf (take n (b ∷ p))

      taken : length (take n (b ∷ p)) ≡ n
      taken = length-take_le n (b ∷ p) (omega arith)

  Wrote-then : (u v w : PackWriter) (p q : Bytes) → Wrote u v p → Wrote v w q → Wrote u w (p ++ q)
  Wrote-then u v w p q a b = record {
    full = a.full ++ b.full;
    sent = b.sent ∙ ap (λ l. l ++ b.full) a.sent ∙ append_assoc u.sent a.full b.full;
    sizes = All_append a.full b.full a.sizes b.sizes;
    content =
        ap (λ l. l ++ w.buf) (concat-append a.full b.full)
        ∙ append_assoc (concat a.full) (concat b.full) w.buf
        ∙ ap (λ l. concat a.full ++ l) b.content
        ∙ sym (append_assoc (concat a.full) v.buf q)
        ∙ ap (λ l. l ++ q) a.content
        ∙ append_assoc u.buf p q;
    room = b.room;
  }
    where
      All_append :
          (xs ys : List Bytes)
          → All (λ c. length c ≡ chunk) xs
          → All (λ c. length c ≡ chunk) ys
          → All (λ c. length c ≡ chunk) (xs ++ ys)
      All_append [] ys h k = k
      All_append (x ∷ xs) ys h k = (h.0, All_append xs ys h.1 k)

  write_all-Wrote :
      (ps : List Bytes) (v w : PackWriter)
      → length v.buf < chunk
      → write_all encode chunk ps v ≡ (w, ok tt)
      → Wrote v w (concat ps)
  unfolding write_all write
  write_all-Wrote [] v w room h = subst (λ u. Wrote v u []) (ap (λ r. r.0) h) (Wrote-none v room)
  write_all-Wrote (p ∷ ps) v w room h =
      let (k, first, rest) =
        bind_ok (write encode chunk p) (λ _. write_all encode chunk ps) v w h in
      let u = (write encode chunk p v).0 in
      let (wrote, _) =
        write_loop-Wrote (suc (suc (length p))) (length p) k p v u room (ap (λ r. (u, r)) first) in
      Wrote-then v u w p (concat ps) wrote (write_all-Wrote ps u w wrote.room rest)
    where
      bind_ok :
          (m : PackWriter → PackWriter × Result PackFault ℕ)
          (f : ℕ → PackWriter → PackWriter × Result PackFault (Unit {0})) (v w : PackWriter)
          → (m >>= f) v ≡ (w, ok tt)
          → (k : ℕ) × ((m v).1 ≡ ok k) × (f k (m v).0 ≡ (w, ok tt))
      bind_ok m f v w h = go (m v).1 refl
        where
          go :
              (r : Result PackFault ℕ)
              → (m v).1 ≡ r
              → (k : ℕ) × ((m v).1 ≡ ok k) × (f k (m v).0 ≡ (w, ok tt))
          go (ok k) e = (k, e, subst (λ r. then_run (m v).0 r f ≡ (w, ok tt)) e h)
          go (err x) e = cc (subst (λ r. then_run (m v).0 r f ≡ (w, ok tt)) e h)

  -- The payloads of a pack, before the flush-pkt: none is empty or longer than a chunk.
  abbrev pub IsPayload : Bytes → Type 0
  IsPayload c = (c ≢ []) × (length c ≤ chunk)

  -- What `close` sends of the buffer.
  abbrev remainder : Bytes → List Bytes
  remainder [] = []
  remainder (b ∷ p) = (b ∷ p) ∷ []

  close-sent :
      (sent : List Bytes) (buf : Bytes) (w : PackWriter)
      → close encode chunk (record { sent = sent; buf = buf }) ≡ (w, ok tt)
      → w.sent ≡ (sent ++ remainder buf) ++ [] ∷ []
  unfolding close
  close-sent sent [] w h = rw append-nil (ground (arith, appends sent [] w.sent))
  close-sent sent (b ∷ p) w h = elim (Option-cases (encode sent (b ∷ p))) [
    | inl failed ↦ absurd (ground arith)
    | inr (sent', e) ↦ ground (arith, appends sent (b ∷ p) sent' e, appends sent' [] w.sent)
  ]

  payloads_of :
      (full : List Bytes) (buf : Bytes)
      → 0 < chunk
      → All (λ c. length c ≡ chunk) full
      → length buf < chunk
      → All IsPayload (full ++ remainder buf)
        × (concat (full ++ remainder buf) ≡ concat full ++ buf)
  payloads_of [] [] positive sizes room = (tt, refl)
  payloads_of [] (b ∷ p) positive sizes room = (((λ e. cc, omega arith), tt), append-nil (b ∷ p))
  payloads_of (c ∷ full) buf positive sizes room =
      let (all, e) = payloads_of full buf positive sizes.1 room in
      (
        ((λ n. absurd (omega (arith, ap length n, sizes.0)), omega (arith, sizes.0)), all),
        ap (λ l. c ++ l) e ∙ sym (append_assoc c (concat full) buf),
      )

  -- A pack that was written and closed without a failure has gone out whole: its bytes are those of
  -- the payloads that were sent, none of them empty or longer than a chunk, and a flush-pkt follows.
  pub written_pack :
      (ps : List Bytes) (sent : List Bytes) (v w : PackWriter)
      → 0 < chunk
      → write_all encode chunk ps (record { sent = sent; buf = [] }) ≡ (v, ok tt)
      → close encode chunk v ≡ (w, ok tt)
      → (payloads : List Bytes) × (w.sent ≡ (sent ++ payloads) ++ [] ∷ [])
        × (concat payloads ≡ concat ps)
        × All IsPayload payloads
  written_pack ps sent v w positive run closed =
      let wrote = write_all-Wrote ps (record { sent = sent; buf = [] }) v positive run in
      let (all, bytes) = payloads_of wrote.full v.buf positive wrote.sizes wrote.room in
      (
        wrote.full ++ remainder v.buf,
        close-sent v.sent v.buf w closed
            ∙ ap (λ l. (l ++ remainder v.buf) ++ [] ∷ []) wrote.sent
            ∙ ap (λ l. l ++ [] ∷ []) (append_assoc sent wrote.full (remainder v.buf)),
        bytes ∙ wrote.content,
        all,
      )
