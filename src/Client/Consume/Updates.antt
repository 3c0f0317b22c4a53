-- ===== src/Client/Consume/Updates.antt =====
-- The updates that a subscription reports.
use treevial.Prelude.{
  ℕ, List, [], ◌∷◌, ◌++◌, map, Result, ok, err, Exec, then_run, ◌≡◌, refl, sym, ap, ◌∙◌, subst,
}
use treevial.Git.{Hash}
use treevial.Packread.{PackCode}
use treevial.Receive.Graph.{Graph}
use treevial.Wire.{ServerMessage, ServerMessageType, update, announce}
use treevial.Client.Consume.{
  Push, Arrival, message, end_of_file, unreadable, Update, Session, ConsumeFault, Setup, Ending,
  new_session, report, take_update, take_message, consume,
}
use treevial.Client.Consume.Turn.{Turn, take_update-Turn}

-- The updates that a subscription reports: each is over the one before, the first over the tree that the
-- client started with.
abbrev pub IsChain : Hash → List Update → Type 0
IsChain previous [] = Unit
IsChain previous (u ∷ us) = (u.previous ≡ previous) × IsChain u.hash us

abbrev pub last_hash : Hash → List Update → Hash
last_hash synced [] = synced
last_hash synced (u ∷ us) = last_hash u.hash us

abbrev pub hash_of : Update → Hash
hash_of u = u.hash

IsChain-append :
    (synced : Hash) (us : List Update) (u : Update)
    → IsChain synced us
    → u.previous ≡ last_hash synced us
    → IsChain synced (us ++ u ∷ [])
IsChain-append synced [] u c e = (e, tt)
IsChain-append synced (v ∷ us) u c e = (c.0, IsChain-append v.hash us u c.1 e)

last_hash-append :
    (synced : Hash) (us : List Update) (u : Update) → last_hash synced (us ++ u ∷ []) ≡ u.hash
last_hash-append synced [] u = refl
last_hash-append synced (v ∷ us) u = last_hash-append v.hash us u

map-snoc :
    (us : List Update) (u : Update) → map hash_of (us ++ u ∷ []) ≡ map hash_of us ++ u.hash ∷ []
map-snoc [] u = refl
map-snoc (v ∷ us) u = ap (λ l. v.hash ∷ l) (map-snoc us u)

module _ (code : PackCode) (fuel : ℕ) (setup : Setup) where
  pub record InStep (synced : Hash) (s : Session) : Type 0 where
    pub chained : IsChain synced s.updates
    pub at_last : s.previous ≡ last_hash synced s.updates

  abbrev Acked : Session → Result ConsumeFault Ending → Type 0
  Acked s (ok e) = s.acks ≡ map hash_of s.updates
  Acked s (err e) = Unit

  turned :
      (synced : Hash) (msg : ServerMessage) (push : Push) (s : Session)
      (t : Session × Result ConsumeFault (Unit {0})) (rest : Exec Session ConsumeFault Ending)
      → InStep synced s
      → s.acks ≡ map hash_of s.updates
      → Turn code fuel setup msg push s t
      → ((s' : Session)
          → InStep synced s'
          → s'.acks ≡ map hash_of s'.updates
          → InStep synced (rest s').0 × Acked (rest s').0 (rest s').1)
      → InStep synced (then_run t.0 t.1 (λ _. rest)).0
        × Acked (then_run t.0 t.1 (λ _. rest)).0 (then_run t.0 t.1 (λ _. rest)).1
  turned synced msg push s (s', err e) rest i a t go = (
    record {
      chained = subst (IsChain synced) (sym t.updates) i.chained;
      at_last = t.previous ∙ i.at_last ∙ ap (last_hash synced) (sym t.updates);
    },
    tt,
  )
  turned synced msg push s (s', ok u) rest i a t go =
      go s'
        (record {
          chained = subst (IsChain synced) (sym t.updates) (
              IsChain-append synced s.updates (report code fuel setup msg push s) i.chained
                i.at_last);
          at_last =
              t.previous
              ∙ sym (last_hash-append synced s.updates (report code fuel setup msg push s))
              ∙ ap (last_hash synced) (sym t.updates);
        })
        (t.acks
          ∙ ap (λ l. l ++ msg.hash ∷ []) a
          ∙ sym (map-snoc s.updates (report code fuel setup msg push s))
          ∙ ap (map hash_of) (sym t.updates))

  consume-InStep :
      (synced : Hash) (arrivals : List Arrival) (s : Session)
      → InStep synced s
      → s.acks ≡ map hash_of s.updates
      → InStep synced (consume code fuel setup arrivals s).0
        × Acked (consume code fuel setup arrivals s).0 (consume code fuel setup arrivals s).1
  unfolding consume
  consume-InStep synced [] s i a = (i, a)
  consume-InStep synced (end_of_file ∷ rest) s i a = (i, a)
  consume-InStep synced (unreadable e ∷ rest) s i a = (i, tt)
  consume-InStep synced (message msg push ∷ rest) s i a = at msg.type (consume-InStep synced rest)
    where
      at :
          (t : ServerMessageType)
          → ((s' : Session)
              → InStep synced s'
              → s'.acks ≡ map hash_of s'.updates
              → InStep synced (consume code fuel setup rest s').0
                × Acked (consume code fuel setup rest s').0 (consume code fuel setup rest s').1)
          → InStep synced
              (then_run
                (take_message code fuel setup t msg push s).0
                (take_message code fuel setup t msg push s).1
                (λ _. consume code fuel setup rest)).0
            × Acked
                (then_run
                  (take_message code fuel setup t msg push s).0
                  (take_message code fuel setup t msg push s).1
                  (λ _. consume code fuel setup rest)).0
                (then_run
                  (take_message code fuel setup t msg push s).0
                  (take_message code fuel setup t msg push s).1
                  (λ _. consume code fuel setup rest)).1
      at announce go =
          go (record s { server_id = msg.server_id })
            (record { chained = i.chained; at_last = i.at_last }) a
      at update go =
          turned synced msg push s (take_update code fuel setup msg push s)
            (consume code fuel setup rest) i a (take_update-Turn code fuel setup msg push s) go

  -- Whatever arrives, and however the subscription ends: each update that was reported is over the head of
  -- the one before, and the first over the tree that the client held. Where it ended without an error, or is
  -- still open, the acknowledgements are those of the updates reported, in their order.
  pub consume-IsChain :
      (synced : Hash) (graph : Graph) (arrivals : List Arrival)
      → IsChain synced (consume code fuel setup arrivals (new_session setup synced graph)).0.updates
        × ((e : Ending)
            → (consume code fuel setup arrivals (new_session setup synced graph)).1 ≡ ok e
            → (consume code fuel setup arrivals (new_session setup synced graph)).0.acks
              ≡ map hash_of
                  (consume code fuel setup arrivals (new_session setup synced graph)).0.updates)
  consume-IsChain synced graph arrivals =
      let (i, a) =
        consume-InStep synced arrivals (new_session setup synced graph)
          (record { chained = tt; at_last = refl }) refl in
      (
        i.chained,
        λ e run.
            subst (Acked (consume code fuel setup arrivals (new_session setup synced graph)).0) run
              a,
      )
