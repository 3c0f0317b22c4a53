-- ===== src/Client/Consume/Turn.antt =====
-- What one turn of the loop does to the session.
use treevial.Prelude.{
  ℕ, Bool, true, false, not, ◌&&◌, [], ◌∷◌, ◌++◌, Result, ok, err, Exec, then_run, guard,
  if◌then◌else◌, ◌≡◌, is_empty, refl, ap, ◌∙◌,
}
use treevial.Packread.{PackCode}
use treevial.Receive.Graph.{retain}
use treevial.Receive.Interpret.{interpret}
use treevial.Wire.{ServerMessage}
use treevial.Client.Consume.{
  Push, Session, ConsumeFault, undrained, Setup, is_positive, or_unswept, or_uninterpreted,
  sweep_heads, take_pack, acknowledge, report, deliver, next_heads, move_on, take_update,
}

-- All but the graph is as before.
pub record IsSame (s s' : Session) : Type 0 where
  pub heads : s'.heads ≡ s.heads
  pub previous : s'.previous ≡ s.previous
  pub server_id : s'.server_id ≡ s.server_id
  pub acks : s'.acks ≡ s.acks
  pub updates : s'.updates ≡ s.updates

-- The session that a step leaves.
abbrev left : Session × Result ConsumeFault (Unit {0}) → Session
left p = p.0

module _ (code : PackCode) (fuel : ℕ) (setup : Setup) where
  -- A turn that reports an update, over the heads that it kept.
  pub record Took (msg : ServerMessage) (push : Push) (s s' : Session) : Type 0 where
    pub heads : s'.heads ≡ next_heads code fuel setup msg.hash s.heads
    pub previous : s'.previous ≡ msg.hash
    pub acks : s'.acks ≡ s.acks ++ msg.hash ∷ []
    pub updates : s'.updates ≡ s.updates ++ report code fuel setup msg push s ∷ []

  -- A turn that fails reports nothing.
  pub record Failed (s s' : Session) : Type 0 where
    pub heads : s'.heads ≡ s.heads
    pub previous : s'.previous ≡ s.previous
    pub updates : s'.updates ≡ s.updates

  abbrev pub Turn :
      ServerMessage → Push → Session → Session × Result ConsumeFault (Unit {0}) → Type 0
  Turn msg push s (s', ok u) = Took msg push s s'
  Turn msg push s (s', err e) = Failed s s'

  sweep_heads-IsSame : (s : Session) → IsSame s (sweep_heads code fuel setup s).0
  sweep_heads-IsSame s = at (setup.sweeping && not (is_empty s.heads))
    where
      at :
          (b : Bool)
          → IsSame s (
              left (
                if b
                then (
                  record s { graph = (retain fuel s.heads s.graph).0 },
                  or_unswept (retain fuel s.heads s.graph).1,
                )
                else (s, ok tt)))
      at true = record {
        heads = refl;
        previous = refl;
        server_id = refl;
        acks = refl;
        updates = refl;
      }
      at false = record {
        heads = refl;
        previous = refl;
        server_id = refl;
        acks = refl;
        updates = refl;
      }

  take_pack-IsSame :
      (msg : ServerMessage) (push : Push) (s : Session)
      → IsSame s (take_pack code fuel setup msg push s).0
  take_pack-IsSame msg push s = at (is_positive msg.object_count)
    where
      at :
          (b : Bool)
          → IsSame s (
              left (
                if b
                then (
                  record s { graph = (interpret code push.pack s.graph).0 },
                  or_uninterpreted (interpret code push.pack s.graph).1,
                )
                else (s, ok tt)))
      at true = record {
        heads = refl;
        previous = refl;
        server_id = refl;
        acks = refl;
        updates = refl;
      }
      at false = record {
        heads = refl;
        previous = refl;
        server_id = refl;
        acks = refl;
        updates = refl;
      }

  IsSame-trans : (s s' s'' : Session) → IsSame s s' → IsSame s' s'' → IsSame s s''
  IsSame-trans s s' s'' a b = record {
    heads = b.heads ∙ a.heads;
    previous = b.previous ∙ a.previous;
    server_id = b.server_id ∙ a.server_id;
    acks = b.acks ∙ a.acks;
    updates = b.updates ∙ a.updates;
  }

  failed : (s s' : Session) → IsSame s s' → Failed s s'
  failed s s' a = record { heads = a.heads; previous = a.previous; updates = a.updates }

  -- From a session that differs in its graph only.
  report-same :
      (msg : ServerMessage) (push : Push) (s s' : Session)
      → IsSame s s'
      → report code fuel setup msg push s' ≡ report code fuel setup msg push s
  report-same msg push s s' a =
      ap (λ i. record (report code fuel setup msg push s') { server_id = i }) a.server_id
      ∙ ap (λ p. record (report code fuel setup msg push s) { previous = p }) a.previous

  deliver-Turn :
      (msg : ServerMessage) (push : Push) (s s' : Session) (acknowledged delivered : Bool)
      → IsSame s s'
      → Turn msg push s (
          then_run
            (acknowledge code fuel setup msg.hash acknowledged s').0
            (acknowledge code fuel setup msg.hash acknowledged s').1
            (λ _ t.
              then_run
                (deliver code fuel setup msg push delivered t).0
                (deliver code fuel setup msg push delivered t).1
                (λ _. move_on code fuel setup msg.hash)))
  deliver-Turn msg push s s' false delivered a = failed s s' a
  deliver-Turn msg push s s' true false a = record {
    heads = a.heads;
    previous = a.previous;
    updates = a.updates;
  }
  deliver-Turn msg push s s' true true a = record {
    heads = ap (next_heads code fuel setup msg.hash) a.heads;
    previous = refl;
    acks = ap (λ l. l ++ msg.hash ∷ []) a.acks;
    updates =
        ap (λ l. l ++ report code fuel setup msg push s' ∷ []) a.updates
        ∙ ap (λ u. s.updates ++ u ∷ []) (report-same msg push s s' a);
  }

  then_run-Turn :
      (msg : ServerMessage) (push : Push) (s s' : Session) (r : Result ConsumeFault (Unit {0}))
      (rest : Exec Session ConsumeFault (Unit {0}))
      → IsSame s s'
      → (IsSame s s' → Turn msg push s (rest s'))
      → Turn msg push s (then_run s' r (λ _. rest))
  then_run-Turn msg push s s' (err e) rest a b = failed s s' a
  then_run-Turn msg push s s' (ok u) rest a b = b a

  pub take_update-Turn :
      (msg : ServerMessage) (push : Push) (s : Session)
      → Turn msg push s (take_update code fuel setup msg push s)
  unfolding take_update
  take_update-Turn msg push s =
      then_run-Turn msg push s (sweep_heads code fuel setup s).0 (sweep_heads code fuel setup s).1 _
        (sweep_heads-IsSame s)
        (λ a.
          let s' = (sweep_heads code fuel setup s).0 in
          let s'' = (take_pack code fuel setup msg push s').0 in
          then_run-Turn msg push s s'' (take_pack code fuel setup msg push s').1 _
            (IsSame-trans s s' s'' a (take_pack-IsSame msg push s'))
            (λ b.
              then_run-Turn msg push s s'' (guard push.drained undrained) _ b
                (λ c. deliver-Turn msg push s s'' push.acknowledged push.delivered c)))
