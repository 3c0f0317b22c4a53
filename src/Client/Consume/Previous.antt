-- ===== src/Client/Consume/Previous.antt =====
-- What a caller can still read of the state before an update.
use treevial.Prelude.{
  ℕ, Bool, true, false, not, ◌&&◌, none, some, List, [], Bytes, Result, ok, err, Exec, then_run,
  guard, if◌then◌else◌, ◌≡◌, is_empty, sym, ap, number_key, has, Result-cases, ◌∙◌, inl, inr,
}
use treevial.Git.{Hash, TreeEntry}
use treevial.Prelude.Maps.{lookup, keep, lookup-keep, Map}
use treevial.Objects.Walk.Reach.{IsKinded}
use treevial.Packread.{PackCode}
use treevial.Receive.Graph.{Graph, get_blob, get_tree, entries, mark_all, sweep_graph, retain}
use treevial.Receive.Interpret.{interpret}
use treevial.Receive.Interpret.Addressed.{IsAddressed, HasNoCollision, interpret-Grown}
use treevial.Objects.Store.{Fault}
use treevial.Receive.Retain.Live.{IsLive}
use treevial.Receive.Retain.Laws.{NamesTrees, retain_lem, retain_refused}
use treevial.Wire.{ServerMessage}
use treevial.Client.Consume.{
  Push, Session, ConsumeFault, Setup, is_positive, or_unswept, or_uninterpreted, sweep_heads,
  take_pack, acknowledge, deliver, move_on, take_update, undrained,
}

kept_before {ℓ} :
    {A : Type ℓ} (live : List Hash) (m : Map Hash A) (h : Hash) {a : A}
    → lookup h (keep live m) ≡ some a
    → lookup h m ≡ some a
kept_before live m h {a = a} e = at (has live h) (sym (lookup-keep live h m) ∙ e)
  where
    at : (b : Bool) → (if b then lookup h m else none) ≡ some a → lookup h m ≡ some a
    at true e = e
    at false e = cc

-- What a sweep leaves stands under its hash.
retain-IsAddressed :
    (code : PackCode) (fuel : ℕ) (roots : List Hash) (g : Graph)
    → IsAddressed code g
    → IsAddressed code (retain fuel roots g).0
unfolding retain
retain-IsAddressed code fuel roots g a = at (mark_all g fuel roots [])
  where
    at : (r : Result Fault (List Hash)) → IsAddressed code (sweep_graph g r).0
    at (err e) = a
    at (ok live) = record {
      blobs = λ h c e. a.blobs h c (kept_before live g.blobs h e);
      trees = λ h es e. a.trees h es (kept_before live g.trees h e);
    }

module _ (code : PackCode) (unique : HasNoCollision code) (fuel : ℕ) (setup : Setup) (s : Session)
    (addressed : IsAddressed code s.graph) (kind : Hash → Bool)
    (kinded : IsKinded (entries s.graph) kind)
    (names : NamesTrees s.graph kind kinded s.heads) where
  -- An object that a kept head reaches.
  abbrev pub IsHeld : Hash → Type 0
  IsHeld = IsLive s.graph kind s.heads

  -- The graph has an object still, as it was.
  pub record StillHas (g : Graph) (x : Hash) : Type 0 where
    pub blob : (c : Bytes) → get_blob s.graph x ≡ some c → get_blob g x ≡ some c
    pub tree : (es : List TreeEntry) → get_tree s.graph x ≡ some es → get_tree g x ≡ some es

  abbrev pub Stands : Graph → Type 0
  Stands g = IsAddressed code g × ((x : Hash) → IsHeld x → StillHas g x)

  retain-Stands : Stands (retain fuel s.heads s.graph).0
  retain-Stands = (
    retain-IsAddressed code fuel s.heads s.graph addressed,
    elim (Result-cases (retain fuel s.heads s.graph).1) [
      | inl (n, run) ↦ λ x p.
          let k = (retain_lem s.graph kind kinded s.heads names fuel n run).0 x p in
          record { blob = λ c e. k.same_blob ∙ e; tree = λ es e. k.same_tree ∙ e }
      | inr (e, run) ↦ λ x p.
          let same = retain_refused s.graph fuel s.heads e run in
          record {
            blob = λ c f. ap (λ g. get_blob g x) same ∙ f;
            tree = λ es f. ap (λ g. get_tree g x) same ∙ f;
          }
    ],
  )

  abbrev graph_of {ℓ} : {A : Type ℓ} → Session × Result ConsumeFault A → Graph
  graph_of r = r.0.graph

  sweep_heads-Stands : Stands (graph_of (sweep_heads code fuel setup s))
  sweep_heads-Stands = at (setup.sweeping && not (is_empty s.heads))
    where
      at :
          (b : Bool)
          → Stands (
              graph_of (
                if b
                then (
                  record s { graph = (retain fuel s.heads s.graph).0 },
                  or_unswept (retain fuel s.heads s.graph).1,
                )
                else (s, ok tt)))
      at true = retain-Stands
      at false = (addressed, λ x p. record { blob = λ c e. e; tree = λ es e. e })

  take_pack-Stands :
      (msg : ServerMessage) (push : Push) (t : Session)
      → Stands t.graph
      → Stands (graph_of (take_pack code fuel setup msg push t))
  take_pack-Stands msg push t h = at (is_positive msg.object_count)
    where
      at :
          (b : Bool)
          → Stands (
              graph_of (
                if b
                then (
                  record t { graph = (interpret code push.pack t.graph).0 },
                  or_uninterpreted (interpret code push.pack t.graph).1,
                )
                else (t, ok tt)))
      at true =
          let (a, grown) = interpret-Grown code unique push.pack t.graph h.0 in
          (
            a,
            λ x p. record {
              blob = λ c e. grown.blobs x c ((h.1 x p).blob c e);
              tree = λ es e. grown.trees x es ((h.1 x p).tree es e);
            },
          )
      at false = h

  then_run-Stands :
      (t : Session) (r : Result ConsumeFault (Unit {0}))
      (rest : Exec Session ConsumeFault (Unit {0}))
      → Stands t.graph
      → (Stands t.graph → Stands (graph_of (rest t)))
      → Stands (graph_of (then_run t r (λ _. rest)))
  then_run-Stands t (err e) rest h go = h
  then_run-Stands t (ok u) rest h go = go h

  reported-Stands :
      (msg : ServerMessage) (push : Push) (t : Session) (acknowledged delivered : Bool)
      → Stands t.graph
      → Stands (
          graph_of (
            then_run
              (acknowledge code fuel setup msg.hash acknowledged t).0
              (acknowledge code fuel setup msg.hash acknowledged t).1
              (λ _ u.
                then_run
                  (deliver code fuel setup msg push delivered u).0
                  (deliver code fuel setup msg push delivered u).1
                  (λ _. move_on code fuel setup msg.hash))))
  reported-Stands msg push t false delivered h = h
  reported-Stands msg push t true false h = h
  reported-Stands msg push t true true h = h

  -- Over a graph whose objects stand under their hashes, where no two objects of a type have the same hash,
  -- `kind` says which hashes are those of trees, and the heads are trees or zero: whatever an update does,
  -- also where it fails midway, the graph has everything that it held below a kept head as it was, and its
  -- objects still stand under their hashes.
  pub take_update-StillHas :
      (msg : ServerMessage) (push : Push)
      → IsAddressed code (take_update code fuel setup msg push s).0.graph
        × ((x : Hash) → IsHeld x → StillHas (take_update code fuel setup msg push s).0.graph x)
  unfolding take_update
  take_update-StillHas msg push =
      let s' = (sweep_heads code fuel setup s).0 in
      let s'' = (take_pack code fuel setup msg push s').0 in
      then_run-Stands s' (sweep_heads code fuel setup s).1 _ sweep_heads-Stands (λ h.
        then_run-Stands s'' (take_pack code fuel setup msg push s').1 _
          (take_pack-Stands msg push s' h)
          (λ h.
            then_run-Stands s'' (guard push.drained undrained) _ h
              (λ h. reported-Stands msg push s'' push.acknowledged push.delivered h)))
