-- ===== src/Client/Consume/Window.antt =====
-- The heads that a sweeping client keeps.
use treevial.Prelude.{
  ℕ, zero, suc, ◌+◌, ◌-◌, ◌≤◌, ◌<◌, ltb, Bool, true, false, not, ◌&&◌, List, [], ◌∷◌, ◌++◌, length,
  drop, Result, ok, err, Exec, then_run, if◌then◌else◌, ◌≡◌, refl, sym, ap, ◌∙◌, arith, Bool-cases,
  inl, inr,
}
use treevial.Git.{Hash, is_zero}
use treevial.Packread.{PackCode}
use treevial.Receive.Graph.{Graph}
use treevial.Wire.{ServerMessage, ServerMessageType, update, announce}
use treevial.Client.Consume.{
  Push, Arrival, message, end_of_file, unreadable, Update, Session, ConsumeFault, Setup, Ending,
  new_session, last_is, report, shorten, next_heads, take_update, take_message, consume,
}
use treevial.Client.Consume.Turn.{Turn, take_update-Turn}

-- The states of a subscription: one that repeats the state before it is no new one.
abbrev pub with_state : Hash → List Hash → List Hash
with_state h states = if last_is states h then states else states ++ h ∷ []

abbrev pub states_after : List Hash → List Update → List Hash
states_after states [] = states
states_after states (u ∷ us) = states_after (with_state u.hash states) us

-- The state that the client starts with, if it holds any.
abbrev pub first_states : Hash → List Hash
first_states synced = if not (is_zero synced) then synced ∷ [] else []

-- The last n of a list.
abbrev pub latest {ℓ} : {A : Type ℓ} → ℕ → List A → List A
latest n xs = drop (length xs - n) xs

states_after-append :
    (states : List Hash) (us : List Update) (u : Update)
    → states_after states (us ++ u ∷ []) ≡ with_state u.hash (states_after states us)
states_after-append states [] u = refl
states_after-append states (v ∷ us) u = states_after-append (with_state v.hash states) us u

length-snoc {ℓ} : {A : Type ℓ} (xs : List A) (x : A) → length (xs ++ x ∷ []) ≡ suc (length xs)
length-snoc [] x = refl
length-snoc (y ∷ xs) x = ap suc (length-snoc xs x)

length-drop {ℓ} : {A : Type ℓ} (k : ℕ) (xs : List A) → length (drop k xs) ≡ length xs - k
length-drop zero xs = omega arith
length-drop (suc k) [] = omega arith
length-drop (suc k) (x ∷ xs) = length-drop k xs ∙ omega arith

drop_nil {ℓ} : {A : Type ℓ} (j : ℕ) → drop {A = A} j [] ≡ []
drop_nil zero = refl
drop_nil (suc j) = refl

drop-drop {ℓ} : {A : Type ℓ} (j k : ℕ) (xs : List A) → drop j (drop k xs) ≡ drop (k + j) xs
drop-drop j zero xs = let e : j ≡ zero + j = omega arith in ap (λ i. drop i xs) e
drop-drop j (suc k) [] = drop_nil j ∙ sym (drop_nil (suc k + j))
drop-drop j (suc k) (x ∷ xs) =
    let e : suc (k + j) ≡ suc k + j = omega arith in drop-drop j k xs ∙ ap (λ i. drop i (x ∷ xs)) e

drop-snoc {ℓ} :
    {A : Type ℓ} (k : ℕ) (xs : List A) (x : A)
    → k ≤ length xs
    → drop k xs ++ x ∷ [] ≡ drop k (xs ++ x ∷ [])
drop-snoc zero xs x h = refl
drop-snoc (suc k) [] x h = absurd (omega (arith, h))
drop-snoc (suc k) (y ∷ xs) x h = drop-snoc k xs x (omega (arith, h))

last_is-drop :
    (k : ℕ) (xs : List Hash) (h : Hash) → k < length xs → last_is (drop k xs) h ≡ last_is xs h
last_is-drop zero [] h l = refl
last_is-drop (suc k) [] h l = absurd (omega (arith, l))
last_is-drop zero (x ∷ xs) h l = refl
last_is-drop (suc k) (x ∷ []) h l = absurd (omega (arith, l))
last_is-drop (suc k) (x ∷ y ∷ xs) h l = last_is-drop k (y ∷ xs) h (omega (arith, l))

last_is-latest :
    (n : ℕ) (xs : List Hash) (h : Hash) → 1 ≤ n → last_is (latest n xs) h ≡ last_is xs h
last_is-latest n [] h p = ap (λ l. last_is l h) (drop_nil (length {A = Hash} [] - n))
last_is-latest n (x ∷ xs) h p = last_is-drop (length (x ∷ xs) - n) (x ∷ xs) h (omega (arith, p))

module _ (code : PackCode) (fuel : ℕ) (setup : Setup) where
  shorten-latest :
      (xs : List Hash) (h : Hash)
      → shorten code fuel setup (latest setup.history xs ++ h ∷ [])
        ≡ latest setup.history (xs ++ h ∷ [])
  shorten-latest xs h =
      ap (shorten code fuel setup) (drop-snoc (length xs - setup.history) xs h (omega arith))
      ∙ at (length xs - setup.history) refl
    where
      at :
          (k : ℕ)
          → k ≡ length xs - setup.history
          → shorten code fuel setup (drop k (xs ++ h ∷ [])) ≡ latest setup.history (xs ++ h ∷ [])
      at k e = elim (Bool-cases (ltb setup.history (length (drop k (xs ++ h ∷ []))))) [
        | inl t ↦ rw t (
            drop-drop (length (drop k (xs ++ h ∷ [])) - setup.history) k (xs ++ h ∷ [])
            ∙ ap (λ i. drop i (xs ++ h ∷ []))
                (ground (arith, t, e, length-drop k (xs ++ h ∷ []), length-snoc xs h)))
        | inr f ↦ rw f (
            ap (λ i. drop i (xs ++ h ∷ []))
              (ground (arith, f, e, length-drop k (xs ++ h ∷ []), length-snoc xs h)))
      ]

  next_heads-latest :
      (h : Hash) (xs : List Hash)
      → setup.sweeping ≡ true
      → 1 ≤ setup.history
      → next_heads code fuel setup h (latest setup.history xs)
        ≡ latest setup.history (with_state h xs)
  next_heads-latest h xs sweeping p =
      ap
        (λ b.
          if b && not (last_is (latest setup.history xs) h)
          then shorten code fuel setup (latest setup.history xs ++ h ∷ [])
          else latest setup.history xs)
        sweeping
      ∙ ap
          (λ b.
            if not b
            then shorten code fuel setup (latest setup.history xs ++ h ∷ [])
            else latest setup.history xs)
          (last_is-latest setup.history xs h p)
      ∙ at (last_is xs h)
    where
      at :
          (b : Bool)
          → (if not b
              then shorten code fuel setup (latest setup.history xs ++ h ∷ [])
              else latest setup.history xs)
            ≡ latest setup.history (if b then xs else xs ++ h ∷ [])
      at true = refl
      at false = shorten-latest xs h

  module _ (sweeping : setup.sweeping ≡ true) (some_kept : 1 ≤ setup.history) (synced : Hash) where
    abbrev pub HasWindow : Session → Type 0
    HasWindow s = s.heads ≡ latest setup.history (states_after (first_states synced) s.updates)

    turned :
        (msg : ServerMessage) (push : Push) (s : Session)
        (t : Session × Result ConsumeFault (Unit {0})) (rest : Exec Session ConsumeFault Ending)
        → HasWindow s
        → Turn code fuel setup msg push s t
        → ((s' : Session) → HasWindow s' → HasWindow (rest s').0)
        → HasWindow (then_run t.0 t.1 (λ _. rest)).0
    turned msg push s (s', err e) rest w t go =
        t.heads
        ∙ w
        ∙ ap (λ us. latest setup.history (states_after (first_states synced) us)) (sym t.updates)
    turned msg push s (s', ok u) rest w t go = go s' (
        t.heads
        ∙ ap (next_heads code fuel setup msg.hash) w
        ∙ next_heads-latest msg.hash (states_after (first_states synced) s.updates) sweeping
            some_kept
        ∙ ap (latest setup.history) (
            sym (
              states_after-append (first_states synced) s.updates
                (report code fuel setup msg push s)))
        ∙ ap (λ us. latest setup.history (states_after (first_states synced) us)) (sym t.updates))

    consume-HasWindow :
        (arrivals : List Arrival) (s : Session)
        → HasWindow s
        → HasWindow (consume code fuel setup arrivals s).0
    unfolding consume
    consume-HasWindow [] s w = w
    consume-HasWindow (end_of_file ∷ rest) s w = w
    consume-HasWindow (unreadable e ∷ rest) s w = w
    consume-HasWindow (message msg push ∷ rest) s w = at msg.type (consume-HasWindow rest)
      where
        at :
            (t : ServerMessageType)
            → ((s' : Session) → HasWindow s' → HasWindow (consume code fuel setup rest s').0)
            → HasWindow
                (then_run
                  (take_message code fuel setup t msg push s).0
                  (take_message code fuel setup t msg push s).1
                  (λ _. consume code fuel setup rest)).0
        at announce go = go (record s { server_id = msg.server_id }) w
        at update go =
            turned msg push s (take_update code fuel setup msg push s)
              (consume code fuel setup rest) w (take_update-Turn code fuel setup msg push s) go

    -- Whatever arrives, and however the subscription ends: a client that sweeps, with a history of at least
    -- one state, keeps the heads that are the latest of the states that it was at, as many as its history
    -- has, where the tree it started with counts if it held one, and a state that repeats the one before
    -- does not.
    pub consume-latest :
        (graph : Graph) (arrivals : List Arrival)
        → (consume code fuel setup arrivals (new_session setup synced graph)).0.heads
          ≡ latest setup.history (
              states_after
                (first_states synced)
                (consume code fuel setup arrivals (new_session setup synced graph)).0.updates)
    consume-latest graph arrivals = consume-HasWindow arrivals (new_session setup synced graph) (
        ap (λ b. if b && not (is_zero synced) then synced ∷ [] else []) sweeping
        ∙ started (is_zero synced))
      where
        started :
            (b : Bool)
            → (if not b then synced ∷ [] else [])
              ≡ latest setup.history (if not b then synced ∷ [] else [])
        started true = sym (drop_nil (length {A = Hash} [] - setup.history))
        started false =
            let e : length (synced ∷ []) - setup.history ≡ 0 = omega (arith, some_kept) in
            sym (ap (λ k. drop k (synced ∷ [])) e)
