-- ===== src/Server/Options.antt =====
-- server/server.go: how long a silent subscriber is kept: the option `WithDeadPeerTimeout`, and `tune`.
use treevial.Prelude.{
  false, ℕ, ◌+◌, ◌*◌, ◌≤◌, ◌<◌, ◌≢◌, Result, ok, err, ◌==◌, if◌then◌else◌, ◌≡◌, inl, inr, refl,
  Bool-cases, ==_iff, sym, arith, subst, subst₂,
}
use treevial.Prelude.Int.{ℤ, pos, negsuc}
use treevial.Keepalive.{
  second, default_period, max_user_timeout, Settings, TimeoutFault, validate, settings_for,
}
use treevial.Keepalive.Laws.{IsSchedule, settings_for_lem}

-- A duration that has been accepted, and so is not negative.
abbrev pub accepted : ℤ → Result TimeoutFault (Unit {0}) → Result TimeoutFault ℕ
accepted (pos d) (ok _) = ok d
accepted (negsuc d) (ok _) = ok 0
accepted d (err e) = err e

-- Zero is an option that is not set.
unfoldable pub with_dead_peer_timeout : ℤ → Result TimeoutFault ℕ
with_dead_peer_timeout (negsuc d) = accepted (negsuc d) (validate (negsuc d))
with_dead_peer_timeout (pos d) = if d == 0 then ok 0 else accepted (pos d) (validate (pos d))

-- What the socket of a connection is told: a period for its probes, or a whole schedule.
pub data Tuning : Type 0 where
  plain : ℕ → Tuning
  bounded : Settings → Tuning

unfoldable pub tune : ℕ → Tuning
tune dead_peer = if dead_peer == 0 then plain default_period else bounded (settings_for dead_peer)

-- The tuning of a server whose option was given this budget, in nanoseconds: none for a negative one.
abbrev pub IsTuned : ℤ → Tuning → Type 0
IsTuned (negsuc d) t = ⊥
IsTuned (pos d) (plain period) = (d ≡ 0) × (period ≡ 30 * second)
IsTuned (pos d) (bounded s) =
    (d ≢ 0)
    × IsSchedule s
    × (s.user_timeout ≤ max_user_timeout)
    × (s.user_timeout < d + 5 * second)
    × (d < s.user_timeout + 8)

accepted-validate :
    (d n : ℕ)
    → (r : Result TimeoutFault (Unit {0})) → accepted (pos d) r ≡ ok n
    → (d ≡ n) × (r ≡ ok tt)
accepted-validate d n (ok _) h = (cc, refl)
accepted-validate d n (err e) h = cc

-- A budget that is accepted is not negative. If it is zero, a connection is tuned with the plain period of
-- thirty seconds; otherwise with a schedule in whole seconds that agrees with the kernel's count of probes,
-- and whose user timeout fits the option of the socket, is less than five seconds above the budget, and
-- less than eight nanoseconds below it.
pub tune-with_dead_peer_timeout :
    (d : ℤ) (n : ℕ) → with_dead_peer_timeout d ≡ ok n → IsTuned d (tune n)
unfolding with_dead_peer_timeout tune
tune-with_dead_peer_timeout (negsuc d) n h = absurd (negative h)
  where
    negative : ¬ (accepted (negsuc d) (validate (negsuc d)) ≡ ok n)
    negative h = unfold validate in cc
tune-with_dead_peer_timeout (pos d) n h = elim (Bool-cases (d == 0)) [
  | inl e ↦
      let unset : n ≡ 0 = ground arith in
      subst₂ (λ k l. IsTuned (pos k) (tune l)) (sym ((==_iff d 0).0 e)) (sym unset) (refl, refl)
  | inr e ↦
      let nonzero : (d == 0) ≡ false → d ≢ 0 = λ f z. ground arith in
      let valid =
        accepted-validate d n (validate (pos d))
          (subst (λ b. (if b then ok 0 else accepted (pos d) (validate (pos d))) ≡ ok n) e h) in
      let schedule = settings_for_lem d valid.1 in
      subst (λ k. IsTuned (pos d) (tune k)) valid.0
        (subst (λ b. IsTuned (pos d) (if b then plain default_period else bounded (settings_for d)))
          (sym e) (nonzero e, schedule.0, schedule.1, schedule.2, schedule.3))
]
