-- ===== src/Keepalive/Laws.antt =====
-- What a schedule made from a valid budget is like.
use Prim.Native.Nat.{◌<◌}
use native.Mathlib.Nat.{mul-div_cancel}
use treevial.Prelude.{ℕ, ◌+◌, ◌-◌, ◌*◌, ◌/◌, ◌%◌, ◌≤◌, ◌≡◌, ok, arith, max, ap, ◌∙◌}
use treevial.Prelude.Int.{pos}
use treevial.Keepalive.{
  second, probes, min_timeout, max_timeout, max_user_timeout, Settings, validate, round_up_seconds,
  settings_for,
}

round_up_seconds_lem :
    (d : ℕ)
    → (round_up_seconds d % second ≡ 0)
      × (second ≤ round_up_seconds d)
      × (d ≤ round_up_seconds d)
      × (round_up_seconds d < max d 1 + second)
unfolding round_up_seconds
round_up_seconds_lem d = ground arith

validate_lem : (d : ℕ) → validate (pos d) ≡ ok tt → (min_timeout ≤ d) × (d ≤ max_timeout)
unfolding validate
validate_lem d h = ground arith

-- Whole seconds, of which no part is nothing, and the kernel's own count of probes, the time that is
-- left after the idle time through the interval, is the count that is set.
pub record IsSchedule (s : Settings) : Type 0 where
  pub whole_idle : s.keep_alive.idle % second ≡ 0
  pub whole_interval : s.keep_alive.interval % second ≡ 0
  pub some_idle : second ≤ s.keep_alive.idle
  pub some_interval : second ≤ s.keep_alive.interval
  pub counted : (s.user_timeout - s.keep_alive.idle) / s.keep_alive.interval ≡ s.keep_alive.count

quotient : (i n : ℕ) → second ≤ n → (i + probes * n - i) / n ≡ probes
quotient i n h = ap (λ k. k / n) (omega arith) ∙ mul-div_cancel probes {n = n} (omega arith)

-- A budget that is accepted makes a schedule. The user timeout fits its socket option, and is less
-- than five seconds above the budget. It is less than eight nanoseconds below the budget, and not below
-- one that is a multiple of eight nanoseconds.
pub settings_for_lem :
    (d : ℕ)
    → validate (pos d) ≡ ok tt
    → IsSchedule (settings_for d)
      × ((settings_for d).user_timeout ≤ max_user_timeout)
      × ((settings_for d).user_timeout < d + 5 * second)
      × (d < (settings_for d).user_timeout + 8)
      × (d % 8 ≡ 0 → d ≤ (settings_for d).user_timeout)
unfolding settings_for
settings_for_lem d h =
    let valid = validate_lem d h in
    let i = round_up_seconds_lem (d / 2) in
    let n = round_up_seconds_lem (d / 8) in
    (
      record {
        whole_idle = i.0;
        whole_interval = ground (arith, n.0);
        some_idle = i.1;
        some_interval = omega (arith, n.1);
        counted = quotient (round_up_seconds (d / 2)) _ (omega (arith, n.1));
      },
      omega (arith, valid, i, n),
      omega (arith, valid, i, n),
      omega (arith, valid, i, n),
      λ e. omega (arith, valid, i, n),
    )
