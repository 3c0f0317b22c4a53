-- ===== src/Tests/Keepalive.antt =====
-- Budgets of a dead peer: half a minute, and one that loses a nanosecond.
use treevial.Prelude.{◌+◌, ◌*◌, ◌%◌, ◌≤◌, ◌<◌, ◌≡◌, refl, ok}
use treevial.Prelude.Int.{pos}
use treevial.Keepalive.{second, max_user_timeout, validate, settings_for}
use treevial.Keepalive.Laws.{IsSchedule, settings_for_lem}

half_minute : validate (pos (30 * second)) ≡ ok tt
unfolding validate
half_minute = refl

settings_for_lem_example :
    IsSchedule (settings_for (30 * second))
    × ((settings_for (30 * second)).user_timeout ≤ max_user_timeout)
    × ((settings_for (30 * second)).user_timeout < 30 * second + 5 * second)
    × (30 * second < (settings_for (30 * second)).user_timeout + 8)
    × ((30 * second) % 8 ≡ 0 → 30 * second ≤ (settings_for (30 * second)).user_timeout)
settings_for_lem_example = settings_for_lem (30 * second) half_minute

-- Eight seconds and a nanosecond are given up after eight seconds.
sooner_than_asked : (settings_for (8 * second + 1)).user_timeout ≡ 8 * second
unfolding settings_for
sooner_than_asked = refl
