-- ===== src/Tests/Options.antt =====
-- A server that gives up on its subscribers after half a minute.
use treevial.Prelude.{ok, ◌*◌, ◌≡◌, refl}
use treevial.Prelude.Int.{pos}
use treevial.Keepalive.{second, validate}
use treevial.Server.Options.{with_dead_peer_timeout, tune, IsTuned, tune-with_dead_peer_timeout}

half_minute : with_dead_peer_timeout (pos (30 * second)) ≡ ok (30 * second)
unfolding with_dead_peer_timeout validate
half_minute = refl

tune-with_dead_peer_timeout_example : IsTuned (pos (30 * second)) (tune (30 * second))
tune-with_dead_peer_timeout_example =
    tune-with_dead_peer_timeout (pos (30 * second)) (30 * second) half_minute
