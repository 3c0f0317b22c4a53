-- ===== src/Keepalive.antt =====
-- internal/tcpkeep/tcpkeep.go: how long a peer may be silent, as settings of a socket. Durations are
-- nanoseconds.
pub mod Laws
use treevial.Prelude.{
  ℕ, ◌+◌, ◌-◌, ◌*◌, ◌/◌, ◌%◌, ◌^◌, max, Bool, true, false, not, Result, ok, err, ◌==◌, leb, ltb,
  if◌then◌else◌,
}
use treevial.Prelude.Int.{ℤ, pos, negsuc}

abbrev pub second : ℕ
second = 1000000000

abbrev pub millisecond : ℕ
millisecond = 1000000

abbrev pub probes : ℕ
probes = 4

abbrev pub default_period : ℕ
default_period = 30 * second

abbrev pub min_timeout : ℕ
min_timeout = probes * 2 * second

-- `math.MaxInt32` milliseconds.
abbrev pub max_user_timeout : ℕ
max_user_timeout = (2 ^ 31 - 1) * millisecond

abbrev pub max_timeout : ℕ
max_timeout = max_user_timeout - (probes + 1) * second

-- `net.KeepAliveConfig`
pub record KeepAliveConfig : Type 0 where
  pub enable : Bool
  pub idle : ℕ
  pub interval : ℕ
  pub count : ℕ

pub record Settings : Type 0 where
  pub keep_alive : KeepAliveConfig
  pub user_timeout : ℕ

pub data TimeoutFault : Type 0 where
  below_minimum above_maximum : TimeoutFault

unfoldable pub validate : ℤ → Result TimeoutFault (Unit {0})
validate (negsuc d) = err below_minimum
validate (pos d) =
    if ltb d min_timeout
    then err below_minimum
    else if ltb max_timeout d
    then err above_maximum
    else ok tt

unfoldable pub round_up_seconds : ℕ → ℕ
round_up_seconds d =
    if leb d second then second else if not (d % second == 0) then d + (second - d % second) else d

-- `For`
unfoldable pub settings_for : ℕ → Settings
unfolding round_up_seconds
settings_for d =
    let idle = round_up_seconds (d / 2) in
    let interval = max (round_up_seconds (d / (probes * 2))) second in
    record {
      keep_alive = record { enable = true; idle = idle; interval = interval; count = probes };
      user_timeout = idle + probes * interval;
    }
