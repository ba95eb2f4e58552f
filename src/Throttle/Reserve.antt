-- ===== src/Throttle/Reserve.antt =====
-- `_reserve_weight` and `_valid_next_available_ms` (rest_throttle.py). The state file is the object that
-- `_read_state` returns, empty where the file is missing or malformed. A clock is read before the
-- lock is taken, so the clocks of successive holders need not be in order. The interval is a natural
-- number: one that is not positive switches the throttle off. The lock itself is not modelled.
use hyperliquid_copytrader.Base.{
  ℕ, ◌+◌, ◌-◌, ◌*◌, Bool, not, ◌&&◌, ◌||◌, Option, some, max, ltb, ◌==◌, if◌then◌else◌,
}
use hyperliquid_copytrader.Base.Int.{ℤ, pos, negsuc}
use hyperliquid_copytrader.Base.Text.{codes}
use hyperliquid_copytrader.Journal.Records.{Result, ok, ◌>>◌, require, finite}
use hyperliquid_copytrader.Wire.Json.{Json, number, Fields, end, field, get, int_of, truthy}

abbrev pub default_max_wait_ms : ℕ
default_max_wait_ms = 60000

abbrev pub state_validity_ms : ℕ
state_validity_ms = 300000

pub data ThrottleError : Type 0 where
  backlog : ThrottleError

pub record Clock : Type 0 where
  pub monotonic_ms : ℕ
  pub wall_ms : ℕ

-- `int(value or 0)`; none is an exception.
abbrev pub int_or_zero : Json → Option ℤ
int_or_zero v = if truthy v then int_of v else some (pos 0)

-- The three numbers of the state, in the order in which they are read.
abbrev pub trusted : Clock → ℕ → Option ℤ → Option ℤ → Option ℤ → ℕ
trusted now max_wait_ms (some (pos next)) (some (pos updated)) (some (pos wall)) =
    if wall == 0 || ltb now.wall_ms wall || ltb (wall + state_validity_ms) now.wall_ms
    then now.monotonic_ms
    else if ltb now.monotonic_ms updated
    then now.monotonic_ms
    else if ltb (now.monotonic_ms + max_wait_ms + state_validity_ms) next
    then now.monotonic_ms
    else next
trusted now max_wait_ms (some (pos next)) (some (negsuc updated)) (some (pos wall)) =
    if wall == 0 || ltb now.wall_ms wall || ltb (wall + state_validity_ms) now.wall_ms
    then now.monotonic_ms
    else if ltb (now.monotonic_ms + max_wait_ms + state_validity_ms) next
    then now.monotonic_ms
    else next
trusted now max_wait_ms _ _ _ = now.monotonic_ms

-- `_valid_next_available_ms`
unfoldable pub valid_next_available_ms : Fields → Clock → ℕ → ℕ
valid_next_available_ms state now max_wait_ms =
    trusted now max_wait_ms (int_or_zero (get (codes "next_request_monotonic_ms") state))
      (int_or_zero (get (codes "updated_monotonic_ms") state))
      (int_or_zero (get (codes "updated_wall_ms") state))

abbrev pub json_int : ℕ → Json
json_int n = number (record { decimal = finite (pos n); integer = some (pos n) })

-- What `_write_state` leaves to read: the keys that `_valid_next_available_ms` looks up.
abbrev pub written_state : ℕ → Clock → Fields
written_state next_request now = field (codes "next_request_monotonic_ms") (json_int next_request) (
    field (codes "updated_monotonic_ms") (json_int now.monotonic_ms)
      (field (codes "updated_wall_ms") (json_int now.wall_ms) end))

pub record Reservation : Type 0 where
  pub clock : Clock
  pub weight : ℕ
  pub wait : Bool

unfoldable pub scheduled_ms : ℕ → Reservation → Fields → ℕ
scheduled_ms max_wait_ms r state =
    max r.clock.monotonic_ms (valid_next_available_ms state r.clock max_wait_ms)

-- `_reserve_weight`: the time to wait, and the state it writes.
unfoldable pub reserve_weight : ℕ → ℕ → Reservation → Fields → Result ThrottleError (ℕ × Fields)
unfolding scheduled_ms
reserve_weight max_wait_ms interval_ms r state = do
  let scheduled = scheduled_ms max_wait_ms r state
  let wait_ms = scheduled - r.clock.monotonic_ms
  require (not (r.wait && ltb max_wait_ms wait_ms)) backlog
  ok (
    if r.wait then wait_ms else 0,
    written_state (scheduled + max r.weight 1 * interval_ms) r.clock,
  )
