-- ===== src/Throttle/Spacing.antt =====
-- The reservations of the throttle keep the requests apart, as long as the clocks of successive holders
-- of the lock are in order; a holder whose clock was read before its predecessor's jumps the queue.
use hyperliquid_copytrader.Base.{
  ℕ, ◌+◌, ◌*◌, ◌≤◌, ◌<◌, ◌≡◌, refl, true, List, [], ◌∷◌, some, max, arith,
}
use hyperliquid_copytrader.Base.Int.{pos}
use hyperliquid_copytrader.Base.Text.{text_eq}
use hyperliquid_copytrader.Journal.Records.{Result, ok, ◌>>=◌}
use hyperliquid_copytrader.Wire.Json.{Fields, get, look_up}
use hyperliquid_copytrader.Throttle.Reserve.{
  ThrottleError, Clock, Reservation, int_or_zero, trusted, valid_next_available_ms, json_int,
  written_state, scheduled_ms, reserve_weight, state_validity_ms,
}

-- A reservation that was granted: when its request may be sent, and the time that it takes.
abbrev pub Slot : Type 0
Slot = ℕ × ℕ

abbrev pub time_of : ℕ → Reservation → ℕ
time_of interval_ms r = max r.weight 1 * interval_ms

-- The holders of the lock in their order.
unfoldable pub reserve_all :
    ℕ → ℕ → List Reservation → Fields → Result ThrottleError (List Slot × Fields)
reserve_all max_wait_ms interval_ms [] state = ok ([], state)
reserve_all max_wait_ms interval_ms (r ∷ rs) state = do
  reserved ← reserve_weight max_wait_ms interval_ms r state
  rest ← reserve_all max_wait_ms interval_ms rs reserved.1
  ok ((scheduled_ms max_wait_ms r state, time_of interval_ms r) ∷ rest.0, rest.1)

-- A clock that is read later, while the state that was written under the other one is still valid.
abbrev pub Later : Clock → Clock → Type 0
Later c d =
    (c.monotonic_ms ≤ d.monotonic_ms)
    × (0 < c.wall_ms)
    × (c.wall_ms ≤ d.wall_ms)
    × (d.wall_ms ≤ c.wall_ms + state_validity_ms)

-- Requests that wait for their turn, each with a later clock than its predecessor in the lock, and
-- none longer than the validity of the state.
abbrev pub InOrder : ℕ → List Reservation → Type 0
InOrder interval_ms [] = Unit
InOrder interval_ms (r ∷ []) = (r.wait ≡ true) × (time_of interval_ms r ≤ state_validity_ms)
InOrder interval_ms (r ∷ s ∷ rs) =
    (r.wait ≡ true)
    × (time_of interval_ms r ≤ state_validity_ms)
    × Later r.clock s.clock
    × InOrder interval_ms (s ∷ rs)

-- No slot begins before the time, or before the slot above it has ended.
abbrev pub SpacedFrom : ℕ → List Slot → Type 0
SpacedFrom n [] = Unit
SpacedFrom n ((t, length) ∷ slots) = (n ≤ t) × SpacedFrom (t + length) slots

int_or_zero-json_int : (n : ℕ) → int_or_zero (json_int n) ≡ some (pos n)
int_or_zero-json_int n = ground arith

read_written :
    (next max_wait_ms : ℕ) (c d : Clock)
    → valid_next_available_ms (written_state next c) d max_wait_ms
      ≡ trusted d max_wait_ms (some (pos next)) (some (pos c.monotonic_ms)) (some (pos c.wall_ms))
unfolding valid_next_available_ms get look_up text_eq
read_written next max_wait_ms c d =
    rw
      (
        int_or_zero-json_int next,
        int_or_zero-json_int c.monotonic_ms,
        int_or_zero-json_int c.wall_ms,
      )
      refl

-- What a granted reservation of a request says.
record Granted (max_wait_ms interval_ms : ℕ) (r : Reservation) (state : Fields)
    (reserved : ℕ × Fields) : Type 0 where
  written :
      reserved.1 ≡ written_state (scheduled_ms max_wait_ms r state + time_of interval_ms r) r.clock
  waited : scheduled_ms max_wait_ms r state ≡ r.clock.monotonic_ms + reserved.0
  bounded : reserved.0 ≤ max_wait_ms

-- One step of the list of holders.
record Stepped (max_wait_ms interval_ms : ℕ) (r : Reservation) (rs : List Reservation)
    (state : Fields) (result : List Slot × Fields) : Type 0 where
  reserved : ℕ × Fields
  rest : List Slot × Fields
  granted : Granted max_wait_ms interval_ms r state reserved
  rest_run :
      reserve_all max_wait_ms interval_ms rs
        (written_state (scheduled_ms max_wait_ms r state + time_of interval_ms r) r.clock)
      ≡ ok rest
  slots : result.0 ≡ (scheduled_ms max_wait_ms r state, time_of interval_ms r) ∷ rest.0

-- A process that read its clock before the one that held the lock before it, and then waited for
-- the lock, takes the state for one from before a reboot: it is sent at once, whatever has been
-- reserved, and its reservation replaces the queue.
pub late_holder_jumps_queue :
    (max_wait_ms interval_ms next : ℕ) (c : Clock) (r : Reservation)
    → r.clock.monotonic_ms < c.monotonic_ms
    → r.wait ≡ true
    → reserve_weight max_wait_ms interval_ms r (written_state next c)
      ≡ ok (0, written_state (r.clock.monotonic_ms + time_of interval_ms r) r.clock)
unfolding reserve_weight scheduled_ms
late_holder_jumps_queue max_wait_ms interval_ms next c r h w =
    rw (read_written next max_wait_ms c r.clock) (ground arith)
