-- ===== src/Journal/States.antt =====
-- `ActionState` and its sets (action_journal.py), and the transitions that
-- `_validate_outcome` allows.
use hyperliquid_copytrader.Base.{ℕ, ◌≡◌, Bool, true, false, arith, ◌==◌}

pub data ActionState : Type 0 where
  prepared send_attempted not_sent unknown rejected : ActionState
  resting partially_filled filled canceled : ActionState

abbrev state_index : ActionState → ℕ
state_index prepared = 0
state_index send_attempted = 1
state_index not_sent = 2
state_index unknown = 3
state_index rejected = 4
state_index resting = 5
state_index partially_filled = 6
state_index filled = 7
state_index canceled = 8

-- `is` and `==` on the members of the enumeration.
abbrev pub state_eq : ActionState → ActionState → Bool
state_eq s t = state_index s == state_index t

-- TERMINAL_STATES
abbrev pub terminal_states : ActionState → Bool
terminal_states not_sent = true
terminal_states rejected = true
terminal_states partially_filled = true
terminal_states filled = true
terminal_states canceled = true
terminal_states _ = false

-- RECOVERY_STATES
abbrev pub recovery_states : ActionState → Bool
recovery_states prepared = true
recovery_states send_attempted = true
recovery_states unknown = true
recovery_states resting = true
recovery_states _ = false

-- AMBIGUOUS_STATES
abbrev pub ambiguous_states : ActionState → Bool
ambiguous_states send_attempted = true
ambiguous_states unknown = true
ambiguous_states _ = false

-- The states that `record_outcome` takes as a target.
abbrev pub venue_outcomes : ActionState → Bool
venue_outcomes unknown = true
venue_outcomes rejected = true
venue_outcomes resting = true
venue_outcomes partially_filled = true
venue_outcomes filled = true
venue_outcomes canceled = true
venue_outcomes _ = false

-- `target in allowed.get(current.state, set())`, with the current state first.
abbrev pub allowed : ActionState → ActionState → Bool
allowed send_attempted target = venue_outcomes target
allowed unknown target = venue_outcomes target
allowed resting unknown = true
allowed resting resting = true
allowed resting partially_filled = true
allowed resting filled = true
allowed resting canceled = true
allowed partially_filled partially_filled = true
allowed partially_filled filled = true
allowed rejected rejected = true
allowed filled filled = true
allowed canceled canceled = true
allowed _ _ = false

pub state_eq-eq : (s t : ActionState) → state_eq s t ≡ true → s ≡ t
state_eq-eq s t h = ground arith
