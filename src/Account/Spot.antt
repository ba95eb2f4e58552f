-- ===== src/Account/Spot.antt =====
-- `_apply_spot` of `AccountStream` (account_stream.py): the collateral.
use hyperliquid_copytrader.Base.{
  ℕ, ◌-◌, Bool, not, List, [], ◌∷◌, ◌++◌, Option, none, some, leb, ◌==◌, if◌then◌else◌,
}
use hyperliquid_copytrader.Base.Int.{ℤ, pos, negsuc}
use hyperliquid_copytrader.Base.Text.{Text, codes, text_eq, strip}
use hyperliquid_copytrader.Journal.Records.{Result, ok, err, ◌>>=◌, ◌>>◌, require}
use hyperliquid_copytrader.Wire.Json as Wire
use hyperliquid_copytrader.Wire.Json.{
  Json, null, bool, number, string, array, object, Items, nil, cons, Fields, get,
}
use hyperliquid_copytrader.Markets.Identity.{upper}
use hyperliquid_copytrader.Account.Records.{
  AccountStreamError, UsdcCollateral, collateral, time_of, set_time, bad_data, bad_balances,
  bad_row, not_one_usdc, not_usdc, missing_total, bad_collateral, collateral_backwards,
}
use hyperliquid_copytrader.Account.Rows.{
  parse_decimal, positive_int, text_of, text_or_empty, present,
}
use hyperliquid_copytrader.Account.Stream.{Stream, MutableAccount, Role, is_known}
use hyperliquid_copytrader.Account.Fills.{
  fields_of, items_of, role_for_data, account_for, set_account, or_else,
}

-- `AccountStreamUpdate` of a channel without fills, without the channel and `baseline_ready`
pub record ChannelUpdate : Type 0 where
  pub account : Text
  pub role : Role
  pub connection_epoch : ℕ
  pub initial_snapshot : Bool

-- What a `spotState` frame is about.
pub record SpotFrame : Type 0 where
  pub account : Text
  pub role : Role
  pub outer : Fields
  pub payload : Fields
  pub usdc : Fields

-- `data.get("spotState", data)`
abbrev pub spot_payload : Fields → Option Json → Json
spot_payload fs none = object fs
spot_payload fs (some v) = v

abbrev pub only_row : List Fields → Result AccountStreamError Fields
only_row (row ∷ []) = ok row
only_row _ = err not_one_usdc

abbrev token_rows : Fields → Option ℤ → Result AccountStreamError (List Fields)
token_rows row none = err bad_row
token_rows row (some (pos n)) = if n == 0 then ok (row ∷ []) else ok []
token_rows row (some (negsuc n)) = ok []

-- `usdc.get("hold", "0")`
abbrev pub hold_of : Option Json → Result AccountStreamError ℤ
hold_of none = ok (pos 0)
hold_of (some v) = parse_decimal v

-- The total and the hold: neither is negative, and the hold is within the total.
abbrev pub consistent : ℤ → ℤ → Result AccountStreamError (ℕ × ℕ)
consistent (pos total) (pos hold) = do require (leb hold total) bad_collateral; ok (total, hold)
consistent _ _ = err bad_collateral

abbrev pub collateral_of : ℕ → ℕ → ℕ → ℕ → UsdcCollateral
collateral_of total hold observed_ms received_ms = record {
  total = total;
  hold = hold;
  available = total - hold;
  observed_ms = observed_ms;
  received_ms = received_ms;
}

abbrev pub with_collateral : UsdcCollateral → MutableAccount → MutableAccount
with_collateral c a = record a {
  collateral = some c;
  component_received_ms = set_time collateral (some c.received_ms) a.component_received_ms;
  component_observed_ms = set_time collateral (some c.observed_ms) a.component_observed_ms;
}

-- The account with its new collateral, which may not be older than the one it has.
unfoldable pub replace_collateral :
    ℕ → ℕ → ℕ → ℕ → MutableAccount → Result AccountStreamError MutableAccount
replace_collateral total hold observed_ms received_ms a = do
  require (leb (or_else (time_of collateral a.component_observed_ms) 0) observed_ms)
      collateral_backwards
  ok (with_collateral (collateral_of total hold observed_ms received_ms) a)

module _ (shown : Json → Text) (int_text : Text → Option ℤ) where
  abbrev token_row : Fields → Json → Result AccountStreamError (List Fields)
  token_row row null = ok []
  token_row row (bool b) = err bad_row
  token_row row v = token_rows row (int_text (text_of shown int_text v))

  abbrev balance_row : Json → Result AccountStreamError (List Fields)
  balance_row (object row) = token_row row (get (codes "token") row)
  balance_row _ = err bad_row

  -- The rows of token 0.
  abbrev pub token_zero : Items → Result AccountStreamError (List Fields)
  token_zero nil = ok []
  token_zero (cons row rows) = do here ← balance_row row; rest ← token_zero rows; ok (here ++ rest)

  -- `payload.get("time", data.get("time", received_ms))`
  abbrev pub observed_at : ℕ → Option Json → Option Json → Result AccountStreamError ℕ
  observed_at received_ms none none = ok received_ms
  observed_at received_ms none (some v) = positive_int shown int_text v
  observed_at received_ms (some v) outer = positive_int shown int_text v

  -- The first half of `_apply_spot`: its account and the row of USDC.
  unfoldable pub read_spot : Json → Stream → Result AccountStreamError SpotFrame
  read_spot data_value s = do
    fs ← fields_of bad_data data_value
    who ← role_for_data shown int_text fs s
    payload ← fields_of bad_data (spot_payload fs (Wire.look_up (codes "spotState") fs))
    balances ← items_of bad_balances (get (codes "balances") payload)
    rows ← token_zero balances
    usdc ← only_row rows
    require
        (text_eq (upper (strip (text_or_empty shown int_text (get (codes "coin") usdc))))
          (codes "USDC"))
        not_usdc
    ok (record { account = who.0; role = who.1; outer = fs; payload = payload; usdc = usdc })

  -- The rest of it.
  unfoldable pub reduce_spot :
      ℕ → SpotFrame → Stream → Result AccountStreamError (Stream × ChannelUpdate)
  reduce_spot received_ms f s = do
    raw_total ← present missing_total (Wire.look_up (codes "total") f.usdc)
    total ← parse_decimal raw_total
    hold ← hold_of (Wire.look_up (codes "hold") f.usdc)
    sizes ← consistent total hold
    observed_ms ←
        observed_at received_ms (Wire.look_up (codes "time") f.payload)
          (Wire.look_up (codes "time") f.outer)
    a ← replace_collateral sizes.0 sizes.1 observed_ms received_ms (account_for f.role s)
    ok (
      set_account f.role a s,
      record {
        account = f.account;
        role = f.role;
        connection_epoch = s.connection_epoch;
        initial_snapshot =
            not (is_known (time_of collateral (account_for f.role s).component_received_ms));
      },
    )

  -- `_apply_spot`
  unfoldable pub apply_spot : ℕ → Json → Stream → Result AccountStreamError (Stream × ChannelUpdate)
  apply_spot received_ms data_value s = do f ← read_spot data_value s; reduce_spot received_ms f s
