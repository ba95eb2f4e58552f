-- ===== src/Journal/Store/Tables.antt =====
-- The tables `signer_nonce` and `actions` (action_journal.py, `_initialize_schema`) and the SQL
-- statements over them.
use hyperliquid_copytrader.Base.{
  ℕ, ◌+◌, Bool, false, ◌&&◌, ◌||◌, List, [], ◌∷◌, Option, none, some, ◌==◌, if◌then◌else◌, max,
}
use hyperliquid_copytrader.Base.Text.{Text, text_eq}
use hyperliquid_copytrader.Journal.Records.{
  JournalError, Result, ok, err, ActionRecord, unknown_action,
}

-- A row of the table `signer_nonce`.
pub record NonceRow : Type 0 where
  pub follower_account : Text
  pub api_wallet : Text
  pub last_nonce : ℕ
  pub updated_ms : ℕ

pub record Journal : Type 0 where
  pub signer_nonce : List NonceRow
  pub actions : List ActionRecord

abbrev pub empty_journal : Journal
empty_journal = record { signer_nonce = []; actions = [] }

abbrev pub owns_nonce : Text → Text → NonceRow → Bool
owns_nonce follower wallet row =
    text_eq row.follower_account follower && text_eq row.api_wallet wallet

abbrev pub in_lane : Text → Text → ActionRecord → Bool
in_lane follower wallet r = text_eq r.follower_account follower && text_eq r.api_wallet wallet

-- `SELECT last_nonce FROM signer_nonce WHERE ...`
unfoldable pub nonce_of : Text → Text → List NonceRow → Option ℕ
nonce_of follower wallet [] = none
nonce_of follower wallet (row ∷ rows) =
    if owns_nonce follower wallet row then some row.last_nonce else nonce_of follower wallet rows

-- `INSERT ... ON CONFLICT DO UPDATE`
unfoldable pub upsert_nonce : NonceRow → List NonceRow → List NonceRow
upsert_nonce new [] = new ∷ []
upsert_nonce new (row ∷ rows) =
    if owns_nonce new.follower_account new.api_wallet row
    then new ∷ rows
    else row ∷ upsert_nonce new rows

abbrev pub next_nonce : Option ℕ → ℕ → ℕ
next_nonce none candidate = candidate
next_nonce (some last) candidate = max candidate (last + 1)

abbrev pub same_target : Text → Text → Text → Text → ActionRecord → Bool
same_target follower wallet desired market r =
    in_lane follower wallet r && text_eq r.desired_id desired && text_eq r.market market

-- `SELECT COALESCE(MAX(attempt_no), 0) ...`
unfoldable pub last_attempt : Text → Text → Text → Text → List ActionRecord → ℕ
last_attempt follower wallet desired market [] = 0
last_attempt follower wallet desired market (r ∷ rs) =
    let rest = last_attempt follower wallet desired market rs in
    if same_target follower wallet desired market r then max r.attempt_no rest else rest

-- `SELECT * FROM actions WHERE cloid=?`
unfoldable pub find_action : Text → List ActionRecord → Option ActionRecord
find_action cloid [] = none
find_action cloid (r ∷ rs) = if text_eq r.cloid cloid then some r else find_action cloid rs

-- `_require_action_locked`
unfoldable pub require_action : Text → Journal → Result JournalError ActionRecord
require_action cloid j = elim (find_action cloid j.actions) [
  | none ↦ err unknown_action
  | some r ↦ ok r
]

-- The `UNIQUE` constraints of the table `actions` and its primary key.
abbrev pub collides : ActionRecord → ActionRecord → Bool
collides new r =
    text_eq r.cloid new.cloid
    || (in_lane new.follower_account new.api_wallet r
        && (r.nonce == new.nonce
            || (text_eq r.desired_id new.desired_id
                && text_eq r.market new.market
                && r.attempt_no == new.attempt_no)))

unfoldable pub any_collides : ActionRecord → List ActionRecord → Bool
any_collides new [] = false
any_collides new (r ∷ rs) = collides new r || any_collides new rs

abbrev pub is_latest : Option ℕ → ℕ → Bool
is_latest none nonce = false
is_latest (some last) nonce = nonce == last

-- `UPDATE actions SET ... WHERE cloid=?`, with every column of the row that was read.
unfoldable pub replace_action : ActionRecord → List ActionRecord → List ActionRecord
replace_action new [] = []
replace_action new (r ∷ rs) =
    if text_eq r.cloid new.cloid then new ∷ rs else r ∷ replace_action new rs
