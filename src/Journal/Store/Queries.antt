-- ===== src/Journal/Store/Queries.antt =====
-- The methods of `ActionJournal` (action_journal.py) that only read.
use hyperliquid_copytrader.Base.{
  ℕ, ◌+◌, Bool, true, not, ◌&&◌, ◌||◌, List, [], ◌∷◌, Option, none, some, ltb, ◌==◌, if◌then◌else◌,
}
use hyperliquid_copytrader.Base.Text.{Text, text_lt}
use hyperliquid_copytrader.Journal.Records.{
  JournalError, Result, ok, err, ◌>>=◌, ActionRecord, nonempty, identity, validate_cloid,
  recovery_required, half_a_lane,
}
use hyperliquid_copytrader.Journal.Store.Tables.{
  Journal, in_lane, nonce_of, last_attempt, find_action,
}

unfoldable pub last_nonce : Text → Text → Journal → Result JournalError (Option ℕ)
last_nonce follower_account api_wallet j = do
  follower ← identity follower_account
  wallet ← identity api_wallet
  ok (nonce_of follower wallet j.signer_nonce)

unfoldable pub next_attempt_no : Text → Text → Text → Text → Journal → Result JournalError ℕ
next_attempt_no follower_account api_wallet desired_id market j = do
  follower ← identity follower_account
  wallet ← identity api_wallet
  desired ← nonempty desired_id
  canonical_market ← nonempty market
  ok (last_attempt follower wallet desired canonical_market j.actions + 1)

unfoldable pub get_action : Text → Journal → Result JournalError (Option ActionRecord)
get_action cloid j = do
  normalized_cloid ← validate_cloid cloid
  ok (find_action normalized_cloid j.actions)

abbrev pub only_in_lane : Text → Text → Option ActionRecord → Option ActionRecord
only_in_lane follower wallet none = none
only_in_lane follower wallet (some r) = if in_lane follower wallet r then some r else none

unfoldable pub get_owned_action :
    Text → Text → Text → Journal → Result JournalError (Option ActionRecord)
get_owned_action cloid follower_account api_wallet j = do
  normalized_cloid ← validate_cloid cloid
  follower ← identity follower_account
  wallet ← identity api_wallet
  ok (only_in_lane follower wallet (find_action normalized_cloid j.actions))

-- `ORDER BY created_ms, cloid`
abbrev pub created_before : ActionRecord → ActionRecord → Bool
created_before a b =
    ltb a.created_ms b.created_ms || (a.created_ms == b.created_ms && not (text_lt b.cloid a.cloid))

unfoldable pub insert_sorted : ActionRecord → List ActionRecord → List ActionRecord
insert_sorted r [] = r ∷ []
insert_sorted r (s ∷ ss) = if created_before r s then r ∷ s ∷ ss else s ∷ insert_sorted r ss

-- `SELECT * FROM actions WHERE state IN (...) AND follower_account=? AND api_wallet=?` in order.
unfoldable pub select_recovery : (ActionRecord → Bool) → List ActionRecord → List ActionRecord
select_recovery lane [] = []
select_recovery lane (r ∷ rs) =
    let rest = select_recovery lane rs in
    if recovery_required r && lane r then insert_sorted r rest else rest

unfoldable pub recovery_actions :
    Option Text → Option Text → Journal → Result JournalError (List ActionRecord)
recovery_actions none none j = ok (select_recovery (λ r. true) j.actions)
recovery_actions (some follower_account) (some api_wallet) j = do
  follower ← identity follower_account
  wallet ← identity api_wallet
  ok (select_recovery (in_lane follower wallet) j.actions)
recovery_actions _ _ j = err half_a_lane

abbrev insert_time : ℕ → List ℕ → List ℕ
insert_time t [] = t ∷ []
insert_time t (u ∷ us) = if ltb u t then u ∷ insert_time t us else t ∷ u ∷ us

abbrev send_time_after : ℕ → Option ℕ → Option ℕ
send_time_after after none = none
send_time_after after (some t) = if ltb after t then some t else none

abbrev add_send_time : Option ℕ → List ℕ → List ℕ
add_send_time none ts = ts
add_send_time (some t) ts = insert_time t ts

unfoldable pub select_send_times : Text → Text → ℕ → List ActionRecord → List ℕ
select_send_times follower wallet after [] = []
select_send_times follower wallet after (r ∷ rs) =
    add_send_time
      (if in_lane follower wallet r then send_time_after after r.send_attempted_ms else none)
      (select_send_times follower wallet after rs)

unfoldable pub recent_send_attempts : Text → Text → ℕ → Journal → Result JournalError (List ℕ)
recent_send_attempts follower_account api_wallet after_ms j = do
  follower ← identity follower_account
  wallet ← identity api_wallet
  ok (select_send_times follower wallet after_ms j.actions)
