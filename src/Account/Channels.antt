-- ===== src/Account/Channels.antt =====
-- The channels of collateral and of positions, from the frame on.
use hyperliquid_copytrader.Base.{ℕ, ◌+◌, ◌≤◌, ◌&&◌, [], Option, some, ◌≡◌, refl, subst}
use hyperliquid_copytrader.Base.Int.{ℤ}
use hyperliquid_copytrader.Base.Text.{Text, codes}
use hyperliquid_copytrader.Journal.Records.{ok, >>=-returns, ok_injective}
use hyperliquid_copytrader.Wire.Json as Wire
use hyperliquid_copytrader.Wire.Json.{Json, get}
use hyperliquid_copytrader.Account.Records.{
  UsdcCollateral, positions, collateral, time_of, bad_data, missing_total,
}
use hyperliquid_copytrader.Account.Rows.{parse_decimal, present}
use hyperliquid_copytrader.Account.Stream.{
  Stream, MutableAccount, Role, of_source, of_follower, is_standard,
}
use hyperliquid_copytrader.Account.Fills.{
  fields_of, role_for_data, account_for, set_account, or_else,
}
use hyperliquid_copytrader.Account.Effects.{other_role}
use hyperliquid_copytrader.Account.Spot.{
  ChannelUpdate, SpotFrame, read_spot, reduce_spot, apply_spot, replace_collateral, collateral_of,
  consistent, hold_of, observed_at,
}
use hyperliquid_copytrader.Account.States.{parse_all_dexs}
use hyperliquid_copytrader.Account.Snapshots.{
  apply_positions, replace_positions, read_states, sort_dexes, is_source,
}
use hyperliquid_copytrader.Account.Forward.{
  known_at, replace_positions-forward, replace_collateral-forward, consistent-sums,
}

-- An account of the stream was replaced, and nothing else.
pub record Replaced (role : Role) (a : MutableAccount) (s t : Stream) : Type 0 where
  pub mine : account_for role t ≡ a
  pub other : account_for (other_role role) t ≡ account_for (other_role role) s
  pub memory : t.fill_fingerprints ≡ s.fill_fingerprints
  pub capacity : t.fill_dedupe_capacity ≡ s.fill_dedupe_capacity

pub set_account-Replaced :
    (role : Role) (a : MutableAccount) (s : Stream) → Replaced role a s (set_account role a s)
set_account-Replaced of_source a s = record {
  mine = refl;
  other = refl;
  memory = refl;
  capacity = refl;
}
set_account-Replaced of_follower a s = record {
  mine = refl;
  other = refl;
  memory = refl;
  capacity = refl;
}

-- The account of `role` got a collateral, and nothing else changed.
pub record Funded (role : Role) (s t : Stream) : Type 0 where
  pub c : UsdcCollateral
  pub b : MutableAccount
  pub replaced : Replaced role b s t
  pub funds : b.collateral ≡ some c
  pub sums : c.hold + c.available ≡ c.total
  pub forward :
      or_else (time_of collateral (account_for role s).component_observed_ms) 0 ≤ c.observed_ms

module _ (shown : Json → Text) (int_text : Text → Option ℤ) where
  reduce_spot-Funded :
      (received_ms : ℕ) (f : SpotFrame) (s t : Stream) (update : ChannelUpdate)
      → reduce_spot shown int_text received_ms f s ≡ ok (t, update)
      → Funded f.role s t
  unfolding reduce_spot
  reduce_spot-Funded received_ms f s t update h =
      let (raw, _, h₁) =
        >>=-returns (present missing_total (Wire.look_up (codes "total") f.usdc)) _ h in
      let (total, _, h₂) = >>=-returns (parse_decimal raw) _ h₁ in
      let (hold, _, h₃) = >>=-returns (hold_of (Wire.look_up (codes "hold") f.usdc)) _ h₂ in
      let (sizes, e, h₄) = >>=-returns (consistent total hold) _ h₃ in
      let (observed_ms, _, h₅) =
        >>=-returns
          (observed_at shown int_text received_ms (Wire.look_up (codes "time") f.payload)
            (Wire.look_up (codes "time") f.outer))
          _ h₄ in
      let state = account_for f.role s in
      let (b, made, h₆) =
        >>=-returns (replace_collateral sizes.0 sizes.1 observed_ms received_ms state) _ h₅ in
      let (now, not_back, _) =
        replace_collateral-forward sizes.0 sizes.1 observed_ms received_ms state b made in
      let both = ok_injective _ (t, update) h₆ in
      record {
        c = collateral_of sizes.0 sizes.1 observed_ms received_ms;
        b = b;
        replaced =
            subst (λ u. Replaced f.role b s u) (λ i. (both i).0) (set_account-Replaced f.role b s);
        funds = now;
        sums = consistent-sums total hold sizes e;
        forward = not_back;
      }

  -- An accepted `spotState` frame gives its account a collateral whose hold and available part make up its
  -- total, and which is not older than the one it had; the other account and the memory of fills stay.
  pub apply_spot-Funded :
      (received_ms : ℕ) (payload : Json) (f : SpotFrame) (s t : Stream) (update : ChannelUpdate)
      → read_spot shown int_text payload s ≡ ok f
      → apply_spot shown int_text received_ms payload s ≡ ok (t, update)
      → Funded f.role s t
  unfolding apply_spot
  apply_spot-Funded received_ms payload f s t update read h =
      reduce_spot-Funded received_ms f s t update (rw read at h)

  -- An accepted frame of positions takes no DEX of its account back in exchange time and marks the
  -- positions as received; the other account and the memory of fills stay.
  pub apply_positions-forward :
      (one received_ms : ℕ) (payload : Json) (s t : Stream) (update : ChannelUpdate)
      → apply_positions one shown int_text received_ms payload s ≡ ok (t, update)
      → (b : MutableAccount) × Replaced update.role b s t
        × ((dex : Text)
            → known_at dex (account_for update.role s).position_observed_ms_by_dex
              ≤ known_at dex b.position_observed_ms_by_dex)
        × (time_of positions b.component_received_ms ≡ some received_ms)
  unfolding apply_positions
  apply_positions-forward one received_ms payload s t update h =
      let (fs, _, h₁) = >>=-returns (fields_of bad_data payload) _ h in
      let (who, _, h₂) = >>=-returns (role_for_data shown int_text fs s) _ h₁ in
      let (states, _, h₃) = >>=-returns (parse_all_dexs shown int_text who.0 fs) _ h₂ in
      let (read, _, h₄) =
        >>=-returns (read_states one shown int_text [] (sort_dexes states)) _ h₃ in
      let state = account_for who.1 s in
      let standard = is_source who.1 && is_standard s.source_account_mode in
      let (b, made, h₅) =
        >>=-returns (replace_positions standard received_ms s.source_dexes read.0 read.1 state) _
          h₄ in
      let (forward, _, marked) =
        replace_positions-forward standard received_ms s.source_dexes read.0 read.1 state b made in
      let both = ok_injective _ _ h₅ in
      let role : who.1 ≡ update.role = λ i. (both i).1.role in
      subst
        (λ r.
          (b' : MutableAccount) × Replaced r b' s t
          × ((dex : Text)
              → known_at dex (account_for r s).position_observed_ms_by_dex
                ≤ known_at dex b'.position_observed_ms_by_dex)
          × (time_of positions b'.component_received_ms ≡ some received_ms))
        role
        (
          b,
          subst (λ u. Replaced who.1 b s u) (λ i. (both i).0) (set_account-Replaced who.1 b s),
          forward,
          marked,
        )
